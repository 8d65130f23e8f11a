-- ===== src/Tables/Consts/Flags.antt =====
-- The flags of mode page items, and the device types of include/sg_lib.h.
use Prim.Native.Nat.{ℕ, ◌+◌, ◌*◌}
use sdparm.Prelude.Int.{ℤ, pos, negsuc}

-- Item flags.
abbrev pub mf_common : ℕ
mf_common = 0x1

abbrev pub mf_hex : ℕ
mf_hex = 0x2

abbrev pub mf_clash_ok : ℕ
mf_clash_ok = 0x4

abbrev pub mf_twos_comp : ℕ
mf_twos_comp = 0x8

abbrev pub mf_all_1s : ℕ
mf_all_1s = 0x10

abbrev pub mf_stop_if_set : ℕ
mf_stop_if_set = 0x40

abbrev pub mf_obsolete : ℕ
mf_obsolete = 0x80

abbrev pub mf_j_use_desc : ℕ
mf_j_use_desc = 0x100

abbrev pub mf_j_nparam_desc : ℕ
mf_j_nparam_desc = 0x200

-- Peripheral device types; a compound one has its second type in the next byte.
abbrev pub pdt_disk : ℤ
pdt_disk = pos 0x0

abbrev pub pdt_tape : ℤ
pdt_tape = pos 0x1

abbrev pub pdt_mmc : ℤ
pdt_mmc = pos 0x5

abbrev pub pdt_mchanger : ℤ
pdt_mchanger = pos 0x8

abbrev pub pdt_sac : ℤ
pdt_sac = pos 0xc

abbrev pub pdt_ses : ℤ
pdt_ses = pos 0xd

abbrev pub pdt_rbc : ℤ
pdt_rbc = pos 0xe

abbrev pub pdt_osd : ℤ
pdt_osd = pos 0x11

abbrev pub pdt_adc : ℤ
pdt_adc = pos 0x12

abbrev pub pdt_disk_zbc : ℤ
pdt_disk_zbc = pos (0x0 + 0x14 * 256)

-- -1: common to all device types.
abbrev pub any_pdt : ℤ
any_pdt = negsuc 0
