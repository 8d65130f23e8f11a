-- ===== src/Tables/Descs.antt =====
-- The descriptor templates of src/sdparm_data.c.
use Prim.Native.Nat.{ℕ}
use mathlib.Core.Bool.{Bool, true, false}
use sdparm.Prelude.Int.{ℤ, pos, negsuc}
use sdparm.Tables.Types.{Descriptor}

abbrev descriptor : ℤ → ℤ → ℤ → ℕ → ℤ → ℤ → ℤ → Bool → Descriptor
descriptor off bytes inc first len len_off len_bytes id = record {
  num_descs_off = off;
  num_descs_bytes = bytes;
  num_descs_inc = inc;
  first_desc_off = first;
  desc_len = len;
  desc_len_off = len_off;
  desc_len_bytes = len_bytes;
  have_desc_id = id;
}

abbrev minus_one : ℤ
minus_one = negsuc 0

abbrev pub ssc_mpa_desc : Descriptor
ssc_mpa_desc = descriptor (pos 3) (pos 1) (pos 1) 8 (pos 2) minus_one minus_one false

abbrev pub smc_tg_desc : Descriptor
smc_tg_desc = descriptor (pos 1) (pos 1) minus_one 2 (pos 2) minus_one minus_one false

abbrev pub sbc_lbp_desc : Descriptor
sbc_lbp_desc = descriptor (pos 2) (pos 2) minus_one 16 (pos 8) minus_one minus_one false

abbrev pub sbc_atag_desc : Descriptor
sbc_atag_desc = descriptor (pos 2) (pos 2) minus_one 16 (pos 24) minus_one minus_one false

abbrev pub spc_cdl_desc : Descriptor
spc_cdl_desc = descriptor (pos 2) (pos 2) minus_one 8 (pos 4) minus_one minus_one false

abbrev pub spc_cdl_t2_desc : Descriptor
spc_cdl_t2_desc = descriptor (pos 2) (pos 2) minus_one 8 (pos 4) minus_one minus_one false

abbrev pub sbc_ioadvi_desc : Descriptor
sbc_ioadvi_desc = descriptor (pos 2) (pos 2) minus_one 16 (pos 16) minus_one minus_one false

abbrev pub sas_pcd_desc : Descriptor
sas_pcd_desc = descriptor (pos 7) (pos 1) (pos 0) 8 (pos 48) minus_one minus_one false

abbrev pub sas_e_phy_desc : Descriptor
sas_e_phy_desc = descriptor (pos 7) (pos 1) (pos 0) 8 minus_one (pos 2) (pos 2) false

abbrev pub sas_oob_m_c_desc : Descriptor
sas_oob_m_c_desc = descriptor minus_one minus_one (pos 0) 8 minus_one (pos 2) (pos 2) true
