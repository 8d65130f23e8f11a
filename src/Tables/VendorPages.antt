-- ===== src/Tables/VendorPages.antt =====
-- The vendors' mode pages of src/sdparm_data_vendor.c.
use mathlib.Core.Bool.{false}
use mathlib.Core.List.{List, [], ◌∷◌}
use mathlib.Core.Option.{none}
use sdparm.Prelude.Int.{pos}
use sdparm.Tables.Types.{MpName, page}
use sdparm.Tables.Consts.{pdt_tape, unit_attention_mp}

-- `sdparm_v_seagate_mode_pg`.
unfoldable pub seagate_mode_pg : List MpName
seagate_mode_pg = page unit_attention_mp 0 (pos 0) false "ua" "Unit attention (seagate)" none ∷ []

-- `sdparm_v_hitachi_mode_pg`.
unfoldable pub hitachi_mode_pg : List MpName
hitachi_mode_pg =
    page unit_attention_mp 0 (pos 0) false "vup" "Vendor unique parameters (hitachi)" none ∷ []

-- `sdparm_v_maxtor_mode_pg`.
unfoldable pub maxtor_mode_pg : List MpName
maxtor_mode_pg =
    page unit_attention_mp 0 (pos 0) false "uac" "Unit attention condition (maxtor)" none ∷ []

-- `sdparm_v_fujitsu_mode_pg`.
unfoldable pub fujitsu_mode_pg : List MpName
fujitsu_mode_pg =
    page 33 0 (pos 0) false "aerp" "Additional error recovery parameters (fujitsu)" none ∷ []

-- `sdparm_v_lto5_mode_pg`.
unfoldable pub lto5_mode_pg : List MpName
lto5_mode_pg =
    page 36 0 pdt_tape false "l5vs" "Vendor specific (LTO-5)" none
    ∷ page 47 0 pdt_tape false "l5bc" "Behaviour configuration (LTO-5)" none
    ∷ page 59 0 pdt_tape false "l5sno" "Serial number override (LTO-5)" none
    ∷ page 60 0 pdt_tape false "l5dt" "Device time (LTO-5)" none
    ∷ page 61 0 pdt_tape false "l5er" "Extended reset (LTO-5)" none
    ∷ page 62 0 pdt_tape false "l5cde" "cd-rom emulation / disaster recovery (LTO-5)" none
    ∷ []

-- `sdparm_v_lto6_mode_pg`.
unfoldable pub lto6_mode_pg : List MpName
lto6_mode_pg =
    page 59 0 pdt_tape false "l6sno" "Serial number override (LTO-5)" none
    ∷ page 60 0 pdt_tape false "l6dt" "Device time (LTO-5)" none
    ∷ page 61 0 pdt_tape false "l6er" "Extended reset (LTO-5)" none
    ∷ page 62 0 pdt_tape false "l6cde" "cd-rom emulation / disaster recovery (LTO-5)" none
    ∷ []

-- `sdparm_v_nvme_mode_pg`.
unfoldable pub nvme_mode_pg : List MpName
nvme_mode_pg = page unit_attention_mp 0 (pos 0) false "nvme" "Unit attention (NVMe)" none ∷ []
