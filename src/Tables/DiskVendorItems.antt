-- ===== src/Tables/DiskVendorItems.antt =====
-- The items of the disk vendors' mode pages in src/sdparm_data_vendor.c.
use Prim.Native.Nat.{bit_or}
use mathlib.Core.List.{List, [], ◌∷◌}
use sdparm.Tables.Types.{MpItem, item}
use sdparm.Prelude.Int.{pos}
use sdparm.Tables.Consts.{mf_common, mf_j_nparam_desc, mf_j_use_desc, unit_attention_mp}

-- Seagate.
unfoldable pub seagate_items : List MpItem
seagate_items =
    item "PM" unit_attention_mp 0 (pos 0) 2 7 1 mf_common
    ∷ item "SSM" unit_attention_mp 0 (pos 0) 2 6 1 0
    ∷ item "IL" unit_attention_mp 0 (pos 0) 2 5 1 (bit_or mf_common mf_j_use_desc)
    ∷ item "UA" unit_attention_mp 0 (pos 0) 2 4 1 (bit_or mf_common mf_j_use_desc)
    ∷ item "DFUA" unit_attention_mp 0 (pos 0) 2 3 1 0
    ∷ item "ROUND" unit_attention_mp 0 (pos 0) 2 2 1 0
    ∷ item "STRICT" unit_attention_mp 0 (pos 0) 2 1 1 mf_common
    ∷ item "SCSI2" unit_attention_mp 0 (pos 0) 2 0 1 mf_common
    ∷ item "DAR" unit_attention_mp 0 (pos 0) 3 7 1 0
    ∷ item "SSEEK" unit_attention_mp 0 (pos 0) 3 6 1 mf_j_nparam_desc
    ∷ item "SDTE" unit_attention_mp 0 (pos 0) 3 1 1 0
    ∷ item "VJIT_DIS" unit_attention_mp 0 (pos 0) 4 7 1 mf_j_nparam_desc
    ∷ item "JIT3" unit_attention_mp 0 (pos 0) 4 3 1 0
    ∷ item "JIT2" unit_attention_mp 0 (pos 0) 4 2 1 0
    ∷ item "JIT1" unit_attention_mp 0 (pos 0) 4 1 1 0
    ∷ item "JIT0" unit_attention_mp 0 (pos 0) 4 0 1 0
    ∷ item "TTE" unit_attention_mp 0 (pos 0) 6 0 1 0
    ∷ []

-- Hitachi.
unfoldable pub hitachi_items : List MpItem
hitachi_items =
    item "MRG" unit_attention_mp 0 (pos 0) 2 3 1 0
    ∷ item "VGMDE" unit_attention_mp 0 (pos 0) 3 6 1 mf_common
    ∷ item "RRNDE" unit_attention_mp 0 (pos 0) 3 1 1 0
    ∷ item "DNS" unit_attention_mp 0 (pos 0) 4 2 1 0
    ∷ item "LRPMS" unit_attention_mp 0 (pos 0) 4 1 1 0
    ∷ item "LCS" unit_attention_mp 0 (pos 0) 4 0 1 0
    ∷ item "FDD" unit_attention_mp 0 (pos 0) 5 4 1 0
    ∷ item "CAEN" unit_attention_mp 0 (pos 0) 5 1 1 mf_common
    ∷ item "IGRA" unit_attention_mp 0 (pos 0) 6 7 1 mf_common
    ∷ item "AVERP" unit_attention_mp 0 (pos 0) 6 6 1 mf_common
    ∷ item "OCT" unit_attention_mp 0 (pos 0) 6 3 12 mf_j_use_desc
    ∷ item "TT" unit_attention_mp 0 (pos 0) 9 7 8 mf_j_nparam_desc
    ∷ item "CAL" unit_attention_mp 0 (pos 0) 10 7 16 mf_j_nparam_desc
    ∷ item "RRT" unit_attention_mp 0 (pos 0) 12 7 8 0
    ∷ item "WRT" unit_attention_mp 0 (pos 0) 13 7 8 0
    ∷ item "DRRT" unit_attention_mp 0 (pos 0) 14 7 1 0
    ∷ item "FFMT" unit_attention_mp 0 (pos 0) 14 3 1 0
    ∷ item "FCERT" unit_attention_mp 0 (pos 0) 15 5 1 0
    ∷ item "CERT_RDP" unit_attention_mp 0 (pos 0) 15 3 1 0
    ∷ []

-- Maxtor.
unfoldable pub maxtor_items : List MpItem
maxtor_items = item "DUA" unit_attention_mp 0 (pos 0) 2 4 1 mf_common ∷ []

-- Fujitsu.
unfoldable pub fujitsu_items : List MpItem
fujitsu_items = item "RDSE" 33 0 (pos 0) 2 3 4 mf_common ∷ []
