-- ===== src/Tables/TapeVendorItems.antt =====
-- The items of the LTO tape drives' and NVMe mode pages in src/sdparm_data_vendor.c.
use Prim.Native.Nat.{bit_or}
use mathlib.Core.List.{List, [], ◌∷◌}
use sdparm.Tables.Types.{MpItem, item}
use sdparm.Prelude.Int.{pos}
use sdparm.Tables.Consts.{
  mf_clash_ok, mf_common, mf_hex, mf_j_nparam_desc, mf_j_use_desc, pdt_tape, unit_attention_mp,
}

-- LTO5.
unfoldable pub lto5_items : List MpItem
lto5_items =
    item "ENCR_E" 36 0 pdt_tape 7 3 1 mf_common
    ∷ item "FIPS" 36 0 pdt_tape 7 1 1 mf_common
    ∷ item "ENCR_C" 36 0 pdt_tape 7 0 1 mf_common
    ∷ item "FE_BEH" 47 0 pdt_tape 2 7 8 (bit_or mf_common mf_j_use_desc)
    ∷ item "CL_BEH" 47 0 pdt_tape 3 7 8 (bit_or mf_common mf_j_use_desc)
    ∷ item "WO_BEH" 47 0 pdt_tape 4 7 8 (bit_or mf_common mf_j_use_desc)
    ∷ item "SD_BEH" 47 0 pdt_tape 5 7 8 (bit_or mf_common mf_j_use_desc)
    ∷ item "CCDM" 47 0 pdt_tape 6 2 1 mf_common
    ∷ item "DDEOR" 47 0 pdt_tape 6 1 1 mf_common
    ∷ item "CLNCHK" 47 0 pdt_tape 6 0 1 mf_common
    ∷ item "DFMRDL" 47 0 pdt_tape 7 0 1 mf_common
    ∷ item "UOE_C" 47 0 pdt_tape 8 5 2 mf_common
    ∷ item "UOE_F" 47 0 pdt_tape 8 3 2 mf_common
    ∷ item "UOE_D" 47 0 pdt_tape 8 1 2 mf_common
    ∷ item "TA10" 47 0 pdt_tape 9 0 1 mf_common
    ∷ item "MSN" 59 0 pdt_tape 2 1 2 (bit_or mf_common mf_clash_ok)
    ∷ item "SN0_7" 59 0 pdt_tape 6 7 64 (bit_or mf_hex mf_clash_ok)
    ∷ item "SN8_11" 59 0 pdt_tape 14 7 32 (bit_or mf_hex mf_clash_ok)
    ∷ item "LT_VAL" 60 0 pdt_tape 2 2 1 (bit_or mf_common mf_clash_ok)
    ∷ item "WT_VAL" 60 0 pdt_tape 2 1 1 (bit_or mf_common mf_clash_ok)
    ∷ item "PT_VAL" 60 0 pdt_tape 2 0 1 (bit_or mf_common mf_clash_ok)
    ∷ item "CP_COUNT" 60 0 pdt_tape 6 7 16 (bit_or mf_common (bit_or mf_clash_ok mf_j_use_desc))
    ∷ item "UTC" 60 0 pdt_tape 14 1 1 (bit_or mf_common mf_clash_ok)
    ∷ item "NTP" 60 0 pdt_tape 14 0 1 (bit_or mf_common mf_clash_ok)
    ∷ item "WOR_TIME" 60 0 pdt_tape 16 7 32 (bit_or mf_common (bit_or mf_clash_ok mf_j_use_desc))
    ∷ item "LT_HR" 60 0 pdt_tape 23 7 8 (bit_or mf_common (bit_or mf_clash_ok mf_j_use_desc))
    ∷ item "LT_MIN" 60 0 pdt_tape 24 7 8 (bit_or mf_common (bit_or mf_clash_ok mf_j_use_desc))
    ∷ item "LT_SEC" 60 0 pdt_tape 25 7 8 (bit_or mf_common (bit_or mf_clash_ok mf_j_use_desc))
    ∷ item "CUM_PT" 60 0 pdt_tape 32 7 32 (bit_or mf_common (bit_or mf_clash_ok mf_j_nparam_desc))
    ∷ item "RES_BEH" 61 0 pdt_tape 2 1 2 (bit_or mf_common (bit_or mf_clash_ok mf_j_use_desc))
    ∷ item "NON_AUTO" 62 0 pdt_tape 2 1 1 (bit_or mf_common (bit_or mf_clash_ok mf_j_use_desc))
    ∷ item "CD_MODE" 62 0 pdt_tape 2 0 1 (bit_or mf_common (bit_or mf_clash_ok mf_j_use_desc))
    ∷ []

-- LTO6.
unfoldable pub lto6_items : List MpItem
lto6_items =
    item "MSN" 59 0 pdt_tape 2 1 2 (bit_or mf_common mf_clash_ok)
    ∷ item "SN0_7" 59 0 pdt_tape 6 7 64 (bit_or mf_hex mf_clash_ok)
    ∷ item "SN8_11" 59 0 pdt_tape 14 7 32 (bit_or mf_hex mf_clash_ok)
    ∷ item "LT_VAL" 60 0 pdt_tape 2 2 1 (bit_or mf_common mf_clash_ok)
    ∷ item "WT_VAL" 60 0 pdt_tape 2 1 1 (bit_or mf_common mf_clash_ok)
    ∷ item "PT_VAL" 60 0 pdt_tape 2 0 1 (bit_or mf_common mf_clash_ok)
    ∷ item "CP_COUNT" 60 0 pdt_tape 6 7 16 (bit_or mf_common (bit_or mf_clash_ok mf_j_use_desc))
    ∷ item "UTC" 60 0 pdt_tape 14 1 1 (bit_or mf_common mf_clash_ok)
    ∷ item "NTP" 60 0 pdt_tape 14 0 1 (bit_or mf_common mf_clash_ok)
    ∷ item "WOR_TIME" 60 0 pdt_tape 16 7 32 (bit_or mf_common (bit_or mf_clash_ok mf_j_use_desc))
    ∷ item "LT_HR" 60 0 pdt_tape 23 7 8 (bit_or mf_common (bit_or mf_clash_ok mf_j_use_desc))
    ∷ item "LT_MIN" 60 0 pdt_tape 24 7 8 (bit_or mf_common (bit_or mf_clash_ok mf_j_use_desc))
    ∷ item "LT_SEC" 60 0 pdt_tape 25 7 8 (bit_or mf_common (bit_or mf_clash_ok mf_j_use_desc))
    ∷ item "CUM_PT" 60 0 pdt_tape 32 7 32 (bit_or mf_common (bit_or mf_clash_ok mf_j_nparam_desc))
    ∷ item "RES_BEH" 61 0 pdt_tape 2 1 2 (bit_or mf_common (bit_or mf_clash_ok mf_j_use_desc))
    ∷ item "NON_AUTO" 62 0 pdt_tape 2 1 1 (bit_or mf_common (bit_or mf_clash_ok mf_j_use_desc))
    ∷ item "CD_MODE" 62 0 pdt_tape 2 0 1 (bit_or mf_common (bit_or mf_clash_ok mf_j_use_desc))
    ∷ []

-- NVME.
unfoldable pub nvme_items : List MpItem
nvme_items =
    item "ENC_OV" unit_attention_mp 0 (pos 0) 2 7 8 mf_common
    ∷ item "NVME2" unit_attention_mp 0 (pos 0) 3 7 8 0
    ∷ []
