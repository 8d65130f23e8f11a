-- ===== src/Tables/ChangerItems.antt =====
-- Part of sdparm_mitem_arr of src/sdparm_data.c: the items of generic mode pages.
use Prim.Native.Nat.{bit_or}
use mathlib.Core.List.{List, [], ◌∷◌}
use sdparm.Tables.Types.{MpItem, item}
use sdparm.Tables.Consts.{
  dev_cap_mp, mf_j_nparam_desc, mf_j_use_desc, mf_obsolete, mmcms_mp, msp_ext_dev_cap, pdt_mchanger,
  pdt_mmc,
}

-- Page 0x1f: device capabilities of a media changer.
unfoldable pub changer_items : List MpItem
changer_items =
    item "STORDT" dev_cap_mp 0 pdt_mchanger 2 3 1 0
    ∷ item "STORIE" dev_cap_mp 0 pdt_mchanger 2 2 1 0
    ∷ item "STORST" dev_cap_mp 0 pdt_mchanger 2 1 1 0
    ∷ item "STORMT" dev_cap_mp 0 pdt_mchanger 2 0 1 0
    ∷ item "ACE" dev_cap_mp 0 pdt_mchanger 3 2 1 0
    ∷ item "VTRP" dev_cap_mp 0 pdt_mchanger 3 1 1 0
    ∷ item "S2C" dev_cap_mp 0 pdt_mchanger 3 0 1 0
    ∷ item "MT_RA" dev_cap_mp 0 pdt_mchanger 4 7 2 0
    ∷ item "MT2DT" dev_cap_mp 0 pdt_mchanger 4 3 1 0
    ∷ item "MT2IE" dev_cap_mp 0 pdt_mchanger 4 2 1 0
    ∷ item "MT2ST" dev_cap_mp 0 pdt_mchanger 4 1 1 0
    ∷ item "MT2MT" dev_cap_mp 0 pdt_mchanger 4 0 1 0
    ∷ item "ST_RA" dev_cap_mp 0 pdt_mchanger 5 7 2 0
    ∷ item "ST2DT" dev_cap_mp 0 pdt_mchanger 5 3 1 0
    ∷ item "ST2IE" dev_cap_mp 0 pdt_mchanger 5 2 1 0
    ∷ item "ST2ST" dev_cap_mp 0 pdt_mchanger 5 1 1 0
    ∷ item "ST2MT" dev_cap_mp 0 pdt_mchanger 5 0 1 0
    ∷ item "IE_RA" dev_cap_mp 0 pdt_mchanger 6 7 2 0
    ∷ item "IE2DT" dev_cap_mp 0 pdt_mchanger 6 3 1 0
    ∷ item "IE2IE" dev_cap_mp 0 pdt_mchanger 6 2 1 0
    ∷ item "IE2ST" dev_cap_mp 0 pdt_mchanger 6 1 1 0
    ∷ item "IE2MT" dev_cap_mp 0 pdt_mchanger 6 0 1 0
    ∷ item "DT_RA" dev_cap_mp 0 pdt_mchanger 7 7 2 0
    ∷ item "DT2DT" dev_cap_mp 0 pdt_mchanger 7 3 1 0
    ∷ item "DT2IE" dev_cap_mp 0 pdt_mchanger 7 2 1 0
    ∷ item "DT2ST" dev_cap_mp 0 pdt_mchanger 7 1 1 0
    ∷ item "DT2MT" dev_cap_mp 0 pdt_mchanger 7 0 1 0
    ∷ item "MT_WA" dev_cap_mp 0 pdt_mchanger 12 7 2 0
    ∷ item "MTEDT" dev_cap_mp 0 pdt_mchanger 12 3 1 0
    ∷ item "MTEIE" dev_cap_mp 0 pdt_mchanger 12 2 1 0
    ∷ item "MTEST" dev_cap_mp 0 pdt_mchanger 12 1 1 0
    ∷ item "MTEMT" dev_cap_mp 0 pdt_mchanger 12 0 1 0
    ∷ item "ST_WA" dev_cap_mp 0 pdt_mchanger 13 7 2 0
    ∷ item "STEDT" dev_cap_mp 0 pdt_mchanger 13 3 1 0
    ∷ item "STEIE" dev_cap_mp 0 pdt_mchanger 13 2 1 0
    ∷ item "STEST" dev_cap_mp 0 pdt_mchanger 13 1 1 0
    ∷ item "STEMT" dev_cap_mp 0 pdt_mchanger 13 0 1 0
    ∷ item "IE_WA" dev_cap_mp 0 pdt_mchanger 14 7 2 0
    ∷ item "IEEDT" dev_cap_mp 0 pdt_mchanger 14 3 1 0
    ∷ item "IEEIE" dev_cap_mp 0 pdt_mchanger 14 2 1 0
    ∷ item "IEEST" dev_cap_mp 0 pdt_mchanger 14 1 1 0
    ∷ item "IEEMT" dev_cap_mp 0 pdt_mchanger 14 0 1 0
    ∷ item "DT_WA" dev_cap_mp 0 pdt_mchanger 15 7 2 0
    ∷ item "DTEDT" dev_cap_mp 0 pdt_mchanger 15 3 1 0
    ∷ item "DTEIE" dev_cap_mp 0 pdt_mchanger 15 2 1 0
    ∷ item "DTEST" dev_cap_mp 0 pdt_mchanger 15 1 1 0
    ∷ item "DTEMT" dev_cap_mp 0 pdt_mchanger 15 0 1 0
    ∷ []

-- Pages 0x1f, subpage 0x41, and 0x2a: extended device capabilities, CD/DVD capabilities.
unfoldable pub extended_changer_items : List MpItem
extended_changer_items =
    item "MVPRV" dev_cap_mp msp_ext_dev_cap pdt_mchanger 4 5 1 0
    ∷ item "MVCL" dev_cap_mp msp_ext_dev_cap pdt_mchanger 4 4 1 0
    ∷ item "MVOP" dev_cap_mp msp_ext_dev_cap pdt_mchanger 4 3 1 0
    ∷ item "USRCL" dev_cap_mp msp_ext_dev_cap pdt_mchanger 4 2 1 0
    ∷ item "USROP" dev_cap_mp msp_ext_dev_cap pdt_mchanger 4 1 1 0
    ∷ item "IEST" dev_cap_mp msp_ext_dev_cap pdt_mchanger 4 0 1 0
    ∷ item "DTETA" dev_cap_mp msp_ext_dev_cap pdt_mchanger 5 4 1 0
    ∷ item "RSSEA" dev_cap_mp msp_ext_dev_cap pdt_mchanger 5 3 1 0
    ∷ item "MVTRY" dev_cap_mp msp_ext_dev_cap pdt_mchanger 5 2 1 0
    ∷ item "IEMGZ" dev_cap_mp msp_ext_dev_cap pdt_mchanger 5 1 1 0
    ∷ item "SMGZ" dev_cap_mp msp_ext_dev_cap pdt_mchanger 5 0 1 0
    ∷ item "TREXC" dev_cap_mp msp_ext_dev_cap pdt_mchanger 6 2 1 0
    ∷ item "LCKIE" dev_cap_mp msp_ext_dev_cap pdt_mchanger 6 1 1 0
    ∷ item "LCKD" dev_cap_mp msp_ext_dev_cap pdt_mchanger 6 0 1 0
    ∷ item "SPMER" dev_cap_mp msp_ext_dev_cap pdt_mchanger 7 2 1 0
    ∷ item "DPMER" dev_cap_mp msp_ext_dev_cap pdt_mchanger 7 1 1 0
    ∷ item "PEPOS" dev_cap_mp msp_ext_dev_cap pdt_mchanger 7 0 1 0
    ∷ item "UCST" dev_cap_mp msp_ext_dev_cap pdt_mchanger 8 0 1 0
    ∷ item "D_RAM_R" mmcms_mp 0 pdt_mmc 2 5 1 mf_j_use_desc
    ∷ item "D_R_R" mmcms_mp 0 pdt_mmc 2 4 1 mf_j_use_desc
    ∷ item "D_ROM_R" mmcms_mp 0 pdt_mmc 2 3 1 mf_j_use_desc
    ∷ item "METH2" mmcms_mp 0 pdt_mmc 2 2 1 mf_j_use_desc
    ∷ item "CD_RW_R" mmcms_mp 0 pdt_mmc 2 1 1 mf_j_use_desc
    ∷ item "CD_R_R" mmcms_mp 0 pdt_mmc 2 0 1 mf_j_use_desc
    ∷ item "D_RAM_W" mmcms_mp 0 pdt_mmc 3 5 1 mf_j_use_desc
    ∷ item "D_R_W" mmcms_mp 0 pdt_mmc 3 4 1 mf_j_use_desc
    ∷ item "TST_WR" mmcms_mp 0 pdt_mmc 3 2 1 mf_j_use_desc
    ∷ item "CD_RW_W" mmcms_mp 0 pdt_mmc 3 1 1 mf_j_use_desc
    ∷ item "CD_R_W" mmcms_mp 0 pdt_mmc 3 0 1 mf_j_use_desc
    ∷ item "BUF" mmcms_mp 0 pdt_mmc 4 7 1 mf_j_use_desc
    ∷ item "MULT_S" mmcms_mp 0 pdt_mmc 4 6 1 mf_j_use_desc
    ∷ item "M2F2" mmcms_mp 0 pdt_mmc 4 5 1 mf_j_use_desc
    ∷ item "M2F1" mmcms_mp 0 pdt_mmc 4 4 1 mf_j_use_desc
    ∷ item "DP_2" mmcms_mp 0 pdt_mmc 4 3 1 mf_j_use_desc
    ∷ item "DP_1" mmcms_mp 0 pdt_mmc 4 2 1 mf_j_use_desc
    ∷ item "COMP" mmcms_mp 0 pdt_mmc 4 1 1 mf_j_use_desc
    ∷ item "AUDIO_P" mmcms_mp 0 pdt_mmc 4 0 1 mf_j_use_desc
    ∷ item "RBC" mmcms_mp 0 pdt_mmc 5 7 1 mf_j_use_desc
    ∷ item "UPC" mmcms_mp 0 pdt_mmc 5 6 1 0
    ∷ item "ISRC" mmcms_mp 0 pdt_mmc 5 5 1 0
    ∷ item "C2PS" mmcms_mp 0 pdt_mmc 5 4 1 mf_j_use_desc
    ∷ item "RW_DC" mmcms_mp 0 pdt_mmc 5 3 1 mf_j_use_desc
    ∷ item "RW_S" mmcms_mp 0 pdt_mmc 5 2 1 mf_j_use_desc
    ∷ item "CDDA_SA" mmcms_mp 0 pdt_mmc 5 1 1 mf_j_use_desc
    ∷ item "CDDA_CS" mmcms_mp 0 pdt_mmc 5 0 1 mf_j_use_desc
    ∷ item "LMT" mmcms_mp 0 pdt_mmc 6 7 3 mf_j_use_desc
    ∷ item "EJECT" mmcms_mp 0 pdt_mmc 6 3 1 0
    ∷ item "PJ" mmcms_mp 0 pdt_mmc 6 2 1 mf_j_use_desc
    ∷ item "LS" mmcms_mp 0 pdt_mmc 6 1 1 mf_j_use_desc
    ∷ item "LOCK" mmcms_mp 0 pdt_mmc 6 0 1 0
    ∷ item "PWILI" mmcms_mp 0 pdt_mmc 7 5 1 mf_j_use_desc
    ∷ item "SCC" mmcms_mp 0 pdt_mmc 7 4 1 mf_j_use_desc
    ∷ item "SSS" mmcms_mp 0 pdt_mmc 7 3 1 mf_j_use_desc
    ∷ item "CSDP" mmcms_mp 0 pdt_mmc 7 2 1 mf_j_use_desc
    ∷ item "SCM" mmcms_mp 0 pdt_mmc 7 1 1 mf_j_use_desc
    ∷ item "SVL" mmcms_mp 0 pdt_mmc 7 0 1 mf_j_use_desc
    ∷ item "MRSS" mmcms_mp 0 pdt_mmc 8 7 16 (bit_or mf_obsolete mf_j_nparam_desc)
    ∷ item "NVLS" mmcms_mp 0 pdt_mmc 10 7 16 mf_j_use_desc
    ∷ item "BSS" mmcms_mp 0 pdt_mmc 12 7 16 mf_j_nparam_desc
    ∷ item "LENGTH" mmcms_mp 0 pdt_mmc 17 5 2 mf_j_nparam_desc
    ∷ item "LSBF" mmcms_mp 0 pdt_mmc 17 3 1 0
    ∷ item "RCK" mmcms_mp 0 pdt_mmc 17 2 1 0
    ∷ item "BCKF" mmcms_mp 0 pdt_mmc 17 1 1 0
    ∷ item "CMRS" mmcms_mp 0 pdt_mmc 22 7 16 mf_j_use_desc
    ∷ item "RCS" mmcms_mp 0 pdt_mmc 27 1 2 mf_j_use_desc
    ∷ item "CWSS" mmcms_mp 0 pdt_mmc 28 7 16 mf_j_use_desc
    ∷ []
