-- ===== src/Tables/ControlItems.antt =====
-- Part of sdparm_mitem_arr of src/sdparm_data.c: the items of generic mode pages.
use Prim.Native.Nat.{bit_or}
use mathlib.Core.List.{List, [], ◌∷◌}
use sdparm.Tables.Types.{MpItem, item}
use sdparm.Tables.Consts.{
  any_pdt, control_mp, mf_all_1s, mf_clash_ok, mf_common, mf_hex, mf_j_nparam_desc, mf_j_use_desc,
  mf_stop_if_set, msp_sbc_app_tag, msp_sbc_back_op, msp_sbc_io_advi, msp_spc_cdla, msp_spc_cdlb,
  msp_spc_cdlt2a, msp_spc_cdlt2b, msp_spc_ce, pdt_disk, pdt_disk_zbc,
}

-- Pages 0xa, subpages 0x0 to 0x4: control, control extension, application tag, duration limits.
unfoldable pub control_items : List MpItem
control_items =
    item "TST" control_mp 0 any_pdt 2 7 3 0
    ∷ item "TMF_ONLY" control_mp 0 any_pdt 2 4 1 0
    ∷ item "DPICZ" control_mp 0 any_pdt 2 3 1 0
    ∷ item "D_SENSE" control_mp 0 any_pdt 2 2 1 0
    ∷ item "GLTSD" control_mp 0 any_pdt 2 1 1 0
    ∷ item "RLEC" control_mp 0 any_pdt 2 0 1 0
    ∷ item "QAM" control_mp 0 any_pdt 3 7 4 mf_j_use_desc
    ∷ item "NUAR" control_mp 0 any_pdt 3 3 1 0
    ∷ item "QERR" control_mp 0 any_pdt 3 2 2 0
    ∷ item "VS_CTL" control_mp 0 any_pdt 4 7 1 0
    ∷ item "RAC" control_mp 0 any_pdt 4 6 1 0
    ∷ item "UA_INTLCK" control_mp 0 any_pdt 4 5 2 0
    ∷ item "SWP" control_mp 0 any_pdt 4 3 1 mf_common
    ∷ item "ATO" control_mp 0 any_pdt 5 7 1 0
    ∷ item "TAS" control_mp 0 any_pdt 5 6 1 0
    ∷ item "ATMPE" control_mp 0 any_pdt 5 5 1 0
    ∷ item "RWWP" control_mp 0 any_pdt 5 4 1 0
    ∷ item "SBLP" control_mp 0 any_pdt 5 3 1 0
    ∷ item "AUTOLOAD" control_mp 0 any_pdt 5 2 3 mf_j_use_desc
    ∷ item "BTP" control_mp 0 any_pdt 8 7 16 mf_j_nparam_desc
    ∷ item "ESTCT" control_mp 0 any_pdt 10 7 16 mf_j_nparam_desc
    ∷ item "DLC" control_mp msp_spc_ce any_pdt 4 3 1 0
    ∷ item "TCMOS" control_mp msp_spc_ce any_pdt 4 2 1 0
    ∷ item "SCSIP" control_mp msp_spc_ce any_pdt 4 1 1 0
    ∷ item "IALUAE" control_mp msp_spc_ce any_pdt 4 0 1 0
    ∷ item "INIT_PR" control_mp msp_spc_ce any_pdt 5 3 4 mf_j_use_desc
    ∷ item "MSDL" control_mp msp_spc_ce any_pdt 6 7 8 mf_j_use_desc
    ∷ item "NSQCC" control_mp msp_spc_ce any_pdt 7 7 8 mf_j_use_desc
    ∷ item "SQCO" control_mp msp_spc_ce any_pdt 8 7 8 mf_j_use_desc
    ∷ item "PWROMACT" control_mp msp_spc_ce any_pdt 9 7 1 0
    ∷ item "HRDRMACT" control_mp msp_spc_ce any_pdt 9 6 1 0
    ∷ item "SSUMACT" control_mp msp_spc_ce any_pdt 9 5 1 0
    ∷ item "FMTMACT" control_mp msp_spc_ce any_pdt 9 4 1 0
    ∷ item "AT_LAST" control_mp msp_sbc_app_tag pdt_disk_zbc 16 7 1
        (bit_or mf_stop_if_set mf_j_use_desc)
    ∷ item "AT_LBAT" control_mp msp_sbc_app_tag pdt_disk_zbc 22 7 16 (bit_or mf_hex mf_j_use_desc)
    ∷ item "AT_LBA" control_mp msp_sbc_app_tag pdt_disk_zbc 24 7 64 (bit_or mf_hex mf_j_use_desc)
    ∷ item "AT_COUNT" control_mp msp_sbc_app_tag pdt_disk_zbc 32 7 64
        (bit_or mf_hex (bit_or mf_all_1s mf_j_use_desc))
    ∷ item "CDA_UNIT" control_mp msp_spc_cdla any_pdt 8 7 3 0
    ∷ item "CDA_LIMIT" control_mp msp_spc_cdla any_pdt 10 7 16 mf_j_use_desc
    ∷ item "CDB_UNIT" control_mp msp_spc_cdlb any_pdt 8 7 3 0
    ∷ item "CDB_LIMIT" control_mp msp_spc_cdlb any_pdt 10 7 16 mf_j_use_desc
    ∷ []

-- Pages 0xa, subpages 0x5 to 0x8: IO advice hints, background operation, duration limits T2.
unfoldable pub hints_items : List MpItem
hints_items =
    item "IOA_MODE" control_mp msp_sbc_io_advi any_pdt 16 7 2 mf_j_use_desc
    ∷ item "ST_EN" control_mp msp_sbc_io_advi any_pdt 16 2 1 mf_j_use_desc
    ∷ item "CS_EN" control_mp msp_sbc_io_advi any_pdt 16 1 1 mf_j_use_desc
    ∷ item "IC_EN" control_mp msp_sbc_io_advi any_pdt 16 0 1 mf_j_use_desc
    ∷ item "ACDLU" control_mp msp_sbc_io_advi any_pdt 20 7 1 mf_j_use_desc
    ∷ item "RLBSR" control_mp msp_sbc_io_advi any_pdt 20 5 2 mf_j_use_desc
    ∷ item "LBM_DT" control_mp msp_sbc_io_advi any_pdt 20 3 4 mf_j_use_desc
    ∷ item "OV_FR" control_mp msp_sbc_io_advi any_pdt 21 7 2 mf_j_use_desc
    ∷ item "RW_FR" control_mp msp_sbc_io_advi any_pdt 21 5 2 mf_j_use_desc
    ∷ item "WR_SE" control_mp msp_sbc_io_advi any_pdt 21 3 2 mf_j_use_desc
    ∷ item "RD_SE" control_mp msp_sbc_io_advi any_pdt 21 1 2 mf_j_use_desc
    ∷ item "IO_CL" control_mp msp_sbc_io_advi any_pdt 22 7 4 mf_j_use_desc
    ∷ item "SU_IO" control_mp msp_sbc_io_advi any_pdt 22 3 2 mf_j_use_desc
    ∷ item "OSI_PR" control_mp msp_sbc_io_advi any_pdt 22 1 2 mf_j_use_desc
    ∷ item "BO_MODE" control_mp msp_sbc_back_op pdt_disk 4 7 2 0
    ∷ item "PVCDG" control_mp msp_spc_cdlt2a any_pdt 7 7 4 mf_j_use_desc
    ∷ item "T2CDLU" control_mp msp_spc_cdlt2a any_pdt 8 3 4 mf_clash_ok
    ∷ item "MXINATI" control_mp msp_spc_cdlt2a any_pdt 10 7 16 (bit_or mf_clash_ok mf_j_use_desc)
    ∷ item "MXACTTI" control_mp msp_spc_cdlt2a any_pdt 12 7 16 (bit_or mf_clash_ok mf_j_use_desc)
    ∷ item "MXINATP" control_mp msp_spc_cdlt2a any_pdt 14 7 4 (bit_or mf_clash_ok mf_j_use_desc)
    ∷ item "MXACTTP" control_mp msp_spc_cdlt2a any_pdt 14 3 4 (bit_or mf_clash_ok mf_j_use_desc)
    ∷ item "CDGUID" control_mp msp_spc_cdlt2a any_pdt 18 7 16 (bit_or mf_clash_ok mf_j_use_desc)
    ∷ item "CDGUPOL" control_mp msp_spc_cdlt2a any_pdt 22 7 16 (bit_or mf_clash_ok mf_j_use_desc)
    ∷ item "BYP_SEQ" control_mp msp_spc_cdlt2a any_pdt 23 0 1 mf_clash_ok
    ∷ item "T2CDLU" control_mp msp_spc_cdlt2b any_pdt 8 3 4 mf_clash_ok
    ∷ item "MXINATI" control_mp msp_spc_cdlt2b any_pdt 10 7 16 (bit_or mf_clash_ok mf_j_use_desc)
    ∷ item "MXACTTI" control_mp msp_spc_cdlt2b any_pdt 12 7 16 (bit_or mf_clash_ok mf_j_use_desc)
    ∷ item "MXINATP" control_mp msp_spc_cdlt2b any_pdt 14 7 4 (bit_or mf_clash_ok mf_j_use_desc)
    ∷ item "MXACTTP" control_mp msp_spc_cdlt2b any_pdt 14 3 4 (bit_or mf_clash_ok mf_j_use_desc)
    ∷ item "CDGUID" control_mp msp_spc_cdlt2b any_pdt 18 7 16 (bit_or mf_clash_ok mf_j_use_desc)
    ∷ item "CDGUPOL" control_mp msp_spc_cdlt2b any_pdt 22 7 16 (bit_or mf_clash_ok mf_j_use_desc)
    ∷ item "BYP_SEQ" control_mp msp_spc_cdlt2b any_pdt 23 0 1 mf_clash_ok
    ∷ []
