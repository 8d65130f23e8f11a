-- ===== src/Tables/DiskItems.antt =====
-- Part of sdparm_mitem_arr of src/sdparm_data.c: the items of generic mode pages.
use Prim.Native.Nat.{bit_or}
use mathlib.Core.List.{List, [], ◌∷◌}
use sdparm.Tables.Types.{MpItem, item}
use sdparm.Prelude.Int.{pos}
use sdparm.Tables.Consts.{
  any_pdt, caching_mp, disconnect_mp, flex_disk_mp, format_mp, mf_common, mf_hex, mf_j_nparam_desc,
  mf_j_use_desc, mf_obsolete, mrw_mp, pdt_disk, pdt_disk_zbc, pdt_mmc, pdt_rbc, rbc_dev_param_mp,
  rigid_disk_mp, rw_err_recovery_mp, v_err_recovery_mp, write_param_mp,
}

-- Pages 0x1 to 0x5: error recovery, disconnect, format, Mount Rainier, rigid and flexible disk.
unfoldable pub error_recovery_items : List MpItem
error_recovery_items =
    item "AWRE" rw_err_recovery_mp 0 any_pdt 2 7 1 mf_common
    ∷ item "ARRE" rw_err_recovery_mp 0 any_pdt 2 6 1 mf_common
    ∷ item "TB" rw_err_recovery_mp 0 any_pdt 2 5 1 0
    ∷ item "RC" rw_err_recovery_mp 0 any_pdt 2 4 1 0
    ∷ item "EER" rw_err_recovery_mp 0 any_pdt 2 3 1 mf_obsolete
    ∷ item "PER" rw_err_recovery_mp 0 any_pdt 2 2 1 mf_common
    ∷ item "DTE" rw_err_recovery_mp 0 any_pdt 2 1 1 0
    ∷ item "DCR" rw_err_recovery_mp 0 any_pdt 2 0 1 mf_obsolete
    ∷ item "RRC" rw_err_recovery_mp 0 any_pdt 3 7 8 mf_j_use_desc
    ∷ item "COR_S" rw_err_recovery_mp 0 any_pdt 4 7 8 (bit_or mf_obsolete mf_j_nparam_desc)
    ∷ item "HOC" rw_err_recovery_mp 0 any_pdt 5 7 8 (bit_or mf_obsolete mf_j_nparam_desc)
    ∷ item "DSOC" rw_err_recovery_mp 0 any_pdt 6 7 8 (bit_or mf_obsolete mf_j_nparam_desc)
    ∷ item "LBPERE" rw_err_recovery_mp 0 (pos 0) 7 7 1 0
    ∷ item "MWR" rw_err_recovery_mp 0 (pos 0) 7 6 2 0
    ∷ item "EMCDR" rw_err_recovery_mp 0 (pos 5) 7 1 2 0
    ∷ item "WRC" rw_err_recovery_mp 0 any_pdt 8 7 8 mf_j_use_desc
    ∷ item "ERWS" rw_err_recovery_mp 0 (pos 5) 9 7 24 0
    ∷ item "RTL" rw_err_recovery_mp 0 (pos 0) 10 7 16 mf_j_nparam_desc
    ∷ item "BFR" disconnect_mp 0 any_pdt 2 7 8 mf_j_use_desc
    ∷ item "BER" disconnect_mp 0 any_pdt 3 7 8 mf_j_use_desc
    ∷ item "BIL" disconnect_mp 0 any_pdt 4 7 16 mf_j_use_desc
    ∷ item "DTL" disconnect_mp 0 any_pdt 6 7 16 mf_j_use_desc
    ∷ item "CTL" disconnect_mp 0 any_pdt 8 7 16 mf_j_use_desc
    ∷ item "MBS" disconnect_mp 0 any_pdt 10 7 16 mf_j_nparam_desc
    ∷ item "EMDP" disconnect_mp 0 any_pdt 12 7 1 0
    ∷ item "FA" disconnect_mp 0 any_pdt 12 6 3 mf_j_use_desc
    ∷ item "DIMM" disconnect_mp 0 any_pdt 12 3 1 0
    ∷ item "DTDC" disconnect_mp 0 any_pdt 12 2 3 0
    ∷ item "FBS" disconnect_mp 0 any_pdt 14 7 16 mf_j_nparam_desc
    ∷ item "TPZ" format_mp 0 pdt_disk 2 7 16 (bit_or mf_j_use_desc mf_obsolete)
    ∷ item "ASPZ" format_mp 0 pdt_disk 4 7 16 (bit_or mf_j_use_desc mf_obsolete)
    ∷ item "ATPZ" format_mp 0 pdt_disk 6 7 16 (bit_or mf_j_use_desc mf_obsolete)
    ∷ item "ATPLU" format_mp 0 pdt_disk 8 7 16 (bit_or mf_j_use_desc mf_obsolete)
    ∷ item "SPT" format_mp 0 pdt_disk 10 7 16 (bit_or mf_j_use_desc mf_obsolete)
    ∷ item "DBPPS" format_mp 0 pdt_disk 12 7 16 (bit_or mf_j_use_desc mf_obsolete)
    ∷ item "INTLV" format_mp 0 pdt_disk 14 7 16 (bit_or mf_j_use_desc mf_obsolete)
    ∷ item "TSF" format_mp 0 pdt_disk 16 7 16 (bit_or mf_j_use_desc mf_obsolete)
    ∷ item "CSF" format_mp 0 pdt_disk 18 7 16 (bit_or mf_j_use_desc mf_obsolete)
    ∷ item "SSEC" format_mp 0 pdt_disk 20 7 1 mf_obsolete
    ∷ item "HSEC" format_mp 0 pdt_disk 20 6 1 mf_obsolete
    ∷ item "RMB" format_mp 0 pdt_disk 20 5 1 mf_obsolete
    ∷ item "SURF" format_mp 0 pdt_disk 20 4 1 mf_obsolete
    ∷ item "LBAS" mrw_mp 0 pdt_mmc 3 0 1 mf_obsolete
    ∷ item "NOC" rigid_disk_mp 0 pdt_disk 2 7 24 (bit_or mf_j_use_desc mf_obsolete)
    ∷ item "NOH" rigid_disk_mp 0 pdt_disk 5 7 8 (bit_or mf_j_use_desc mf_obsolete)
    ∷ item "SCWP" rigid_disk_mp 0 pdt_disk 6 7 24 (bit_or mf_j_use_desc mf_obsolete)
    ∷ item "SCRWC" rigid_disk_mp 0 pdt_disk 9 7 24 (bit_or mf_j_use_desc mf_obsolete)
    ∷ item "DSR" rigid_disk_mp 0 pdt_disk 12 7 16 (bit_or mf_j_use_desc mf_obsolete)
    ∷ item "LZC" rigid_disk_mp 0 pdt_disk 14 7 24 (bit_or mf_j_use_desc mf_obsolete)
    ∷ item "RPL" rigid_disk_mp 0 pdt_disk 17 1 2 mf_obsolete
    ∷ item "ROTO" rigid_disk_mp 0 pdt_disk 18 7 8 (bit_or mf_j_use_desc mf_obsolete)
    ∷ item "MRR" rigid_disk_mp 0 pdt_disk 20 7 16 (bit_or mf_obsolete mf_j_nparam_desc)
    ∷ item "XRATE" flex_disk_mp 0 pdt_disk 2 7 16 (bit_or mf_j_use_desc mf_obsolete)
    ∷ item "NUM_HD" flex_disk_mp 0 pdt_disk 4 7 8 (bit_or mf_j_use_desc mf_obsolete)
    ∷ item "SECT_TR" flex_disk_mp 0 pdt_disk 5 7 8 (bit_or mf_j_use_desc mf_obsolete)
    ∷ item "BYTE_SECT" flex_disk_mp 0 pdt_disk 6 7 16 (bit_or mf_j_use_desc mf_obsolete)
    ∷ item "NUM_CYL" flex_disk_mp 0 pdt_disk 8 7 16 (bit_or mf_j_use_desc mf_obsolete)
    ∷ []

-- Pages 0x5 to 0x8: write parameters, RBC device parameters, verify recovery, caching.
unfoldable pub write_caching_items : List MpItem
write_caching_items =
    item "BUFE" write_param_mp 0 pdt_mmc 2 6 1 mf_common
    ∷ item "LS_V" write_param_mp 0 pdt_mmc 2 5 1 0
    ∷ item "TST_W" write_param_mp 0 pdt_mmc 2 4 1 mf_j_use_desc
    ∷ item "WR_T" write_param_mp 0 pdt_mmc 2 3 4 (bit_or mf_common mf_j_use_desc)
    ∷ item "MULTI_S" write_param_mp 0 pdt_mmc 3 7 2 (bit_or mf_common mf_j_use_desc)
    ∷ item "FP" write_param_mp 0 pdt_mmc 3 5 1 0
    ∷ item "COPY" write_param_mp 0 pdt_mmc 3 4 1 0
    ∷ item "TRACK_M" write_param_mp 0 pdt_mmc 3 3 4 mf_j_use_desc
    ∷ item "DBT" write_param_mp 0 pdt_mmc 4 3 4 mf_j_use_desc
    ∷ item "LINK_S" write_param_mp 0 pdt_mmc 5 7 8 mf_j_use_desc
    ∷ item "IAC" write_param_mp 0 pdt_mmc 7 5 6 0
    ∷ item "SESS_F" write_param_mp 0 pdt_mmc 8 7 8 0
    ∷ item "PACK_S" write_param_mp 0 pdt_mmc 10 7 32 mf_j_use_desc
    ∷ item "APL" write_param_mp 0 pdt_mmc 14 7 16 mf_j_nparam_desc
    ∷ item "WCD" rbc_dev_param_mp 0 pdt_rbc 2 0 1 mf_common
    ∷ item "LBS" rbc_dev_param_mp 0 pdt_rbc 3 7 16 (bit_or mf_common mf_j_use_desc)
    ∷ item "NLBS" rbc_dev_param_mp 0 pdt_rbc 5 7 40 (bit_or mf_common (bit_or mf_hex mf_j_use_desc))
    ∷ item "P_P" rbc_dev_param_mp 0 pdt_rbc 10 7 8 mf_j_use_desc
    ∷ item "READD" rbc_dev_param_mp 0 pdt_rbc 11 3 1 0
    ∷ item "WRITED" rbc_dev_param_mp 0 pdt_rbc 11 2 1 0
    ∷ item "FORMATD" rbc_dev_param_mp 0 pdt_rbc 11 1 1 0
    ∷ item "LOCKD" rbc_dev_param_mp 0 pdt_rbc 11 0 1 0
    ∷ item "V_EER" v_err_recovery_mp 0 pdt_disk_zbc 2 3 1 mf_obsolete
    ∷ item "V_PER" v_err_recovery_mp 0 pdt_disk_zbc 2 2 1 0
    ∷ item "V_DTE" v_err_recovery_mp 0 pdt_disk_zbc 2 1 1 0
    ∷ item "V_DCR" v_err_recovery_mp 0 pdt_disk_zbc 2 0 1 mf_obsolete
    ∷ item "V_RC" v_err_recovery_mp 0 pdt_disk_zbc 3 7 8 mf_j_use_desc
    ∷ item "V_COR_S" v_err_recovery_mp 0 pdt_disk_zbc 4 7 8 (bit_or mf_obsolete mf_j_nparam_desc)
    ∷ item "V_RTL" v_err_recovery_mp 0 pdt_disk_zbc 10 7 16 mf_j_nparam_desc
    ∷ item "IC" caching_mp 0 pdt_disk_zbc 2 7 1 0
    ∷ item "ABPF" caching_mp 0 pdt_disk_zbc 2 6 1 0
    ∷ item "CAP" caching_mp 0 pdt_disk_zbc 2 5 1 0
    ∷ item "DISC" caching_mp 0 pdt_disk_zbc 2 4 1 0
    ∷ item "SIZE" caching_mp 0 pdt_disk_zbc 2 3 1 0
    ∷ item "WCE" caching_mp 0 pdt_disk_zbc 2 2 1 mf_common
    ∷ item "MF" caching_mp 0 pdt_disk_zbc 2 1 1 0
    ∷ item "RCD" caching_mp 0 pdt_disk_zbc 2 0 1 mf_common
    ∷ item "DRRP" caching_mp 0 pdt_disk_zbc 3 7 4 mf_j_use_desc
    ∷ item "WRP" caching_mp 0 pdt_disk_zbc 3 3 4 mf_j_use_desc
    ∷ item "DPTL" caching_mp 0 pdt_disk_zbc 4 7 16 mf_j_use_desc
    ∷ item "MIPF" caching_mp 0 pdt_disk_zbc 6 7 16 mf_j_use_desc
    ∷ item "MAPF" caching_mp 0 pdt_disk_zbc 8 7 16 mf_j_use_desc
    ∷ item "MAPFC" caching_mp 0 pdt_disk_zbc 10 7 16 mf_j_use_desc
    ∷ item "FSW" caching_mp 0 pdt_disk_zbc 12 7 1 0
    ∷ item "LBCSS" caching_mp 0 pdt_disk_zbc 12 6 1 0
    ∷ item "DRA" caching_mp 0 pdt_disk_zbc 12 5 1 0
    ∷ item "SYNC_PROG" caching_mp 0 pdt_disk_zbc 12 2 2 0
    ∷ item "NV_DIS" caching_mp 0 pdt_disk_zbc 12 0 1 0
    ∷ item "NCS" caching_mp 0 pdt_disk_zbc 13 7 8 mf_j_use_desc
    ∷ item "CSS" caching_mp 0 pdt_disk_zbc 14 7 16 mf_j_use_desc
    ∷ []
