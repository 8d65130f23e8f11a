-- ===== src/Tables/TapeItems.antt =====
-- Part of sdparm_mitem_arr of src/sdparm_data.c: the items of generic mode pages.
use Prim.Native.Nat.{bit_or}
use mathlib.Core.List.{List, [], ◌∷◌}
use sdparm.Tables.Types.{MpItem, item}
use sdparm.Tables.Consts.{
  any_pdt, control_mp, data_compr_mp, dev_conf_mp, med_part_mp, mf_common, mf_hex, mf_j_nparam_desc,
  mf_j_use_desc, msp_dev_conf_ext, msp_sat_afc, msp_sat_pata, msp_ssc_cdp, msp_zb_d_ctl, notch_mp,
  pdt_disk, pdt_disk_zbc, pdt_tape, power_old_mp, xor_mp,
}

-- Pages 0xa, subpages 0xf and above, to 0x10: zoned device, data protection, SAT, notch, power, XOR.
unfoldable pub protection_items : List MpItem
protection_items =
    item "URSWRZ_M" control_mp msp_zb_d_ctl pdt_disk_zbc 4 0 1 0
    ∷ item "U_UA_CTL" control_mp msp_zb_d_ctl pdt_disk_zbc 5 0 1 0
    ∷ item "LBPM" control_mp msp_ssc_cdp pdt_tape 4 7 8 mf_j_use_desc
    ∷ item "LBPIL" control_mp msp_ssc_cdp pdt_tape 5 5 6 mf_j_use_desc
    ∷ item "LBP_W" control_mp msp_ssc_cdp pdt_tape 6 7 1 0
    ∷ item "LBP_R" control_mp msp_ssc_cdp pdt_tape 6 6 1 0
    ∷ item "RBDP" control_mp msp_ssc_cdp pdt_tape 6 5 1 0
    ∷ item "MWD2" control_mp msp_sat_pata any_pdt 4 6 1 0
    ∷ item "MWD1" control_mp msp_sat_pata any_pdt 4 5 1 0
    ∷ item "MWD0" control_mp msp_sat_pata any_pdt 4 4 1 0
    ∷ item "PIO4" control_mp msp_sat_pata any_pdt 4 1 1 0
    ∷ item "PIO3" control_mp msp_sat_pata any_pdt 4 0 1 0
    ∷ item "UDMA6" control_mp msp_sat_pata any_pdt 5 6 1 0
    ∷ item "UDMA5" control_mp msp_sat_pata any_pdt 5 5 1 0
    ∷ item "UDMA4" control_mp msp_sat_pata any_pdt 5 4 1 0
    ∷ item "UDMA3" control_mp msp_sat_pata any_pdt 5 3 1 0
    ∷ item "UDMA2" control_mp msp_sat_pata any_pdt 5 2 1 0
    ∷ item "UDMA1" control_mp msp_sat_pata any_pdt 5 1 1 0
    ∷ item "UDMA0" control_mp msp_sat_pata any_pdt 5 0 1 0
    ∷ item "CDL_CTRL" control_mp msp_sat_afc any_pdt 4 1 2 0
    ∷ item "ND" notch_mp 0 pdt_disk 2 7 1 0
    ∷ item "LPN" notch_mp 0 pdt_disk 2 6 1 0
    ∷ item "MNN" notch_mp 0 pdt_disk 4 7 16 mf_j_use_desc
    ∷ item "ANOT" notch_mp 0 pdt_disk 6 7 16 mf_j_use_desc
    ∷ item "SBOU" notch_mp 0 pdt_disk 8 7 32 (bit_or mf_hex mf_j_use_desc)
    ∷ item "EBOU" notch_mp 0 pdt_disk 12 7 32 (bit_or mf_hex mf_j_use_desc)
    ∷ item "PNOT" notch_mp 0 pdt_disk 16 7 64 (bit_or mf_hex mf_j_use_desc)
    ∷ item "IDLE-OLD" power_old_mp 0 pdt_disk 3 1 1 0
    ∷ item "STBY-OLD" power_old_mp 0 pdt_disk 3 0 1 0
    ∷ item "ICT-OLD" power_old_mp 0 pdt_disk 4 7 32 mf_j_nparam_desc
    ∷ item "SCT-OLD" power_old_mp 0 pdt_disk 8 7 32 mf_j_nparam_desc
    ∷ item "DCE" data_compr_mp 0 pdt_tape 2 7 1 mf_common
    ∷ item "DCC" data_compr_mp 0 pdt_tape 2 6 1 mf_common
    ∷ item "DDE" data_compr_mp 0 pdt_tape 3 7 1 mf_common
    ∷ item "RED" data_compr_mp 0 pdt_tape 3 6 2 0
    ∷ item "COMPR_A" data_compr_mp 0 pdt_tape 4 7 32 mf_j_use_desc
    ∷ item "DCOMPR_A" data_compr_mp 0 pdt_tape 8 7 32 mf_j_use_desc
    ∷ item "XORDIS" xor_mp 0 pdt_disk 2 1 1 0
    ∷ item "MXWS" xor_mp 0 pdt_disk 4 7 32 mf_j_nparam_desc
    ∷ []

-- Pages 0x10 and 0x11: device configuration, its extension, medium partition.
unfoldable pub tape_items : List MpItem
tape_items =
    item "CAF" dev_conf_mp 0 pdt_tape 2 5 1 0
    ∷ item "ACT_F" dev_conf_mp 0 pdt_tape 2 4 5 mf_j_use_desc
    ∷ item "ACT_P" dev_conf_mp 0 pdt_tape 3 7 8 mf_j_use_desc
    ∷ item "WOBFR" dev_conf_mp 0 pdt_tape 4 7 8 mf_j_use_desc
    ∷ item "ROBER" dev_conf_mp 0 pdt_tape 5 7 8 mf_j_use_desc
    ∷ item "WDT" dev_conf_mp 0 pdt_tape 6 7 16 mf_j_nparam_desc
    ∷ item "OBR" dev_conf_mp 0 pdt_tape 8 7 1 0
    ∷ item "LOIS" dev_conf_mp 0 pdt_tape 8 6 1 0
    ∷ item "RSMK" dev_conf_mp 0 pdt_tape 8 5 1 mf_common
    ∷ item "AVC" dev_conf_mp 0 pdt_tape 8 4 1 0
    ∷ item "SOCF" dev_conf_mp 0 pdt_tape 8 3 2 0
    ∷ item "ROBO" dev_conf_mp 0 pdt_tape 8 1 1 0
    ∷ item "REW" dev_conf_mp 0 pdt_tape 8 0 1 0
    ∷ item "GAP_S" dev_conf_mp 0 pdt_tape 9 7 8 0
    ∷ item "EOD_D" dev_conf_mp 0 pdt_tape 10 7 3 0
    ∷ item "EEG" dev_conf_mp 0 pdt_tape 10 4 1 0
    ∷ item "SEW" dev_conf_mp 0 pdt_tape 10 3 1 mf_common
    ∷ item "SWP_T" dev_conf_mp 0 pdt_tape 10 2 1 0
    ∷ item "BAML" dev_conf_mp 0 pdt_tape 10 1 1 0
    ∷ item "BAM" dev_conf_mp 0 pdt_tape 10 0 1 0
    ∷ item "OBSAEW" dev_conf_mp 0 pdt_tape 11 7 24 mf_j_use_desc
    ∷ item "SDCA" dev_conf_mp 0 pdt_tape 14 7 8 (bit_or mf_common mf_j_use_desc)
    ∷ item "WTRE" dev_conf_mp 0 pdt_tape 15 7 2 0
    ∷ item "OIR" dev_conf_mp 0 pdt_tape 15 5 1 0
    ∷ item "ROR" dev_conf_mp 0 pdt_tape 15 4 2 mf_j_use_desc
    ∷ item "ASOCWP" dev_conf_mp 0 pdt_tape 15 2 1 0
    ∷ item "PERSWP" dev_conf_mp 0 pdt_tape 15 1 1 0
    ∷ item "PRMWP" dev_conf_mp 0 pdt_tape 15 0 1 0
    ∷ item "PE_UN" dev_conf_mp msp_dev_conf_ext pdt_tape 4 7 4 mf_j_use_desc
    ∷ item "TARPF" dev_conf_mp msp_dev_conf_ext pdt_tape 4 3 1 0
    ∷ item "TASER" dev_conf_mp msp_dev_conf_ext pdt_tape 4 2 1 0
    ∷ item "TARPC" dev_conf_mp msp_dev_conf_ext pdt_tape 4 1 1 0
    ∷ item "TAPLSD" dev_conf_mp msp_dev_conf_ext pdt_tape 4 0 1 0
    ∷ item "WR_MOD" dev_conf_mp msp_dev_conf_ext pdt_tape 5 7 4 mf_j_use_desc
    ∷ item "SEM" dev_conf_mp msp_dev_conf_ext pdt_tape 5 3 4 mf_j_use_desc
    ∷ item "PEWS" dev_conf_mp msp_dev_conf_ext pdt_tape 6 7 16 0
    ∷ item "ACWRE" dev_conf_mp msp_dev_conf_ext pdt_tape 8 3 1 0
    ∷ item "WRE" dev_conf_mp msp_dev_conf_ext pdt_tape 8 2 1 0
    ∷ item "ACVCELBRE" dev_conf_mp msp_dev_conf_ext pdt_tape 8 1 1 0
    ∷ item "VCELBRE" dev_conf_mp msp_dev_conf_ext pdt_tape 8 0 1 0
    ∷ item "MAX_AP" med_part_mp 0 pdt_tape 2 7 8 mf_j_use_desc
    ∷ item "APD" med_part_mp 0 pdt_tape 3 7 8 mf_j_use_desc
    ∷ item "FDP" med_part_mp 0 pdt_tape 4 7 1 0
    ∷ item "SDP" med_part_mp 0 pdt_tape 4 6 1 0
    ∷ item "IDP" med_part_mp 0 pdt_tape 4 5 1 0
    ∷ item "PSUM" med_part_mp 0 pdt_tape 4 4 2 0
    ∷ item "POFM" med_part_mp 0 pdt_tape 4 2 1 0
    ∷ item "CLEAR" med_part_mp 0 pdt_tape 4 1 1 0
    ∷ item "ADDP" med_part_mp 0 pdt_tape 4 0 1 0
    ∷ item "MFR" med_part_mp 0 pdt_tape 5 7 8 mf_j_use_desc
    ∷ item "PART_T" med_part_mp 0 pdt_tape 6 7 4 mf_j_use_desc
    ∷ item "PART_U" med_part_mp 0 pdt_tape 6 3 4 mf_j_nparam_desc
    ∷ item "P_SZ" med_part_mp 0 pdt_tape 8 7 16 mf_j_use_desc
    ∷ []
