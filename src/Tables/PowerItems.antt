-- ===== src/Tables/PowerItems.antt =====
-- Part of sdparm_mitem_arr of src/sdparm_data.c: the items of generic mode pages.
use Prim.Native.Nat.{bit_or}
use mathlib.Core.List.{List, [], ◌∷◌}
use sdparm.Tables.Types.{MpItem, item}
use sdparm.Tables.Consts.{
  any_pdt, ele_addr_ass_mp, es_man_mp, iec_mp, lun_mapping_mp, med_conf_mp, mf_common, mf_hex,
  mf_j_nparam_desc, mf_j_use_desc, msp_back_ctl, msp_sat_power, msp_sbc_lb_prov, msp_spc_ps,
  pdt_disk, pdt_disk_zbc, pdt_mchanger, pdt_mmc, pdt_sac, pdt_ses, pdt_tape, power_mp,
  prot_spec_lu_mp, prot_spec_port_mp, timeout_prot_mp, trans_geo_par_mp,
}

-- Pages 0x14 to 0x1b: enclosure, protocol specific, power condition, LUN mapping.
unfoldable pub power_items : List MpItem
power_items =
    item "ENBLTC" es_man_mp 0 pdt_ses 5 0 1 mf_common
    ∷ item "MTCT" es_man_mp 0 pdt_ses 6 7 16 (bit_or mf_common mf_j_nparam_desc)
    ∷ item "LUPID" prot_spec_lu_mp 0 any_pdt 2 3 4 0
    ∷ item "PPID" prot_spec_port_mp 0 any_pdt 2 3 4 0
    ∷ item "PM_BG" power_mp 0 any_pdt 2 7 2 0
    ∷ item "STANDBY_Y" power_mp 0 any_pdt 2 0 1 0
    ∷ item "IDLE_C" power_mp 0 any_pdt 3 3 1 0
    ∷ item "IDLE_B" power_mp 0 any_pdt 3 2 1 0
    ∷ item "IDLE_A" power_mp 0 any_pdt 3 1 1 0
    ∷ item "STANDBY_Z" power_mp 0 any_pdt 3 0 1 0
    ∷ item "IACT" power_mp 0 any_pdt 4 7 32 mf_j_nparam_desc
    ∷ item "SZCT" power_mp 0 any_pdt 8 7 32 mf_j_nparam_desc
    ∷ item "IBCT" power_mp 0 any_pdt 12 7 32 mf_j_nparam_desc
    ∷ item "ICCT" power_mp 0 any_pdt 16 7 32 mf_j_nparam_desc
    ∷ item "SYCT" power_mp 0 any_pdt 20 7 32 mf_j_nparam_desc
    ∷ item "CCF_IDLE" power_mp 0 any_pdt 39 7 2 0
    ∷ item "CCF_STAND" power_mp 0 any_pdt 39 5 2 0
    ∷ item "CCF_STOPP" power_mp 0 any_pdt 39 3 2 0
    ∷ item "ACT_LEV" power_mp msp_spc_ps any_pdt 6 1 2 mf_j_use_desc
    ∷ item "PC_ID" power_mp msp_spc_ps any_pdt 7 7 8 mf_j_use_desc
    ∷ item "APMP" power_mp msp_sat_power any_pdt 5 0 1 0
    ∷ item "APM" power_mp msp_sat_power any_pdt 6 7 8 0
    ∷ item "LM_ACT" lun_mapping_mp 0 pdt_sac 3 0 1 mf_j_use_desc
    ∷ item "LUN1_MAP" lun_mapping_mp 0 pdt_sac 4 7 64 (bit_or mf_hex mf_j_use_desc)
    ∷ item "LUN2_MAP" lun_mapping_mp 0 pdt_sac 12 7 64 (bit_or mf_hex mf_j_use_desc)
    ∷ item "LUN3_MAP" lun_mapping_mp 0 pdt_sac 20 7 64 (bit_or mf_hex mf_j_use_desc)
    ∷ item "LUN4_MAP" lun_mapping_mp 0 pdt_sac 28 7 64 (bit_or mf_hex mf_j_use_desc)
    ∷ item "LUN5_MAP" lun_mapping_mp 0 pdt_sac 36 7 64 (bit_or mf_hex mf_j_use_desc)
    ∷ item "LUN6_MAP" lun_mapping_mp 0 pdt_sac 44 7 64 (bit_or mf_hex mf_j_use_desc)
    ∷ item "LUN7_MAP" lun_mapping_mp 0 pdt_sac 52 7 64 (bit_or mf_hex mf_j_use_desc)
    ∷ item "LUN8_MAP" lun_mapping_mp 0 pdt_sac 60 7 64 (bit_or mf_hex mf_j_use_desc)
    ∷ item "LUN9_MAP" lun_mapping_mp 0 pdt_sac 68 7 64 (bit_or mf_hex mf_j_use_desc)
    ∷ item "LUN10_MAP" lun_mapping_mp 0 pdt_sac 76 7 64 (bit_or mf_hex mf_j_use_desc)
    ∷ item "LUN11_MAP" lun_mapping_mp 0 pdt_sac 84 7 64 (bit_or mf_hex mf_j_use_desc)
    ∷ item "LUN12_MAP" lun_mapping_mp 0 pdt_sac 92 7 64 (bit_or mf_hex mf_j_use_desc)
    ∷ item "LUN13_MAP" lun_mapping_mp 0 pdt_sac 100 7 64 (bit_or mf_hex mf_j_use_desc)
    ∷ item "LUN14_MAP" lun_mapping_mp 0 pdt_sac 108 7 64 (bit_or mf_hex mf_j_use_desc)
    ∷ item "LUN15_MAP" lun_mapping_mp 0 pdt_sac 116 7 64 (bit_or mf_hex mf_j_use_desc)
    ∷ item "LUN16_MAP" lun_mapping_mp 0 pdt_sac 124 7 64 (bit_or mf_hex mf_j_use_desc)
    ∷ item "LUN17_MAP" lun_mapping_mp 0 pdt_sac 132 7 64 (bit_or mf_hex mf_j_use_desc)
    ∷ item "LUN18_MAP" lun_mapping_mp 0 pdt_sac 140 7 64 (bit_or mf_hex mf_j_use_desc)
    ∷ item "LUN19_MAP" lun_mapping_mp 0 pdt_sac 148 7 64 (bit_or mf_hex mf_j_use_desc)
    ∷ item "LUN20_MAP" lun_mapping_mp 0 pdt_sac 156 7 64 (bit_or mf_hex mf_j_use_desc)
    ∷ item "LUN21_MAP" lun_mapping_mp 0 pdt_sac 164 7 64 (bit_or mf_hex mf_j_use_desc)
    ∷ item "LUN22_MAP" lun_mapping_mp 0 pdt_sac 172 7 64 (bit_or mf_hex mf_j_use_desc)
    ∷ item "LUN23_MAP" lun_mapping_mp 0 pdt_sac 180 7 64 (bit_or mf_hex mf_j_use_desc)
    ∷ item "LUN24_MAP" lun_mapping_mp 0 pdt_sac 188 7 64 (bit_or mf_hex mf_j_use_desc)
    ∷ item "LUN25_MAP" lun_mapping_mp 0 pdt_sac 196 7 64 (bit_or mf_hex mf_j_use_desc)
    ∷ item "LUN26_MAP" lun_mapping_mp 0 pdt_sac 204 7 64 (bit_or mf_hex mf_j_use_desc)
    ∷ item "LN27_MAP" lun_mapping_mp 0 pdt_sac 212 7 64 (bit_or mf_hex mf_j_use_desc)
    ∷ item "LUN28_MAP" lun_mapping_mp 0 pdt_sac 220 7 64 (bit_or mf_hex mf_j_use_desc)
    ∷ item "LUN29_MAP" lun_mapping_mp 0 pdt_sac 228 7 64 (bit_or mf_hex mf_j_use_desc)
    ∷ item "LUN30_MAP" lun_mapping_mp 0 pdt_sac 236 7 64 (bit_or mf_hex mf_j_use_desc)
    ∷ item "LUN31_MAP" lun_mapping_mp 0 pdt_sac 244 7 64 (bit_or mf_hex mf_j_use_desc)
    ∷ []

-- Pages 0x1c to 0x1e: informational exceptions, provisioning, medium configuration, MMC, changers.
unfoldable pub exceptions_items : List MpItem
exceptions_items =
    item "PERF" iec_mp 0 any_pdt 2 7 1 0
    ∷ item "EBF" iec_mp 0 any_pdt 2 5 1 0
    ∷ item "EWASC" iec_mp 0 any_pdt 2 4 1 mf_common
    ∷ item "DEXCPT" iec_mp 0 any_pdt 2 3 1 mf_common
    ∷ item "TEST" iec_mp 0 any_pdt 2 2 1 0
    ∷ item "EBACKERR" iec_mp 0 any_pdt 2 1 1 0
    ∷ item "LOGERR" iec_mp 0 any_pdt 2 0 1 0
    ∷ item "MRIE" iec_mp 0 any_pdt 3 3 4 mf_common
    ∷ item "INTT" iec_mp 0 any_pdt 4 7 32 mf_j_nparam_desc
    ∷ item "REPC" iec_mp 0 any_pdt 8 7 32 mf_j_nparam_desc
    ∷ item "S_L_FULL" iec_mp msp_back_ctl pdt_disk_zbc 4 2 1 0
    ∷ item "LOWIR" iec_mp msp_back_ctl pdt_disk_zbc 4 1 1 0
    ∷ item "EN_BMS" iec_mp msp_back_ctl pdt_disk_zbc 4 0 1 0
    ∷ item "EN_PS" iec_mp msp_back_ctl pdt_disk_zbc 5 0 1 0
    ∷ item "BMS_I" iec_mp msp_back_ctl pdt_disk_zbc 6 7 16 mf_j_nparam_desc
    ∷ item "BPS_TL" iec_mp msp_back_ctl pdt_disk_zbc 8 7 16 mf_j_nparam_desc
    ∷ item "MIN_IDLE" iec_mp msp_back_ctl pdt_disk_zbc 10 7 16 mf_j_nparam_desc
    ∷ item "MAX_SUSP" iec_mp msp_back_ctl pdt_disk_zbc 12 7 16 mf_j_nparam_desc
    ∷ item "SITUA" iec_mp msp_sbc_lb_prov pdt_disk 4 0 1 0
    ∷ item "LBP_EN" iec_mp msp_sbc_lb_prov pdt_disk 16 7 1 0
    ∷ item "LBP_TYPE" iec_mp msp_sbc_lb_prov pdt_disk 16 5 3 mf_j_use_desc
    ∷ item "LBP_ARM" iec_mp msp_sbc_lb_prov pdt_disk 16 2 3 mf_j_use_desc
    ∷ item "LBP_RES" iec_mp msp_sbc_lb_prov pdt_disk 17 7 8 mf_j_use_desc
    ∷ item "LBP_COUNT" iec_mp msp_sbc_lb_prov pdt_disk 20 7 32 mf_j_use_desc
    ∷ item "WORMM" med_conf_mp 0 pdt_tape 2 0 1 0
    ∷ item "WMLR" med_conf_mp 0 pdt_tape 4 7 8 mf_j_use_desc
    ∷ item "WMFR" med_conf_mp 0 pdt_tape 5 7 8 mf_j_use_desc
    ∷ item "G3E" timeout_prot_mp 0 pdt_mmc 4 3 1 0
    ∷ item "TMOE" timeout_prot_mp 0 pdt_mmc 4 2 1 0
    ∷ item "DISP" timeout_prot_mp 0 pdt_mmc 4 1 1 0
    ∷ item "SWPP" timeout_prot_mp 0 pdt_mmc 4 0 1 0
    ∷ item "G1MT" timeout_prot_mp 0 pdt_mmc 6 7 16 0
    ∷ item "G2MT" timeout_prot_mp 0 pdt_mmc 8 7 16 0
    ∷ item "FMTEA" ele_addr_ass_mp 0 pdt_mchanger 2 7 16 mf_j_use_desc
    ∷ item "NMTE" ele_addr_ass_mp 0 pdt_mchanger 4 7 16 mf_j_use_desc
    ∷ item "FSEA" ele_addr_ass_mp 0 pdt_mchanger 6 7 16 mf_j_use_desc
    ∷ item "NSE" ele_addr_ass_mp 0 pdt_mchanger 8 7 16 mf_j_use_desc
    ∷ item "FIEEA" ele_addr_ass_mp 0 pdt_mchanger 10 7 16 mf_j_use_desc
    ∷ item "NIEE" ele_addr_ass_mp 0 pdt_mchanger 12 7 16 mf_j_use_desc
    ∷ item "FDTEA" ele_addr_ass_mp 0 pdt_mchanger 14 7 16 mf_j_use_desc
    ∷ item "NDTE" ele_addr_ass_mp 0 pdt_mchanger 16 7 16 mf_j_use_desc
    ∷ item "ROTAT" trans_geo_par_mp 0 pdt_mchanger 2 0 1 0
    ∷ item "MNTES" trans_geo_par_mp 0 pdt_mchanger 3 7 8 mf_j_use_desc
    ∷ []
