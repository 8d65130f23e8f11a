-- ===== src/Tables/GenericPages.antt =====
-- The generic mode pages of src/sdparm_data.c.
use mathlib.Core.Bool.{true, false}
use mathlib.Core.List.{List, [], ◌∷◌}
use mathlib.Core.Option.{none, some}
use sdparm.Prelude.Int.{pos}
use sdparm.Tables.Types.{MpName, page}
use sdparm.Tables.Consts.{
  adc_mp, any_pdt, caching_mp, control_mp, data_compr_mp, dev_cap_mp, dev_conf_mp, disconnect_mp,
  ele_addr_ass_mp, es_man_mp, flex_disk_mp, format_mp, iec_mp, lun_mapping_mp, med_conf_mp,
  med_part_mp, mmcms_mp, mrw_mp, msp_adc_dt_dpp, msp_adc_lu, msp_adc_td_sn, msp_adc_tgt_dev,
  msp_back_ctl, msp_dev_conf_ext, msp_ext_dev_cap, msp_sat_afc, msp_sat_pata, msp_sat_power,
  msp_sbc_app_tag, msp_sbc_back_op, msp_sbc_io_advi, msp_sbc_lb_prov, msp_spc_cdla, msp_spc_cdlb,
  msp_spc_cdlt2a, msp_spc_cdlt2b, msp_spc_ce, msp_spc_ps, msp_ssc_cdp, msp_zb_d_ctl, notch_mp,
  pdt_adc, pdt_disk, pdt_disk_zbc, pdt_mchanger, pdt_mmc, pdt_rbc, pdt_sac, pdt_ses, pdt_tape,
  power_mp, power_old_mp, prot_spec_lu_mp, prot_spec_port_mp, rbc_dev_param_mp, rigid_disk_mp,
  rw_err_recovery_mp, timeout_prot_mp, trans_geo_par_mp, v_err_recovery_mp, write_param_mp, xor_mp,
}
use sdparm.Tables.Descs.{
  sbc_atag_desc, sbc_ioadvi_desc, sbc_lbp_desc, smc_tg_desc, spc_cdl_desc, spc_cdl_t2_desc,
  ssc_mpa_desc,
}

-- `sdparm_gen_mode_pg`.
unfoldable pub gen_mode_pg : List MpName
gen_mode_pg =
    page adc_mp msp_adc_dt_dpp pdt_adc false "addp" "DT device primary port (ADC)" none
    ∷ page adc_mp msp_adc_lu pdt_adc false "adlu" "logical unit (ADC)" none
    ∷ page adc_mp msp_adc_tgt_dev pdt_adc false "adtd" "Target device (ADC)" none
    ∷ page adc_mp msp_adc_td_sn pdt_adc false "adts" "Target device serial number (ADC)" none
    ∷ page control_mp msp_sat_afc any_pdt false "afc" "SAT ATA Feature control" none
    ∷ page power_mp msp_sat_power any_pdt false "apo" "SAT ATA Power condition" none
    ∷ page control_mp msp_sbc_app_tag pdt_disk_zbc false "atag" "Application tag (SBC)"
        (some sbc_atag_desc)
    ∷ page iec_mp msp_back_ctl pdt_disk_zbc false "bc" "Background control (SBC)" none
    ∷ page control_mp msp_sbc_back_op pdt_disk false "bop" "Background operation control (SBC)" none
    ∷ page caching_mp 0 pdt_disk_zbc false "ca" "Caching (SBC)" none
    ∷ page control_mp msp_spc_cdla any_pdt false "cdla" "Command duration limit A"
        (some spc_cdl_desc)
    ∷ page control_mp msp_spc_cdlb any_pdt false "cdlb" "Command duration limit B"
        (some spc_cdl_desc)
    ∷ page control_mp msp_spc_cdlt2a any_pdt false "cdt2a" "Command duration limit T2A"
        (some spc_cdl_t2_desc)
    ∷ page control_mp msp_spc_cdlt2b any_pdt false "cdt2b" "Command duration limit T2B"
        (some spc_cdl_t2_desc)
    ∷ page mmcms_mp 0 pdt_mmc true "cms" "CD/DVD (MM) capabilities and mechanical status (MMC)" none
    ∷ page control_mp 0 any_pdt false "co" "Control" none
    ∷ page control_mp msp_spc_ce any_pdt false "coe" "Control extension" none
    ∷ page control_mp msp_ssc_cdp any_pdt false "cdp" "Control data protection (SSC)" none
    ∷ page data_compr_mp 0 pdt_tape false "dac" "Data compression (SSC)" none
    ∷ page dev_conf_mp 0 pdt_tape false "dc" "Device configuration (SSC)" none
    ∷ page dev_cap_mp 0 pdt_mchanger false "dca" "Device capabilities (SMC)" none
    ∷ page dev_conf_mp msp_dev_conf_ext pdt_tape false "dce" "Device configuration extension (SSC)"
        none
    ∷ page disconnect_mp 0 any_pdt false "dr" "Disconnect-reconnect (SPC + transports)" none
    ∷ page ele_addr_ass_mp 0 pdt_mchanger false "eaa" "Element address assignment (SMC)" none
    ∷ page dev_cap_mp msp_ext_dev_cap pdt_mchanger false "edc" "Extended device capabilities (SMC)"
        none
    ∷ page es_man_mp 0 pdt_ses false "esm" "Enclosure services management (SES)" none
    ∷ page flex_disk_mp 0 pdt_disk false "fd" "Flexible disk (SBC)" none
    ∷ page format_mp 0 pdt_disk false "fo" "Format (SBC)" none
    ∷ page iec_mp 0 any_pdt false "ie" "Informational exceptions control" none
    ∷ page control_mp msp_sbc_io_advi (pos 0) false "ioad" "IO advice hints grouping"
        (some sbc_ioadvi_desc)
    ∷ page iec_mp msp_sbc_lb_prov pdt_disk false "lbp" "Logical block provisioning (SBC)"
        (some sbc_lbp_desc)
    ∷ page lun_mapping_mp 0 pdt_sac false "lmap" "LUN mapping (SCC)" (some sbc_lbp_desc)
    ∷ page med_conf_mp 0 pdt_tape false "mco" "Medium configuration (SSC)" none
    ∷ page med_part_mp 0 pdt_tape false "mpa" "Medium partition (SSC)" (some ssc_mpa_desc)
    ∷ page mrw_mp 0 pdt_mmc false "mrw" "Mount rainier reWritable (MMC)" none
    ∷ page notch_mp 0 pdt_disk false "not" "Notch and partition (SBC)" none
    ∷ page control_mp msp_sat_pata any_pdt false "pat" "pATA control" none
    ∷ page prot_spec_lu_mp 0 any_pdt false "pl" "Protocol specific logical unit" none
    ∷ page power_mp 0 any_pdt false "po" "Power condition" none
    ∷ page power_mp msp_spc_ps any_pdt false "ps" "Power consumption" none
    ∷ page power_old_mp 0 pdt_disk false "poo" "Power condition - old version" none
    ∷ page prot_spec_port_mp 0 any_pdt false "pp" "Protocol specific port" none
    ∷ page rbc_dev_param_mp 0 pdt_rbc false "rbc" "RBC device parameters (RBC)" none
    ∷ page rigid_disk_mp 0 pdt_disk false "rd" "Rigid disk (SBC)" none
    ∷ page rw_err_recovery_mp 0 any_pdt false "rw" "Read write error recovery" none
    ∷ page trans_geo_par_mp 0 pdt_mchanger false "tgp" "Transport geometry parameters (SMC)"
        (some smc_tg_desc)
    ∷ page timeout_prot_mp 0 pdt_mmc false "tp" "Timeout and protect (MMC)" none
    ∷ page v_err_recovery_mp 0 pdt_disk_zbc false "ve" "Verify error recovery (SBC)" none
    ∷ page write_param_mp 0 pdt_mmc false "wp" "Write parameters (MMC)" none
    ∷ page xor_mp 0 pdt_disk false "xo" "XOR control (SBC)" none
    ∷ page control_mp msp_zb_d_ctl pdt_disk_zbc false "zbdct" "Zoned block device control (ZBC)"
        none
    ∷ []
