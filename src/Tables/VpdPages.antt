-- ===== src/Tables/VpdPages.antt =====
-- The VPD pages of src/sdparm_data.c. Page -2 stands for the standard INQUIRY response.
use mathlib.Core.List.{List, [], ◌∷◌}
use sdparm.Prelude.Int.{pos, negsuc}
use sdparm.Tables.Types.{VpdPage, vpd_page}
use sdparm.Tables.Consts.{
  any_pdt, pdt_adc, pdt_disk, pdt_osd, pdt_tape, sg_nvme_vpd_nicr, vpd_3party_copy,
  vpd_ascii_op_def, vpd_ata_info, vpd_automation_dev_sn, vpd_block_dev_c_extens,
  vpd_block_dev_chars, vpd_block_limits, vpd_block_limits_ext, vpd_cfa_profile_info,
  vpd_con_pos_range, vpd_device_constituents, vpd_device_id, vpd_di_sel_as_is, vpd_di_sel_lu,
  vpd_di_sel_target, vpd_di_sel_tport, vpd_dtde_address, vpd_ext_inq, vpd_format_presets,
  vpd_imp_op_def, vpd_lb_protection, vpd_lb_provisioning, vpd_man_ass_sn, vpd_man_net_addr,
  vpd_mode_pg_policy, vpd_osd_info, vpd_power_condition, vpd_power_consumption, vpd_proto_lu,
  vpd_proto_port, vpd_referrals, vpd_sa_dev_cap, vpd_scsi_feature_sets, vpd_scsi_ports,
  vpd_softw_inf_id, vpd_sup_block_lens, vpd_supported_vpds, vpd_ta_supported, vpd_unit_serial_num,
  vpd_zbc_dev_chars,
}

-- `sdparm_vpd_pg`.
unfoldable pub vpd_pg : List VpdPage
vpd_pg =
    vpd_page (pos vpd_ata_info) 0 any_pdt "ai" "ATA information (SAT)"
    ∷ vpd_page (pos vpd_ascii_op_def) 0 any_pdt "aod" "ASCII implemented operating definition (obs)"
    ∷ vpd_page (pos vpd_automation_dev_sn) 0 pdt_tape "adsn" "Automation device serial number (SSC)"
    ∷ vpd_page (pos vpd_block_dev_chars) 0 pdt_disk "bdc" "Block device characteristics (SBC)"
    ∷ vpd_page (pos vpd_block_dev_c_extens) 0 pdt_disk "bdce"
        "Block device characteristics extension (SBC)"
    ∷ vpd_page (pos vpd_block_limits) 0 pdt_disk "bl" "Block limits (SBC)"
    ∷ vpd_page (pos vpd_block_limits_ext) 0 pdt_disk "ble" "Block limits extension (SBC)"
    ∷ vpd_page (pos vpd_cfa_profile_info) 0 any_pdt "cfa" "CFA profile information"
    ∷ vpd_page (pos vpd_con_pos_range) 0 (pos 0) "cpr" "Concurrent positioning ranges (SBC)"
    ∷ vpd_page (pos vpd_device_constituents) 0 any_pdt "dc" "Device constituents"
    ∷ vpd_page (pos vpd_device_id) 0 any_pdt "di" "Device identification"
    ∷ vpd_page (pos vpd_device_id) vpd_di_sel_as_is any_pdt "di_asis"
        "Like 'di' but designators ordered as found"
    ∷ vpd_page (pos vpd_device_id) vpd_di_sel_lu any_pdt "di_lu" "Device identification, lu only"
    ∷ vpd_page (pos vpd_device_id) vpd_di_sel_tport any_pdt "di_port"
        "Device identification, target port only"
    ∷ vpd_page (pos vpd_device_id) vpd_di_sel_target any_pdt "di_target"
        "Device identification, target device only"
    ∷ vpd_page (pos vpd_dtde_address) 0 (pos 1) "dtde" "Data transfer device element address (SSC)"
    ∷ vpd_page (pos vpd_ext_inq) 0 any_pdt "ei" "Extended inquiry data"
    ∷ vpd_page (pos vpd_format_presets) 0 (pos 0) "fp" "Format presets (SBC)"
    ∷ vpd_page (pos vpd_imp_op_def) 0 any_pdt "iod" "Implemented operating definition (obs)"
    ∷ vpd_page (pos vpd_lb_protection) 0 pdt_tape "lbpro" "Logical block protection (SSC)"
    ∷ vpd_page (pos vpd_lb_provisioning) 0 pdt_disk "lbpv" "Logical block provisioning (SBC)"
    ∷ vpd_page (pos vpd_man_ass_sn) 0 pdt_tape "mas" "Manufacturer assigned serial number (SSC)"
    ∷ vpd_page (pos vpd_man_ass_sn) 0 pdt_adc "masa" "Manufacturer assigned serial number (ADC)"
    ∷ vpd_page (pos vpd_man_net_addr) 0 any_pdt "mna" "Management network addresses"
    ∷ vpd_page (pos vpd_mode_pg_policy) 0 any_pdt "mpp" "Mode page policy"
    ∷ vpd_page (pos sg_nvme_vpd_nicr) 0 any_pdt "nicr" "NVMe Identify controller response"
    ∷ vpd_page (pos vpd_osd_info) 0 pdt_osd "oi" "OSD information"
    ∷ vpd_page (pos vpd_power_condition) 0 any_pdt "pc" "Power condition"
    ∷ vpd_page (pos vpd_power_consumption) 0 any_pdt "psm" "Power consumption"
    ∷ vpd_page (pos vpd_proto_lu) 0 any_pdt "pslu" "Protocol-specific logical unit information"
    ∷ vpd_page (pos vpd_proto_port) 0 any_pdt "pspo" "Protocol-specific port information"
    ∷ vpd_page (pos vpd_referrals) 0 pdt_disk "ref" "Referrals (SBC)"
    ∷ vpd_page (pos vpd_sa_dev_cap) 0 pdt_tape "sad" "Sequential access device capabilities (SSC)"
    ∷ vpd_page (pos vpd_scsi_feature_sets) 0 any_pdt "sfs" "SCSI Feature sets"
    ∷ vpd_page (pos vpd_softw_inf_id) 0 any_pdt "sii" "Software interface identification"
    ∷ vpd_page (negsuc 1) 0 any_pdt "sinq" "Standard inquiry response"
    ∷ vpd_page (pos vpd_unit_serial_num) 0 any_pdt "sn" "Unit serial number"
    ∷ vpd_page (pos vpd_scsi_ports) 0 any_pdt "sp" "SCSI ports"
    ∷ vpd_page (pos vpd_sup_block_lens) 0 pdt_disk "sbl"
        "Supported block lengths and protection types (SBC)"
    ∷ vpd_page (pos vpd_supported_vpds) 0 any_pdt "sv" "Supported VPD pages"
    ∷ vpd_page (pos vpd_ta_supported) 0 pdt_tape "tas" "TapeAlert supported flags (SSC)"
    ∷ vpd_page (pos vpd_3party_copy) 0 any_pdt "tpc" "Third party copy (SPC + SBC)"
    ∷ vpd_page (pos vpd_zbc_dev_chars) 0 any_pdt "zbdch"
        "Zoned block device characteristics (SBC + ZBC)"
    ∷ []
