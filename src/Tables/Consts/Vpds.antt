-- ===== src/Tables/Consts/Vpds.antt =====
-- VPD page numbers of src/sdparm.h.
use Prim.Native.Nat.{ℕ}

-- VPD page numbers and selectors.
abbrev pub vpd_supported_vpds : ℕ
vpd_supported_vpds = 0x0

abbrev pub vpd_di_sel_lu : ℕ
vpd_di_sel_lu = 1

abbrev pub vpd_di_sel_tport : ℕ
vpd_di_sel_tport = 2

abbrev pub vpd_di_sel_target : ℕ
vpd_di_sel_target = 4

abbrev pub vpd_di_sel_as_is : ℕ
vpd_di_sel_as_is = 32

abbrev pub vpd_unit_serial_num : ℕ
vpd_unit_serial_num = 0x80

abbrev pub vpd_imp_op_def : ℕ
vpd_imp_op_def = 0x81

abbrev pub vpd_ascii_op_def : ℕ
vpd_ascii_op_def = 0x82

abbrev pub vpd_device_id : ℕ
vpd_device_id = 0x83

abbrev pub vpd_softw_inf_id : ℕ
vpd_softw_inf_id = 0x84

abbrev pub vpd_man_net_addr : ℕ
vpd_man_net_addr = 0x85

abbrev pub vpd_ext_inq : ℕ
vpd_ext_inq = 0x86

abbrev pub vpd_mode_pg_policy : ℕ
vpd_mode_pg_policy = 0x87

abbrev pub vpd_scsi_ports : ℕ
vpd_scsi_ports = 0x88

abbrev pub vpd_ata_info : ℕ
vpd_ata_info = 0x89

abbrev pub vpd_power_condition : ℕ
vpd_power_condition = 0x8a

abbrev pub vpd_device_constituents : ℕ
vpd_device_constituents = 0x8b

abbrev pub vpd_cfa_profile_info : ℕ
vpd_cfa_profile_info = 0x8c

abbrev pub vpd_power_consumption : ℕ
vpd_power_consumption = 0x8d

abbrev pub vpd_3party_copy : ℕ
vpd_3party_copy = 0x8f

abbrev pub vpd_proto_lu : ℕ
vpd_proto_lu = 0x90

abbrev pub vpd_proto_port : ℕ
vpd_proto_port = 0x91

abbrev pub vpd_scsi_feature_sets : ℕ
vpd_scsi_feature_sets = 0x92

abbrev pub vpd_block_limits : ℕ
vpd_block_limits = 0xb0

abbrev pub vpd_osd_info : ℕ
vpd_osd_info = 0xb0

abbrev pub vpd_sa_dev_cap : ℕ
vpd_sa_dev_cap = 0xb0

abbrev pub vpd_block_dev_chars : ℕ
vpd_block_dev_chars = 0xb1

abbrev pub vpd_man_ass_sn : ℕ
vpd_man_ass_sn = 0xb1

abbrev pub vpd_lb_provisioning : ℕ
vpd_lb_provisioning = 0xb2

abbrev pub vpd_ta_supported : ℕ
vpd_ta_supported = 0xb2

abbrev pub vpd_automation_dev_sn : ℕ
vpd_automation_dev_sn = 0xb3

abbrev pub vpd_referrals : ℕ
vpd_referrals = 0xb3

abbrev pub vpd_dtde_address : ℕ
vpd_dtde_address = 0xb4

abbrev pub vpd_sup_block_lens : ℕ
vpd_sup_block_lens = 0xb4

abbrev pub vpd_block_dev_c_extens : ℕ
vpd_block_dev_c_extens = 0xb5

abbrev pub vpd_lb_protection : ℕ
vpd_lb_protection = 0xb5

abbrev pub vpd_zbc_dev_chars : ℕ
vpd_zbc_dev_chars = 0xb6

abbrev pub vpd_block_limits_ext : ℕ
vpd_block_limits_ext = 0xb7

abbrev pub vpd_format_presets : ℕ
vpd_format_presets = 0xb8

abbrev pub vpd_con_pos_range : ℕ
vpd_con_pos_range = 0xb9

abbrev pub sg_nvme_vpd_nicr : ℕ
sg_nvme_vpd_nicr = 0xde
