-- ===== src/Tables/Consts/Pages.antt =====
-- Mode page and subpage numbers of src/sdparm.h and src/sdparm_data.c.
use Prim.Native.Nat.{ℕ}

-- Mode page numbers.
abbrev pub unit_attention_mp : ℕ
unit_attention_mp = 0

abbrev pub rw_err_recovery_mp : ℕ
rw_err_recovery_mp = 1

abbrev pub disconnect_mp : ℕ
disconnect_mp = 2

abbrev pub format_mp : ℕ
format_mp = 3

abbrev pub mrw_mp : ℕ
mrw_mp = 3

abbrev pub rigid_disk_mp : ℕ
rigid_disk_mp = 4

abbrev pub flex_disk_mp : ℕ
flex_disk_mp = 5

abbrev pub write_param_mp : ℕ
write_param_mp = 5

abbrev pub rbc_dev_param_mp : ℕ
rbc_dev_param_mp = 6

abbrev pub v_err_recovery_mp : ℕ
v_err_recovery_mp = 7

abbrev pub caching_mp : ℕ
caching_mp = 8

abbrev pub control_mp : ℕ
control_mp = 0xa

abbrev pub notch_mp : ℕ
notch_mp = 0xc

abbrev pub power_old_mp : ℕ
power_old_mp = 0xd

abbrev pub adc_mp : ℕ
adc_mp = 0xe

abbrev pub data_compr_mp : ℕ
data_compr_mp = 0xf

abbrev pub dev_conf_mp : ℕ
dev_conf_mp = 0x10

abbrev pub xor_mp : ℕ
xor_mp = 0x10

abbrev pub med_part_mp : ℕ
med_part_mp = 0x11

abbrev pub es_man_mp : ℕ
es_man_mp = 0x14

abbrev pub prot_spec_lu_mp : ℕ
prot_spec_lu_mp = 0x18

abbrev pub prot_spec_port_mp : ℕ
prot_spec_port_mp = 0x19

abbrev pub power_mp : ℕ
power_mp = 0x1a

abbrev pub lun_mapping_mp : ℕ
lun_mapping_mp = 0x1b

abbrev pub iec_mp : ℕ
iec_mp = 0x1c

abbrev pub ele_addr_ass_mp : ℕ
ele_addr_ass_mp = 0x1d

abbrev pub med_conf_mp : ℕ
med_conf_mp = 0x1d

abbrev pub timeout_prot_mp : ℕ
timeout_prot_mp = 0x1d

abbrev pub trans_geo_par_mp : ℕ
trans_geo_par_mp = 0x1e

abbrev pub dev_cap_mp : ℕ
dev_cap_mp = 0x1f

abbrev pub mmcms_mp : ℕ
mmcms_mp = 0x2a

-- Mode subpage numbers.
abbrev pub msp_adc_tgt_dev : ℕ
msp_adc_tgt_dev = 0x1

abbrev pub msp_back_ctl : ℕ
msp_back_ctl = 1

abbrev pub msp_dev_conf_ext : ℕ
msp_dev_conf_ext = 1

abbrev pub msp_sas_pcd : ℕ
msp_sas_pcd = 1

abbrev pub msp_spc_ce : ℕ
msp_spc_ce = 1

abbrev pub msp_spc_ps : ℕ
msp_spc_ps = 0x1

abbrev pub msp_spi_mc : ℕ
msp_spi_mc = 1

abbrev pub msp_adc_dt_dpp : ℕ
msp_adc_dt_dpp = 0x2

abbrev pub msp_sas_spc : ℕ
msp_sas_spc = 2

abbrev pub msp_sbc_app_tag : ℕ
msp_sbc_app_tag = 0x2

abbrev pub msp_sbc_lb_prov : ℕ
msp_sbc_lb_prov = 0x2

abbrev pub msp_spi_stc : ℕ
msp_spi_stc = 2

abbrev pub msp_adc_lu : ℕ
msp_adc_lu = 0x3

abbrev pub msp_sas_e_phy : ℕ
msp_sas_e_phy = 3

abbrev pub msp_spc_cdla : ℕ
msp_spc_cdla = 0x3

abbrev pub msp_spi_ns : ℕ
msp_spi_ns = 3

abbrev pub msp_adc_td_sn : ℕ
msp_adc_td_sn = 0x4

abbrev pub msp_sas_oob_m_c : ℕ
msp_sas_oob_m_c = 4

abbrev pub msp_spc_cdlb : ℕ
msp_spc_cdlb = 0x4

abbrev pub msp_spi_rtc : ℕ
msp_spi_rtc = 4

abbrev pub msp_sbc_io_advi : ℕ
msp_sbc_io_advi = 0x5

abbrev pub msp_sbc_back_op : ℕ
msp_sbc_back_op = 0x6

abbrev pub msp_spc_cdlt2a : ℕ
msp_spc_cdlt2a = 0x7

abbrev pub msp_spc_cdlt2b : ℕ
msp_spc_cdlt2b = 0x8

abbrev pub msp_zb_d_ctl : ℕ
msp_zb_d_ctl = 0xf

abbrev pub msp_ext_dev_cap : ℕ
msp_ext_dev_cap = 0x41

abbrev pub msp_ssc_cdp : ℕ
msp_ssc_cdp = 0xf0

abbrev pub msp_sat_pata : ℕ
msp_sat_pata = 0xf1

abbrev pub msp_sat_power : ℕ
msp_sat_power = 0xf1

abbrev pub msp_sat_afc : ℕ
msp_sat_afc = 0xf2
