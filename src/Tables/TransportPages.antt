-- ===== src/Tables/TransportPages.antt =====
-- The transports' mode pages of src/sdparm_data.c.
use mathlib.Core.Bool.{true, false}
use mathlib.Core.List.{List, [], ◌∷◌}
use mathlib.Core.Option.{none, some}
use sdparm.Tables.Types.{MpName, page}
use sdparm.Tables.Consts.{
  any_pdt, disconnect_mp, msp_sas_e_phy, msp_sas_oob_m_c, msp_sas_pcd, msp_sas_spc, msp_spi_mc,
  msp_spi_ns, msp_spi_rtc, msp_spi_stc, prot_spec_lu_mp, prot_spec_port_mp,
}
use sdparm.Tables.Descs.{sas_e_phy_desc, sas_oob_m_c_desc, sas_pcd_desc}

-- `sdparm_fcp_mode_pg`.
unfoldable pub fcp_mode_pg : List MpName
fcp_mode_pg =
    page disconnect_mp 0 any_pdt false "dr" "Disconnect-reconnect (FCP)" none
    ∷ page prot_spec_lu_mp 0 any_pdt false "luc" "lu: control (FCP)" none
    ∷ page prot_spec_port_mp 0 any_pdt false "pc" "port: control (FCP)" none
    ∷ page prot_spec_lu_mp 0 any_pdt false "pl" "lu: control (generic name)" none
    ∷ page prot_spec_port_mp 0 any_pdt false "pp" "port: control (generic name)" none
    ∷ []

-- `sdparm_spi_mode_pg`.
unfoldable pub spi_mode_pg : List MpName
spi_mode_pg =
    page disconnect_mp 0 any_pdt false "dr" "Disconnect-reconnect (SPI)" none
    ∷ page prot_spec_lu_mp 0 any_pdt false "luc" "lu: control (SPI)" none
    ∷ page prot_spec_port_mp msp_spi_mc any_pdt false "mc" "port: margin control (SPI)" none
    ∷ page prot_spec_port_mp msp_spi_ns any_pdt false "ns" "port: negotiated settings (SPI)" none
    ∷ page prot_spec_port_mp 0 any_pdt false "psf" "port: short format (SPI)" none
    ∷ page prot_spec_port_mp msp_spi_rtc any_pdt true "rtc"
        "port: report transfer capabilities (SPI)" none
    ∷ page prot_spec_port_mp msp_spi_stc any_pdt false "stc"
        "port: saved training config value (SPI)" none
    ∷ page prot_spec_lu_mp 0 any_pdt false "pl" "lu: control (generic name)" none
    ∷ page prot_spec_port_mp 0 any_pdt false "pp" "port: short format (generic name)" none
    ∷ []

-- `sdparm_srp_mode_pg`.
unfoldable pub srp_mode_pg : List MpName
srp_mode_pg = page disconnect_mp 0 any_pdt false "dr" "Disconnect-reconnect (SRP)" none ∷ []

-- `sdparm_sas_mode_pg`.
unfoldable pub sas_mode_pg : List MpName
sas_mode_pg =
    page disconnect_mp 0 any_pdt false "dr" "Disconnect-reconnect (SAS)" none
    ∷ page prot_spec_port_mp msp_sas_oob_m_c any_pdt false "oobm"
        "Out of band management control (SAS)" (some sas_oob_m_c_desc)
    ∷ page prot_spec_lu_mp 0 any_pdt false "pl" "Protocol specific logical unit (SAS)" none
    ∷ page prot_spec_port_mp msp_sas_pcd any_pdt false "pcd" "Phy control and discover (SAS)"
        (some sas_pcd_desc)
    ∷ page prot_spec_port_mp 0 any_pdt false "pp" "Protocol specific port (SAS)" none
    ∷ page prot_spec_port_mp msp_sas_e_phy any_pdt false "sep" "Enhanced phy control (SAS)"
        (some sas_e_phy_desc)
    ∷ page prot_spec_port_mp msp_sas_spc any_pdt false "spc" "Shared port control (SAS)" none
    ∷ []
