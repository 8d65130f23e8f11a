-- ===== src/Tables/TransportItems.antt =====
-- The items of the FCP, SPI and SRP mode pages in src/sdparm_data.c.
use Prim.Native.Nat.{bit_or}
use mathlib.Core.List.{List, [], ◌∷◌}
use sdparm.Tables.Types.{MpItem, item}
use sdparm.Tables.Consts.{
  any_pdt, disconnect_mp, mf_clash_ok, mf_common, mf_hex, mf_j_nparam_desc, mf_j_use_desc,
  msp_spi_mc, msp_spi_ns, msp_spi_rtc, msp_spi_stc, prot_spec_lu_mp, prot_spec_port_mp,
}

-- Fibre Channel.
unfoldable pub fcp_items : List MpItem
fcp_items =
    item "BFR" disconnect_mp 0 any_pdt 2 7 8 mf_j_use_desc
    ∷ item "BER" disconnect_mp 0 any_pdt 3 7 8 mf_j_use_desc
    ∷ item "BIL" disconnect_mp 0 any_pdt 4 7 16 (bit_or mf_common mf_j_nparam_desc)
    ∷ item "DTL" disconnect_mp 0 any_pdt 6 7 16 (bit_or mf_common mf_j_nparam_desc)
    ∷ item "CTL" disconnect_mp 0 any_pdt 8 7 16 (bit_or mf_common mf_j_nparam_desc)
    ∷ item "MBS" disconnect_mp 0 any_pdt 10 7 16
        (bit_or mf_common (bit_or mf_clash_ok mf_j_nparam_desc))
    ∷ item "EMDP" disconnect_mp 0 any_pdt 12 7 1 mf_clash_ok
    ∷ item "FAA" disconnect_mp 0 any_pdt 12 6 1 0
    ∷ item "FAB" disconnect_mp 0 any_pdt 12 5 1 0
    ∷ item "FAC" disconnect_mp 0 any_pdt 12 4 1 0
    ∷ item "FBS" disconnect_mp 0 any_pdt 14 7 16 (bit_or mf_clash_ok mf_j_nparam_desc)
    ∷ item "LUPID" prot_spec_lu_mp 0 any_pdt 2 3 4 (bit_or mf_common mf_clash_ok)
    ∷ item "EPDC" prot_spec_lu_mp 0 any_pdt 3 0 1 mf_common
    ∷ item "PPID" prot_spec_port_mp 0 any_pdt 2 3 4 (bit_or mf_common mf_clash_ok)
    ∷ item "DTFD" prot_spec_port_mp 0 any_pdt 3 7 1 mf_common
    ∷ item "PLPB" prot_spec_port_mp 0 any_pdt 3 6 1 mf_common
    ∷ item "DDIS" prot_spec_port_mp 0 any_pdt 3 5 1 0
    ∷ item "DLM" prot_spec_port_mp 0 any_pdt 3 4 1 0
    ∷ item "RHA" prot_spec_port_mp 0 any_pdt 3 3 1 0
    ∷ item "ALWI" prot_spec_port_mp 0 any_pdt 3 2 1 0
    ∷ item "DTIPE" prot_spec_port_mp 0 any_pdt 3 1 1 0
    ∷ item "DTOLI" prot_spec_port_mp 0 any_pdt 3 0 1 0
    ∷ item "RRTVU" prot_spec_port_mp 0 any_pdt 6 2 3 mf_clash_ok
    ∷ item "RR_TOV" prot_spec_port_mp 0 any_pdt 6 2 3 mf_clash_ok
    ∷ item "SIRRTV" prot_spec_port_mp 0 any_pdt 7 7 8 mf_j_use_desc
    ∷ []

-- Parallel SCSI.
unfoldable pub spi_items : List MpItem
spi_items =
    item "BFR" disconnect_mp 0 any_pdt 2 7 8 mf_j_use_desc
    ∷ item "BER" disconnect_mp 0 any_pdt 3 7 8 mf_j_use_desc
    ∷ item "BIL" disconnect_mp 0 any_pdt 4 7 16 (bit_or mf_common mf_j_nparam_desc)
    ∷ item "PDTL" disconnect_mp 0 any_pdt 6 7 16 (bit_or mf_common mf_j_nparam_desc)
    ∷ item "CTL" disconnect_mp 0 any_pdt 8 7 16 (bit_or mf_common mf_j_nparam_desc)
    ∷ item "MBS" disconnect_mp 0 any_pdt 10 7 16
        (bit_or mf_common (bit_or mf_clash_ok mf_j_nparam_desc))
    ∷ item "EMDP" disconnect_mp 0 any_pdt 12 7 1 (bit_or mf_clash_ok mf_j_use_desc)
    ∷ item "FA" disconnect_mp 0 any_pdt 12 6 3 mf_j_use_desc
    ∷ item "DIMM" disconnect_mp 0 any_pdt 12 3 1 mf_j_use_desc
    ∷ item "DTDC" disconnect_mp 0 any_pdt 12 2 3 mf_j_use_desc
    ∷ item "LUPID" prot_spec_lu_mp 0 any_pdt 2 3 4 (bit_or mf_common mf_clash_ok)
    ∷ item "PPID" prot_spec_port_mp 0 any_pdt 2 3 4 (bit_or mf_common mf_clash_ok)
    ∷ item "STT" prot_spec_port_mp 0 any_pdt 4 7 16 (bit_or mf_common mf_j_nparam_desc)
    ∷ item "PPID_1" prot_spec_port_mp msp_spi_mc any_pdt 5 3 4 0
    ∷ item "DS" prot_spec_port_mp msp_spi_mc any_pdt 7 7 4 mf_j_use_desc
    ∷ item "DA" prot_spec_port_mp msp_spi_mc any_pdt 8 7 4 mf_j_use_desc
    ∷ item "DP" prot_spec_port_mp msp_spi_mc any_pdt 8 3 4 mf_j_use_desc
    ∷ item "DSR" prot_spec_port_mp msp_spi_mc any_pdt 9 7 4 mf_j_use_desc
    ∷ item "PPID_2" prot_spec_port_mp msp_spi_stc any_pdt 5 3 4 0
    ∷ item "DB0" prot_spec_port_mp msp_spi_stc any_pdt 10 7 32 (bit_or mf_hex mf_j_use_desc)
    ∷ item "DB1" prot_spec_port_mp msp_spi_stc any_pdt 14 7 32 (bit_or mf_hex mf_j_use_desc)
    ∷ item "DB2" prot_spec_port_mp msp_spi_stc any_pdt 18 7 32 (bit_or mf_hex mf_j_use_desc)
    ∷ item "DB3" prot_spec_port_mp msp_spi_stc any_pdt 22 7 32 (bit_or mf_hex mf_j_use_desc)
    ∷ item "DB4" prot_spec_port_mp msp_spi_stc any_pdt 26 7 32 (bit_or mf_hex mf_j_use_desc)
    ∷ item "DB5" prot_spec_port_mp msp_spi_stc any_pdt 30 7 32 (bit_or mf_hex mf_j_use_desc)
    ∷ item "DB6" prot_spec_port_mp msp_spi_stc any_pdt 34 7 32 (bit_or mf_hex mf_j_use_desc)
    ∷ item "DB7" prot_spec_port_mp msp_spi_stc any_pdt 38 7 32 (bit_or mf_hex mf_j_use_desc)
    ∷ item "DB8" prot_spec_port_mp msp_spi_stc any_pdt 42 7 32 (bit_or mf_hex mf_j_use_desc)
    ∷ item "DB9" prot_spec_port_mp msp_spi_stc any_pdt 46 7 32 (bit_or mf_hex mf_j_use_desc)
    ∷ item "DB10" prot_spec_port_mp msp_spi_stc any_pdt 50 7 32 (bit_or mf_hex mf_j_use_desc)
    ∷ item "DB11" prot_spec_port_mp msp_spi_stc any_pdt 54 7 32 (bit_or mf_hex mf_j_use_desc)
    ∷ item "DB12" prot_spec_port_mp msp_spi_stc any_pdt 58 7 32 (bit_or mf_hex mf_j_use_desc)
    ∷ item "DB13" prot_spec_port_mp msp_spi_stc any_pdt 62 7 32 (bit_or mf_hex mf_j_use_desc)
    ∷ item "DB14" prot_spec_port_mp msp_spi_stc any_pdt 66 7 32 (bit_or mf_hex mf_j_use_desc)
    ∷ item "DB15" prot_spec_port_mp msp_spi_stc any_pdt 70 7 32 (bit_or mf_hex mf_j_use_desc)
    ∷ item "P_CRCA" prot_spec_port_mp msp_spi_stc any_pdt 74 7 32 (bit_or mf_hex mf_j_use_desc)
    ∷ item "P1" prot_spec_port_mp msp_spi_stc any_pdt 78 7 32 (bit_or mf_hex mf_j_use_desc)
    ∷ item "BSY" prot_spec_port_mp msp_spi_stc any_pdt 82 7 32 (bit_or mf_hex mf_j_use_desc)
    ∷ item "SEL" prot_spec_port_mp msp_spi_stc any_pdt 86 7 32 (bit_or mf_hex mf_j_use_desc)
    ∷ item "RST" prot_spec_port_mp msp_spi_stc any_pdt 90 7 32 (bit_or mf_hex mf_j_use_desc)
    ∷ item "REQ" prot_spec_port_mp msp_spi_stc any_pdt 94 7 32 (bit_or mf_hex mf_j_use_desc)
    ∷ item "ACK" prot_spec_port_mp msp_spi_stc any_pdt 98 7 32 (bit_or mf_hex mf_j_use_desc)
    ∷ item "ATN" prot_spec_port_mp msp_spi_stc any_pdt 102 7 32 (bit_or mf_hex mf_j_use_desc)
    ∷ item "C_D" prot_spec_port_mp msp_spi_stc any_pdt 106 7 32 (bit_or mf_hex mf_j_use_desc)
    ∷ item "I_O" prot_spec_port_mp msp_spi_stc any_pdt 110 7 32 (bit_or mf_hex mf_j_use_desc)
    ∷ item "MSG" prot_spec_port_mp msp_spi_stc any_pdt 114 7 32 (bit_or mf_hex mf_j_use_desc)
    ∷ item "PPID_3" prot_spec_port_mp msp_spi_ns any_pdt 5 3 4 0
    ∷ item "TPF" prot_spec_port_mp msp_spi_ns any_pdt 6 7 8 mf_j_use_desc
    ∷ item "RAO" prot_spec_port_mp msp_spi_ns any_pdt 8 7 8 mf_j_use_desc
    ∷ item "TWE" prot_spec_port_mp msp_spi_ns any_pdt 9 7 8 mf_j_use_desc
    ∷ item "POB" prot_spec_port_mp msp_spi_ns any_pdt 10 6 7 mf_j_use_desc
    ∷ item "TM" prot_spec_port_mp msp_spi_ns any_pdt 11 3 2 mf_j_use_desc
    ∷ item "SPE" prot_spec_port_mp msp_spi_ns any_pdt 11 1 1 mf_j_nparam_desc
    ∷ item "RPE" prot_spec_port_mp msp_spi_ns any_pdt 11 0 1 mf_j_nparam_desc
    ∷ item "PPID_4" prot_spec_port_mp msp_spi_rtc any_pdt 5 3 4 0
    ∷ item "MTPF" prot_spec_port_mp msp_spi_rtc any_pdt 6 7 8 mf_j_use_desc
    ∷ item "MRAO" prot_spec_port_mp msp_spi_rtc any_pdt 8 7 8 mf_j_use_desc
    ∷ item "MTWE" prot_spec_port_mp msp_spi_rtc any_pdt 9 7 8 mf_j_use_desc
    ∷ item "POBS" prot_spec_port_mp msp_spi_rtc any_pdt 10 7 8 mf_j_use_desc
    ∷ []

-- SCSI over RDMA.
unfoldable pub srp_items : List MpItem
srp_items =
    item "MBS" disconnect_mp 0 any_pdt 10 7 16
      (bit_or mf_common (bit_or mf_clash_ok mf_j_nparam_desc))
    ∷ item "EMDP" disconnect_mp 0 any_pdt 12 7 1 mf_clash_ok
    ∷ item "FBS" disconnect_mp 0 any_pdt 14 7 16 (bit_or mf_clash_ok mf_j_nparam_desc)
    ∷ []
