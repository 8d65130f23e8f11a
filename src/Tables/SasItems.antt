-- ===== src/Tables/SasItems.antt =====
-- The items of the SAS mode pages in src/sdparm_data.c, in two parts.
use Prim.Native.Nat.{bit_or}
use mathlib.Core.List.{List, [], ◌∷◌}
use sdparm.Tables.Types.{MpItem, item}
use sdparm.Tables.Consts.{
  any_pdt, disconnect_mp, mf_clash_ok, mf_common, mf_hex, mf_j_nparam_desc, mf_j_use_desc,
  mf_twos_comp, msp_sas_e_phy, msp_sas_oob_m_c, msp_sas_pcd, msp_sas_spc, prot_spec_lu_mp,
  prot_spec_port_mp,
}

-- The first part of sdparm_mitem_sas_arr.
unfoldable pub sas_port_items : List MpItem
sas_port_items =
    item "BITL" disconnect_mp 0 any_pdt 4 7 16 (bit_or mf_common mf_j_nparam_desc)
    ∷ item "MCTL" disconnect_mp 0 any_pdt 8 7 16 (bit_or mf_common mf_j_nparam_desc)
    ∷ item "MBS" disconnect_mp 0 any_pdt 10 7 16
        (bit_or mf_common (bit_or mf_clash_ok mf_j_nparam_desc))
    ∷ item "CTLUNIT" disconnect_mp 0 any_pdt 13 3 2 mf_clash_ok
    ∷ item "BILUNIT" disconnect_mp 0 any_pdt 13 1 2 mf_clash_ok
    ∷ item "FBS" disconnect_mp 0 any_pdt 14 7 16 (bit_or mf_clash_ok mf_j_nparam_desc)
    ∷ item "LUPID" prot_spec_lu_mp 0 any_pdt 2 3 4 (bit_or mf_common mf_clash_ok)
    ∷ item "TLR" prot_spec_lu_mp 0 any_pdt 2 4 1 (bit_or mf_common mf_j_use_desc)
    ∷ item "PPID" prot_spec_port_mp 0 any_pdt 2 3 4 (bit_or mf_common mf_clash_ok)
    ∷ item "CAWT" prot_spec_port_mp 0 any_pdt 2 6 1 mf_j_nparam_desc
    ∷ item "BAE" prot_spec_port_mp 0 any_pdt 2 5 1 mf_j_use_desc
    ∷ item "RLM" prot_spec_port_mp 0 any_pdt 2 4 1 (bit_or mf_common mf_j_use_desc)
    ∷ item "ITNLT" prot_spec_port_mp 0 any_pdt 4 7 16 (bit_or mf_common mf_j_nparam_desc)
    ∷ item "IRT" prot_spec_port_mp 0 any_pdt 6 7 16 (bit_or mf_common mf_j_nparam_desc)
    ∷ item "RTOL" prot_spec_port_mp 0 any_pdt 8 7 16 (bit_or mf_common mf_j_nparam_desc)
    ∷ item "MAXR" prot_spec_port_mp 0 any_pdt 10 7 8 (bit_or mf_common mf_j_use_desc)
    ∷ item "PPID_1" prot_spec_port_mp msp_sas_pcd any_pdt 5 3 4 0
    ∷ item "GENC" prot_spec_port_mp msp_sas_pcd any_pdt 6 7 8 mf_j_use_desc
    ∷ item "NOP" prot_spec_port_mp msp_sas_pcd any_pdt 7 7 8 (bit_or mf_common mf_j_use_desc)
    ∷ item "PHID" prot_spec_port_mp msp_sas_pcd any_pdt 9 7 8 mf_j_use_desc
    ∷ item "ADT" prot_spec_port_mp msp_sas_pcd any_pdt 12 6 3 mf_j_use_desc
    ∷ item "AREAS" prot_spec_port_mp msp_sas_pcd any_pdt 12 3 4 mf_j_nparam_desc
    ∷ item "REAS" prot_spec_port_mp msp_sas_pcd any_pdt 13 7 4 mf_j_nparam_desc
    ∷ item "NLLR" prot_spec_port_mp msp_sas_pcd any_pdt 13 3 4 mf_j_use_desc
    ∷ item "ASIP" prot_spec_port_mp msp_sas_pcd any_pdt 14 3 1 mf_j_use_desc
    ∷ item "ATIP" prot_spec_port_mp msp_sas_pcd any_pdt 14 2 1 mf_j_use_desc
    ∷ item "AMIP" prot_spec_port_mp msp_sas_pcd any_pdt 14 1 1 mf_j_use_desc
    ∷ item "ASTP" prot_spec_port_mp msp_sas_pcd any_pdt 15 3 1 mf_j_use_desc
    ∷ item "ATTP" prot_spec_port_mp msp_sas_pcd any_pdt 15 2 1 mf_j_use_desc
    ∷ item "AMTP" prot_spec_port_mp msp_sas_pcd any_pdt 15 1 1 mf_j_use_desc
    ∷ item "SASA" prot_spec_port_mp msp_sas_pcd any_pdt 16 7 64
        (bit_or mf_hex (bit_or mf_common mf_j_use_desc))
    ∷ item "ASASA" prot_spec_port_mp msp_sas_pcd any_pdt 24 7 64
        (bit_or mf_hex (bit_or mf_common mf_j_use_desc))
    ∷ item "APHID" prot_spec_port_mp msp_sas_pcd any_pdt 32 7 8 mf_j_use_desc
    ∷ item "APERCAP" prot_spec_port_mp msp_sas_pcd any_pdt 33 7 1 mf_j_use_desc
    ∷ item "APOWCAP" prot_spec_port_mp msp_sas_pcd any_pdt 33 6 2 mf_j_use_desc
    ∷ item "ASLCAP" prot_spec_port_mp msp_sas_pcd any_pdt 33 4 1 mf_j_use_desc
    ∷ item "APACAP" prot_spec_port_mp msp_sas_pcd any_pdt 33 3 1 mf_j_use_desc
    ∷ item "AIZPER" prot_spec_port_mp msp_sas_pcd any_pdt 33 2 1 mf_j_use_desc
    ∷ []

-- The second part of sdparm_mitem_sas_arr.
unfoldable pub sas_phy_items : List MpItem
sas_phy_items =
    item "AREQIZ" prot_spec_port_mp msp_sas_pcd any_pdt 33 1 1 mf_j_use_desc
    ∷ item "ABRCAP" prot_spec_port_mp msp_sas_pcd any_pdt 33 0 1 mf_j_use_desc
    ∷ item "AAPTACAP" prot_spec_port_mp msp_sas_pcd any_pdt 34 2 1 mf_j_use_desc
    ∷ item "ASMPPCAP" prot_spec_port_mp msp_sas_pcd any_pdt 34 1 1 mf_j_use_desc
    ∷ item "APOWDCAP" prot_spec_port_mp msp_sas_pcd any_pdt 34 0 1 mf_j_use_desc
    ∷ item "PMILR" prot_spec_port_mp msp_sas_pcd any_pdt 40 7 4 mf_j_use_desc
    ∷ item "HMILR" prot_spec_port_mp msp_sas_pcd any_pdt 40 3 4 mf_j_use_desc
    ∷ item "PMALR" prot_spec_port_mp msp_sas_pcd any_pdt 41 7 4 mf_j_use_desc
    ∷ item "HMALR" prot_spec_port_mp msp_sas_pcd any_pdt 41 3 4 mf_j_use_desc
    ∷ item "PPID_2" prot_spec_port_mp msp_sas_spc any_pdt 5 3 4 0
    ∷ item "PLT" prot_spec_port_mp msp_sas_spc any_pdt 6 7 16 mf_j_nparam_desc
    ∷ item "PGRATO" prot_spec_port_mp msp_sas_spc any_pdt 9 7 8 mf_j_nparam_desc
    ∷ item "4PHYS" prot_spec_port_mp msp_sas_spc any_pdt 10 2 1 0
    ∷ item "2PHYS" prot_spec_port_mp msp_sas_spc any_pdt 10 1 1 0
    ∷ item "1PHY" prot_spec_port_mp msp_sas_spc any_pdt 10 0 1 0
    ∷ item "PMCDT" prot_spec_port_mp msp_sas_spc any_pdt 11 7 8 mf_j_nparam_desc
    ∷ item "PPID_3" prot_spec_port_mp msp_sas_e_phy any_pdt 5 3 4 0
    ∷ item "GENC_1" prot_spec_port_mp msp_sas_e_phy any_pdt 6 7 8 mf_j_use_desc
    ∷ item "NOP_1" prot_spec_port_mp msp_sas_e_phy any_pdt 7 7 8 mf_j_use_desc
    ∷ item "PHID_1" prot_spec_port_mp msp_sas_e_phy any_pdt 9 7 8 mf_j_use_desc
    ∷ item "PPCAP" prot_spec_port_mp msp_sas_e_phy any_pdt 12 7 32 (bit_or mf_hex mf_j_use_desc)
    ∷ item "CPCAP" prot_spec_port_mp msp_sas_e_phy any_pdt 16 7 32 (bit_or mf_hex mf_j_use_desc)
    ∷ item "APCAP" prot_spec_port_mp msp_sas_e_phy any_pdt 20 7 32 (bit_or mf_hex mf_j_use_desc)
    ∷ item "OPT_M_EN" prot_spec_port_mp msp_sas_e_phy any_pdt 26 5 1 mf_j_use_desc
    ∷ item "N_SSC" prot_spec_port_mp msp_sas_e_phy any_pdt 26 4 1 0
    ∷ item "NPLR" prot_spec_port_mp msp_sas_e_phy any_pdt 26 3 4 mf_j_use_desc
    ∷ item "EN_SL" prot_spec_port_mp msp_sas_e_phy any_pdt 27 2 1 0
    ∷ item "EN_PA" prot_spec_port_mp msp_sas_e_phy any_pdt 27 1 1 0
    ∷ item "HMS" prot_spec_port_mp msp_sas_e_phy any_pdt 27 0 1 mf_j_use_desc
    ∷ item "OOB_RE" prot_spec_port_mp msp_sas_oob_m_c any_pdt 4 7 1 0
    ∷ item "OOB_PRV" prot_spec_port_mp msp_sas_oob_m_c any_pdt 6 7 16 mf_hex
    ∷ item "OOB_D_ID" prot_spec_port_mp msp_sas_oob_m_c any_pdt 8 3 4 0
    ∷ item "TA_TRE" prot_spec_port_mp msp_sas_oob_m_c any_pdt 12 0 1 mf_clash_ok
    ∷ item "TA_RI" prot_spec_port_mp msp_sas_oob_m_c any_pdt 13 7 8 mf_clash_ok
    ∷ item "TA_MRI" prot_spec_port_mp msp_sas_oob_m_c any_pdt 14 7 8 mf_clash_ok
    ∷ item "TA_C_UP" prot_spec_port_mp msp_sas_oob_m_c any_pdt 15 7 4 mf_clash_ok
    ∷ item "TA_C_DO" prot_spec_port_mp msp_sas_oob_m_c any_pdt 15 3 4 mf_clash_ok
    ∷ item "TA_TM" prot_spec_port_mp msp_sas_oob_m_c any_pdt 16 1 2 mf_clash_ok
    ∷ item "TA_TM_T" prot_spec_port_mp msp_sas_oob_m_c any_pdt 18 7 8
        (bit_or mf_clash_ok mf_twos_comp)
    ∷ []
