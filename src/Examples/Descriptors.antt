-- ===== src/Examples/Descriptors.antt =====
-- Pages with descriptors.
use sdparm.Prelude.{
  ℕ, ◌+◌, ◌/◌, ◌≢◌, none, some, List, [], ◌∷◌, All, inl, inr, ◌≡◌, refl, arith, replicate,
}
use sdparm.Prelude.Int.{pos}
use sdparm.SgLib.Model.{sample_lib}
use sdparm.Tables.Types.{MpItem, item}
use sdparm.Tables.Descs.{
  ssc_mpa_desc, smc_tg_desc, sbc_lbp_desc, sbc_atag_desc, spc_cdl_desc, spc_cdl_t2_desc,
  sbc_ioadvi_desc, sas_pcd_desc, sas_e_phy_desc, sas_oob_m_c_desc,
}
use sdparm.Field.{mpage_len}
use sdparm.Descriptor.{
  walk_count, report_number_of_descriptors, count_descriptors, descs_field, moved,
  desc_adjust_start_byte,
}
use sdparm.Descriptor.Counts.{ByLength, IsCountable, counts-ByLength, counts-ne-none}
use sdparm.Descriptor.Adjust.{IsNext, desc_adjust_start_byte-Follows}

-- A page of 2 descriptors of 8 bytes behind a gap of 12.
abbrev lbp : List ℕ
lbp = 0x4a ∷ 0x02 ∷ 0 ∷ 28 ∷ replicate 28 0

lbp-ByLength : ByLength sbc_lbp_desc
lbp-ByLength = record { inc_neg = refl; len_pos = refl }

lbp_field : descs_field sample_lib sbc_lbp_desc lbp ≡ 28
unfolding sample_lib
lbp_field = refl

counts-ByLength_example :
    (count_descriptors sample_lib lbp sbc_lbp_desc ≡ some (pos 2))
    × (report_number_of_descriptors sample_lib lbp sbc_lbp_desc ≡ some (some (pos (2 + 12 / 8))))
counts-ByLength_example =
    counts-ByLength sample_lib sbc_lbp_desc lbp 2 lbp-ByLength lbp_field (omega (arith, lbp_field))

-- Every template of src/sdparm_data.c has one of the three forms.
templates-IsCountable : All IsCountable (
    ssc_mpa_desc ∷ smc_tg_desc ∷ sbc_lbp_desc ∷ sbc_atag_desc ∷ spc_cdl_desc ∷ spc_cdl_t2_desc
    ∷ sbc_ioadvi_desc ∷ sas_pcd_desc ∷ sas_e_phy_desc ∷ sas_oob_m_c_desc ∷ [])
templates-IsCountable = (
  inr (inl refl),
  (
    inl (record { inc_neg = refl; len_pos = refl }),
    (
      inl (record { inc_neg = refl; len_pos = refl }),
      (
        inl (record { inc_neg = refl; len_pos = refl }),
        (
          inl (record { inc_neg = refl; len_pos = refl }),
          (
            inl (record { inc_neg = refl; len_pos = refl }),
            (
              inl (record { inc_neg = refl; len_pos = refl }),
              (inr (inl refl), (inr (inl refl), (inr (inr (omega arith)), tt))),
            ),
          ),
        ),
      ),
    ),
  ),
)

-- A page whose descriptors have to be walked through.
abbrev oob : List ℕ
oob = 0x59 ∷ 0x04 ∷ 0 ∷ 20 ∷ 0 ∷ 6 ∷ 0 ∷ 0 ∷ 1 ∷ 0 ∷ 0 ∷ 4 ∷ replicate 12 0

counts-ne-none_example :
    (report_number_of_descriptors sample_lib oob sas_oob_m_c_desc ≢ none)
    × (count_descriptors sample_lib oob sas_oob_m_c_desc ≢ none)
counts-ne-none_example = counts-ne-none sample_lib sas_oob_m_c_desc oob (inr (inr (omega arith)))

oob_count : count_descriptors sample_lib oob sas_oob_m_c_desc ≡ some (pos 2)
unfolding count_descriptors walk_count mpage_len sample_lib
oob_count = refl

abbrev phy : List ℕ
phy = 0x59 ∷ 0x01 ∷ 0 ∷ 100 ∷ 0 ∷ 6 ∷ 0 ∷ 2 ∷ replicate 96 0

abbrev phy_id : MpItem
phy_id = item "PHID" 0x19 1 (pos 0) 9 7 8 0

abbrev second_phy_id : MpItem
second_phy_id = item "PHID" 0x19 1 (pos 0) 57 7 8 0

second_moved : desc_adjust_start_byte sample_lib 1 sas_pcd_desc phy 104 phy_id ≡ moved second_phy_id
unfolding desc_adjust_start_byte sample_lib
second_moved = refl

desc_adjust_start_byte-Follows_example :
    (out : MpItem) × (desc_adjust_start_byte sample_lib 0 sas_pcd_desc phy 104 phy_id ≡ moved out)
    × IsNext sample_lib sas_pcd_desc phy phy_id out second_phy_id
desc_adjust_start_byte-Follows_example =
    desc_adjust_start_byte-Follows sample_lib sas_pcd_desc phy 104 phy_id (omega arith) 1
      second_phy_id second_moved
