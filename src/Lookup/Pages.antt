-- ===== src/Lookup/Pages.antt =====
-- What sdp_get_mp_nm finds.
use sdparm.Prelude.{ℕ, suc, Bool, Option, none, some, List, [], ◌≡◌, refl, arith}
use sdparm.Prelude.Int.{ℤ, ==ℤ_iff}
use sdparm.Prelude.Find.{first_match}
use sdparm.SgLib.{SgLib, SgLibLaws}
use sdparm.Tables.Types.{MpName}
use sdparm.Lookup.{select_pages, is_general, page_matches, try_again, get_mp_nm}

-- One pass over the table of the transport or vendor.
unfoldable pub scan_pages : SgLib → ℤ → ℤ → ℤ → ℤ → ℤ → Option MpName
scan_pages sg page_num subpage_num pdt transp_proto vendor_id =
    elim (select_pages transp_proto vendor_id) [
      | none ↦ none
      | some mnps ↦ first_match (page_matches sg page_num subpage_num pdt) mnps
    ]

module _ (sg : SgLib) (laws : SgLibLaws sg) where
  -- At the sentinel every round fails, and a decayed type stays, so the loop ends.
  try_again_end :
      (fuel : ℕ) (general : Bool) (page_num subpage_num pdt : ℤ)
      → try_again sg (suc fuel) general page_num subpage_num [] (sg.pdt_decay pdt) ≡ some none
  unfolding try_again first_match
  try_again_end fuel general page_num subpage_num pdt =
      ground
        (arith, laws.decay_once pdt, ==ℤ_iff (sg.pdt_decay (sg.pdt_decay pdt)) (sg.pdt_decay pdt))

  try_again_lem :
      (fuel : ℕ) (general : Bool) (page_num subpage_num : ℤ) (mnps : List MpName) (pdt : ℤ)
      → try_again sg (suc (suc fuel)) general page_num subpage_num mnps pdt
        ≡ some (first_match (page_matches sg page_num subpage_num pdt) mnps)
  unfolding try_again
  try_again_lem fuel general page_num subpage_num mnps pdt =
      ground (arith, try_again_end fuel general page_num subpage_num pdt)

  -- If a decayed peripheral device type does not decay further, `sdp_get_mp_nm` returns, and what
  -- it returns is the first row that one pass over the table finds for the type as given: the
  -- retry with the decayed type adds nothing.
  pub get_mp_nm_lem :
      (page_num subpage_num pdt transp_proto vendor_id : ℤ)
      → get_mp_nm sg page_num subpage_num pdt transp_proto vendor_id
        ≡ some (scan_pages sg page_num subpage_num pdt transp_proto vendor_id)
  unfolding get_mp_nm scan_pages
  get_mp_nm_lem page_num subpage_num pdt transp_proto vendor_id =
      let general = is_general transp_proto vendor_id in
      elim (select_pages transp_proto vendor_id)
        as (λ o.
          ◌≡◌ {A = Option (Option MpName)}
            (elim o [
              | none ↦ some none
              | some mnps ↦ try_again sg 3 general page_num subpage_num mnps pdt
            ])
            (some (elim o [
              | none ↦ none
              | some mnps ↦ first_match (page_matches sg page_num subpage_num pdt) mnps
            ]))) [ none ↦ refl | some mnps ↦ try_again_lem 1 general page_num subpage_num mnps pdt ]
