-- ===== src/Lookup/Vpd.antt =====
-- What sdp_get_vpd_detail and the searches for vendors find.
use sdparm.Prelude.{
  Bool, true, false, ◌⊎◌, inl, inr, ◌&&◌, ◌||◌, Option, none, some, ◌≡◌, refl, sym, ◌∙◌, arith, All,
  ◌↔◌,
}
use sdparm.Prelude.Int.{ℤ, pos, negsuc, is_neg, ◌==ℤ◌}
use sdparm.Prelude.Find.{first_match_passes, first_match-fails, none→All_fails, All-map}
use sdparm.Tables.Types.{VpdPage}
use sdparm.Tables.VpdPages.{vpd_pg}
use sdparm.Lookup.{vpd_scan, vpd_detail, get_vpd_detail}

-- The first of three results that is one.
abbrev or_else : Option VpdPage → Option VpdPage → Option VpdPage
or_else none other = other
or_else (some vpp) other = some vpp

three_scans :
    (page_num subvalue pdt : ℤ)
    → get_vpd_detail page_num subvalue pdt
      ≡ or_else (vpd_scan page_num subvalue pdt) (
          or_else (vpd_scan page_num subvalue (negsuc 0)) (vpd_scan page_num (negsuc 0) (negsuc 0)))
unfolding get_vpd_detail vpd_detail vpd_scan
three_scans page_num subvalue pdt = ground arith

-- A subvalue or a device type below 0 stands for any.
abbrev pub HasValue : ℤ → VpdPage → Type 0
HasValue subvalue vpp = (is_neg subvalue ≡ true) ⊎ (subvalue ≡ pos vpp.subvalue)

abbrev pub HasType : ℤ → VpdPage → Type 0
HasType pdt vpp = (is_neg pdt ≡ true) ⊎ (pdt ≡ vpp.com_pdt)

-- No row of the page fits better than `vpp`: it has the subvalue and the device type; or no row has
-- both and it has the subvalue; or no row has the subvalue.
abbrev pub IsBest : ℤ → ℤ → ℤ → VpdPage → Type 0
IsBest page_num subvalue pdt vpp =
    (page_num ≡ vpp.vpd_num)
    × ((HasValue subvalue vpp × HasType pdt vpp)
        ⊎ (All (λ r. page_num ≡ r.vpd_num → HasValue subvalue r → HasType pdt r → ⊥) vpd_pg
            × (HasValue subvalue vpp
                ⊎ All (λ r. page_num ≡ r.vpd_num → HasValue subvalue r → ⊥) vpd_pg)))

or_else-none : (a b : Option VpdPage) → or_else a b ≡ none → (a ≡ none) × (b ≡ none)
or_else-none none b h = (refl, h)
or_else-none (some a) b h = absurd (cc)

-- The test of one pass.
abbrev row_test : ℤ → ℤ → ℤ → VpdPage → Bool
row_test page_num subvalue pdt vpp =
    page_num ==ℤ vpp.vpd_num
    && (is_neg subvalue || subvalue ==ℤ pos vpp.subvalue)
    && (is_neg pdt || pdt ==ℤ vpp.com_pdt)

vpd_scan-some :
    (page_num subvalue pdt : ℤ) (vpp : VpdPage)
    → vpd_scan page_num subvalue pdt ≡ some vpp
    → (page_num ≡ vpp.vpd_num) × (HasValue subvalue vpp × HasType pdt vpp)
unfolding vpd_scan
vpd_scan-some page_num subvalue pdt vpp h =
    let passes = first_match_passes (row_test page_num subvalue pdt) vpd_pg vpp h in
    ground (arith, passes)

vpd_scan-no_row :
    (page_num subvalue pdt : ℤ)
    → vpd_scan page_num subvalue pdt ≡ none
    → All (λ r. page_num ≡ r.vpd_num → HasValue subvalue r → HasType pdt r → ⊥) vpd_pg
unfolding vpd_scan
vpd_scan-no_row page_num subvalue pdt h =
    All-map _ _ (λ vpp fails same value type. ground arith) vpd_pg
      (none→All_fails (row_test page_num subvalue pdt) vpd_pg h)

-- What `sdp_get_vpd_detail` finds is a row of the page number that fits best: one with the subvalue
-- and the device type if there is one, else one with the subvalue if there is one.
pub get_vpd_detail-IsBest :
    (page_num subvalue pdt : ℤ) (vpp : VpdPage)
    → get_vpd_detail page_num subvalue pdt ≡ some vpp
    → IsBest page_num subvalue pdt vpp
get_vpd_detail-IsBest page_num subvalue pdt vpp h =
    best _ _ _ refl refl refl (sym (three_scans page_num subvalue pdt) ∙ h)
  where
    best :
        (full value any : Option VpdPage)
        → vpd_scan page_num subvalue pdt ≡ full
        → vpd_scan page_num subvalue (negsuc 0) ≡ value
        → vpd_scan page_num (negsuc 0) (negsuc 0) ≡ any
        → or_else full (or_else value any) ≡ some vpp
        → IsBest page_num subvalue pdt vpp
    best (some v) value any f w a e =
        let s = vpd_scan-some page_num subvalue pdt vpp (f ∙ e) in (s.0, inl s.1)
    best none (some v) any f w a e =
        let s = vpd_scan-some page_num subvalue (negsuc 0) vpp (w ∙ e) in
        (s.0, inr (vpd_scan-no_row page_num subvalue pdt f, inl s.1.0))
    best none none any f w a e =
        let s = vpd_scan-some page_num (negsuc 0) (negsuc 0) vpp (a ∙ e) in
        (
          s.0,
          inr (
            vpd_scan-no_row page_num subvalue pdt f,
            inr (
                All-map _ _ (λ r differs same value. differs same value (inl refl)) vpd_pg
                  (vpd_scan-no_row page_num subvalue (negsuc 0) w)),
          ),
        )

vpd_scan-none :
    (page_num subvalue pdt : ℤ)
    → All (λ vpp. (page_num ==ℤ vpp.vpd_num) ≡ false) vpd_pg
    → vpd_scan page_num subvalue pdt ≡ none
unfolding vpd_scan
vpd_scan-none page_num subvalue pdt h =
    first_match-fails (row_test page_num subvalue pdt) vpd_pg
      (All-map _ _ (λ vpp differs. ground arith) vpd_pg h)

no_row :
    (page_num : ℤ)
    → vpd_scan page_num (negsuc 0) (negsuc 0) ≡ none
    → All (λ vpp. (page_num ==ℤ vpp.vpd_num) ≡ false) vpd_pg
unfolding vpd_scan
no_row page_num h =
    All-map _ _ (λ vpp fails. ground arith) vpd_pg
      (none→All_fails (row_test page_num (negsuc 0) (negsuc 0)) vpd_pg h)

-- `sdp_get_vpd_detail` returns NULL exactly for the page numbers that no row of the table has,
-- whatever the subvalue and the device type.
pub get_vpd_detail-none :
    (page_num subvalue pdt : ℤ)
    → (get_vpd_detail page_num subvalue pdt ≡ none)
      ↔ All (λ vpp. (page_num ==ℤ vpp.vpd_num) ≡ false) vpd_pg
get_vpd_detail-none page_num subvalue pdt = (forth, back)
  where
    forth :
        get_vpd_detail page_num subvalue pdt ≡ none
        → All (λ vpp. (page_num ==ℤ vpp.vpd_num) ≡ false) vpd_pg
    forth h =
        let later =
          or_else-none (vpd_scan page_num subvalue pdt)
            (or_else (vpd_scan page_num subvalue (negsuc 0))
              (vpd_scan page_num (negsuc 0) (negsuc 0)))
            (sym (three_scans page_num subvalue pdt) ∙ h) in
        no_row page_num
          (or_else-none (vpd_scan page_num subvalue (negsuc 0))
            (vpd_scan page_num (negsuc 0) (negsuc 0)) later.1).1

    back :
        All (λ vpp. (page_num ==ℤ vpp.vpd_num) ≡ false) vpd_pg
        → get_vpd_detail page_num subvalue pdt ≡ none
    back h =
        rw
          (
            three_scans,
            vpd_scan-none page_num subvalue pdt h,
            vpd_scan-none page_num subvalue (negsuc 0) h,
            vpd_scan-none page_num (negsuc 0) (negsuc 0) h,
          )
          refl
