-- ===== src/Options/PageText.antt =====
-- What --page= comes to in parse_page_str of src/sdparm.c, and when it is refused.
use sdparm.Prelude.{
  ℕ, ◌≤◌, Bool, true, false, ◌&&◌, ◌||◌, Option, none, some, List, [], ◌∷◌, ◌≡◌, refl, sym, ap, ◌⊎◌,
  inl, inr, arith, Bool-cases, &&-eq_true, ◌==◌,
}
use sdparm.Prelude.Int.{ℤ, pos, negsuc, is_neg, ltb_ℤ, pos_part}
use sdparm.Prelude.Text.{codes}
use sdparm.SgLib.{SgLib}
use sdparm.Tables.Types.{MpName, VpdPage}
use sdparm.Lookup.{find_mp_nm_by_acron, find_vpd_by_acron}
use sdparm.Settings.{def_transport}
use sdparm.Settings.Text.{split_at, same_text}
use sdparm.Options.PageArg.{
  Choice, PageArg, chosen, page_syntax_error, page_contradict, Context, std_inq, mode_chosen,
  vpd_chosen, default_mode, by_acron, numbered, by_number, starts_alpha, parse_page_str,
}

-- A choice of a mode page by acronym: it is found with the transport from then on, which is the
-- one that was given, or the default one if neither a transport nor a vendor was given.
abbrev pub IsModePage : Context → List ℕ → Choice → Type 0
IsModePage ctx pg_str c =
    (mnp : MpName) × (find_mp_nm_by_acron pg_str c.transport ctx.vendor_id ≡ some mnp)
    × (c.cl_pn ≡ pos mnp.page)
    × (c.cl_spn ≡ pos mnp.subpage)
    × (c.t_com_pdt ≡ mnp.com_pdt)
    × (ctx.inquiry ≡ false)
    × (c.inquiry ≡ false)
    × ((c.transport ≡ ctx.transport)
        ⊎ ((is_neg ctx.transport ≡ true)
            × (is_neg ctx.vendor_id ≡ true)
            × (c.transport ≡ def_transport)))

-- A VPD page by acronym, which no mode page of the given transport or vendor has.
abbrev pub IsVpdPage : Context → List ℕ → Choice → Type 0
IsVpdPage ctx pg_str c =
    (vpp : VpdPage) × (find_vpd_by_acron pg_str ≡ some vpp)
    × (find_mp_nm_by_acron pg_str ctx.transport ctx.vendor_id ≡ none)
    × (c.cl_pn ≡ vpp.vpd_num)
    × (c.cl_spn ≡ pos vpp.subvalue)
    × (c.t_com_pdt ≡ vpp.com_pdt)
    × (c.inquiry ≡ true)
    × (c.transport ≡ ctx.transport)

-- The number of a page, which may be of either kind, that is read from the text, and the number
-- behind its comma, or 0 without one.
abbrev pub IsNumber : SgLib → Context → List ℕ → Choice → Type 0
IsNumber sg ctx pg_str c =
    (pn spn : ℕ) × (sg.get_num_nomult pg_str ≡ pos pn)
    × (((split_at b',' pg_str ≡ none) × (spn ≡ 0))
        ⊎ ((before behind : List ℕ) × (split_at b',' pg_str ≡ some (before, behind))
            × (sg.get_num_nomult behind ≡ pos spn)))
    × (c.cl_pn ≡ pos pn)
    × (c.cl_spn ≡ pos spn)
    × (pn ≤ 255)
    × (spn ≤ 255)
    × (c.inquiry ≡ ctx.inquiry)
    × (c.transport ≡ ctx.transport)
    × (c.t_com_pdt ≡ ctx.t_com_pdt)

-- The standard INQUIRY.
abbrev pub IsInquiry : Context → List ℕ → Choice → Type 0
IsInquiry ctx pg_str c =
    ((pg_str ≡ codes "-1") ⊎ (pg_str ≡ codes "-2"))
    × (c.cl_pn ≡ std_inq)
    × (c.cl_spn ≡ negsuc 0)
    × (c.inquiry ≡ true)
    × (c.transport ≡ ctx.transport)
    × (c.t_com_pdt ≡ ctx.t_com_pdt)

abbrev pub IsChoice : SgLib → Context → List ℕ → Choice → Type 0
IsChoice sg ctx pg_str c =
    IsInquiry ctx pg_str c
    ⊎ (((starts_alpha pg_str ≡ true) × (IsModePage ctx pg_str c ⊎ IsVpdPage ctx pg_str c))
        ⊎ ((starts_alpha pg_str ≡ false) × IsNumber sg ctx pg_str c))

abbrev pub NotByte : ℤ → Type 0
NotByte n = (is_neg n ≡ true) ⊎ (ltb_ℤ (pos 255) n ≡ true)

-- Why there is no choice: no page has the acronym, not even with the default transport if that is
-- to be tried, or a number is missing or above 255.
abbrev pub IsUnknown : SgLib → Context → List ℕ → Type 0
IsUnknown sg ctx pg_str =
    ((starts_alpha pg_str ≡ true)
      × (find_mp_nm_by_acron pg_str ctx.transport ctx.vendor_id ≡ none)
      × (find_vpd_by_acron pg_str ≡ none)
      × ((is_neg ctx.transport ≡ false)
          ⊎ ((is_neg ctx.vendor_id ≡ false)
              ⊎ (find_mp_nm_by_acron pg_str def_transport ctx.vendor_id ≡ none))))
    ⊎ ((starts_alpha pg_str ≡ false)
        × (NotByte (sg.get_num_nomult pg_str)
            ⊎ ((before behind : List ℕ) × (split_at b',' pg_str ≡ some (before, behind))
                × NotByte (sg.get_num_nomult behind))))

-- The acronym is one of a mode page, and -i was given.
abbrev pub IsContradiction : Context → List ℕ → Type 0
IsContradiction ctx pg_str =
    (trans : ℤ) × (mnp : MpName) × (starts_alpha pg_str ≡ true)
    × (find_mp_nm_by_acron pg_str trans ctx.vendor_id ≡ some mnp)
    × (ctx.inquiry ≡ true)
    × ((trans ≡ ctx.transport)
        ⊎ ((is_neg ctx.transport ≡ true) × (is_neg ctx.vendor_id ≡ true) × (trans ≡ def_transport)))

abbrev pub IsOfText : SgLib → Context → List ℕ → PageArg → Type 0
IsOfText sg ctx pg_str (chosen c) = IsChoice sg ctx pg_str c
IsOfText sg ctx pg_str page_syntax_error = IsUnknown sg ctx pg_str
IsOfText sg ctx pg_str page_contradict = IsContradiction ctx pg_str

same_text→eq : (s t : List ℕ) → same_text s t ≡ true → s ≡ t
unfolding same_text
same_text→eq [] [] h = refl
same_text→eq [] (b ∷ t) h = absurd cc
same_text→eq (a ∷ s) [] h = absurd cc
same_text→eq (a ∷ s) (b ∷ t) h =
    let both = &&-eq_true (a == b) (same_text s t) h in
    let first : a ≡ b = ground (arith, both.0) in
    let rest : s ≡ t = same_text→eq s t both.1 in rw (first, rest) refl

either_eq : (a b : Bool) → (a || b) ≡ true → (a ≡ true) ⊎ (b ≡ true)
either_eq true b h = inl refl
either_eq false b h = inr h

module _ (sg : SgLib) (ctx : Context) (pg_str : List ℕ) where
  module _ (alpha : starts_alpha pg_str ≡ true) where
    mode_chosen-IsOfText :
        (trans : ℤ) (mnp : MpName)
        → find_mp_nm_by_acron pg_str trans ctx.vendor_id ≡ some mnp
        → ((trans ≡ ctx.transport)
            ⊎ ((is_neg ctx.transport ≡ true)
                × (is_neg ctx.vendor_id ≡ true)
                × (trans ≡ def_transport)))
        → IsOfText sg ctx pg_str (mode_chosen ctx trans mnp)
    unfolding mode_chosen
    mode_chosen-IsOfText trans mnp e t = elim (Bool-cases ctx.inquiry) [
      | inl vpd ↦ rw vpd (trans, mnp, alpha, e, refl, t)
      | inr mode ↦ rw mode (inr (inl (alpha, inl (mnp, e, refl, refl, refl, refl, refl, t))))
    ]

    default_mode-IsOfText :
        (again : Option MpName)
        → find_mp_nm_by_acron pg_str ctx.transport ctx.vendor_id ≡ none
        → find_vpd_by_acron pg_str ≡ none
        → find_mp_nm_by_acron pg_str def_transport ctx.vendor_id ≡ again
        → is_neg ctx.vendor_id ≡ true
        → is_neg ctx.transport ≡ true
        → IsOfText sg ctx pg_str (default_mode ctx again)
    default_mode-IsOfText none no_mode no_vpd e v t = inl (alpha, no_mode, no_vpd, inr (inr e))
    default_mode-IsOfText (some mnp) no_mode no_vpd e v t =
        mode_chosen-IsOfText def_transport mnp e (inr (t, v, refl))

    by_acron-IsOfText :
        (mnp : Option MpName) (vpp : Option VpdPage) (again : Option MpName)
        → find_mp_nm_by_acron pg_str ctx.transport ctx.vendor_id ≡ mnp
        → find_vpd_by_acron pg_str ≡ vpp
        → find_mp_nm_by_acron pg_str def_transport ctx.vendor_id ≡ again
        → IsOfText sg ctx pg_str (by_acron ctx mnp vpp again)
    unfolding by_acron vpd_chosen
    by_acron-IsOfText (some mnp) vpp again e v a =
        mode_chosen-IsOfText ctx.transport mnp e (inl refl)
    by_acron-IsOfText none (some vpp) again e v a =
        inr (inl (alpha, inr (vpp, v, e, refl, refl, refl, refl, refl)))
    by_acron-IsOfText none none again e v a =
        elim (Bool-cases (is_neg ctx.vendor_id && is_neg ctx.transport)) [
          | inl free ↦
              let both = &&-eq_true (is_neg ctx.vendor_id) (is_neg ctx.transport) free in
              rw free (default_mode-IsOfText again e v a both.0 both.1)
          | inr given ↦ rw given (inl (alpha, e, v, ground (arith, given)))
        ]

  -- A number that is read, and what the text says of the one behind the comma.
  numbered-IsOfText :
      (pn spn : ℤ)
      → starts_alpha pg_str ≡ false
      → sg.get_num_nomult pg_str ≡ pn
      → (((split_at b',' pg_str ≡ none) × (spn ≡ pos 0))
          ⊎ ((before behind : List ℕ) × (split_at b',' pg_str ≡ some (before, behind))
              × (sg.get_num_nomult behind ≡ spn)))
      → (is_neg pn || ltb_ℤ (pos 255) pn) ≡ false
      → (is_neg spn || ltb_ℤ (pos 255) spn) ≡ false
      → IsOfText sg ctx pg_str (numbered ctx pn spn)
  numbered-IsOfText (pos pn) (pos spn) digits e e' p s = inr (
      inr (
        digits,
        (pn, spn, e, second e', refl, refl, ground (arith, p), ground (arith, s), refl, refl, refl),
      ))
    where
      second :
          (((split_at b',' pg_str ≡ none) × (pos spn ≡ pos 0))
            ⊎ ((before behind : List ℕ) × (split_at b',' pg_str ≡ some (before, behind))
                × (sg.get_num_nomult behind ≡ pos spn)))
          → (((split_at b',' pg_str ≡ none) × (spn ≡ 0))
              ⊎ ((before behind : List ℕ) × (split_at b',' pg_str ≡ some (before, behind))
                  × (sg.get_num_nomult behind ≡ pos spn)))
      second (inl (n, z)) = inl (n, ap pos_part z)
      second (inr b) = inr b
  numbered-IsOfText (pos pn) (negsuc spn) digits e e' p s = absurd (ground (arith, s))
  numbered-IsOfText (negsuc pn) spn digits e e' p s = absurd (ground (arith, p))

  by_number-IsOfText :
      (parts : Option (List ℕ × List ℕ))
      → starts_alpha pg_str ≡ false
      → split_at b',' pg_str ≡ parts
      → (is_neg (sg.get_num_nomult pg_str) || ltb_ℤ (pos 255) (sg.get_num_nomult pg_str)) ≡ false
      → IsOfText sg ctx pg_str (by_number sg ctx (sg.get_num_nomult pg_str) parts)
  unfolding by_number
  by_number-IsOfText none digits e p =
      numbered-IsOfText (sg.get_num_nomult pg_str) (pos 0) digits refl (inl (e, refl)) p
        (ground arith)
  by_number-IsOfText (some (a, b)) digits e p =
      let spn = sg.get_num_nomult b in
      elim (Bool-cases (is_neg spn || ltb_ℤ (pos 255) spn)) [
        | inl bad ↦
            rw bad (inr (digits, inr (a, b, e, either_eq (is_neg spn) (ltb_ℤ (pos 255) spn) bad)))
        | inr fine ↦ rw fine (
            numbered-IsOfText (sg.get_num_nomult pg_str) spn digits refl (inr (a, b, e, refl)) p
              fine)
      ]

  inquiry_text :
      (same_text (codes "-1") pg_str || same_text (codes "-2") pg_str) ≡ true
      → (pg_str ≡ codes "-1") ⊎ (pg_str ≡ codes "-2")
  inquiry_text h =
      elim (either_eq (same_text (codes "-1") pg_str) (same_text (codes "-2") pg_str) h) [
        | inl one ↦ inl (sym (same_text→eq (codes "-1") pg_str one))
        | inr two ↦ inr (sym (same_text→eq (codes "-2") pg_str two))
      ]

  -- What --page= comes to. `-1` and `-2` choose the standard INQUIRY. A text that starts with a
  -- letter chooses the mode page of that acronym, which was looked for with the given transport and
  -- vendor, or, if neither was given, with the default transport, which is set then; or else the
  -- VPD page of the acronym that no such mode page has, with -i set. Another text chooses the page
  -- of its number and the subpage of the number behind its comma, or 0 without a comma, both up to
  -- 255. It is refused as unknown only if no page has the acronym or one of the numbers is missing
  -- or above 255, and as a contradiction only if a mode page has the acronym and -i was given.
  pub parse_page_str-IsOfText : IsOfText sg ctx pg_str (parse_page_str sg ctx pg_str)
  unfolding parse_page_str
  parse_page_str-IsOfText =
      let pn = sg.get_num_nomult pg_str in
      elim (Bool-cases (same_text (codes "-1") pg_str || same_text (codes "-2") pg_str)) [
        | inl minus ↦ rw minus (inl (inquiry_text minus, refl, refl, refl, refl, refl))
        | inr a ↦ elim (Bool-cases (starts_alpha pg_str)) [
          | inl alpha ↦ rw (a, alpha) (by_acron-IsOfText alpha _ _ _ refl refl refl)
          | inr b ↦ elim (Bool-cases (is_neg pn || ltb_ℤ (pos 255) pn)) [
            | inl bad ↦
                rw (a, b, bad) (inr (b, inl (either_eq (is_neg pn) (ltb_ℤ (pos 255) pn) bad)))
            | inr fine ↦ rw (a, b, fine) (by_number-IsOfText (split_at b',' pg_str) b refl fine)
          ]
        ]
      ]
