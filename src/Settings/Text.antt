-- ===== src/Settings/Text.antt =====
-- The text of one setting by acronym, `<acronym>[.<desc_num>][=<val>]`, as build_mp_settings of
-- src/sdparm.c takes it apart. It has 63 characters at most, so its copies lose none.
use sdparm.Prelude.{
  ℕ, ◌<◌, ◌^◌, Bool, true, false, ◌&&◌, Option, none, some, List, [], ◌∷◌, ◌++◌, ◌≡◌, refl, ap, ◌∙◌,
  arith, All, ◌==◌, if◌then◌else◌,
}
use sdparm.Prelude.Int.{ℤ, pos, negsuc, is_neg, ◌==ℤ◌, pos_part}
use sdparm.Prelude.Text.{codes}
use sdparm.SgLib.{SgLib}
use sdparm.Field.{as_signed}
use sdparm.ModeSelect.Change.{to_u64}

abbrev pub cons_front : ℕ → Option (List ℕ × List ℕ) → Option (List ℕ × List ℕ)
cons_front d none = none
cons_front d (some (a, b)) = some (d ∷ a, b)

-- strchr: the text in front of the first `c` and the text behind it.
unfoldable pub split_at : ℕ → List ℕ → Option (List ℕ × List ℕ)
split_at c [] = none
split_at c (d ∷ r) = let rest = split_at c r in if d == c then some ([], r) else cons_front d rest

-- `0 == strcmp(a, b)`
unfoldable pub same_text : List ℕ → List ℕ → Bool
same_text [] [] = true
same_text [] (d ∷ s) = false
same_text (c ∷ r) [] = false
same_text (c ∷ r) (d ∷ s) = c == d && same_text r s

module _ (sg : SgLib) where
  -- The value behind '='. `none` stands for `goto err`.
  unfoldable pub parse_val : List ℕ → Option ℤ
  parse_val vb =
      let val = sg.get_llnum_nomult vb in
      if same_text (codes "-1") vb
      then some (negsuc 0)
      else if val ==ℤ negsuc 0
      then none
      else some val

  -- The descriptor number behind '.', an int.
  unfoldable pub parse_desc : List ℕ → Option ℕ
  parse_desc vb =
      let descriptor_num = as_signed 32 (to_u64 (sg.get_llnum_nomult vb)) in
      if is_neg descriptor_num then none else some (pos_part descriptor_num)

  abbrev with_val : List ℕ → Option ℤ → Option (List ℕ × ℤ)
  with_val acron none = none
  with_val acron (some val) = some (acron, val)

  abbrev with_desc : List ℕ → ℤ → Option ℕ → Option (List ℕ × (ℤ × ℕ))
  with_desc acron val none = none
  with_desc acron val (some n) = some (acron, (val, n))

  -- The part of the text up to '=' and the value; without one it is 0 for --clear= and --get= and
  -- -1 for --set=.
  unfoldable pub take_val : Bool → List ℕ → Option (List ℕ × List ℕ) → Option (List ℕ × ℤ)
  unfolding parse_val
  take_val clear_or_get b none = some (b, if clear_or_get then pos 0 else negsuc 0)
  take_val clear_or_get b (some (acron, vb)) = with_val acron (parse_val vb)

  -- The part up to '.' and the descriptor number, without which it is 0.
  unfoldable pub take_desc : List ℕ → ℤ → Option (List ℕ × List ℕ) → Option (List ℕ × (ℤ × ℕ))
  unfolding parse_desc
  take_desc acron val none = some (acron, (val, 0))
  take_desc acron val (some (front, vb)) = with_desc front val (parse_desc vb)

  abbrev then_desc : Option (List ℕ × ℤ) → Option (List ℕ × (ℤ × ℕ))
  then_desc none = none
  then_desc (some (acron, val)) = take_desc acron val (split_at b'.' acron)

  -- The acronym, the value and the descriptor number of the text `b`.
  unfoldable pub parse_setting : Bool → List ℕ → Option (List ℕ × (ℤ × ℕ))
  unfolding take_val take_desc
  parse_setting clear_or_get b = then_desc (take_val clear_or_get b (split_at b'=' b))

-- A text without the character `c`.
abbrev pub Lacks : ℕ → List ℕ → Type 0
Lacks c s = All (λ d. (d == c) ≡ false) s

split_at-Lacks : (c : ℕ) (s : List ℕ) → Lacks c s → split_at c s ≡ none
unfolding split_at
split_at-Lacks c [] h = refl
split_at-Lacks c (d ∷ r) h = ground (arith, split_at-Lacks c r h.1, h.0)

split_at-append : (c : ℕ) (s t : List ℕ) → Lacks c s → split_at c (s ++ (c ∷ t)) ≡ some (s, t)
unfolding split_at
split_at-append c [] t h = ground arith
split_at-append c (d ∷ r) t h = ground (arith, split_at-append c r t h.1, h.0)

Lacks-append : (c : ℕ) (s t : List ℕ) → Lacks c s → Lacks c t → Lacks c (s ++ t)
Lacks-append c [] t hs ht = ht
Lacks-append c (d ∷ r) t hs ht = (hs.0, Lacks-append c r t hs.1 ht)

module _ (sg : SgLib) where
  parse_val-number :
      (vb : List ℕ) (m : ℕ)
      → same_text (codes "-1") vb ≡ false
      → sg.get_llnum_nomult vb ≡ pos m
      → parse_val sg vb ≡ some (pos m)
  unfolding parse_val
  parse_val-number vb m plus h = rw (plus, h) (ground arith)

  parse_desc-number :
      (vb : List ℕ) (n : ℕ)
      → sg.get_llnum_nomult vb ≡ pos n
      → n < 2 ^ 31
      → parse_desc sg vb ≡ some n
  unfolding parse_desc
  parse_desc-number vb n h fits = rw h (ground (arith, fits))

  -- An acronym, a descriptor number and a value, written with '.' and '=' between them, are read
  -- back as they are, for --get=, --set= and --clear= alike: the acronym has neither of these
  -- characters and the number no '=', and sg_get_llnum_nomult reads the two numbers as `n` and
  -- `m`, of which `n` fits in an int.
  pub parse_setting-append :
      (clear_or_get : Bool) (acron desc_text val_text : List ℕ) (n m : ℕ)
      → Lacks b'.' acron
      → Lacks b'=' acron
      → Lacks b'=' desc_text
      → sg.get_llnum_nomult desc_text ≡ pos n
      → n < 2 ^ 31
      → same_text (codes "-1") val_text ≡ false
      → sg.get_llnum_nomult val_text ≡ pos m
      → parse_setting sg clear_or_get (acron ++ (b'.' ∷ desc_text) ++ (b'=' ∷ val_text))
        ≡ some (acron, (pos m, n))
  unfolding parse_setting take_val take_desc
  parse_setting-append clear_or_get acron desc_text val_text n m la le ld dn fits plus vm =
      let front = acron ++ (b'.' ∷ desc_text) in
      let no_equals : Lacks b'=' front = Lacks-append b'=' acron (b'.' ∷ desc_text) le (refl, ld) in
      let valued : take_val sg clear_or_get (front ++ (b'=' ∷ val_text)) (some (front, val_text))
          ≡ some (front, pos m) =
        ap (with_val sg front) (parse_val-number val_text m plus vm) in
      let numbered : take_desc sg front (pos m) (some (acron, desc_text))
          ≡ some (acron, (pos m, n)) =
        ap (with_desc sg acron (pos m)) (parse_desc-number desc_text n dn fits) in
      ap (λ t. then_desc sg (take_val sg clear_or_get (front ++ (b'=' ∷ val_text)) t))
        (split_at-append b'=' front val_text no_equals)
      ∙ ap (then_desc sg) valued
      ∙ ap (take_desc sg front (pos m)) (split_at-append b'.' acron desc_text la)
      ∙ numbered
