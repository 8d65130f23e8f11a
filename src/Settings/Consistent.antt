-- ===== src/Settings/Consistent.antt =====
-- What the settings of --set= and --clear= have in common.
use sdparm.Prelude.{
  ℕ, ◌^◌, ◌≤◌, ◌<◌, ◌⊎◌, inl, inr, Bool, false, Option, none, some, List, [], ◌∷◌, ◌++◌, ◌≡◌, refl,
  arith, length, length-append, All, Bool-cases, ◌||◌,
}
use sdparm.Prelude.Int.{ℤ, pos, is_neg, pos_part, ltb_ℤ}
use native.Mathlib.Decide.{dec_lt}
use sdparm.ModeSelect.Change.{MpItVal}
use sdparm.Settings.{Found, found, not_found, find_setting, truncate_val}
use sdparm.Settings.Page.{find_setting-IsOnPage}
use sdparm.Settings.Search.{find_setting-ends}
use sdparm.Settings.Value.{truncate_val-lt}
use sdparm.Settings.Build.{
  Scan, Settings, Built, built, failed, no_fuel, add_setting, target_of, store_found, find_parsed,
  store_numeric, with_numeric,
}

-- An item found by its acronym is on the page of the settings.
abbrev pub SamePage : ℤ → ℤ → MpItVal → Type 0
SamePage pg_num subpg_num v = (pg_num ≡ pos v.mp_it.pg_num) × (subpg_num ≡ pos v.mp_it.subpg_num)

-- An item given by numbers is a field that the library can write.
abbrev pub IsNumbered : MpItVal → Type 0
IsNumbered v =
    (v.mp_it.acron ≡ none)
    × (v.mp_it.start_bit ≤ 7)
    × (1 ≤ v.mp_it.num_bits)
    × (v.mp_it.num_bits ≤ 64)

-- The value fits in the field.
abbrev pub FitsField : MpItVal → Type 0
FitsField v = (64 ≤ v.mp_it.num_bits) ⊎ ((n : ℕ) × (v.val ≡ pos n) × (n < 2 ^ v.mp_it.num_bits))

abbrev pub IsSetting : ℤ → ℤ → MpItVal → Type 0
IsSetting pg_num subpg_num v = (SamePage pg_num subpg_num v ⊎ IsNumbered v) × FitsField v

-- There are no more settings than the array holds, none before a page is named, and each is one of
-- that page.
pub record IsConsistent (st : Settings) : Type 0 where
  pub room : length st.mps.it_vals ≤ 128
  pub named : (st.mps.it_vals ≡ []) ⊎ (is_neg st.mps.pg_num ≡ false)
  pub settings : All (IsSetting st.mps.pg_num st.mps.subpg_num) st.mps.it_vals

-- The outcome is an error or consistent.
abbrev pub Yields : (Settings → Type 0) → Built → Type 0
Yields I (built st) = I st
Yields I failed = Unit {0}
Yields I no_fuel = ⊥

All-snoc :
    {A : Type 0} (P : A → Type 0) (xs : List A) (x : A) → All P xs → P x → All P (xs ++ (x ∷ []))
All-snoc P [] x h px = (px, tt)
All-snoc P (y ∷ xs) x h px = (h.0, All-snoc P xs x h.1 px)

cut_fits : (val : ℤ) (n : ℕ) → (64 ≤ n) ⊎ ((m : ℕ) × (truncate_val val n ≡ pos m) × (m < 2 ^ n))
cut_fits val n = elim (dec_lt n 64) [
  | yes less ↦ inr (truncate_val-lt val n less)
  | no more ↦ inl (omega arith)
]

-- A setting of the page that is named from then on may be added.
add_setting-IsConsistent :
    (st : Settings) (pg sub tr : ℤ) (v : MpItVal)
    → IsConsistent st
    → length st.mps.it_vals < 128
    → is_neg pg ≡ false
    → (is_neg st.mps.pg_num ≡ false → (pg ≡ st.mps.pg_num) × (sub ≡ st.mps.subpg_num))
    → IsSetting pg sub v
    → IsConsistent (add_setting st pg sub tr v)
add_setting-IsConsistent st pg sub tr v is less named kept h = record {
  room = omega (arith, length-append st.mps.it_vals (v ∷ []));
  named = inr named;
  settings = elim is.named [
    | inl empty ↦ rw empty (h, tt)
    | inr before ↦
        let k = kept before in
        All-snoc (IsSetting pg sub) st.mps.it_vals v (rw (k.0, k.1) is.settings) h
  ];
}

store_found-IsConsistent :
    (acron : List ℕ) (vendor_id : ℤ) (st : Settings) (val : ℤ) (n : ℕ) (o : Option Found)
    → find_setting false acron vendor_id (target_of st) ≡ o
    → IsConsistent st
    → length st.mps.it_vals < 128
    → Yields IsConsistent (store_found false st val n o)
unfolding store_found
store_found-IsConsistent acron vendor_id st val n none e is less =
    absurd (find_setting-ends false acron vendor_id (target_of st) e)
store_found-IsConsistent acron vendor_id st val n (some not_found) e is less = tt
store_found-IsConsistent acron vendor_id st val n (some (found mpip target)) e is less =
    let p = find_setting-IsOnPage acron vendor_id (target_of st) target mpip e in
    add_setting-IsConsistent st target.pg_num target.subpg_num target.transport _ is less
      (rw p.page (ground arith)) (λ named. (p.page_kept named, p.subpage_kept named))
      (inl (p.page, p.subpage), cut_fits val mpip.num_bits)

pub find_parsed-IsConsistent :
    (clear : Bool) (vendor_id : ℤ) (st : Settings) (o : Option (List ℕ × (ℤ × ℕ)))
    → IsConsistent st
    → length st.mps.it_vals < 128
    → Yields IsConsistent
        (find_parsed (record { clear = clear; get = false; vendor_id = vendor_id }) st o)
unfolding find_parsed
find_parsed-IsConsistent clear vendor_id st none is less = tt
find_parsed-IsConsistent clear vendor_id st (some (acron, (val, n))) is less =
    store_found-IsConsistent acron vendor_id st val n _ refl is less

bit_range : (z : ℤ) → (is_neg z || ltb_ℤ (pos 7) z) ≡ false → pos_part z ≤ 7
bit_range z h = ground (arith, h)

width_range :
    (z : ℤ) → (ltb_ℤ z (pos 1) || ltb_ℤ (pos 64) z) ≡ false → (1 ≤ pos_part z) × (pos_part z ≤ 64)
width_range z h = (ground (arith, h), ground (arith, h))

store_numeric-IsConsistent :
    (st : Settings) (start_byte : ℤ) (s : Scan) (val : ℤ)
    → IsConsistent st
    → length st.mps.it_vals < 128
    → Yields IsConsistent (store_numeric false st start_byte s val)
unfolding store_numeric
store_numeric-IsConsistent st start_byte s val is less = elim (Bool-cases (is_neg start_byte)) [
  | inl neg ↦ rw neg tt
  | inr a ↦ elim (Bool-cases (is_neg s.second || ltb_ℤ (pos 7) s.second)) [
    | inl bad ↦ rw (a, bad) tt
    | inr b ↦ elim (Bool-cases (ltb_ℤ s.third (pos 1) || ltb_ℤ (pos 64) s.third)) [
      | inl bad ↦ rw (a, b, bad) tt
      | inr c ↦ elim (Bool-cases (is_neg st.mps.pg_num)) [
        | inl bad ↦ rw (a, b, c, bad) tt
        | inr d ↦
            let w = width_range s.third c in
            rw (a, b, c, d)
              (add_setting-IsConsistent st st.mps.pg_num st.mps.subpg_num st.transport _ is less d
                (λ named. (refl, refl))
                (inr (refl, bit_range s.second b, w.0, w.1), cut_fits val (pos_part s.third)))
      ]
    ]
  ]
]

pub with_numeric-IsConsistent :
    (st : Settings) (start_byte : ℤ) (s : Scan) (o : Option ℤ)
    → IsConsistent st
    → length st.mps.it_vals < 128
    → Yields IsConsistent (with_numeric false st start_byte s o)
unfolding with_numeric
with_numeric-IsConsistent st start_byte s none is less = tt
with_numeric-IsConsistent st start_byte s (some val) is less =
    store_numeric-IsConsistent st start_byte s val is less
