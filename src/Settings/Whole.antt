-- ===== src/Settings/Whole.antt =====
-- The loop over the parts of --set= and --clear= keeps the settings consistent.
use sdparm.Prelude.{
  ℕ, zero, suc, ◌<◌, inl, inr, Bool, false, Option, none, some, List, [], ◌∷◌, ◌≡◌, refl, arith,
  take, length, leb, Bool-cases, ◌||◌,
}
use sdparm.Prelude.Int.{ℤ, pos, ltb_ℤ}
use sdparm.SgLib.{SgLib}
use sdparm.Settings.Text.{split_at, parse_setting}
use sdparm.Settings.Parts.{split_at-shorter}
use sdparm.Settings.Build.{
  is_acronym, scan_numbers, Scan, Settings, Mode, Built, built, failed, no_fuel, numeric_val,
  build_numeric, then_more, build_part, build_loop, build_item, build_mp_settings,
}
use sdparm.Settings.Consistent.{
  IsConsistent, Yields, find_parsed-IsConsistent, with_numeric-IsConsistent,
}

-- The rounds and the loop, of any treatment of one part that keeps the settings consistent.
module _ (item : List ℕ → Settings → Built) where
  then_more-IsConsistent :
      (b : Built) (more : Settings → Built)
      → Yields IsConsistent b
      → ((st : Settings) → IsConsistent st → Yields IsConsistent (more st))
      → Yields IsConsistent (then_more b more)
  then_more-IsConsistent (built st) more h k = k st h
  then_more-IsConsistent failed more h k = tt
  then_more-IsConsistent no_fuel more h k = absurd h

  build_part-IsConsistent :
      (cp : List ℕ) (parts : Option (List ℕ × List ℕ)) (st : Settings)
      (more : List ℕ → Settings → Built)
      → IsConsistent st
      → ((part : List ℕ) → Yields IsConsistent (item part st))
      → ((p r : List ℕ) (st' : Settings)
          → parts ≡ some (p, r)
          → IsConsistent st'
          → Yields IsConsistent (more r st'))
      → Yields IsConsistent (build_part item cp parts st more)
  unfolding build_part
  build_part-IsConsistent [] parts st more is h k = is
  build_part-IsConsistent (c ∷ cp) none st more is h k = h (c ∷ cp)
  build_part-IsConsistent (c ∷ cp) (some ([], r)) st more is h k = k [] r st refl is
  build_part-IsConsistent (c ∷ cp) (some (d ∷ p, r)) st more is h k =
      then_more-IsConsistent (item (d ∷ p) st) (more r) (h (d ∷ p))
        (λ st' is'. k (d ∷ p) r st' refl is')

  build_loop-IsConsistent :
      ((part : List ℕ) (st : Settings)
        → IsConsistent st
        → length st.mps.it_vals < 128
        → Yields IsConsistent (item part st))
      → (fuel : ℕ) (cp : List ℕ) (st : Settings) → length cp < fuel
      → IsConsistent st
      → Yields IsConsistent (build_loop item fuel cp st)
  unfolding build_loop
  build_loop-IsConsistent h zero cp st enough is = absurd (omega arith)
  build_loop-IsConsistent h (suc fuel) cp st enough is =
      let ih = build_loop-IsConsistent h fuel in
      elim (Bool-cases (leb 128 (length st.mps.it_vals))) [
        | inl full ↦ rw full is
        | inr less ↦ rw less (
            build_part-IsConsistent cp (split_at b',' cp) st (build_loop item fuel) is
              (λ part. h part st is (ground (arith, less)))
              (λ p r st' e is'. ih r st' (omega (arith, split_at-shorter b',' cp p r e)) is'))
      ]

module _ (sg : SgLib) (sscanf : List ℕ → List ℕ → Scan) (clear : Bool) (vendor_id : ℤ) where
  -- --set=, or --clear= if `clear` is true.
  abbrev edit_mode : Mode
  edit_mode = record { clear = clear; get = false; vendor_id = vendor_id }

  build_numeric-IsConsistent :
      (st : Settings) (scanned : Scan × ℤ)
      → IsConsistent st
      → length st.mps.it_vals < 128
      → Yields IsConsistent (build_numeric sg sscanf edit_mode st scanned)
  unfolding build_numeric
  build_numeric-IsConsistent st (s, start_byte) is less = elim (Bool-cases (ltb_ℤ s.num (pos 3))) [
    | inl bad ↦ rw bad tt
    | inr enough ↦
        rw enough (with_numeric-IsConsistent st start_byte s (numeric_val sg edit_mode s) is less)
  ]

  build_item-IsConsistent :
      (part : List ℕ) (st : Settings)
      → IsConsistent st
      → length st.mps.it_vals < 128
      → Yields IsConsistent (build_item sg sscanf edit_mode part st)
  unfolding build_item
  build_item-IsConsistent part st is less = elim (Bool-cases (is_acronym (take 63 part))) [
    | inl acron ↦ rw acron (
        find_parsed-IsConsistent clear vendor_id st
          (parse_setting sg (clear || false) (take 63 part)) is less)
    | inr numbers ↦
        rw numbers (build_numeric-IsConsistent st (scan_numbers sscanf (take 63 part)) is less)
  ]

  -- From consistent settings, every argument of --set= and --clear= gives an error or consistent
  -- settings, and the loop always ends: there are at most 128 settings, and each is an item of the
  -- named page or a field of 1 to 64 bits from a bit 0 to 7 on, with a value that fits in it.
  pub build_mp_settings-IsConsistent :
      (arg : List ℕ) (st : Settings)
      → IsConsistent st
      → Yields IsConsistent (build_mp_settings sg sscanf edit_mode arg st)
  unfolding build_mp_settings
  build_mp_settings-IsConsistent arg st is =
      build_loop-IsConsistent (build_item sg sscanf edit_mode) build_item-IsConsistent
        (suc (length arg)) arg st (omega arith) is
