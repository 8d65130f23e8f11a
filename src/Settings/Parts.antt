-- ===== src/Settings/Parts.antt =====
-- The loop over the parts of an argument, and how it goes on behind a comma.
use sdparm.Prelude.{
  ℕ, zero, suc, ◌≤◌, ◌<◌, ◌⊎◌, Bool, true, false, none, some, List, [], ◌∷◌, ◌++◌, ◌≡◌, refl, sym,
  ap, ◌∙◌, arith, length, length-append, leb, ◌==◌, ==_refl, Bool-cases, inl, inr, if◌then◌else◌,
}
use mathlib.Core.Option.{none-ne-some, some-injective}
use sdparm.SgLib.{SgLib}
use sdparm.Settings.Text.{split_at, cons_front}
use sdparm.Settings.Build.{
  Scan, Settings, Mode, Built, built, failed, no_fuel, then_more, build_part, build_loop,
  build_item, build_mp_settings,
}

-- There is no `c`, and one that is put behind the text ends the first part.
abbrev Unsplit : ℕ → List ℕ → Type 0
Unsplit c s = (split_at c s ≡ none) × ((t : List ℕ) → split_at c (s ++ (c ∷ t)) ≡ some (s, t))

-- A part ends in front of a shorter rest, and more text only makes the rest longer.
abbrev SplitBy : ℕ → List ℕ → Type 0
SplitBy c s =
    (p r : List ℕ) × (split_at c s ≡ some (p, r))
    × (length r < length s)
    × ((t : List ℕ) → split_at c (s ++ (c ∷ t)) ≡ some (p, r ++ (c ∷ t)))

split_at-cons :
    (c d : ℕ) (s : List ℕ)
    → split_at c (d ∷ s) ≡ (if d == c then some ([], s) else cons_front d (split_at c s))
unfolding split_at
split_at-cons c d s = refl

split_view-cons :
    (c d : ℕ) (s : List ℕ) (same : Bool)
    → (d == c) ≡ same
    → (Unsplit c s ⊎ SplitBy c s)
    → Unsplit c (d ∷ s) ⊎ SplitBy c (d ∷ s)
split_view-cons c d s true e v = inr (
  [],
  s,
  split_at-cons c d s ∙ rw e refl,
  omega arith,
  λ t. split_at-cons c d (s ++ (c ∷ t)) ∙ rw e refl,
)
split_view-cons c d s false e (inl u) = inl (
  split_at-cons c d s ∙ rw (e, u.0) refl,
  λ t. split_at-cons c d (s ++ (c ∷ t)) ∙ rw (e, u.1 t) refl,
)
split_view-cons c d s false e (inr (p, r, at, le, more)) = inr (
  d ∷ p,
  r,
  split_at-cons c d s ∙ rw (e, at) refl,
  omega (arith, le),
  λ t. split_at-cons c d (s ++ (c ∷ t)) ∙ rw (e, more t) refl,
)

split_view : (c : ℕ) (s : List ℕ) → Unsplit c s ⊎ SplitBy c s
split_view c [] = inl (unfold split_at in refl, λ t. split_at-cons c c t ∙ rw (==_refl c) refl)
split_view c (d ∷ s) = split_view-cons c d s (d == c) refl (split_view c s)

pub split_at-shorter : (c : ℕ) (s p r : List ℕ) → split_at c s ≡ some (p, r) → length r < length s
split_at-shorter c s p r e = elim (split_view c s) [
  | inl u ↦ absurd (none-ne-some (p, r) (sym u.0 ∙ e))
  | inr (p', r', at, le, more) ↦
      let same : r' ≡ r = ap (λ t. t.1) (some-injective (p', r') (p, r) (sym at ∙ e)) in
      omega (arith, le, ap length same)
]

then_more-ext :
    (b : Built) (f g : Settings → Built)
    → ((st : Settings) → f st ≡ g st)
    → then_more b f ≡ then_more b g
then_more-ext (built st) f g h = h st
then_more-ext failed f g h = refl
then_more-ext no_fuel f g h = refl

then_more-then_more :
    (b : Built) (f g : Settings → Built)
    → then_more (then_more b f) g ≡ then_more b (λ st. then_more (f st) g)
then_more-then_more (built st) f g = refl
then_more-then_more failed f g = refl
then_more-then_more no_fuel f g = refl

module _ (item : List ℕ → Settings → Built) where
  build_part-ext :
      (cp p r : List ℕ) (st : Settings) (f g : List ℕ → Settings → Built)
      → ((st' : Settings) → f r st' ≡ g r st')
      → build_part item cp (some (p, r)) st f ≡ build_part item cp (some (p, r)) st g
  unfolding build_part
  build_part-ext [] p r st f g h = refl
  build_part-ext (c ∷ cp) [] r st f g h = h st
  build_part-ext (c ∷ cp) (d ∷ p) r st f g h = then_more-ext (item (d ∷ p) st) (f r) (g r) h

  -- One unit of fuel more than there are characters is enough.
  build_loop-fuel :
      (f g : ℕ) (cp : List ℕ) (st : Settings)
      → length cp < f
      → length cp < g
      → build_loop item f cp st ≡ build_loop item g cp st
  unfolding build_loop
  build_loop-fuel zero g cp st hf hg = absurd (omega arith)
  build_loop-fuel (suc f) zero cp st hf hg = absurd (omega arith)
  build_loop-fuel (suc f) (suc g) cp st hf hg =
      ap (λ t. if leb 128 (length st.mps.it_vals) then built st else t)
        (elim (split_view b',' cp) [
          | inl u ↦ rw (u.0) (no_more cp)
          | inr (p, r, at, le, more) ↦ rw at (
              build_part-ext cp p r st (build_loop item f) (build_loop item g)
                λ st'. build_loop-fuel f g r st' (omega (arith, le)) (omega (arith, le)))
        ])
    where
      no_more :
          (cp : List ℕ)
          → build_part item cp none st (build_loop item f)
            ≡ build_part item cp none st (build_loop item g)
      no_more [] = unfold build_part in refl
      no_more (c ∷ cp) = unfold build_part in refl

  -- The loop with the fuel that build_mp_settings gives it.
  abbrev pub run : List ℕ → Settings → Built
  run cp st = build_loop item (suc (length cp)) cp st

  run-full :
      (cp : List ℕ) (st : Settings) → leb 128 (length st.mps.it_vals) ≡ true → run cp st ≡ built st
  unfolding build_loop
  run-full cp st full = rw full refl

  -- The last part.
  pub run-last :
      (cp : List ℕ) (st : Settings)
      → leb 128 (length st.mps.it_vals) ≡ false
      → split_at b',' cp ≡ none
      → run cp st ≡ build_part item cp none st run
  unfolding build_loop build_part
  run-last [] st more e = rw more refl
  run-last (c ∷ cp) st more e = rw (more, e) refl

  -- A part in front of a comma.
  run-part :
      (cp p r : List ℕ) (st : Settings)
      → leb 128 (length st.mps.it_vals) ≡ false
      → split_at b',' cp ≡ some (p, r)
      → length r < length cp
      → run cp st ≡ build_part item cp (some (p, r)) st run
  unfolding build_loop
  run-part cp p r st more e le =
      rw (more, e)
        (build_part-ext cp p r st (build_loop item (length cp)) run
          λ st'. build_loop-fuel (length cp) (suc (length r)) r st' le (omega arith))

  part-append :
      (cp cp' p r r' t : List ℕ) (st : Settings)
      → 1 ≤ length cp
      → 1 ≤ length cp'
      → ((st' : Settings) → run r' st' ≡ then_more (run r st') (run t))
      → build_part item cp' (some (p, r')) st run
        ≡ then_more (build_part item cp (some (p, r)) st run) (run t)
  unfolding build_part
  part-append [] cp' p r r' t st l l' h = absurd (omega arith)
  part-append (c ∷ cp) [] p r r' t st l l' h = absurd (omega arith)
  part-append (c ∷ cp) (c' ∷ cp') [] r r' t st l l' h = h st
  part-append (c ∷ cp) (c' ∷ cp') (d ∷ p) r r' t st l l' h =
      then_more-ext (item (d ∷ p) st) (run r') (λ st'. then_more (run r st') (run t)) h
      ∙ sym (then_more-then_more (item (d ∷ p) st) (run r) (run t))

  last-append :
      (s t cp' : List ℕ) (st : Settings)
      → 1 ≤ length cp'
      → build_part item cp' (some (s, t)) st run ≡ then_more (build_part item s none st run) (run t)
  unfolding build_part
  last-append s t [] st l = absurd (omega arith)
  last-append [] t (c' ∷ cp') st l = refl
  last-append (d ∷ s) t (c' ∷ cp') st l = refl

  run-append :
      (n : ℕ) (s t : List ℕ) (st : Settings)
      → length s < n
      → run (s ++ (b',' ∷ t)) st ≡ then_more (run s st) (run t)
  run-append zero s t st h = absurd (omega arith)
  run-append (suc n) s t st h = elim (Bool-cases (leb 128 (length st.mps.it_vals))) [
    | inl full ↦
        run-full (s ++ (b',' ∷ t)) st full
        ∙ sym (run-full t st full)
        ∙ ap (λ b. then_more b (run t)) (sym (run-full s st full))
    | inr more ↦ elim (split_view b',' s) [
      | inl u ↦
          let total = length-append s (b',' ∷ t) in
          run-part (s ++ (b',' ∷ t)) s t st more (u.1 t) (omega (arith, total))
          ∙ last-append s t (s ++ (b',' ∷ t)) st (omega (arith, total))
          ∙ ap (λ b. then_more b (run t)) (sym (run-last s st more u.0))
      | inr (p, r, at, le, far) ↦
          let total = length-append s (b',' ∷ t) in
          let total' = length-append r (b',' ∷ t) in
          run-part (s ++ (b',' ∷ t)) p (r ++ (b',' ∷ t)) st more (far t)
            (omega (arith, total, total', le))
          ∙ part-append s (s ++ (b',' ∷ t)) p r (r ++ (b',' ∷ t)) t st (omega (arith, le))
              (omega (arith, total)) (λ st'. run-append n r t st' (omega (arith, le)))
          ∙ ap (λ b. then_more b (run t)) (sym (run-part s p r st more at le))
    ]
  ]

module _ (sg : SgLib) (sscanf : List ℕ → List ℕ → Scan) (mode : Mode) where
  -- An argument with a comma means the same as its two parts, given one after the other: the
  -- second goes on from the settings, the page and the transport that the first leaves, and there
  -- is an error if one of them has one. This holds for every comma, also beside another one, at an
  -- end, and behind the 128 items after which the rest is ignored.
  pub build_mp_settings-append :
      (s t : List ℕ) (st : Settings)
      → build_mp_settings sg sscanf mode (s ++ (b',' ∷ t)) st
        ≡ then_more (build_mp_settings sg sscanf mode s st) (build_mp_settings sg sscanf mode t)
  unfolding build_mp_settings
  build_mp_settings-append s t st =
      run-append (build_item sg sscanf mode) (suc (length s)) s t st (omega arith)
