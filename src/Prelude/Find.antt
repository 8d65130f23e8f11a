-- ===== src/Prelude/Find.antt =====
-- `for (p = table; p->key; ++p) if (test) return p; return NULL;`
use sdparm.Prelude.Tests.{if◌then◌else◌, Bool-cases, &&-eq_true}
use mathlib.Core.Path.{◌≡◌, refl}
use mathlib.Core.Logic.{inl, inr}
use mathlib.Core.Bool.{Bool, true, false, ◌&&◌}
use mathlib.Core.Option.{Option, none, some}
use mathlib.Core.List.{List, [], ◌∷◌}
use native.Mathlib.Omega.{arith}
use sdparm.Prelude.Lists.{All}

module _ {ℓ} {A : Type ℓ} where
  unfoldable pub first_match : (A → Bool) → List A → Option A
  first_match test [] = none
  first_match test (x ∷ xs) = if test x then some x else first_match test xs

  -- What is found passes the test.
  pub first_match_passes :
      (test : A → Bool) (xs : List A) (x : A) → first_match test xs ≡ some x → test x ≡ true
  unfolding first_match
  first_match_passes test [] x h = cc
  first_match_passes test (y ∷ ys) x h = ground (arith, first_match_passes test ys x)

  -- It has every property that all elements of the list have.
  pub first_match-All {κ} :
      (P : A → Type κ) (test : A → Bool) (xs : List A) (x : A)
      → All P xs
      → first_match test xs ≡ some x
      → P x
  unfolding first_match
  first_match-All P test [] x a h = absurd (cc)
  first_match-All P test (y ∷ ys) x a h = elim (Bool-cases (test y)) [
    | inl passes ↦ let e : y ≡ x = cc in rw (← e) a.0
    | inr fails ↦ first_match-All P test ys x a.1 (rw fails at h)
  ]

  -- Nothing is found only where every element fails the test.
  pub none→All_fails :
      (test : A → Bool) (xs : List A) → first_match test xs ≡ none → All (λ x. test x ≡ false) xs
  unfolding first_match
  none→All_fails test [] h = tt
  none→All_fails test (y ∷ ys) h = ground (arith, none→All_fails test ys)

  pub first_match-fails :
      (test : A → Bool) (xs : List A) → All (λ x. test x ≡ false) xs → first_match test xs ≡ none
  unfolding first_match
  first_match-fails test [] h = refl
  first_match-fails test (y ∷ ys) h = ground (arith, first_match-fails test ys h.1)

  pub All-map {κ μ} :
      (P : A → Type κ) (Q : A → Type μ)
      → ((x : A) → P x → Q x)
      → (xs : List A) → All P xs
      → All Q xs
  All-map P Q f [] h = tt
  All-map P Q f (x ∷ xs) h = (f x h.0, All-map P Q f xs h.1)

  -- A test of all elements, to be computed.
  unfoldable pub all : (A → Bool) → List A → Bool
  all test [] = true
  all test (x ∷ xs) = test x && all test xs

  pub all-All : (test : A → Bool) (xs : List A) → all test xs ≡ true → All (λ x. test x ≡ true) xs
  unfolding all
  all-All test [] h = tt
  all-All test (x ∷ xs) h =
      let (here, rest) = &&-eq_true (test x) (all test xs) h in (here, all-All test xs rest)
