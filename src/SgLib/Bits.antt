-- ===== src/SgLib/Bits.antt =====
-- Bit strings, counted from the most significant bit of the first byte on.
use sdparm.Prelude.{
  ℕ, zero, suc, ◌+◌, ◌-◌, ◌*◌, ◌/◌, ◌%◌, ◌^◌, ◌≤◌, ◌<◌, List, ◌≡◌, refl, ◌∙◌, ap, arith, get_or,
  length, drop, [], ◌∷◌,
}
use sdparm.Prelude.Bits.{halve_pow, mod_double}
use native.Mathlib.Decide.{dec_lt}
use native.Mathlib.Nat.{zero-div, pow-succ', one-le-pow}

unfoldable pub bit_at : List ℕ → ℕ → ℕ
bit_at bs i = get_or bs (i / 8) 0 / 2 ^ (7 - i % 8) % 2

-- The number that `n` bits spell, the first of them at `i`.
unfoldable pub bits_value : (ℕ → ℕ) → ℕ → ℕ → ℕ
bits_value f i zero = 0
bits_value f i (suc n) = bits_value f i n * 2 + f (i + n)

pub bits_value_ext :
    (f g : ℕ → ℕ) (i j n : ℕ)
    → ((k : ℕ) → k < n → f (i + k) ≡ g (j + k))
    → bits_value f i n ≡ bits_value g j n
unfolding bits_value
bits_value_ext f g i j zero h = refl
bits_value_ext f g i j (suc n) h =
    omega (arith, bits_value_ext f g i j n (λ k lt. h k (omega arith)), h n (omega arith))

-- The bits `f` of a field of `n` bits at `i` are the low bits of `v`.
abbrev pub Spells : (ℕ → ℕ) → ℕ → ℕ → ℕ → Type 0
Spells f i n v = (k : ℕ) → k < n → f (i + k) ≡ v / 2 ^ (n - 1 - k) % 2

Spells-suc : (f : ℕ → ℕ) (i n v : ℕ) → Spells f i (suc n) v → Spells f i n (v / 2)
Spells-suc f i n v h k lt =
    let e : suc n - 1 - k ≡ suc (n - 1 - k) = omega arith in
    h k (omega arith) ∙ rw (e, halve_pow v (n - 1 - k))

Spells-last : (f : ℕ → ℕ) (i n v : ℕ) → Spells f i (suc n) v → f (i + n) ≡ v % 2
Spells-last f i n v h =
    let e : suc n - 1 - n ≡ 0 = omega arith in h n (omega arith) ∙ rw e (omega arith)

pub bits_value_of : (f : ℕ → ℕ) (i n v : ℕ) → Spells f i n v → bits_value f i n ≡ v % 2 ^ n
unfolding bits_value
bits_value_of f i zero v h = omega arith
bits_value_of f i (suc n) v h =
    rw (pow-succ' 2 n, mod_double v (2 ^ n) (one-le-pow n 2 (omega arith)))
      (omega (arith, bits_value_of f i n (v / 2) (Spells-suc f i n v h), Spells-last f i n v h))

pub get_or-drop : (bs : List ℕ) (k i : ℕ) → get_or (drop k bs) i 0 ≡ get_or bs (k + i) 0
get_or-drop bs zero i = let e : i ≡ 0 + i = omega arith in ap (λ (t : ℕ). get_or bs t 0) e
get_or-drop [] (suc k) i = refl
get_or-drop (b ∷ bs) (suc k) i =
    let e : suc (k + i) ≡ suc k + i = omega arith in
    get_or-drop bs k i ∙ ap (λ (t : ℕ). get_or (b ∷ bs) t 0) e

pub bit_at-drop : (bs : List ℕ) (k i : ℕ) → bit_at (drop k bs) i ≡ bit_at bs (8 * k + i)
unfolding bit_at
bit_at-drop bs k i = rw (get_or-drop bs k (i / 8), ← place, ← row) refl
  where
    place : (8 * k + i) / 8 ≡ k + i / 8
    place = omega arith

    row : (8 * k + i) % 8 ≡ i % 8
    row = omega arith

-- A number that was put together from bits has those bits.
pub bits_value_bit :
    (f : ℕ → ℕ) (i n r : ℕ)
    → ((j : ℕ) → f j < 2)
    → r < n
    → bits_value f i n / 2 ^ (n - 1 - r) % 2 ≡ f (i + r)
unfolding bits_value
bits_value_bit f i zero r two h = absurd (omega arith)
bits_value_bit f i (suc n) r two h = elim (dec_lt r n) [
  | yes below ↦
      let e : suc n - 1 - r ≡ suc (n - 1 - r) = omega arith in
      let half : (bits_value f i n * 2 + f (i + n)) / 2 ≡ bits_value f i n =
        omega (arith, two (i + n)) in
      rw (e, halve_pow (bits_value f i n * 2 + f (i + n)) (n - 1 - r), half)
        (bits_value_bit f i n r two below)
  | no above ↦
      let last : r ≡ n = omega arith in
      let e : suc n - 1 - n ≡ 0 = omega arith in rw (last, e) (omega (arith, two (i + n)))
]

pub bit_at-lt : (bs : List ℕ) (i : ℕ) → bit_at bs i < 2
unfolding bit_at
bit_at-lt bs i = omega arith

get_or_end : (bs : List ℕ) (i : ℕ) → length bs ≤ i → get_or bs i 0 ≡ 0
get_or_end [] i h = refl
get_or_end (b ∷ bs) zero h = absurd (omega arith)
get_or_end (b ∷ bs) (suc i) h = get_or_end bs i (omega arith)

pub bit_at_end : (bs : List ℕ) (i : ℕ) → 8 * length bs ≤ i → bit_at bs i ≡ 0
unfolding bit_at
bit_at_end bs i h = rw (get_or_end bs (i / 8) (omega arith)) (rw zero-div refl)
