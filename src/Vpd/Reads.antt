-- ===== src/Vpd/Reads.antt =====
-- When a read of a page stays inside it.
use sdparm.Vpd.{has, byte, word, ◌>>=◌}
use sdparm.Prelude.{
  ℕ, zero, suc, ◌+◌, ◌≤◌, ◌<◌, true, false, Option, none, some, List, [], ◌∷◌, ◌≡◌, refl, arith,
  length, drop,
}

pub has-le : (n : ℕ) (bp : List ℕ) → n ≤ length bp → has n bp ≡ true
has-le zero bp h = refl
has-le (suc n) [] h = absurd (omega arith)
has-le (suc n) (b ∷ bp) h = has-le n bp (omega arith)

pub has-lt : (n : ℕ) (bp : List ℕ) → length bp < n → has n bp ≡ false
has-lt zero bp h = absurd (omega arith)
has-lt (suc n) [] h = refl
has-lt (suc n) (b ∷ bp) h = has-lt n bp (omega arith)

pub byte_inside : (bp : List ℕ) (i : ℕ) → i < length bp → (v : ℕ) × (byte bp i ≡ some v)
byte_inside [] i h = absurd (omega arith)
byte_inside (b ∷ bp) zero h = (b, refl)
byte_inside (b ∷ bp) (suc i) h = byte_inside bp i (omega arith)

pub byte_behind : (bp : List ℕ) (i : ℕ) → length bp ≤ i → byte bp i ≡ none
byte_behind [] i h = refl
byte_behind (b ∷ bp) zero h = absurd (omega arith)
byte_behind (b ∷ bp) (suc i) h = byte_behind bp i (omega arith)

module _ (get : List ℕ → ℕ) (n : ℕ) (bp : List ℕ) (i : ℕ) where
  pub word_inside : i + n ≤ length bp → word get n bp i ≡ some (get (drop i bp))
  word_inside h = rw (has-le (i + n) bp h) refl

  pub word_behind : length bp < i + n → word get n bp i ≡ none
  word_behind h = rw (has-lt (i + n) bp h) refl

-- A chain of reads fails with its last one.
pub >>=-none :
    {A B : Type 0} (o : Option A) (f : A → Option B) → ((a : A) → f a ≡ none) → (o >>= f) ≡ none
>>=-none none f h = refl
>>=-none (some a) f h = h a
