-- ===== src/Field/Splice.antt =====
-- The bits of a byte string of which the tail was written anew.
use sdparm.Prelude.{
  ℕ, zero, suc, ◌+◌, ◌*◌, ◌/◌, ◌%◌, ◌≤◌, ◌<◌, List, [], ◌∷◌, ◌++◌, ◌≡◌, refl, ap, arith, length,
  get_or, take,
}
use sdparm.SgLib.Bits.{bit_at}

get_or-take_append_lt :
    (xs ys : List ℕ) (k i : ℕ)
    → k ≤ length xs
    → i < k
    → get_or (take k xs ++ ys) i 0 ≡ get_or xs i 0
get_or-take_append_lt xs ys zero i h lt = absurd (omega arith)
get_or-take_append_lt [] ys (suc k) i h lt = absurd (omega arith)
get_or-take_append_lt (x ∷ xs) ys (suc k) zero h lt = refl
get_or-take_append_lt (x ∷ xs) ys (suc k) (suc i) h lt =
    get_or-take_append_lt xs ys k i (omega arith) (omega arith)

get_or-take_append_ge :
    (xs ys : List ℕ) (k i : ℕ) → k ≤ length xs → get_or (take k xs ++ ys) (k + i) 0 ≡ get_or ys i 0
get_or-take_append_ge xs ys zero i h =
    let e : 0 + i ≡ i = omega arith in ap (λ (t : ℕ). get_or ys t 0) e
get_or-take_append_ge [] ys (suc k) i h = absurd (omega arith)
get_or-take_append_ge (x ∷ xs) ys (suc k) i h =
    let e : suc k + i ≡ suc (k + i) = omega arith in
    rw e (get_or-take_append_ge xs ys k i (omega arith))

-- In front of the seam the bits are the old ones.
pub bit_at-splice_lt :
    (xs ys : List ℕ) (k i : ℕ)
    → k ≤ length xs
    → i < 8 * k
    → bit_at (take k xs ++ ys) i ≡ bit_at xs i
unfolding bit_at
bit_at-splice_lt xs ys k i h lt = rw (get_or-take_append_lt xs ys k (i / 8) h (omega arith))

-- Behind it they are those of the new tail.
pub bit_at-splice_ge :
    (xs ys : List ℕ) (k i : ℕ) → k ≤ length xs → bit_at (take k xs ++ ys) (8 * k + i) ≡ bit_at ys i
unfolding bit_at
bit_at-splice_ge xs ys k i h =
    let place : (8 * k + i) / 8 ≡ k + i / 8 = omega arith in
    let row : (8 * k + i) % 8 ≡ i % 8 = omega arith in
    rw (place, row, get_or-take_append_ge xs ys k (i / 8) h)
