-- ===== src/Settings/Value.antt =====
-- The cut of a value to the width of its item.
use sdparm.Prelude.{lt→ltb, refl, ℕ, ◌-◌, ◌%◌, ◌^◌, ◌≤◌, ◌<◌, ◌≡◌, ◌∙◌, ap, arith}
use Prim.Native.Nat.{bit_and}
use native.Mathlib.Decide.{dec_lt}
use native.Mathlib.Nat.{one-le-pow, mod-lt, mod-eq_of_lt, pow-le-pow_right}
use sdparm.Prelude.Bits.{mask_and, bit_and_comm}
use sdparm.Prelude.Int.{ℤ, pos}
use sdparm.ModeSelect.Change.{to_u64}
use sdparm.Settings.{truncate_val}

-- Of a value that is cut to the width of an item of up to 64 bits, the same bits are written to
-- the item as of the value itself.
pub truncate_val-same_bits :
    (val : ℤ) (n : ℕ) → n ≤ 64 → to_u64 (truncate_val val n) % 2 ^ n ≡ to_u64 val % 2 ^ n
unfolding truncate_val
truncate_val-same_bits val n h =
    let low = to_u64 val % 2 ^ n in
    let pow : 1 ≤ 2 ^ n = one-le-pow n 2 (omega arith) in
    let small : low < 2 ^ n = mod-lt (to_u64 val) pow in
    let wide : 2 ^ n ≤ 2 ^ 64 = pow-le-pow_right (omega arith) h in
    let masked : bit_and (to_u64 val) (2 ^ n - 1) ≡ low =
      bit_and_comm (to_u64 val) (2 ^ n - 1) ∙ mask_and n (to_u64 val) in
    let kept : low % 2 ^ 64 ≡ low = mod-eq_of_lt (omega (arith, small, wide)) in
    let again : low % 2 ^ n ≡ low = mod-eq_of_lt small in
    elim (dec_lt n 64) [
      | yes lt ↦
          let cut : truncate_val val n ≡ pos low = ground (arith, masked, lt) in
          ap (λ (v : ℤ). to_u64 v % 2 ^ n) cut ∙ ap (λ (t : ℕ). t % 2 ^ n) kept ∙ again
      | no ge ↦ ground arith
    ]

-- A value that is cut is not negative and fits in the field.
pub truncate_val-lt :
    (val : ℤ) (n : ℕ) → n < 64 → (m : ℕ) × (truncate_val val n ≡ pos m) × (m < 2 ^ n)
unfolding truncate_val
truncate_val-lt val n h =
    let low = to_u64 val % 2 ^ n in
    let pow : 1 ≤ 2 ^ n = one-le-pow n 2 (omega arith) in
    let masked : bit_and (to_u64 val) (2 ^ n - 1) ≡ low =
      bit_and_comm (to_u64 val) (2 ^ n - 1) ∙ mask_and n (to_u64 val) in
    (low, rw (lt→ltb n 64 h, masked) refl, mod-lt (to_u64 val) pow)
