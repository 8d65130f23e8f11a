-- ===== src/Prelude/Bits.antt =====
-- Masks and flags as arithmetic, at every width. The native `bit_and` and `bit_or` mean a
-- recursion on binary digits with fuel; here is one equation for the lowest digit, and what
-- follows from it for the masks that the program uses.
use Prim.Native.Nat.{
  ℕ, zero, suc, ◌+◌, ◌-◌, ◌*◌, ◌/◌, ◌%◌, ◌^◌, ◌≤◌, ◌<◌, min, max, digits, bitwise, bit_and, bit_or,
  bit_and-bitwise, bit_or-bitwise,
}
use mathlib.Core.Path.{◌≡◌, refl, ◌∙◌, ap, sym}
use native.Mathlib.Decide.{dec_le}
use native.Mathlib.Nat.{
  pow-succ', one-le-pow, div-div-eq-div-mul, add-mul-mod_self_left, mod-eq_of_lt, mod-lt,
  div-add-mod,
}
use native.Mathlib.Omega.{arith}

pub halve_pow : (v k : ℕ) → v / 2 ^ suc k ≡ v / 2 / 2 ^ k
halve_pow v k = rw pow-succ' (sym (div-div-eq-div-mul v 2 (2 ^ k)))

pub mod_double : (v m : ℕ) → 0 < m → v % (2 * m) ≡ v / 2 % m * 2 + v % 2
mod_double v m h =
    ap (λ (t : ℕ). t % (2 * m)) regroup
    ∙ add-mul-mod_self_left low (2 * m) (v / 2 / m)
    ∙ mod-eq_of_lt fits
  where
    low : ℕ
    low = v / 2 % m * 2 + v % 2

    regroup : v ≡ low + 2 * m * (v / 2 / m)
    regroup = omega (arith, ap (λ (t : ℕ). 2 * t) (div-add-mod (v / 2) m))

    fits : low < 2 * m
    fits = omega (arith, mod-lt (v / 2) h)

module _ (z : ℕ → ℕ) (f : ℕ → ℕ → ℕ) where
  -- One unit of fuel above what `a` needs changes nothing.
  surplus : (n a b : ℕ) → a ≤ n → digits z f (suc n) a b ≡ digits z f n a b
  surplus zero zero b h = refl
  surplus (suc n) zero b h = refl
  surplus zero (suc a) b h = absurd (omega arith)
  surplus (suc n) (suc a) b h = rw (surplus n (suc a / 2) (b / 2) (omega arith))

  least : (n a b : ℕ) → a ≤ n → digits z f n a b ≡ digits z f a a b
  least zero zero b h = refl
  least zero (suc a) b h = absurd (omega arith)
  least (suc n) a b h = elim (dec_le a n) [
    | yes below ↦ surplus n a b below ∙ least n a b below
    | no above ↦ let e : suc n ≡ a = omega arith in ap (λ (t : ℕ). digits z f t a b) e
  ]

  lowest :
      (a b : ℕ)
      → bitwise z f (suc a) b ≡ bitwise z f (suc a / 2) (b / 2) * 2 + f (suc a % 2) (b % 2)
  lowest a b = omega (arith, least a (suc a / 2) (b / 2) (omega arith))

and_lowest : (a b : ℕ) → bit_and a b ≡ bit_and (a / 2) (b / 2) * 2 + min (a % 2) (b % 2)
and_lowest zero b = rw (bit_and-bitwise zero b) (omega (arith, bit_and-bitwise zero (b / 2)))
and_lowest (suc a) b = omega (
  arith,
  bit_and-bitwise (suc a) b,
  bit_and-bitwise (suc a / 2) (b / 2),
  lowest (λ y. zero) min a b,
)

or_lowest : (a b : ℕ) → bit_or a b ≡ bit_or (a / 2) (b / 2) * 2 + max (a % 2) (b % 2)
or_lowest zero b = omega (arith, bit_or-bitwise zero b, bit_or-bitwise zero (b / 2))
or_lowest (suc a) b =
    omega
      (arith, bit_or-bitwise (suc a) b, bit_or-bitwise (suc a / 2) (b / 2), lowest (λ y. y) max a b)

zero_and : (b : ℕ) → bit_and 0 b ≡ 0
zero_and b = bit_and-bitwise 0 b

zero_or : (b : ℕ) → bit_or 0 b ≡ b
zero_or b = bit_or-bitwise 0 b

and_comm_upto : (n a b : ℕ) → a ≤ n → b ≤ n → bit_and a b ≡ bit_and b a
and_comm_upto zero a b ha hb = let e : a ≡ b = omega arith in rw e
and_comm_upto (suc n) a b ha hb = omega (
  arith,
  and_lowest a b,
  and_lowest b a,
  and_comm_upto n (a / 2) (b / 2) (omega arith) (omega arith),
)

pub bit_and_comm : (a b : ℕ) → bit_and a b ≡ bit_and b a
bit_and_comm a b = and_comm_upto (max a b) a b (omega arith) (omega arith)

-- `x & (2^k - 1)`
pub mask_and : (k a : ℕ) → bit_and (2 ^ k - 1) a ≡ a % 2 ^ k
mask_and zero a = omega (arith, zero_and a)
mask_and (suc k) a =
    let some_pow : 1 ≤ 2 ^ k = one-le-pow k 2 (omega arith) in
    let half : (2 * 2 ^ k - 1) / 2 ≡ 2 ^ k - 1 = omega arith in
    rw (pow-succ' 2 k, mod_double a (2 ^ k) some_pow, and_lowest (2 * 2 ^ k - 1) a, half)
      (omega (arith, mask_and k (a / 2)))

-- `x & (1 << k)`
pub flag_and : (k a : ℕ) → bit_and (2 ^ k) a ≡ a / 2 ^ k % 2 * 2 ^ k
flag_and zero a = omega (arith, and_lowest 1 a, zero_and (a / 2))
flag_and (suc k) a =
    let half : 2 * 2 ^ k / 2 ≡ 2 ^ k = omega arith in
    rw (halve_pow a k, pow-succ' 2 k, and_lowest (2 * 2 ^ k) a, half, flag_and k (a / 2))
      (omega arith)

-- `r | (q << k)` for `r` of `k` bits
pub fields_or : (k q r : ℕ) → r < 2 ^ k → bit_or r (q * 2 ^ k) ≡ q * 2 ^ k + r
fields_or zero q r h = let e : r ≡ 0 = omega arith in rw e (omega (arith, zero_or (q * 1)))
fields_or (suc k) q r h =
    let flat : q * 2 ^ suc k ≡ 2 * (q * 2 ^ k) =
      omega (arith, ap (λ (t : ℕ). q * t) (pow-succ' 2 k)) in
    let half : 2 * (q * 2 ^ k) / 2 ≡ q * 2 ^ k = omega arith in
    rw (flat, or_lowest r (2 * (q * 2 ^ k)), half)
      (omega (arith, fields_or k q (r / 2) (omega (arith, pow-succ' 2 k))))
