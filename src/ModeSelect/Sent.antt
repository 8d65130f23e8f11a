-- ===== src/ModeSelect/Sent.antt =====
-- The page inside the mode data that is sent, read as the page before its PS bit was cleared.
use sdparm.Prelude.{
  ℕ, zero, suc, ◌+◌, ◌-◌, ◌*◌, ◌/◌, ◌≤◌, ◌<◌, List, [], ◌∷◌, ◌≡◌, refl, sym, ◌∙◌, ap, arith, get_or,
  set, take, drop, length-set, length-take, length-drop,
}
use Prim.Native.Nat.{bit_and}
use sdparm.SgLib.{SgLib, SgLibLaws}
use sdparm.SgLib.Bits.{bit_at, bits_value_ext, bit_at-drop}
use sdparm.Tables.Types.{MpItem}
use sdparm.Field.{mitem_get_value}
use sdparm.Field.RoundTrip.{FitsPage, first_bit, get_value-bits}
use sdparm.ModeSelect.Change.{mask_ps}

pub get_or-take : (n : ℕ) (xs : List ℕ) (i : ℕ) → i < n → get_or (take n xs) i 0 ≡ get_or xs i 0
get_or-take zero xs i h = absurd (omega arith)
get_or-take (suc n) [] i h = refl
get_or-take (suc n) (x ∷ xs) zero h = refl
get_or-take (suc n) (x ∷ xs) (suc i) h = get_or-take n xs i (omega arith)

pub get_or-set_ne :
    (xs : List ℕ) (i j v : ℕ) → (i ≡ j → ⊥) → get_or (set xs i v) j 0 ≡ get_or xs j 0
get_or-set_ne [] i j v h = refl
get_or-set_ne (x ∷ xs) zero zero v h = absurd (h refl)
get_or-set_ne (x ∷ xs) zero (suc j) v h = refl
get_or-set_ne (x ∷ xs) (suc i) zero v h = refl
get_or-set_ne (x ∷ xs) (suc i) (suc j) v h = get_or-set_ne xs i j v (λ e. h (ap suc e))

bit_at-sent :
    (off n v : ℕ) (xs : List ℕ) (i : ℕ)
    → 8 ≤ i
    → i < 8 * (n - off)
    → bit_at (drop off (take n (set xs off v))) i ≡ bit_at (drop off xs) i
unfolding bit_at
bit_at-sent off n v xs i lo hi =
    bit_at-drop (take n (set xs off v)) off i
    ∙ rw
        (
          get_or-take n (set xs off v) ((8 * off + i) / 8) (omega arith),
          get_or-set_ne xs off ((8 * off + i) / 8) v (λ e. omega (arith, e)),
        )
        refl
    ∙ sym (bit_at-drop xs off i)

-- Every item behind the page's first byte keeps its value.
pub get_value-sent :
    (sg : SgLib) (laws : SgLibLaws sg) (off n : ℕ) (xs : List ℕ) (b : MpItem)
    → 1 ≤ b.start_byte
    → FitsPage b (drop off (take n xs))
    → mitem_get_value sg b (drop off (take n (mask_ps off xs))) ≡ mitem_get_value sg b (drop off xs)
get_value-sent sg laws off n xs b behind fits =
    let v = bit_and 0x7f (get_or xs off 0) in
    get_value-bits sg laws b _ (
      omega (
        arith,
        fits,
        length-drop off (take n xs),
        length-take n xs,
        length-set xs off v,
        length-drop off (take n (set xs off v)),
        length-take n (set xs off v),
      ))
    ∙ bits_value_ext _ _ (first_bit b) (first_bit b) b.num_bits (λ k lt.
      bit_at-sent off n v xs (first_bit b + k) (omega arith)
        (omega (arith, fits, length-drop off (take n xs), length-take n xs)))
    ∙ sym (
        get_value-bits sg laws b _
          (omega (arith, fits, length-drop off (take n xs), length-take n xs, length-drop off xs)))
