-- ===== src/Field/RoundTrip.antt =====
-- Reading back a mode page after an item of it was written.
use sdparm.Prelude.{
  ℕ, ◌+◌, ◌-◌, ◌*◌, ◌%◌, ◌^◌, ◌≤◌, ◌<◌, ◌⊎◌, List, ◌≡◌, ◌∙◌, sym, ap, arith, length, take, drop,
  length-append, length-take, length-drop,
}
use sdparm.SgLib.{SgLib, SgLibLaws, Fits}
use native.Mathlib.Decide.{dec_lt}
use sdparm.SgLib.Bits.{Spells, bit_at, bits_value, bits_value_ext, bits_value_of, bit_at-drop}
use sdparm.Tables.Types.{MpItem}
use sdparm.Field.{mitem_get_value, mitem_set_value}
use sdparm.Field.Splice.{bit_at-splice_lt, bit_at-splice_ge}

-- An item lies in the page.
abbrev pub FitsPage : MpItem → List ℕ → Type 0
FitsPage mpi mp =
    (mpi.start_bit ≤ 7)
    × (1 ≤ mpi.num_bits)
    × (mpi.num_bits ≤ 64)
    × (8 * mpi.start_byte + (7 - mpi.start_bit) + mpi.num_bits ≤ 8 * length mp)

-- The first bit of an item, counted from the front of the page.
abbrev pub first_bit : MpItem → ℕ
first_bit mpi = 8 * mpi.start_byte + (7 - mpi.start_bit)

-- Two items share no bit.
abbrev pub Apart : MpItem → MpItem → Type 0
Apart a b = (first_bit a + a.num_bits ≤ first_bit b) ⊎ (first_bit b + b.num_bits ≤ first_bit a)

FitsPage-Fits :
    (mpi : MpItem) (mp : List ℕ)
    → FitsPage mpi mp
    → Fits (drop mpi.start_byte mp) mpi.start_bit mpi.num_bits
FitsPage-Fits mpi mp h = omega (arith, length-drop mpi.start_byte mp)

module _ (sg : SgLib) (laws : SgLibLaws sg) where
  pub length-set_value :
      (v : ℕ) (mpi : MpItem) (mp : List ℕ) → length (mitem_set_value sg v mpi mp) ≡ length mp
  unfolding mitem_set_value
  length-set_value v mpi mp = omega (
    arith,
    length-append (take mpi.start_byte mp)
        (sg.set_big_endian v (drop mpi.start_byte mp) mpi.start_bit mpi.num_bits),
    laws.set_length v (drop mpi.start_byte mp) mpi.start_bit mpi.num_bits,
    length-take mpi.start_byte mp,
    length-drop mpi.start_byte mp,
  )

  -- A read of an item spells the page's bits from its first one on.
  pub get_value-bits :
      (mpi : MpItem) (mp : List ℕ)
      → FitsPage mpi mp
      → mitem_get_value sg mpi mp ≡ bits_value (bit_at mp) (first_bit mpi) mpi.num_bits
  unfolding mitem_get_value
  get_value-bits mpi mp h =
      laws.get_field (drop mpi.start_byte mp) mpi.start_bit mpi.num_bits (FitsPage-Fits mpi mp h)
      ∙ bits_value_ext _ _ (7 - mpi.start_bit) (first_bit mpi) mpi.num_bits (λ k lt.
        bit_at-drop mp mpi.start_byte (7 - mpi.start_bit + k) ∙ ap (bit_at mp) (omega arith))

  abbrev tail_set : ℕ → MpItem → List ℕ → List ℕ
  tail_set v mpi mp = sg.set_big_endian v (drop mpi.start_byte mp) mpi.start_bit mpi.num_bits

  -- Outside an item a write of it changes no bit of the page.
  pub set_value-outside :
      (v : ℕ) (mpi : MpItem) (mp : List ℕ)
      → FitsPage mpi mp
      → (i : ℕ) → (i < first_bit mpi) ⊎ (first_bit mpi + mpi.num_bits ≤ i)
      → bit_at (mitem_set_value sg v mpi mp) i ≡ bit_at mp i
  unfolding mitem_set_value
  set_value-outside v mpi mp h i out = elim (dec_lt i (8 * mpi.start_byte)) [
    | yes before ↦ bit_at-splice_lt mp (tail_set v mpi mp) mpi.start_byte i (omega arith) before
    | no behind ↦
        let rest : ℕ = i - 8 * mpi.start_byte in
        let e : i ≡ 8 * mpi.start_byte + rest = omega arith in
        rw e (
          bit_at-splice_ge mp (tail_set v mpi mp) mpi.start_byte rest (omega arith)
          ∙ laws.set_outside v (drop mpi.start_byte mp) mpi.start_bit mpi.num_bits
              (FitsPage-Fits mpi mp h) rest (omega arith)
          ∙ bit_at-drop mp mpi.start_byte rest)
  ]

  -- Inside it the page holds the low bits of the value.
  pub set_value-inside :
      (v : ℕ) (mpi : MpItem) (mp : List ℕ)
      → FitsPage mpi mp
      → Spells (bit_at (mitem_set_value sg v mpi mp)) (first_bit mpi) mpi.num_bits v
  unfolding mitem_set_value
  set_value-inside v mpi mp h k lt =
      let e : first_bit mpi + k ≡ 8 * mpi.start_byte + (7 - mpi.start_bit + k) = omega arith in
      rw e (
        bit_at-splice_ge mp (tail_set v mpi mp) mpi.start_byte (7 - mpi.start_bit + k) (omega arith)
        ∙ laws.set_inside v (drop mpi.start_byte mp) mpi.start_bit mpi.num_bits
            (FitsPage-Fits mpi mp h) k lt)

  set_value-FitsPage :
      (v : ℕ) (a b : MpItem) (mp : List ℕ) → FitsPage b mp → FitsPage b (mitem_set_value sg v a mp)
  set_value-FitsPage v a b mp h = omega (arith, length-set_value v a mp)

  -- `sdp_mitem_get_value` reads back what `sdp_mitem_set_value` wrote to an item that lies in the
  -- page, cut to the item's width.
  pub get_value-set_value :
      (v : ℕ) (mpi : MpItem) (mp : List ℕ)
      → FitsPage mpi mp
      → mitem_get_value sg mpi (mitem_set_value sg v mpi mp) ≡ v % 2 ^ mpi.num_bits
  get_value-set_value v mpi mp h =
      get_value-bits mpi _ (set_value-FitsPage v mpi mpi mp h)
      ∙ bits_value_of _ (first_bit mpi) mpi.num_bits v (set_value-inside v mpi mp h)

  -- A write of one item leaves the value of every other item of the page as it was, if the two
  -- share no bit.
  pub get_value-set_value-Apart :
      (v : ℕ) (a b : MpItem) (mp : List ℕ)
      → FitsPage a mp
      → FitsPage b mp
      → Apart a b
      → mitem_get_value sg b (mitem_set_value sg v a mp) ≡ mitem_get_value sg b mp
  get_value-set_value-Apart v a b mp ha hb ap =
      get_value-bits b _ (set_value-FitsPage v a b mp hb)
      ∙ bits_value_ext _ _ (first_bit b) (first_bit b) b.num_bits
          (λ k lt. set_value-outside v a mp ha (first_bit b + k) (omega arith))
      ∙ sym (get_value-bits b mp hb)
