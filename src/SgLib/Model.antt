-- ===== src/SgLib/Model.antt =====
-- A concrete library that meets the laws: what the examples of the theorems are run on.
use sdparm.Prelude.{
  ℕ, zero, suc, ◌+◌, ◌-◌, ◌*◌, ◌/◌, ◌%◌, ◌^◌, ◌≤◌, ◌<◌, ◌⊎◌, Bool, true, false, ◌&&◌, ◌||◌, List,
  [], ◌∷◌, ◌≡◌, refl, sym, ◌∙◌, ap, arith, length, get_or, leb, ltb, ◌==◌, if◌then◌else◌,
}
use sdparm.Prelude.Int.{ℤ, pos, negsuc, is_neg, ◌==ℤ◌, pos_part}
use sdparm.Prelude.Text.{is_digit}
use sdparm.SgLib.Bits.{bit_at, bits_value, bit_at-lt, bit_at_end, bits_value_bit}
use native.Mathlib.Decide.{dec_lt}
use sdparm.SgLib.Defs.{SgLib, SgLibLaws, next_from}

make_bytes : (ℕ → ℕ) → ℕ → ℕ → List ℕ
make_bytes f k zero = []
make_bytes f k (suc n) = bits_value f (8 * k) 8 ∷ make_bytes f (k + 1) n

-- The bits of `bs` with those of `v` in a field of `n` bits from `lo` on.
field_bits : ℕ → List ℕ → ℕ → ℕ → ℕ → ℕ
field_bits v bs lo n i =
    if leb lo i && ltb i (lo + n) then v / 2 ^ (n - 1 - (i - lo)) % 2 else bit_at bs i

put_bits : ℕ → List ℕ → ℕ → ℕ → List ℕ
unfolding make_bytes field_bits bit_at bits_value
put_bits v bs start_bit n = make_bytes (field_bits v bs (7 - start_bit) n) 0 (length bs)

get_bits : List ℕ → ℕ → ℕ → ℕ
unfolding bit_at bits_value
get_bits bs start_bit n = bits_value (bit_at bs) (7 - start_bit) n

same_pdt : ℤ → ℤ → Bool
same_pdt l r =
    is_neg l
    || is_neg r
    || l ==ℤ r
    || pos_part l % 256 == pos_part r
    || pos_part r % 256 == pos_part l
    || pos_part l / 256 == pos_part r
    || pos_part r / 256 == pos_part l

decay : ℤ → ℤ
decay p = if p ==ℤ pos 0x12 then pos 1 else if p ==ℤ pos 0x14 then pos 0 else p

-- The digits of a decimal number.
number : ℕ → List ℕ → ℤ
number acc [] = pos acc
number acc (c ∷ r) =
    let rest = number (acc * 10 + (c - b'0')) r in if is_digit c then rest else negsuc 0

unsigned_number : List ℕ → ℤ
unfolding number is_digit
unsigned_number [] = negsuc 0
unsigned_number (c ∷ r) = number 0 (c ∷ r)

-- The first bytes as one number.
big_endian : ℕ → List ℕ → ℕ
big_endian zero bs = 0
big_endian (suc n) [] = 0
big_endian (suc n) (b ∷ bs) = b * 256 ^ n + big_endian n bs

asks_for : ℤ → ℕ → Bool
asks_for m v = is_neg m || pos v ==ℤ m

-- Whether the descriptor at `k` is one of those asked for.
wanted : List ℕ → ℕ → ℤ → ℤ → ℤ → Bool
unfolding asks_for
wanted buff k m_assoc m_desig_type m_code_set =
    asks_for m_assoc (get_or buff (k + 1) 0 / 16 % 4)
    && asks_for m_desig_type (get_or buff (k + 1) 0 % 16)
    && asks_for m_code_set (get_or buff k 0 % 16)

this_or_next : Bool → Bool → Bool → ℕ → ℤ × ℤ → ℤ × ℤ
this_or_next true true hit k rest = (negsuc 0, pos k)
this_or_next true false hit k rest = (negsuc 1, pos k)
this_or_next false at_end true k rest = (pos 0, pos k)
this_or_next false at_end false k rest = rest

-- The first descriptor that is wanted, from the one at `k` on.
next_dev_id : ℕ → List ℕ → ℕ → ℤ → ℤ → ℤ → ℤ × ℤ
unfolding wanted this_or_next
next_dev_id zero buff k a t c = (negsuc 1, pos k)
next_dev_id (suc fuel) buff k a t c =
    let rest = next_dev_id fuel buff (k + 4 + get_or buff (k + 3) 0) a t c in
    this_or_next (ltb (length buff) (k + 4)) (k == length buff) (wanted buff k a t c) k rest

-- The descriptor at an offset ends behind the bytes that it counts.
dev_id_iter : List ℕ → ℤ → ℤ → ℤ → ℤ → ℤ × ℤ
unfolding next_dev_id
dev_id_iter buff (negsuc n) a t c = next_dev_id (length buff + 1) buff 0 a t c
dev_id_iter buff (pos n) a t c =
    next_dev_id (length buff + 1) buff (n + 4 + get_or buff (n + 3) 0) a t c

-- Behind the header and the block descriptors.
page_offset : List ℕ → ℕ → Bool → ℤ
page_offset resp resp_len true = pos (4 + get_or resp 3 0)
page_offset resp resp_len false = pos (8 + (get_or resp 6 0 * 256 + get_or resp 7 0))

unfoldable pub sample_lib : SgLib
unfolding page_offset same_pdt decay get_bits put_bits unsigned_number big_endian dev_id_iter
sample_lib = record {
  pdt_s_eq = same_pdt;
  pdt_decay = decay;
  get_pdt_from_acronym = λ text. negsuc 1;
  get_big_endian = get_bits;
  set_big_endian = put_bits;
  get_unaligned_be16 = big_endian 2;
  get_unaligned_be32 = big_endian 4;
  get_unaligned_be64 = big_endian 8;
  vpd_dev_id_iter = dev_id_iter;
  get_llnum_nomult = unsigned_number;
  get_num_nomult = unsigned_number;
  get_sense_progress_fld = λ sense len. negsuc 0;
  mode_page_offset = page_offset;
}

length-make_bytes : (f : ℕ → ℕ) (k n : ℕ) → length (make_bytes f k n) ≡ n
unfolding make_bytes
length-make_bytes f k zero = refl
length-make_bytes f k (suc n) = ap suc (length-make_bytes f (k + 1) n)

get_or-make_bytes :
    (f : ℕ → ℕ) (k n i : ℕ) → i < n → get_or (make_bytes f k n) i 0 ≡ bits_value f (8 * (k + i)) 8
unfolding make_bytes
get_or-make_bytes f k zero i h = absurd (omega arith)
get_or-make_bytes f k (suc n) zero h =
    let e : k ≡ k + 0 = omega arith in ap (λ (t : ℕ). bits_value f (8 * t) 8) e
get_or-make_bytes f k (suc n) (suc i) h =
    let e : k + 1 + i ≡ k + suc i = omega arith in
    get_or-make_bytes f (k + 1) n i (omega arith) ∙ ap (λ (t : ℕ). bits_value f (8 * t) 8) e

bit_at-make_bytes :
    (f : ℕ → ℕ) (n i : ℕ) → ((j : ℕ) → f j < 2) → i < 8 * n → bit_at (make_bytes f 0 n) i ≡ f i
unfolding bit_at
bit_at-make_bytes f n i two h = rw (get_or-make_bytes f 0 n (i / 8) (omega arith)) (
    let e : 8 * (0 + i / 8) + i % 8 ≡ i = omega arith in
    let seven : 7 - i % 8 ≡ 8 - 1 - i % 8 = omega arith in
    rw seven (bits_value_bit f (8 * (0 + i / 8)) 8 (i % 8) two (omega arith)) ∙ ap f e)

field_bits-lt : (v : ℕ) (bs : List ℕ) (lo n j : ℕ) → field_bits v bs lo n j < 2
unfolding field_bits
field_bits-lt v bs lo n j = ground (arith, bit_at-lt bs j)

field_bits-inside :
    (v : ℕ) (bs : List ℕ) (lo n j : ℕ)
    → j < n
    → field_bits v bs lo n (lo + j) ≡ v / 2 ^ (n - 1 - j) % 2
unfolding field_bits
field_bits-inside v bs lo n j h = let e : lo + j - lo ≡ j = omega arith in rw e (ground arith)

field_bits-outside :
    (v : ℕ) (bs : List ℕ) (lo n i : ℕ)
    → (i < lo) ⊎ (lo + n ≤ i)
    → field_bits v bs lo n i ≡ bit_at bs i
unfolding field_bits
field_bits-outside v bs lo n i out = ground arith

put_bits-outside :
    (v : ℕ) (bs : List ℕ) (start_bit n i : ℕ)
    → (i < 7 - start_bit) ⊎ (7 - start_bit + n ≤ i)
    → bit_at (put_bits v bs start_bit n) i ≡ bit_at bs i
unfolding put_bits
put_bits-outside v bs start_bit n i out =
    let f = field_bits v bs (7 - start_bit) n in
    elim (dec_lt i (8 * length bs)) [
      | yes inner ↦
          bit_at-make_bytes f (length bs) i (field_bits-lt v bs (7 - start_bit) n) inner
          ∙ field_bits-outside v bs (7 - start_bit) n i out
      | no beyond ↦
          bit_at_end (make_bytes f 0 (length bs)) i
            (omega (arith, length-make_bytes f 0 (length bs)))
          ∙ sym (bit_at_end bs i (omega arith))
    ]

decay-decay : (p : ℤ) → decay (decay p) ≡ decay p
unfolding decay
decay-decay p = ground arith

page_offset-ge :
    (resp : List ℕ) (resp_len : ℕ) (mode6 : Bool) (off : ℕ)
    → page_offset resp resp_len mode6 ≡ pos off
    → (if mode6 then 4 else 8) ≤ off
unfolding page_offset
page_offset-ge resp resp_len true off h = ground arith
page_offset-ge resp resp_len false off h = ground arith

abbrev IsNext : ℕ → ℕ → ℤ → Type 0
IsNext k len off' = (o : ℕ) × (off' ≡ pos o) × (k ≤ o) × (o + 4 ≤ len)

this_or_next-IsNext :
    (short at_end hit : Bool) (k len : ℕ) (rest : ℤ × ℤ) (off' : ℤ)
    → ltb len (k + 4) ≡ short
    → (rest ≡ (pos 0, off') → IsNext k len off')
    → this_or_next short at_end hit k rest ≡ (pos 0, off')
    → IsNext k len off'
unfolding this_or_next
this_or_next-IsNext true true hit k len rest off' e ih h =
    let bad : negsuc 0 ≡ pos 0 = ap (λ t. t.0) h in absurd (ground (arith, bad))
this_or_next-IsNext true false hit k len rest off' e ih h =
    let bad : negsuc 1 ≡ pos 0 = ap (λ t. t.0) h in absurd (ground (arith, bad))
this_or_next-IsNext false at_end true k len rest off' e ih h =
    (k, sym (ap (λ t. t.1) h), omega arith, ground (arith, e))
this_or_next-IsNext false at_end false k len rest off' e ih h = ih h

next_dev_id-IsNext :
    (fuel : ℕ) (buff : List ℕ) (k : ℕ) (a t c off' : ℤ)
    → next_dev_id fuel buff k a t c ≡ (pos 0, off')
    → IsNext k (length buff) off'
unfolding next_dev_id
next_dev_id-IsNext zero buff k a t c off' h =
    let bad : negsuc 1 ≡ pos 0 = ap (λ t. t.0) h in absurd (ground (arith, bad))
next_dev_id-IsNext (suc fuel) buff k a t c off' h =
    this_or_next-IsNext (ltb (length buff) (k + 4)) (k == length buff) (wanted buff k a t c) k
      (length buff) (next_dev_id fuel buff (k + 4 + get_or buff (k + 3) 0) a t c) off' refl
      (λ e.
        let r = next_dev_id-IsNext fuel buff (k + 4 + get_or buff (k + 3) 0) a t c off' e in
        (r.0, r.1, omega (arith, r.2), r.3))
      h

dev_id_iter-IsNext :
    (buff : List ℕ) (off a t c off' : ℤ)
    → dev_id_iter buff off a t c ≡ (pos 0, off')
    → IsNext (next_from off) (length buff) off'
unfolding dev_id_iter
dev_id_iter-IsNext buff (negsuc n) a t c off' h =
    next_dev_id-IsNext (length buff + 1) buff 0 a t c off' h
dev_id_iter-IsNext buff (pos n) a t c off' h =
    let r =
      next_dev_id-IsNext (length buff + 1) buff (n + 4 + get_or buff (n + 3) 0) a t c off' h in
    (r.0, r.1, omega (arith, r.2), r.3)

pub sample_laws : SgLibLaws sample_lib
unfolding sample_lib
sample_laws = record {
  get_field = λ bs start_bit n fits. unfold get_bits in refl;
  set_length = λ v bs start_bit n.
      unfold put_bits in length-make_bytes (field_bits v bs (7 - start_bit) n) 0 (length bs);
  set_inside = λ v bs start_bit n fits j h.
      unfold put_bits in
      bit_at-make_bytes (field_bits v bs (7 - start_bit) n) (length bs) (7 - start_bit + j)
        (field_bits-lt v bs (7 - start_bit) n) (omega arith)
      ∙ field_bits-inside v bs (7 - start_bit) n j h;
  set_outside = λ v bs start_bit n fits i out. put_bits-outside v bs start_bit n i out;
  offset_behind_header = page_offset-ge;
  decay_once = decay-decay;
  be16_value = λ high low bs. unfold big_endian in omega arith;
  dev_id_valid = dev_id_iter-IsNext;
}
