-- ===== src/Vpd/Designators.antt =====
-- decode_dev_ids of src/sdparm_vpd.c: the designation descriptors of the device identification
-- page (behind its header) and of SCSI ports, found by the library's iterator.
use sdparm.Vpd.{
  ended, short_descriptor, over_read, out_of_fuel, Round, row, last, Decoded, byte, checked, after,
  ◌>>=◌,
}
use sdparm.Vpd.Reads.{byte_inside}
use sdparm.Prelude.{
  ℕ, zero, suc, ◌+◌, ◌/◌, ◌%◌, ◌≤◌, ◌<◌, ◌≡◌, Option, some, none, List, [], length, take, drop, ltb,
  ◌==◌, if◌then◌else◌, All, arith, refl, sym, ap, ◌∙◌, ◌∷◌, ◌⊎◌, inl, inr, Bool, true, false,
  Bool-cases, length-drop,
}
use sdparm.Prelude.Int.{ℤ, pos, negsuc, ◌==ℤ◌, ==ℤ_iff}
use sdparm.SgLib.{SgLib, SgLibLaws, next_from}

-- The association and the bytes that sg_get_designation_descriptor_str gets.
pub record Designator : Type 0 where
  pub assoc : ℕ
  pub descriptor : List ℕ

abbrev read_designator : List ℕ → ℕ → ℕ → Option (Round Designator)
read_designator bp i_len off = do
  b1 ← byte bp 1
  some (row (record { assoc = b1 / 16 % 4; descriptor = take (i_len + 4) bp }) off)

-- What happens at an offset; a negative one is in front of the descriptors.
unfoldable pub designator_at : List ℕ → ℤ → Round Designator
designator_at buff (negsuc n) = last [] over_read
designator_at buff (pos off) = checked do
  i_len ← byte (drop off buff) 3
  if ltb (length buff) (off + i_len + 4)
      then some (last [] short_descriptor)
      else read_designator (drop off buff) i_len off

-- The condition of the loop, and the test behind it.
unfoldable pub dev_id_round : List ℕ → ℤ × ℤ → Round Designator
unfolding designator_at
dev_id_round buff next =
    if next.0 ==ℤ pos 0
    then designator_at buff next.1
    else last [] (if next.0 ==ℤ negsuc 1 then short_descriptor else ended)

abbrev if_zero : ℕ → Decoded Designator → Decoded Designator
if_zero b2 found = if b2 == 0 then found else ([], ended)

abbrev with_byte : Option ℕ → Decoded Designator → Decoded Designator
with_byte none found = ([], over_read)
with_byte (some b2) found = if_zero b2 found

module _ (sg : SgLib) (m_assoc m_desig_type m_code_set : ℤ) where
  unfoldable pub dev_id_loop : List ℕ → ℕ → ℤ → Decoded Designator
  unfolding dev_id_round
  dev_id_loop buff zero off = ([], out_of_fuel)
  dev_id_loop buff (suc fuel) off =
      after (dev_id_round buff (sg.vpd_dev_id_iter buff off m_assoc m_desig_type m_code_set))
        (λ at. dev_id_loop buff fuel (pos at))

  -- An offset is reached once at most, so that there are no more rounds than bytes.
  unfoldable pub decode_dev_ids : List ℕ → Decoded Designator
  unfolding dev_id_loop
  decode_dev_ids buff = with_byte (byte buff 2) (dev_id_loop buff (length buff + 1) (negsuc 0))

-- A designator stands in the page with all of its bytes, as many as its length byte counts.
abbrev pub IsPlaced : List ℕ → Designator → Type 0
IsPlaced buff d =
    (off n : ℕ) × (byte buff (off + 3) ≡ some n)
    × (off + n + 4 ≤ length buff)
    × (d.descriptor ≡ take (n + 4) (drop off buff))

abbrev pub IsListed : List ℕ → Decoded Designator → Type 0
IsListed buff r = All (IsPlaced buff) r.0 × ((r.1 ≡ ended) ⊎ (r.1 ≡ short_descriptor))

byte-drop : (bp : List ℕ) (i j : ℕ) → byte (drop i bp) j ≡ byte bp (i + j)
byte-drop bp zero j = ap (byte bp) (omega arith)
byte-drop [] (suc i) j = refl
byte-drop (b ∷ bp) (suc i) j =
    let e : suc (i + j) ≡ suc i + j = omega arith in byte-drop bp i j ∙ ap (byte (b ∷ bp)) e

designator_at-IsListed :
    (buff : List ℕ) (off : ℕ) (rest : ℕ → Decoded Designator)
    → off + 4 ≤ length buff
    → IsListed buff (rest off)
    → IsListed buff (after (designator_at buff (pos off)) rest)
unfolding designator_at
designator_at-IsListed buff off rest room h =
    let n = byte_inside (drop off buff) 3 (omega (arith, length-drop off buff)) in
    let b1 = byte_inside (drop off buff) 1 (omega (arith, length-drop off buff)) in
    rw (n.1, b1.1)
      (elim (Bool-cases (ltb (length buff) (off + n.0 + 4))) [
        | inl short ↦ rw short (tt, inr refl)
        | inr fits ↦
            rw fits
              (((off, n.0, sym (byte-drop buff off 3) ∙ n.1, ground (arith, fits), refl), h.0), h.1)
      ])

dev_id_round-IsListed :
    (buff : List ℕ) (next : ℤ × ℤ) (from : ℕ) (rest : ℕ → Decoded Designator)
    → (next.0 ≡ pos 0 → (o : ℕ) × (next.1 ≡ pos o) × (from ≤ o) × (o + 4 ≤ length buff))
    → ((o : ℕ) → from ≤ o → o + 4 ≤ length buff → IsListed buff (rest o))
    → IsListed buff (after (dev_id_round buff next) rest)
unfolding dev_id_round
dev_id_round-IsListed buff next from rest valid h = elim (Bool-cases (next.0 ==ℤ pos 0)) [
  | inl more ↦
      let v = valid ((==ℤ_iff next.0 (pos 0)).0 more) in
      rw (more, v.1) (designator_at-IsListed buff v.0 rest v.3 (h v.0 v.2 v.3))
  | inr stop ↦ rw stop (stop_end (next.0 ==ℤ negsuc 1))
]
  where
    stop_end :
        (b : Bool) → IsListed buff (after (last [] (if b then short_descriptor else ended)) rest)
    stop_end true = (tt, inr refl)
    stop_end false = (tt, inl refl)

if_zero-IsListed :
    (buff : List ℕ) (b2 : ℕ) (found : Decoded Designator)
    → IsListed buff found
    → IsListed buff (if_zero b2 found)
if_zero-IsListed buff b2 found h = elim (Bool-cases (b2 == 0)) [
  | inl z ↦ rw z h
  | inr nz ↦ rw nz (tt, inl refl)
]

module _ (sg : SgLib) (laws : SgLibLaws sg) (m_assoc m_desig_type m_code_set : ℤ) where
  dev_id_loop-IsListed :
      (buff : List ℕ) (fuel : ℕ) (off : ℤ)
      → next_from off ≤ length buff
      → length buff < fuel + next_from off
      → IsListed buff (dev_id_loop sg m_assoc m_desig_type m_code_set buff fuel off)
  unfolding dev_id_loop
  dev_id_loop-IsListed buff zero off behind enough = absurd (omega arith)
  dev_id_loop-IsListed buff (suc fuel) off behind enough =
      let next = sg.vpd_dev_id_iter buff off m_assoc m_desig_type m_code_set in
      dev_id_round-IsListed buff next (next_from off)
        (λ at. dev_id_loop sg m_assoc m_desig_type m_code_set buff fuel (pos at))
        (λ e. laws.dev_id_valid buff off m_assoc m_desig_type m_code_set next.1 (ground (arith, e)))
        (λ o from fits. dev_id_loop-IsListed buff fuel (pos o) (omega arith) (omega arith))

  -- Of at least 3 bytes of designation descriptors, whatever they hold, the walk over those that
  -- match comes to its end, without an error or with one for a descriptor that is cut short. It
  -- reads nothing beyond the page, and each designator that it shows stands in the page with all
  -- of its bytes.
  pub decode_dev_ids-IsListed :
      (buff : List ℕ)
      → 3 ≤ length buff
      → IsListed buff (decode_dev_ids sg m_assoc m_desig_type m_code_set buff)
  unfolding decode_dev_ids
  decode_dev_ids-IsListed buff h =
      let b2 = byte_inside buff 2 (omega arith) in
      let found =
        dev_id_loop sg m_assoc m_desig_type m_code_set buff (length buff + 1) (negsuc 0) in
      let listed : IsListed buff found =
        dev_id_loop-IsListed buff (length buff + 1) (negsuc 0) (omega arith) (omega arith) in
      rw (b2.1) (if_zero-IsListed buff b2.0 found listed)
