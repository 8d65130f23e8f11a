-- ===== src/Vpd/OverRead.antt =====
-- Which pages the unchecked decoders of src/sdparm_vpd.c read beyond.
use sdparm.Vpd.{
  Ending, ended, short_page, over_read, Round, row, last, each, decode, byte, be32, be64, checked,
}
use sdparm.Vpd.Reads.{has-le, byte_inside, byte_behind, word_inside, word_behind, >>=-none}
use sdparm.Vpd.Stride.{
  cga_round, block_len_round, pos_range_round, feature_set_round, decode_cga_profile_vpd,
  decode_sup_block_lens_vpd, decode_feature_sets_vpd, decode_con_pos_range_vpd,
}
use sdparm.SgLib.{SgLib}
use sdparm.Prelude.{
  ℕ, zero, suc, ◌-◌, ◌%◌, ◌≤◌, ◌<◌, ◌⊎◌, inl, List, [], ◌∷◌, ◌≡◌, refl, arith, sym, ap, ◌∙◌, length,
  drop, length-drop, ltb, lt→ltb, ◌&&◌, false, if◌then◌else◌,
}
use native.Mathlib.Nat.{zero-mod, mod-eq_of_lt, mod-eq-sub-mod}
use native.Mathlib.Decide.{dec_lt, dec_le}

-- The bytes left at the last round are too few.
abbrev pub Cut : ℕ → ℕ → ℕ → Type 0
Cut stride need len = (0 < len % stride) × (len % stride < need)

abbrev pub Whole : ℕ → ℕ → ℕ → Type 0
Whole stride need len = (len % stride ≡ 0) ⊎ (need ≤ len % stride)

-- A round that reads the first `need` bytes of the `stride` that a descriptor has, and fails if
-- there are fewer.
pub record Strides {A : Type 0} (f : List ℕ → Round A) (stride need : ℕ) (fail : Ending)
    : Type 0 where
  pub least : (1 ≤ need) × (need ≤ stride)
  pub hit : (bp : List ℕ) → need ≤ length bp → (a : A) × (f bp ≡ row a stride)
  pub miss : (bp : List ℕ) → 1 ≤ length bp → length bp < need → f bp ≡ last [] fail

-- How the loop of such rounds ends on `len` bytes.
abbrev pub EndsBy : ℕ → ℕ → Ending → ℕ → Ending → Type 0
EndsBy stride need fail len e =
    (Cut stride need len → e ≡ fail) × (Whole stride need len → e ≡ ended)

whole_none : (stride need : ℕ) (fail : Ending) → 1 ≤ stride → EndsBy stride need fail 0 ended
whole_none stride need fail pos = (λ c. absurd (omega (arith, zero-mod stride)), λ w. refl)

EndsBy-drop :
    (stride need len : ℕ) (fail e : Ending)
    → 1 ≤ need
    → need ≤ stride
    → need ≤ len
    → EndsBy stride need fail (len - stride) e
    → EndsBy stride need fail len e
EndsBy-drop stride need len fail e least fits enough h = elim (dec_le stride len) [
  | yes more ↦
      let m : len % stride ≡ (len - stride) % stride = mod-eq-sub-mod more in
      (λ c. h.0 (omega (arith, m, c)), λ w. h.1 (ground (arith, m, w)))
  | no fewer ↦
      let m : len % stride ≡ len = mod-eq_of_lt (omega arith) in
      let z : (len - stride) % stride ≡ 0 =
        ap (λ (t : ℕ). t % stride) (omega arith) ∙ zero-mod stride in
      (λ c. absurd (omega (arith, m, c)), λ w. h.1 (inl z))
]

-- The same as a function of the length.
abbrev pub cut_end : ℕ → ℕ → Ending → ℕ → Ending
cut_end stride need fail len =
    if ltb 0 (len % stride) && ltb (len % stride) need then fail else ended

EndsBy-cut_end :
    (stride need len : ℕ) (fail e : Ending)
    → EndsBy stride need fail len e
    → e ≡ cut_end stride need fail len
EndsBy-cut_end stride need len fail e h = ground (arith, h.0, h.1)

module _ {A : Type 0} {f : List ℕ → Round A} (stride need : ℕ) (fail : Ending)
    (s : Strides f stride need fail) where
  pub each-EndsBy :
      (bp : List ℕ) (fuel : ℕ)
      → length bp ≤ fuel
      → EndsBy stride need fail (length bp) (each f bp fuel).1
  unfolding each
  each-EndsBy [] fuel le = whole_none stride need fail (omega (arith, s.least))
  each-EndsBy (b ∷ bp) zero le = absurd (omega arith)
  each-EndsBy (b ∷ bp) (suc fuel) le = elim (dec_le need (length (b ∷ bp))) [
    | yes enough ↦
        let rest = drop stride (b ∷ bp) in
        let n : length rest ≡ length (b ∷ bp) - stride = length-drop stride (b ∷ bp) in
        let ih = each-EndsBy rest fuel (omega (arith, n, s.least)) in
        rw ((s.hit (b ∷ bp) enough).1) (
          EndsBy-drop stride need (length (b ∷ bp)) fail (each f rest fuel).1
            (omega (arith, s.least)) (omega (arith, s.least)) enough (rw (sym n) ih))
    | no fewer ↦
        let m : length (b ∷ bp) % stride ≡ length (b ∷ bp) =
          mod-eq_of_lt (omega (arith, s.least)) in
        rw (s.miss (b ∷ bp) (omega arith) (omega arith))
          (λ c. refl, λ w. absurd (ground (arith, m, w)))
  ]

-- How a decoder of such a loop ends on a page of `len` bytes.
abbrev pub page_end : ℕ → ℕ → ℕ → ℕ → Ending → ℕ → Ending
page_end least header stride need fail len =
    if ltb len least then short_page else cut_end stride need fail (len - header)

module _ {A : Type 0} {f : List ℕ → Round A} (least header stride need : ℕ) (fail : Ending)
    (s : Strides f stride need fail) where
  pub decode-page_end :
      (buff : List ℕ)
      → (decode least header f buff).1 ≡ page_end least header stride need fail (length buff)
  decode-page_end buff = elim (dec_lt (length buff) least) [
    | yes short ↦ rw (lt→ltb (length buff) least short) refl
    | no long ↦
        let bp = drop header buff in
        let n : length bp ≡ length buff - header = length-drop header buff in
        let e : (each f bp (length bp)).1 ≡ cut_end stride need fail (length buff - header) =
          EndsBy-cut_end stride need (length buff - header) fail (each f bp (length bp)).1
            (rw (sym n) (each-EndsBy stride need fail s bp (length bp) (omega arith))) in
        let l : ltb (length buff) least ≡ false = ground (arith, long) in rw l e
  ]

abbrev pub IsRow : {A : Type 0} → ℕ → Round A → Type 0
IsRow stride (row a bump) = bump ≡ stride
IsRow stride (last rows e) = ⊥

pub the_row :
    {A : Type 0} (r : Round A) (stride : ℕ) → IsRow stride r → (a : A) × (r ≡ row a stride)
the_row (row a bump) stride h = (a, ap (row a) h)
the_row (last rows e) stride h = absurd h

module _ (sg : SgLib) where
  cga-Strides : Strides (cga_round sg) 4 4 over_read
  unfolding cga_round
  cga-Strides = record {
    least = ground arith;
    hit = λ bp h.
        let p = byte_inside bp 0 (omega arith) in
        let u = word_inside sg.get_unaligned_be16 2 bp 2 h in
        the_row (cga_round sg bp) 4 (rw (p.1, u) refl);
    miss = λ bp long h.
        ap checked
          (>>=-none (byte bp 0) _ λ p. rw (word_behind sg.get_unaligned_be16 2 bp 2 h) refl);
  }

  block_len-Strides : Strides (block_len_round sg) 8 6 over_read
  unfolding block_len_round
  block_len-Strides = record {
    least = ground arith;
    hit = λ bp h.
        let u = word_inside sg.get_unaligned_be32 4 bp 0 (omega arith) in
        let b4 = byte_inside bp 4 (omega arith) in
        let b5 = byte_inside bp 5 (omega arith) in
        the_row (block_len_round sg bp) 8 (rw (u, b4.1, b5.1) refl);
    miss = λ bp long h. ap checked (
        >>=-none (be32 sg bp 0) _
          λ u. >>=-none (byte bp 4) _ λ b4. rw (byte_behind bp 5 (omega arith)) refl);
  }

  pos_range-Strides : Strides (pos_range_round sg) 32 24 over_read
  unfolding pos_range_round
  pos_range-Strides = record {
    least = ground arith;
    hit = λ bp h.
        let b0 = byte_inside bp 0 (omega arith) in
        let b1 = byte_inside bp 1 (omega arith) in
        let start = word_inside sg.get_unaligned_be64 8 bp 8 (omega arith) in
        let n = word_inside sg.get_unaligned_be64 8 bp 16 h in
        the_row (pos_range_round sg bp) 32 (rw (b0.1, b1.1, start, n) refl);
    miss = λ bp long h. ap checked (
        >>=-none (byte bp 0) _ λ b0. >>=-none (byte bp 1) _ λ b1.
          >>=-none (be64 sg bp 8) _ λ start. rw (word_behind sg.get_unaligned_be64 8 bp 16 h) refl);
  }

  feature_set-Strides : Strides (feature_set_round sg) 2 2 over_read
  unfolding feature_set_round
  feature_set-Strides = record {
    least = ground arith;
    hit = λ bp h.
        let u = word_inside sg.get_unaligned_be16 2 bp 0 h in
        let room = has-le 2 bp h in the_row (feature_set_round sg bp) 2 (rw (u, room) refl);
    miss = λ bp long h. rw (word_behind sg.get_unaligned_be16 2 bp 0 h) refl;
  }

  -- The decoder of CFA profiles reads beyond a page exactly if behind its header and the whole
  -- descriptors of 4 bytes there is a rest; that of supported block lengths if the rest of its
  -- descriptors of 8 bytes has 1 to 5 bytes, that of concurrent positioning ranges, behind the
  -- header of 64 bytes, if the rest of its descriptors of 32 bytes has 1 to 23 bytes, and that of
  -- SCSI feature sets, behind the header of 8 bytes, if there is an odd byte. All other pages that
  -- are not too short for the header are decoded up to their end.
  pub decode_sup_block_lens_vpd-page_end :
      (buff : List ℕ)
      → ((decode_cga_profile_vpd sg buff).1 ≡ page_end 4 4 4 4 over_read (length buff))
        × ((decode_sup_block_lens_vpd sg buff).1 ≡ page_end 4 4 8 6 over_read (length buff))
        × ((decode_con_pos_range_vpd sg buff).1 ≡ page_end 64 64 32 24 over_read (length buff))
        × ((decode_feature_sets_vpd sg buff).1 ≡ page_end 4 8 2 2 over_read (length buff))
  unfolding decode_cga_profile_vpd decode_sup_block_lens_vpd decode_feature_sets_vpd
      decode_con_pos_range_vpd
  decode_sup_block_lens_vpd-page_end buff = (
    decode-page_end 4 4 4 4 over_read cga-Strides buff,
    decode-page_end 4 4 8 6 over_read block_len-Strides buff,
    decode-page_end 64 64 32 24 over_read pos_range-Strides buff,
    decode-page_end 4 8 2 2 over_read feature_set-Strides buff,
  )
