-- ===== src/Descriptor/Counts.antt =====
-- The two counts of descriptors compared, and that the walk ends.
use sdparm.Prelude.{
  ℕ, zero, suc, ◌+◌, ◌-◌, ◌*◌, ◌/◌, ◌%◌, ◌^◌, ◌≤◌, ◌<◌, ◌≡◌, ◌≢◌, ◌∙◌, ap, ◌⊎◌, true, none, some,
  List, arith, drop,
}
use native.Mathlib.Nat.{add-mul-div_right, mul-div_cancel, div-le_self}
use sdparm.Prelude.Int.{pos, is_neg, ltb_ℤ, pos_part}
use sdparm.SgLib.{SgLib}
use sdparm.Field.{mpage_len, as_signed}
use sdparm.Tables.Types.{Descriptor}
use sdparm.Descriptor.{walk_count, report_number_of_descriptors, count_descriptors, descs_field}

-- A page of descriptors of one length is counted by the length of the list in bytes.
pub record ByLength (mdp : Descriptor) : Type 0 where
  pub inc_neg : is_neg mdp.num_descs_inc ≡ true
  pub len_pos : ltb_ℤ (pos 0) mdp.desc_len ≡ true

-- The two counts find one of three forms in a template: the length of the list and of a
-- descriptor, the number of descriptors, or the length of each descriptor.
abbrev pub IsCountable : Descriptor → Type 0
IsCountable mdp =
    ByLength mdp
    ⊎ ((ltb_ℤ (pos 0) mdp.num_descs_bytes ≡ true)
        ⊎ (0 < pos_part mdp.desc_len_off + pos_part mdp.desc_len_bytes))

-- The bytes between the length field and the first descriptor, which no template has in front of
-- the end of that field.
abbrev pub gap : Descriptor → ℕ
gap mdp = mdp.first_desc_off - (pos_part mdp.num_descs_off + pos_part mdp.num_descs_bytes)

small_int : (u : ℕ) → u < 2 ^ 31 → as_signed 32 u ≡ pos u
small_int u h = ground arith

module _ (sg : SgLib) where
  -- The walk ends: each round moves on by a descriptor's length field at least.
  walk_count-ends :
      (fuel : ℕ) (mdp : Descriptor) (cur_mp : List ℕ) (pg_len off num : ℕ)
      → 0 < pos_part mdp.desc_len_off + pos_part mdp.desc_len_bytes
      → pg_len ≤ off + fuel
      → walk_count sg (suc fuel) mdp cur_mp pg_len off num ≢ none
  unfolding walk_count
  walk_count-ends zero mdp cur_mp pg_len off num d h = ground arith
  walk_count-ends (suc fuel) mdp cur_mp pg_len off num d h =
      let len_off = pos_part mdp.desc_len_off in
      let len_bytes = pos_part mdp.desc_len_bytes in
      let u = sg.get_big_endian (drop (len_off + off) cur_mp) 7 (len_bytes * 8) in
      ground
        (arith, walk_count-ends fuel mdp cur_mp pg_len (off + (len_off + len_bytes) + u) (num + 1))

  -- `report_number_of_descriptors` returns for every page, and so does the count with which
  -- `print_a_mitem_desc` begins, if the template has a number of descriptors in the page, or a
  -- length of their list and of one of them, or a length field in each descriptor.
  pub counts-ne-none :
      (mdp : Descriptor) (cur_mp : List ℕ)
      → IsCountable mdp
      → (report_number_of_descriptors sg cur_mp mdp ≢ none)
        × (count_descriptors sg cur_mp mdp ≢ none)
  counts-ne-none mdp cur_mp d = (
    unfold report_number_of_descriptors in ground (arith, d, ends),
    unfold count_descriptors in ground (arith, d, ends),
  )
    where
      pg_len : ℕ
      pg_len = mpage_len sg cur_mp

      ends :
          0 < pos_part mdp.desc_len_off + pos_part mdp.desc_len_bytes
          → walk_count sg (suc pg_len) mdp cur_mp pg_len mdp.first_desc_off 0 ≢ none
      ends d = walk_count-ends pg_len mdp cur_mp pg_len mdp.first_desc_off 0 d (omega arith)

  -- For a page that holds `n` descriptors of `desc_len` bytes behind a gap, and says so in its
  -- length field (below 2 ^ 31), `print_a_mitem_desc` counts `n`, and `report_number_of_descriptors` prints `n`
  -- and as many more as descriptors fit in the gap.
  pub counts-ByLength :
      (mdp : Descriptor) (cur_mp : List ℕ) (n : ℕ)
      → ByLength mdp
      → descs_field sg mdp cur_mp ≡ gap mdp + n * pos_part mdp.desc_len
      → descs_field sg mdp cur_mp < 2 ^ 31
      → (count_descriptors sg cur_mp mdp ≡ some (pos n))
        × (report_number_of_descriptors sg cur_mp mdp
            ≡ some (some (pos (n + gap mdp / pos_part mdp.desc_len))))
  unfolding count_descriptors report_number_of_descriptors
  counts-ByLength mdp cur_mp n form length_field fits =
      let d = pos_part mdp.desc_len in
      let some_len : 0 < d = ground (arith, form.len_pos) in
      let stripped : (gap mdp + n * d + 2 ^ 64 - gap mdp) % 2 ^ 64 ≡ n * d = omega arith in
      let counted : (gap mdp + n * d + 2 ^ 64 - gap mdp) % 2 ^ 64 / d ≡ n =
        ap (λ (t : ℕ). t / d) stripped ∙ mul-div_cancel n some_len in
      let reported : (gap mdp + n * d) / d ≡ n + gap mdp / d =
        omega (arith, add-mul-div_right (gap mdp) n some_len) in
      let small : (gap mdp + n * d) / d < 2 ^ 31 =
        omega (arith, fits, length_field, div-le_self (gap mdp + n * d) d) in
      let few : n < 2 ^ 31 = omega (arith, reported, small) in
      let printed = small_int ((gap mdp + n * d) / d) small in
      let printed' = small_int n few in
      (ground (arith, counted, printed'), ground (arith, reported, printed))
