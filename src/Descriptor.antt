-- ===== src/Descriptor.antt =====
-- Mode pages with descriptors, in src/sdparm.c: how many there are, and where a field of the n-th
-- one stands. `int` sums stay far below 2 ^ 31 and are plain numbers; what C computes in uint64_t
-- is reduced by 2 ^ 64.
pub mod Counts
pub mod Adjust
use sdparm.Prelude.{
  ℕ, zero, suc, ◌+◌, ◌-◌, ◌*◌, ◌/◌, ◌%◌, ◌^◌, Bool, true, false, not, ◌&&◌, ◌||◌, Option, none,
  some, List, drop, length, leb, ltb, ◌==◌, if◌then◌else◌,
}
use sdparm.Prelude.Int.{ℤ, pos, is_neg, ltb_ℤ, pos_part, neg_part}
use sdparm.SgLib.{SgLib}
use sdparm.Field.{mpage_len, as_signed}
use sdparm.Tables.Types.{MpItem, Descriptor}

-- uint64_t + int
abbrev pub add_u64 : ℕ → ℤ → ℕ
add_u64 u inc = (u + pos_part inc + (2 ^ 64 - neg_part inc)) % 2 ^ 64

-- uint64_t - int, for an int that is not negative
abbrev pub sub_u64 : ℕ → ℕ → ℕ
sub_u64 u k = (u + 2 ^ 64 - k) % 2 ^ 64

module _ (sg : SgLib) where
  -- The field of `num_descs_bytes` bytes at `num_descs_off`.
  abbrev pub descs_field : Descriptor → List ℕ → ℕ
  descs_field mdp cur_mp =
      sg.get_big_endian (drop (pos_part mdp.num_descs_off) cur_mp) 7
        (pos_part mdp.num_descs_bytes * 8)

  -- The loop that walks descriptors of variable length, at offset `off`. In each round `off`
  -- grows by `d_len` at least, so `pg_len` rounds are enough; out of fuel it is `none`.
  unfoldable pub walk_count : ℕ → Descriptor → List ℕ → ℕ → ℕ → ℕ → Option ℕ
  walk_count zero mdp cur_mp pg_len off num = none
  walk_count (suc fuel) mdp cur_mp pg_len off num =
      let len_off = pos_part mdp.desc_len_off in
      let d_len = len_off + pos_part mdp.desc_len_bytes in
      let u = sg.get_big_endian (drop (len_off + off) cur_mp) 7 (pos_part mdp.desc_len_bytes * 8) in
      let more = walk_count fuel mdp cur_mp pg_len (off + d_len + u) (num + 1) in
      if ltb (off + d_len) pg_len then (if ltb 1024 u then some (num + 1) else more) else some num

  -- report_number_of_descriptors: the number that it prints, an int. The inner `none` stands for
  -- its early return.
  unfoldable pub report_number_of_descriptors : List ℕ → Descriptor → Option (Option ℤ)
  report_number_of_descriptors cur_mp mdp =
      if is_neg mdp.num_descs_inc && ltb_ℤ (pos 0) mdp.desc_len
      then some (some (as_signed 32 (descs_field mdp cur_mp / pos_part mdp.desc_len)))
      else if ltb_ℤ (pos 0) mdp.num_descs_bytes
      then some (some (as_signed 32 (add_u64 (descs_field mdp cur_mp) mdp.num_descs_inc)))
      else (let pg_len = mpage_len sg cur_mp in
          let walked = walk_count (suc pg_len) mdp cur_mp pg_len mdp.first_desc_off 0 in
          if ltb pg_len 4
          then some none
          else elim walked [ none ↦ none | some num ↦ some (some (pos num)) ])

  -- The count with which print_a_mitem_desc begins, in its three forms.
  unfoldable pub count_descriptors : List ℕ → Descriptor → Option ℤ
  count_descriptors cur_mp mdp =
      if is_neg mdp.num_descs_inc && ltb_ℤ (pos 0) mdp.desc_len
      then (let k =
            mdp.first_desc_off - (pos_part mdp.num_descs_off + pos_part mdp.num_descs_bytes) in
          some (as_signed 32 (sub_u64 (descs_field mdp cur_mp) k / pos_part mdp.desc_len)))
      else if ltb_ℤ (pos 0) mdp.num_descs_bytes
      then some (as_signed 32 (add_u64 (descs_field mdp cur_mp) mdp.num_descs_inc))
      else (let pg_len = mpage_len sg cur_mp in
          let walked = walk_count (suc pg_len) mdp cur_mp pg_len mdp.first_desc_off 0 in
          elim walked [ none ↦ none | some num ↦ some (pos num) ])

-- What desc_adjust_start_byte does: it moves the item, or refuses, or first reads in front of
-- the page, which C leaves undefined.
pub data Adjusted : Type 0 where
  moved : MpItem → Adjusted
  refused : Adjusted
  bad_read : Adjusted

-- `mpip->start_byte = ..; if (mpip->start_byte < rep_len) return true;`
abbrev pub place_at : ℕ → ℕ → MpItem → Adjusted
place_at start_byte rep_len mpip =
    if ltb start_byte rep_len then moved (record mpip { start_byte = start_byte }) else refused

module _ (sg : SgLib) where
  -- The walk over descriptors of variable length; `left` of them stand in front of the one that
  -- is meant.
  unfoldable pub walk_to : ℕ → Descriptor → List ℕ → ℕ → ℕ → MpItem → Adjusted
  walk_to zero mdp cur_mp rep_len d_off mpip =
      place_at (d_off + mpip.start_byte - mdp.first_desc_off) rep_len mpip
  walk_to (suc left) mdp cur_mp rep_len d_off mpip =
      let len_off = pos_part mdp.desc_len_off in
      let len_bytes = pos_part mdp.desc_len_bytes in
      let u = sg.get_big_endian (drop (d_off + len_off) cur_mp) 7 (len_bytes * 8) in
      let d_off' = d_off + (len_off + len_bytes + u) in
      let further = walk_to left mdp cur_mp rep_len d_off' mpip in
      if leb rep_len d_off' then refused else further

  -- desc_adjust_start_byte
  unfoldable pub desc_adjust_start_byte : ℕ → Descriptor → List ℕ → ℕ → MpItem → Adjusted
  desc_adjust_start_byte desc_num mdp cur_mp rep_len mpip =
      if not (ltb_ℤ mdp.num_descs_off (pos rep_len) && ltb_ℤ mdp.num_descs_off (pos 64))
      then refused
      else if is_neg mdp.num_descs_off
      then bad_read
      else (let u =
            if is_neg mdp.num_descs_inc && ltb_ℤ (pos 0) mdp.desc_len
            then descs_field sg mdp cur_mp / pos_part mdp.desc_len
            else add_u64 (descs_field sg mdp cur_mp) mdp.num_descs_inc in
          if not (ltb desc_num u)
          then refused
          else if ltb_ℤ (pos 0) mdp.desc_len
          then place_at (mpip.start_byte + pos_part mdp.desc_len * desc_num) rep_len mpip
          else if ltb_ℤ (pos 0) mdp.desc_len_off
          then walk_to desc_num mdp cur_mp rep_len mdp.first_desc_off mpip
          else refused)
