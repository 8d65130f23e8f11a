-- ===== src/Vpd/Checked.antt =====
-- The pages whose decoders in src/sdparm_vpd.c look at what is left before they read a descriptor:
-- mode page policies and power consumption. (With -H given twice they print the bytes instead.)
use sdparm.Vpd.{
  short_descriptor, Round, row, last, Decoded, has, byte, be16, checked, ◌>>=◌, decode,
}
use sdparm.Vpd.Reads.{has-le, has-lt, byte_inside}
use sdparm.Vpd.OverRead.{Strides, the_row, decode-page_end, page_end}
use sdparm.Prelude.{
  ℕ, zero, suc, ◌+◌, ◌-◌, ◌*◌, ◌/◌, ◌%◌, ◌^◌, ◌≤◌, ◌<◌, ◌&&◌, Option, some, List, [], ◌≡◌, refl,
  arith, length, leb, ltb, if◌then◌else◌,
}
use sdparm.SgLib.{SgLib}

pub record ModePolicy : Type 0 where
  pub policy_page_code : ℕ
  pub policy_subpage_code : ℕ
  pub mlus : ℕ
  pub mode_page_policy : ℕ

abbrev pub read_mode_policy : List ℕ → Option (Round ModePolicy)
read_mode_policy bp = do
  b0 ← byte bp 0
  b1 ← byte bp 1
  b2 ← byte bp 2
  some (
      row
        (record {
          policy_page_code = b0 % 64;
          policy_subpage_code = b1;
          mlus = b2 / 128 % 2;
          mode_page_policy = b2 % 4;
        })
        4)

unfoldable pub mode_policy_round : List ℕ → Round ModePolicy
mode_policy_round bp = if has 4 bp then checked (read_mode_policy bp) else last [] short_descriptor

unfoldable pub decode_mode_policy_vpd : List ℕ → Decoded ModePolicy
unfolding mode_policy_round
decode_mode_policy_vpd buff = decode 4 4 mode_policy_round buff

pub record PowerConsumption : Type 0 where
  pub pcmp_id : ℕ
  pub pcmp_unit : ℕ
  pub pcmp_val : ℕ

abbrev pub read_power : SgLib → List ℕ → Option (Round PowerConsumption)
read_power sg bp = do
  b0 ← byte bp 0
  b1 ← byte bp 1
  v ← be16 sg bp 2
  some (row (record { pcmp_id = b0; pcmp_unit = b1 % 8; pcmp_val = v }) 4)

unfoldable pub power_round : SgLib → List ℕ → Round PowerConsumption
power_round sg bp = if has 4 bp then checked (read_power sg bp) else last [] short_descriptor

unfoldable pub decode_power_consumption_vpd : SgLib → List ℕ → Decoded PowerConsumption
unfolding power_round
decode_power_consumption_vpd sg buff = decode 4 4 (power_round sg) buff

-- What is printed as the maximum: a number, its three decimals, if there are some, and the index
-- of the unit in power_unit_arr.
pub data Shown : Type 0 where
  decimal : ℕ → ℕ → ℕ → Shown
  plain : ℕ → ℕ → Shown

unfoldable pub show_power : ℕ → ℕ → Shown
show_power pcmp_val pcmp_unit =
    if leb 1000 pcmp_val && ltb 0 pcmp_unit
    then decimal (pcmp_val / 1000) (pcmp_val % 1000) (pcmp_unit - 1)
    else plain pcmp_val pcmp_unit

-- An amount in microwatts: the units are gigawatts, megawatts and so on, to microwatts.
abbrev pub microwatts : ℕ → ℕ → ℕ
microwatts n unit = n * 1000 ^ (5 - unit)

unfoldable pub shown_microwatts : Shown → ℕ
shown_microwatts (decimal n thousandths unit) =
    microwatts n unit + microwatts thousandths (unit + 1)
shown_microwatts (plain n unit) = microwatts n unit

mode_policy-Strides : Strides mode_policy_round 4 4 short_descriptor
unfolding mode_policy_round
mode_policy-Strides = record {
  least = ground arith;
  hit = λ bp h.
      let b0 = byte_inside bp 0 (omega arith) in
      let b1 = byte_inside bp 1 (omega arith) in
      let b2 = byte_inside bp 2 (omega arith) in
      the_row (mode_policy_round bp) 4 (rw (has-le 4 bp h, b0.1, b1.1, b2.1) refl);
  miss = λ bp long h. rw (has-lt 4 bp h) refl;
}

power-Strides : (sg : SgLib) → Strides (power_round sg) 4 4 short_descriptor
unfolding power_round
power-Strides sg = record {
  least = ground arith;
  hit = λ bp h.
      let b0 = byte_inside bp 0 (omega arith) in
      let b1 = byte_inside bp 1 (omega arith) in
      the_row (power_round sg bp) 4 (rw (has-le 4 bp h, b0.1, b1.1) refl);
  miss = λ bp long h. rw (has-lt 4 bp h) refl;
}

-- The decoders of mode page policies and of power consumption never read beyond the page: a page
-- shorter than 4 bytes is refused, and behind the whole descriptors of 4 bytes a rest ends them
-- with the message on a short descriptor.
pub decode_mode_policy_vpd-page_end :
    (sg : SgLib) (buff : List ℕ)
    → ((decode_mode_policy_vpd buff).1 ≡ page_end 4 4 4 4 short_descriptor (length buff))
      × ((decode_power_consumption_vpd sg buff).1 ≡ page_end 4 4 4 4 short_descriptor (length buff))
unfolding decode_mode_policy_vpd decode_power_consumption_vpd
decode_mode_policy_vpd-page_end sg buff = (
  decode-page_end 4 4 4 4 short_descriptor mode_policy-Strides buff,
  decode-page_end 4 4 4 4 short_descriptor (power-Strides sg) buff,
)

next_unit :
    (v u : ℕ)
    → u < 5
    → microwatts (v / 1000) u + microwatts (v % 1000) (u + 1) ≡ microwatts v (u + 1)
next_unit v zero h = omega arith
next_unit v (suc zero) h = omega arith
next_unit v (suc (suc zero)) h = omega arith
next_unit v (suc (suc (suc zero))) h = omega arith
next_unit v (suc (suc (suc (suc zero)))) h = omega arith
next_unit v (suc (suc (suc (suc (suc u))))) h = absurd (omega arith)

-- Whether or not a value of 1000 or more is shown in the next larger unit, with three decimals, it
-- is the same amount, for each of the six units that are defined.
pub show_power-microwatts :
    (pcmp_val pcmp_unit : ℕ)
    → pcmp_unit ≤ 5
    → shown_microwatts (show_power pcmp_val pcmp_unit) ≡ microwatts pcmp_val pcmp_unit
unfolding show_power shown_microwatts
show_power-microwatts v zero h = ground arith
show_power-microwatts v (suc u) h = ground (arith, next_unit v u (omega arith))
