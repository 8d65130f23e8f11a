-- ===== src/Settings/Build.antt =====
-- build_mp_settings of src/sdparm.c as a whole: the argument of --get=, --set= or --clear= is taken
-- apart at its commas, and each part is an item by acronym or by numbers.
use sdparm.Prelude.{
  ℕ, zero, suc, Bool, true, false, not, ◌&&◌, ◌||◌, Option, none, some, List, [], ◌∷◌, ◌++◌, length,
  take, drop, leb, ◌==◌, if◌then◌else◌,
}
use sdparm.Prelude.Int.{ℤ, pos, negsuc, is_neg, pos_part, ltb_ℤ, ◌==ℤ◌}
use sdparm.Prelude.Text.{codes, is_alpha, is_digit}
use sdparm.SgLib.{SgLib}
use sdparm.Field.{as_signed}
use sdparm.ModeSelect.Change.{MpItVal, MpSettings, to_u64}
use sdparm.Settings.{Target, Found, found, not_found, find_setting, truncate_val}
use sdparm.Settings.Text.{split_at, parse_val, parse_setting}

-- What sscanf of the C library stores by a format with three numbers and a text: how many of them
-- it could read, and these.
pub record Scan : Type 0 where
  pub num : ℤ
  pub first : ℤ
  pub second : ℤ
  pub third : ℤ
  pub text : List ℕ

-- The settings so far, and op->transport.
pub record Settings : Type 0 where
  pub mps : MpSettings
  pub transport : ℤ

-- At `err` the settings are emptied and the program gives up.
pub data Built : Type 0 where
  built : Settings → Built
  failed : Built
  no_fuel : Built

-- `strchr(b, c) ? 1 : 0`
abbrev pub holds : ℕ → List ℕ → Bool
holds c [] = false
holds c (d ∷ s) = d == c || holds c s

-- `strncmp(prefix, s, strlen(prefix))` is 0
abbrev pub starts_with : List ℕ → List ℕ → Bool
starts_with [] s = true
starts_with (c ∷ p) [] = false
starts_with (c ∷ p) (d ∷ s) = c == d && starts_with p s

-- `strstr(s, p)`
abbrev pub contains : List ℕ → List ℕ → Bool
contains p [] = starts_with p []
contains p (d ∷ s) = starts_with p (d ∷ s) || contains p s

-- "expect acronym"
unfoldable pub is_acronym : List ℕ → Bool
unfolding is_alpha is_digit
is_acronym [] = false
is_acronym (c ∷ []) = is_alpha c && not (c == b':')
is_acronym (c ∷ d ∷ s) = is_alpha c && not (holds b':' (c ∷ d ∷ s)) || is_digit c && d == b'_'

-- A negative vendor_id and the like mean that none is given.
pub record Mode : Type 0 where
  pub clear : Bool
  pub get : Bool
  pub vendor_id : ℤ

abbrev pub add_setting : Settings → ℤ → ℤ → ℤ → MpItVal → Settings
add_setting st pg_num subpg_num transport v = record {
  mps = record { pg_num = pg_num; subpg_num = subpg_num; it_vals = st.mps.it_vals ++ (v ∷ []) };
  transport = transport;
}

abbrev pub target_of : Settings → Target
target_of st = record {
  pg_num = st.mps.pg_num;
  subpg_num = st.mps.subpg_num;
  transport = st.transport;
}

-- The end of the branch for an acronym; the value is cut for --set= and --clear=.
unfoldable pub store_found : Bool → Settings → ℤ → ℕ → Option Found → Built
unfolding truncate_val
store_found get st val n none = no_fuel
store_found get st val n (some not_found) = failed
store_found get st val n (some (found mpip target)) = built (
    add_setting st target.pg_num target.subpg_num target.transport (record {
      mp_it = mpip;
      val = if get then val else truncate_val val mpip.num_bits;
      descriptor_num = n;
    }))

unfoldable pub find_parsed : Mode → Settings → Option (List ℕ × (ℤ × ℕ)) → Built
unfolding store_found
find_parsed mode st none = failed
find_parsed mode st (some (acron, (val, n))) =
    store_found mode.get st val n (find_setting mode.get acron mode.vendor_id (target_of st))

-- The value of an item given by numbers: `num` is 3 if none stands behind them.
abbrev pub numeric_val : SgLib → Mode → Scan → Option ℤ
numeric_val sg mode s =
    if s.num ==ℤ pos 3
    then some (if mode.clear || mode.get then pos 0 else negsuc 0)
    else parse_val sg s.text

-- The checks on the numbers; `pos_part` takes the place of the conversion of what is not negative.
unfoldable pub store_numeric : Bool → Settings → ℤ → Scan → ℤ → Built
unfolding truncate_val
store_numeric get st start_byte s val =
    if is_neg start_byte
    then failed
    else if is_neg s.second || ltb_ℤ (pos 7) s.second
    then failed
    else if ltb_ℤ s.third (pos 1) || ltb_ℤ (pos 64) s.third
    then failed
    else if is_neg st.mps.pg_num
    then failed
    else built (
        add_setting st st.mps.pg_num st.mps.subpg_num st.transport (record {
          mp_it = record {
            acron = none;
            pg_num = if get then pos_part st.mps.pg_num else 0;
            subpg_num = if get then pos_part st.mps.subpg_num else 0;
            com_pdt = negsuc 0;
            start_byte = pos_part start_byte;
            start_bit = pos_part s.second;
            num_bits = pos_part s.third;
            flags = 0;
          };
          val = truncate_val val (pos_part s.third);
          descriptor_num = 0;
        }))

unfoldable pub with_numeric : Bool → Settings → ℤ → Scan → Option ℤ → Built
unfolding store_numeric
with_numeric get st start_byte s none = failed
with_numeric get st start_byte s (some val) = store_numeric get st start_byte s val

-- The format by which the numbers are read: the first in hexadecimal, where it is an unsigned int
-- that the assignment to start_byte converts, or in decimal.
unfoldable pub scan_numbers : (List ℕ → List ℕ → Scan) → List ℕ → Scan × ℤ
scan_numbers sscanf b =
    let hex = sscanf (codes "%x:%d:%d=%62s") (drop 2 b) in
    let small = sscanf (codes "%xh:%d:%d=%62s") b in
    let large = sscanf (codes "%xH:%d:%d=%62s") b in
    let plain = sscanf (codes "%d:%d:%d=%62s") b in
    if starts_with (codes "0x") b || starts_with (codes "0X") b
    then (hex, as_signed 32 (to_u64 hex.first))
    else if contains (codes "h:") b
    then (small, as_signed 32 (to_u64 small.first))
    else if contains (codes "H:") b
    then (large, as_signed 32 (to_u64 large.first))
    else (plain, plain.first)

module _ (sg : SgLib) (sscanf : List ℕ → List ℕ → Scan) (mode : Mode) where
  unfoldable pub build_numeric : Settings → Scan × ℤ → Built
  unfolding with_numeric
  build_numeric st (s, start_byte) =
      if ltb_ℤ s.num (pos 3)
      then failed
      else with_numeric mode.get st start_byte s (numeric_val sg mode s)

  -- One part of the argument: the code copies 63 characters of it.
  unfoldable pub build_item : List ℕ → Settings → Built
  unfolding is_acronym find_parsed scan_numbers build_numeric
  build_item part st =
      let b = take 63 part in
      if is_acronym b
      then find_parsed mode st (parse_setting sg (mode.clear || mode.get) b)
      else build_numeric st (scan_numbers sscanf b)

-- What is done behind a part.
abbrev pub then_more : Built → (Settings → Built) → Built
then_more (built st) more = more st
then_more failed more = failed
then_more no_fuel more = no_fuel

-- One round at the text `cp`, of which `parts` is the part up to the first comma and the rest.
unfoldable pub build_part :
    (List ℕ → Settings → Built)
    → List ℕ
    → Option (List ℕ × List ℕ)
    → Settings
    → (List ℕ → Settings → Built)
    → Built
build_part item [] parts st more = built st
build_part item (c ∷ cp) none st more = item (c ∷ cp) st
build_part item (c ∷ cp) (some ([], rest)) st more = more rest st
build_part item (c ∷ cp) (some (d ∷ part, rest)) st more =
    then_more (item (d ∷ part) st) (more rest)

-- The while loop; MAX_MP_IT_VAL is 128.
unfoldable pub build_loop : (List ℕ → Settings → Built) → ℕ → List ℕ → Settings → Built
unfolding build_part
build_loop item zero cp st = no_fuel
build_loop item (suc fuel) cp st =
    if leb 128 (length st.mps.it_vals)
    then built st
    else build_part item cp (split_at b',' cp) st (build_loop item fuel)

-- Each round but the last takes a comma away.
unfoldable pub build_mp_settings :
    SgLib → (List ℕ → List ℕ → Scan) → Mode → List ℕ → Settings → Built
unfolding build_loop build_item
build_mp_settings sg sscanf mode arg st =
    build_loop (build_item sg sscanf mode) (suc (length arg)) arg st
