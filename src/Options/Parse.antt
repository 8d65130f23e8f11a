-- ===== src/Options/Parse.antt =====
-- sdp_parse_cmdline and chk_short_opts of src/sdparm_access.c. What getopt_long of the C library
-- finds on the command line is a list of options, each with its argument if it has one, and the
-- other words: it sees to it that an option that needs an argument has one.
use sdparm.Prelude.{
  ℕ, Bool, true, false, ◌||◌, Option, none, some, List, [], ◌∷◌, ◌++◌, length, ltb, ◌==◌,
  if◌then◌else◌,
}
use sdparm.Prelude.Int.{ℤ, pos, negsuc, is_neg, ltb_ℤ, ◌==ℤ◌, pos_part}
use sdparm.Prelude.Text.{is_alpha, is_digit}
use sdparm.SgLib.{SgLib}
use sdparm.Tables.Types.{VendorName, TablePair}
use sdparm.Lookup.{find_transport_id_by_acron, find_vendor_by_acron, get_vendor_pair}
use sdparm.Settings.Text.{split_at}
use sdparm.Options.Cases.{OptColl, case_of, flag_cases, short_cases}

-- How a step goes on, or what sdp_parse_cmdline returns: 0 with the options so far, or an error.
pub data Step : Type 0 where
  next : OptColl → Step
  return_0 : OptColl → Step
  syntax_error : Step
  contradict : Step
  ok_false : Step

abbrev pub then_step : Step → (OptColl → Step) → Step
then_step (next op) more = more op
then_step (return_0 op) more = return_0 op
then_step syntax_error more = syntax_error
then_step contradict more = contradict
then_step ok_false more = ok_false

abbrev pub do_flag : Option (OptColl → OptColl) → OptColl → Step → Step
do_flag none op other = other
do_flag (some f) op other = next (f op)

unfoldable pub chk_short_opts : ℕ → OptColl → Step
unfolding case_of short_cases
chk_short_opts c op =
    do_flag (case_of c short_cases) op (if c == b'?' then ok_false else syntax_error)

-- What the loop behind -j makes of the two results of chk_short_opts.
abbrev pub from_short : Step → OptColl → Step
from_short (next op) before = next op
from_short (return_0 op) before = return_0 op
from_short syntax_error before = syntax_error
from_short contradict before = contradict
from_short ok_false before = return_0 before

unfoldable pub short_opts : List ℕ → OptColl → Step
unfolding chk_short_opts
short_opts [] op = next op
short_opts (c ∷ s) op = then_step (from_short (chk_short_opts c op) op) (short_opts s)

-- '^' is what getopt_long returns for --json.
unfoldable pub json_option : ℕ → Option (List ℕ) → OptColl → Step
unfolding short_opts
json_option c none op = next (record op { do_json = true; json_arg = none })
json_option c (some []) op =
    if c == b'^'
    then next (record op { do_json = true; json_arg = some [] })
    else next (record op { do_json = true })
json_option c (some (d ∷ s)) op =
    if c == b'^'
    then next (record op { do_json = true; json_arg = some (d ∷ s) })
    else if d == b'='
    then next (record op { do_json = true; json_arg = some s })
    else short_opts (d ∷ s) (record op { do_json = true })

abbrev pub starts : (ℕ → Bool) → List ℕ → Bool
starts test [] = false
starts test (c ∷ s) = test c

abbrev pub named_vendor : OptColl → Option VendorName → Step
named_vendor op none = syntax_error
named_vendor op (some vnp) = next (record op { vendor_id = pos vnp.vendor_id })

abbrev pub numbered_vendor : OptColl → ℤ → Option TablePair → Step
numbered_vendor op res none = syntax_error
numbered_vendor op res (some svpp) = next (record op { vendor_id = res })

abbrev pub once : Option (List ℕ) → Step → Step → Step
once none fresh again = fresh
once (some s) fresh again = again

-- `(res < low) || (res > high)`, for a lower bound of 0 or -1.
abbrev pub out_of_range : ℤ → ℤ → ℕ → Bool
out_of_range res low high = ltb_ℤ res low || ltb_ℤ (pos high) res

-- MAX_DEV_NAMES is 256.
unfoldable pub take_devices : List (List ℕ) → OptColl → Step
take_devices [] op = return_0 op
take_devices (w ∷ ws) op =
    let rest = take_devices ws (record op { devices = op.devices ++ (w ∷ []) }) in
    if ltb (length op.devices) 256 then rest else syntax_error

module _ (sg : SgLib) where
  unfoldable pub vendor_option : List ℕ → OptColl → Step
  vendor_option arg op =
      let res = sg.get_num_nomult arg in
      if starts is_alpha arg
      then named_vendor op (find_vendor_by_acron arg)
      else numbered_vendor op res (get_vendor_pair res)

  unfoldable pub transport_option : List ℕ → OptColl → Step
  transport_option arg op =
      let t_proto = find_transport_id_by_acron arg in
      let res = sg.get_num_nomult arg in
      if starts is_alpha arg
      then (if is_neg t_proto then syntax_error else next (record op { transport = t_proto }))
      else if out_of_range res (pos 0) 15
      then syntax_error
      else next (record op { transport = res })

  unfoldable pub in_mask_part : Option (List ℕ × List ℕ) → OptColl → Step
  in_mask_part none op = next op
  in_mask_part (some (a, b)) op =
      let res = sg.get_num_nomult b in
      if out_of_range res (pos 0) 15
      then syntax_error
      else next (record op { in_mask = pos_part res })

  unfoldable pub out_mask_part : List ℕ → OptColl → Step
  out_mask_part arg op =
      let res = sg.get_num_nomult arg in
      if starts (λ c. c == b',') arg
      then next op
      else if out_of_range res (pos 0) 15
      then syntax_error
      else next (record op { out_mask = pos_part res })

  unfoldable pub pdt_option : List ℕ → OptColl → Step
  pdt_option arg op =
      let res = sg.get_num_nomult arg in
      let pdt = sg.get_pdt_from_acronym arg in
      if starts (λ c. c == b'-') arg
      then next (record op { cl_pdt = negsuc 0 })
      else if starts is_digit arg
      then (if out_of_range res (pos 0) 31 then syntax_error else next (record op { cl_pdt = res }))
      else if ltb_ℤ pdt (negsuc 0)
      then (if pdt ==ℤ negsuc 2 then ok_false else syntax_error)
      else next (record op { cl_pdt = pdt })

  -- The cases with an argument, and default.
  unfoldable pub arg_option : ℕ → List ℕ → OptColl → Step
  unfolding vendor_option transport_option in_mask_part out_mask_part pdt_option
  arg_option c arg op =
      if c == b'c'
      then next (record op { clear_str = some arg; set_clear = true; do_rw = true })
      else if c == b'C'
      then next (record op { cmd_str = some arg })
      else if c == b'g'
      then once op.get_str (next (record op { get_str = some arg })) syntax_error
      else if c == b'I'
      then next (record op { inhex_fn = some arg })
      else if c == b'J'
      then next (record op { do_json = true; js_file = some arg })
      else if c == b'M'
      then vendor_option arg op
      else if c == b'o'
      then then_step (in_mask_part (split_at b',' arg) op) (out_mask_part arg)
      else if c == b'p'
      then once op.page_str (next (record op { page_str = some arg })) contradict
      else if c == b'P'
      then pdt_option arg op
      else if c == b's'
      then once op.set_str (next (record op { set_str = some arg; do_rw = true; set_clear = true }))
          syntax_error
      else if c == b't'
      then transport_option arg op
      else syntax_error

  abbrev pub with_arg : ℕ → Option (List ℕ) → OptColl → Step
  with_arg c none op = syntax_error
  with_arg c (some arg) op = arg_option c arg op

  -- The switch of sdp_parse_cmdline.
  unfoldable pub parse_option : ℕ × Option (List ℕ) → OptColl → Step
  unfolding case_of flag_cases json_option arg_option
  parse_option (c, optarg) op = do_flag (case_of c flag_cases) op (
      if c == b'?'
      then ok_false
      else if c == b'j' || c == b'^'
      then json_option c optarg op
      else with_arg c optarg op)

  unfoldable pub parse_options : List (ℕ × Option (List ℕ)) → OptColl → Step
  unfolding parse_option
  parse_options [] op = next op
  parse_options (o ∷ os) op = then_step (parse_option o op) (parse_options os)

  unfoldable pub parse_cmdline : List (ℕ × Option (List ℕ)) → List (List ℕ) → OptColl → Step
  unfolding parse_options take_devices
  parse_cmdline os words op = then_step (parse_options os op) (take_devices words)
