-- ===== src/Options/Cases.antt =====
-- The cases without an argument of the two switches in src/sdparm_access.c that read options: that
-- of sdp_parse_cmdline, and that of chk_short_opts for letters behind a -j. The option -w of
-- Windows is left out.
use sdparm.Prelude.{
  ℕ, ◌+◌, Bool, true, false, Option, none, some, List, [], ◌∷◌, ◌==◌, if◌then◌else◌,
}
use sdparm.Prelude.Int.{ℤ, negsuc}

-- struct sdparm_opt_coll, as far as the command line fills it in; `none` is a NULL pointer, and the
-- devices are those of device_name_arr.
pub record OptColl : Type 0 where
  pub dbd : Bool
  pub dummy : Bool
  pub examine : Bool
  pub flexible : Bool
  pub inquiry : Bool
  pub mode_6 : Bool
  pub num_desc : Bool
  pub do_json : Bool
  pub do_raw : Bool
  pub do_rw : Bool
  pub mph : Bool
  pub read_only : Bool
  pub save : Bool
  pub set_clear : Bool
  pub verbose_given : Bool
  pub version_given : Bool
  pub defaults : ℕ
  pub do_all : ℕ
  pub do_enum : ℕ
  pub do_flags : ℕ
  pub do_help : ℕ
  pub do_hex : ℕ
  pub do_long : ℕ
  pub out_mask : ℕ
  pub in_mask : ℕ
  pub do_quiet : ℕ
  pub inner_hex : ℕ
  pub verbose : ℕ
  pub cl_pdt : ℤ
  pub transport : ℤ
  pub vendor_id : ℤ
  pub inhex_fn : Option (List ℕ)
  pub clear_str : Option (List ℕ)
  pub cmd_str : Option (List ℕ)
  pub get_str : Option (List ℕ)
  pub page_str : Option (List ℕ)
  pub set_str : Option (List ℕ)
  pub json_arg : Option (List ℕ)
  pub js_file : Option (List ℕ)
  pub devices : List (List ℕ)

-- What main sets before.
abbrev pub initial : OptColl
initial = record {
  dbd = false;
  dummy = false;
  examine = false;
  flexible = false;
  inquiry = false;
  mode_6 = false;
  num_desc = false;
  do_json = false;
  do_raw = false;
  do_rw = false;
  mph = false;
  read_only = false;
  save = false;
  set_clear = false;
  verbose_given = false;
  version_given = false;
  defaults = 0;
  do_all = 0;
  do_enum = 0;
  do_flags = 0;
  do_help = 0;
  do_hex = 0;
  do_long = 0;
  out_mask = 0xf;
  in_mask = 0xf;
  do_quiet = 0;
  inner_hex = 0;
  verbose = 0;
  cl_pdt = negsuc 0;
  transport = negsuc 0;
  vendor_id = negsuc 0;
  inhex_fn = none;
  clear_str = none;
  cmd_str = none;
  get_str = none;
  page_str = none;
  set_str = none;
  json_arg = none;
  js_file = none;
  devices = [];
}

-- A switch: the value of each case label and what its statements do.
abbrev pub Switch : Type 0
Switch = List (ℕ × (OptColl → OptColl))

unfoldable pub case_of : ℕ → Switch → Option (OptColl → OptColl)
case_of c [] = none
case_of c (k ∷ ks) = let rest = case_of c ks in if c == k.0 then some k.1 else rest

-- Of sdp_parse_cmdline.
unfoldable pub flag_cases : Switch
flag_cases =
    (b'6', λ op. record op { mode_6 = true })
    ∷ (b'a', λ op. record op { do_all = op.do_all + 1 })
    ∷ (b'B', λ op. record op { dbd = true })
    ∷ (b'd', λ op. record op { dummy = true })
    ∷ (b'D', λ op. record op { defaults = op.defaults + 1; do_rw = true })
    ∷ (b'e', λ op. record op { do_enum = op.do_enum + 1 })
    ∷ (b'E', λ op. record op { examine = true })
    ∷ (b'f', λ op. record op { flexible = true })
    ∷ (b'F', λ op. record op { do_flags = op.do_flags + 1 })
    ∷ (b'h', λ op. record op { do_help = op.do_help + 1 })
    ∷ (b'H', λ op. record op { do_hex = op.do_hex + 1 })
    ∷ (b'i', λ op. record op { inquiry = true })
    ∷ (b'l', λ op. record op { do_long = op.do_long + 1 })
    ∷ (b'm', λ op. record op { mph = true })
    ∷ (b'n', λ op. record op { num_desc = true })
    ∷ (b'q', λ op. record op { do_quiet = op.do_quiet + 1 })
    ∷ (b'r', λ op. record op { read_only = true })
    ∷ (b'R', λ op. record op { do_raw = true })
    ∷ (b'S', λ op. record op { save = true })
    ∷ (b'v', λ op. record op { verbose_given = true; verbose = op.verbose + 1 })
    ∷ (b'V', λ op. record op { version_given = true })
    ∷ (b'x', λ op. record op { inner_hex = op.inner_hex + 1 })
    ∷ []

-- Of chk_short_opts, where a second j is ignored.
unfoldable pub short_cases : Switch
short_cases =
    (b'6', λ op. record op { mode_6 = true })
    ∷ (b'a', λ op. record op { do_all = op.do_all + 1 })
    ∷ (b'B', λ op. record op { dbd = true })
    ∷ (b'd', λ op. record op { dummy = true })
    ∷ (b'D', λ op. record op { defaults = op.defaults + 1; do_rw = true })
    ∷ (b'e', λ op. record op { do_enum = op.do_enum + 1 })
    ∷ (b'E', λ op. record op { examine = true })
    ∷ (b'f', λ op. record op { flexible = true })
    ∷ (b'F', λ op. record op { do_flags = op.do_flags + 1 })
    ∷ (b'h', λ op. record op { do_help = op.do_help + 1 })
    ∷ (b'H', λ op. record op { do_hex = op.do_hex + 1 })
    ∷ (b'i', λ op. record op { inquiry = true })
    ∷ (b'j', λ op. op)
    ∷ (b'l', λ op. record op { do_long = op.do_long + 1 })
    ∷ (b'm', λ op. record op { mph = true })
    ∷ (b'n', λ op. record op { num_desc = true })
    ∷ (b'q', λ op. record op { do_quiet = op.do_quiet + 1 })
    ∷ (b'r', λ op. record op { read_only = true })
    ∷ (b'R', λ op. record op { do_raw = true })
    ∷ (b'S', λ op. record op { save = true })
    ∷ (b'v', λ op. record op { verbose_given = true; verbose = op.verbose + 1 })
    ∷ (b'V', λ op. record op { version_given = true })
    ∷ (b'x', λ op. record op { inner_hex = op.inner_hex + 1 })
    ∷ []
