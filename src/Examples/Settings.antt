-- ===== src/Examples/Settings.antt =====
-- The acronym of a setting.
use sdparm.Prelude.{
  ℕ, List, [], inl, ◌%◌, ◌^◌, true, false, some, ◌∷◌, ◌++◌, ◌≡◌, ◌≢◌, none, refl, arith,
}
use sdparm.Prelude.Int.{pos, negsuc}
use sdparm.Prelude.Text.{codes, to_upper, is_lower}
use sdparm.Strings.{strcase_eq, same_char}
use sdparm.Tables.Types.{MpItem, item}
use sdparm.Tables.Consts.{any_pdt, mf_common, rw_err_recovery_mp}
use sdparm.Tables.DiskItems.{error_recovery_items}
use sdparm.Tables.Registry.{mitem_arr}
use sdparm.Lookup.{select_items, find_row, find_mitem_by_acron}
use sdparm.ModeSelect.Change.{to_u64}
use sdparm.Settings.{Target, found, settle, round, none_left, search, find_setting, truncate_val}
use sdparm.SgLib.Model.{sample_lib}
use sdparm.Settings.Text.{Lacks, same_text, parse_setting, parse_setting-append}
use sdparm.Settings.Build.{Scan, Settings, Mode, then_more, build_mp_settings}
use sdparm.Settings.Parts.{build_mp_settings-append}
use sdparm.Settings.Consistent.{IsConsistent, Yields}
use sdparm.Settings.Whole.{build_mp_settings-IsConsistent}
use sdparm.Settings.Search.{find_setting-ends}
use sdparm.Settings.Page.{IsOnPage, find_setting-IsOnPage}
use sdparm.Settings.Value.{truncate_val-same_bits}

abbrev arre : MpItem
arre = item "ARRE" rw_err_recovery_mp 0 any_pdt 2 6 1 mf_common

abbrev unnamed : Target
unnamed = record { pg_num = negsuc 0; subpg_num = negsuc 0; transport = negsuc 0 }

abbrev named : Target
named = record { pg_num = pos 1; subpg_num = pos 0; transport = negsuc 0 }

arre_resolves : find_setting false (codes "arre") (negsuc 0) unnamed ≡ some (found arre named)
unfolding find_setting search settle round none_left find_mitem_by_acron find_row select_items
    mitem_arr error_recovery_items strcase_eq same_char to_upper is_lower
arre_resolves = refl

find_setting-ends_example : find_setting true (codes "nothing") (negsuc 0) unnamed ≢ none
find_setting-ends_example = find_setting-ends true (codes "nothing") (negsuc 0) unnamed

find_setting-IsOnPage_example : IsOnPage unnamed arre named
find_setting-IsOnPage_example =
    find_setting-IsOnPage (codes "arre") (negsuc 0) unnamed named arre arre_resolves

truncate_val-same_bits_example :
    to_u64 (truncate_val (negsuc 0) 3) % 2 ^ 3 ≡ to_u64 (negsuc 0) % 2 ^ 3
truncate_val-same_bits_example = truncate_val-same_bits (negsuc 0) 3 (omega arith)

arre_without_dot : Lacks b'.' (codes "ARRE")
arre_without_dot = (refl, (refl, (refl, (refl, tt))))

arre_without_equals : Lacks b'=' (codes "ARRE")
arre_without_equals = (refl, (refl, (refl, (refl, tt))))

two_without_equals : Lacks b'=' (codes "2")
two_without_equals = (refl, tt)

two_read : sample_lib.get_llnum_nomult (codes "2") ≡ pos 2
unfolding sample_lib
two_read = refl

ten_read : sample_lib.get_llnum_nomult (codes "10") ≡ pos 10
unfolding sample_lib
ten_read = refl

ten_not_minus : same_text (codes "-1") (codes "10") ≡ false
unfolding same_text
ten_not_minus = refl

parse_setting-append_example :
    parse_setting sample_lib false (codes "ARRE" ++ (b'.' ∷ codes "2") ++ (b'=' ∷ codes "10"))
    ≡ some (codes "ARRE", (pos 10, 2))
parse_setting-append_example =
    parse_setting-append sample_lib false (codes "ARRE") (codes "2") (codes "10") 2 10
      arre_without_dot arre_without_equals two_without_equals two_read (omega arith) ten_not_minus
      ten_read

-- sscanf for numbers without a text, as if it had read 2:6:1.
abbrev two_six_one : List ℕ → List ℕ → Scan
two_six_one format text = record {
  num = pos 3;
  first = pos 2;
  second = pos 6;
  third = pos 1;
  text = [];
}

abbrev no_settings : Settings
no_settings = record {
  mps = record { pg_num = pos 1; subpg_num = pos 0; it_vals = [] };
  transport = negsuc 0;
}

no_settings-IsConsistent : IsConsistent no_settings
no_settings-IsConsistent = record { room = omega arith; named = inl refl; settings = tt }

abbrev set_mode : Mode
set_mode = record { clear = false; get = false; vendor_id = negsuc 0 }

build_mp_settings-IsConsistent_example :
    Yields IsConsistent
      (build_mp_settings sample_lib two_six_one set_mode (codes "ARRE,2:6:1") no_settings)
build_mp_settings-IsConsistent_example =
    build_mp_settings-IsConsistent sample_lib two_six_one false (negsuc 0) (codes "ARRE,2:6:1")
      no_settings no_settings-IsConsistent

build_mp_settings-append_example :
    build_mp_settings sample_lib two_six_one set_mode
      (codes "ARRE" ++ (b',' ∷ codes "2:6:1"))
      no_settings
    ≡ then_more
        (build_mp_settings sample_lib two_six_one set_mode (codes "ARRE") no_settings)
        (build_mp_settings sample_lib two_six_one set_mode (codes "2:6:1"))
build_mp_settings-append_example =
    build_mp_settings-append sample_lib two_six_one set_mode (codes "ARRE") (codes "2:6:1")
      no_settings
