-- ===== src/Examples/SetOption.antt =====
-- --set=WCE=1 for the small disk.
use sdparm.Prelude.{ℕ, ◌^◌, ◌%◌, true, false, some, List, [], ◌≡◌, refl, arith, drop}
use sdparm.Prelude.Int.{pos, negsuc}
use sdparm.Prelude.Text.{codes, is_alpha, is_digit, is_lower, is_upper, to_upper}
use sdparm.SgLib.Model.{sample_lib, sample_laws}
use sdparm.Strings.{strcase_eq, same_char}
use sdparm.Tables.Types.{MpItem, item}
use sdparm.Tables.Consts.{caching_mp, pdt_disk_zbc, mf_common}
use sdparm.Tables.DiskItems.{error_recovery_items}
use sdparm.Tables.Registry.{mitem_arr}
use sdparm.Lookup.{select_items, find_row, find_mitem_by_acron}
use sdparm.Field.{mitem_get_value}
use sdparm.ModeSelect.Change.{pdt_ok, to_u64, change_mode_page}
use sdparm.ModeSelect.Change.Written.{IsChange}
use sdparm.ModeSelect.Change.Whole.{verdict}
use sdparm.Settings.{Target, found, settle, round, none_left, search, find_setting}
use sdparm.Settings.Text.{
  split_at, parse_setting, take_val, take_desc, parse_val, parse_desc, same_text,
}
use sdparm.Settings.Build.{Scan, Settings, built, is_acronym, target_of, build_mp_settings}
use sdparm.SetOption.{one_setting, set_mode, IsOneItem, build_mp_settings-change_mode_page}
use sdparm.Examples.Changes.{disk, options, buffer, requests, disk_fetch, page_len}

abbrev wce_row : MpItem
wce_row = item "WCE" caching_mp 0 pdt_disk_zbc 2 2 1 mf_common

abbrev nothing_set : Settings
nothing_set = record {
  mps = record { pg_num = negsuc 0; subpg_num = negsuc 0; it_vals = [] };
  transport = negsuc 0;
}

abbrev caching_target : Target
caching_target = record { pg_num = pos 8; subpg_num = pos 0; transport = negsuc 0 }

wce_resolves :
    find_setting false (codes "WCE") (negsuc 0) (target_of nothing_set)
    ≡ some (found wce_row caching_target)
unfolding find_setting search settle round none_left find_mitem_by_acron find_row select_items
    mitem_arr error_recovery_items strcase_eq same_char to_upper is_lower
wce_resolves = refl

abbrev no_numbers : List ℕ → List ℕ → Scan
no_numbers format text = record {
  num = pos 0;
  first = pos 0;
  second = pos 0;
  third = pos 0;
  text = [];
}

wce_text :
    IsOneItem sample_lib (negsuc 0) nothing_set (codes "WCE=1") (pos 1) wce_row caching_target
unfolding split_at is_acronym is_alpha is_digit is_lower is_upper parse_setting take_val take_desc
    parse_val parse_desc same_text sample_lib
wce_text = record {
  acron = codes "WCE";
  no_comma = refl;
  short = omega arith;
  by_acronym = refl;
  parsed = refl;
  resolved = wce_resolves;
  first = refl;
}

wce_agrees : pdt_ok sample_lib (pos 0) (one_setting caching_target wce_row (pos 1)).it_vals ≡ true
unfolding pdt_ok sample_lib
wce_agrees = refl

wce-IsChange :
    IsChange sample_lib options disk
      (pos 0)
      (one_setting caching_target wce_row (pos 1))
      (buffer 2048)
      12
      8
      (requests false [])
wce-IsChange = record {
  types_agree = wce_agrees;
  fetch = disk_fetch;
  page_inside = omega arith;
  plain = (
    record {
      no_descriptor = refl;
      starts_inside = omega (arith, page_len);
      fits = (omega arith, omega arith, omega arith, omega arith);
    },
    tt,
  );
  behind = (omega arith, tt);
  apart = (tt, tt);
}

build_mp_settings-change_mode_page_example :
    (build_mp_settings sample_lib no_numbers (set_mode (negsuc 0)) (codes "WCE=1") nothing_set
      ≡ built (record { mps = one_setting caching_target wce_row (pos 1); transport = negsuc 0 }))
    × (param : List ℕ) × (change_mode_page sample_lib options disk
          (pos 0)
          (one_setting caching_target wce_row (pos 1))
        ≡ verdict options disk (buffer 2048) 8 (requests false []) param)
    × (mitem_get_value sample_lib wce_row (drop 8 param) ≡ to_u64 (pos 1) % 2 ^ 1)
build_mp_settings-change_mode_page_example =
    build_mp_settings-change_mode_page sample_lib no_numbers sample_laws options disk nothing_set
      (codes "WCE=1") (pos 1) wce_row caching_target (pos 0) (buffer 2048) 12 8 (requests false [])
      wce_text (omega arith) wce-IsChange
