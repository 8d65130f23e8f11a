-- ===== src/Examples/Changes.antt =====
-- Changes of a mode page of a small disk.
use sdparm.Prelude.{
  ℕ, ◌-◌, ◌≤◌, Bool, true, false, inl, List, [], ◌∷◌, ◌++◌, ◌≡◌, refl, arith, length, drop,
  replicate,
}
use sdparm.Prelude.Int.{pos, negsuc}
use sdparm.SgLib.Model.{sample_lib, sample_laws}
use sdparm.Tables.Types.{item}
use sdparm.Field.{mpage_len}
use sdparm.ModeSelect.{
  Request, sense10, Device, Options, fetched, ll_mode_sense, mode_data_len, find_page, fetch_page,
}
use sdparm.ModeSelect.Change.{MpItVal, MpSettings, pdt_ok, change_mode_page}
use sdparm.ModeSelect.Change.Commit.{Outcome, IsWritable, change_mode_page-Outcome}
use sdparm.ModeSelect.Change.Written.{IsChange, IsWritten}
use sdparm.ModeSelect.Change.Whole.{verdict, change_mode_page-IsWritten}
use sdparm.ModeSelect.Defaults.{set_def_mode_page, set_mp_defaults}
use sdparm.ModeSelect.Defaults.Outcome.{IsResettable, controls_request, set_mp_defaults-Outcome}
use sdparm.ModeSelect.Defaults.Content.{IsCovered, IsReset, dry_or_sent, set_def_mode_page-IsReset}
use sdparm.ModeSelect.Fetch.{fetch_page-fetched}

-- A header, and a caching page of 4 bytes.
abbrev pub answer : List ℕ
answer = 0 ∷ 10 ∷ 0 ∷ 0x10 ∷ 0 ∷ 0 ∷ 0 ∷ 0 ∷ 0x88 ∷ 2 ∷ 1 ∷ 0 ∷ []

abbrev default_page : List ℕ
default_page = 0x88 ∷ 2 ∷ 4 ∷ 0 ∷ []

abbrev pub disk : Device
disk = record {
  mode_sense = λ log req. record { res = pos 0; data_in = answer; resid = 0 };
  get_controls = λ log req. record {
    res = pos 0;
    smask = 5;
    cur_mp = 0x88 ∷ 2 ∷ 1 ∷ 0 ∷ [];
    def_mp = default_page;
  };
  mode_select = λ log req. pos 0;
}

abbrev pub options : Options
options = record {
  dbd = false;
  dummy = false;
  flexible = false;
  mode_6 = false;
  save = true;
  transport = negsuc 0;
  vendor_id = negsuc 0;
}

abbrev wce : MpItVal
wce = record { mp_it = item "WCE" 8 0 (pos 0) 2 2 1 0; val = pos 1; descriptor_num = 0 }

abbrev rcd : MpItVal
rcd = record { mp_it = item "RCD" 8 0 (pos 0) 2 0 1 0; val = pos 0; descriptor_num = 0 }

abbrev settings : MpSettings
settings = record { pg_num = pos 8; subpg_num = pos 0; it_vals = wce ∷ rcd ∷ [] }

-- The buffer behind the fetch.
abbrev pub buffer : ℕ → List ℕ
buffer limit = answer ++ replicate (limit - 12) 0

abbrev pub requests : Bool → List Request → List Request
requests llbaa log =
    sense10 llbaa false (pos 8) (pos 0) 12 ∷ sense10 llbaa false (pos 8) (pos 0) 4 ∷ log

pub disk_fetch :
    fetch_page sample_lib disk options
      (pos 8)
      (pos 0)
      false
      2048
      (λ md_len. md_len)
      (replicate 2048 0)
      []
    ≡ fetched (buffer 2048) 12 8 (requests false [])
unfolding fetch_page find_page ll_mode_sense mode_data_len sample_lib
disk_fetch = refl

pub page_len : mpage_len sample_lib (drop 8 (buffer 2048)) ≡ 4
unfolding mpage_len sample_lib
page_len = refl

settings_agree : pdt_ok sample_lib (pos 0) settings.it_vals ≡ true
unfolding pdt_ok sample_lib
settings_agree = refl

settings-IsChange :
    IsChange sample_lib options disk (pos 0) settings (buffer 2048) 12 8 (requests false [])
settings-IsChange = record {
  types_agree = settings_agree;
  fetch = disk_fetch;
  page_inside = omega arith;
  plain = (
    record {
      no_descriptor = refl;
      starts_inside = omega (arith, page_len);
      fits = (omega arith, omega arith, omega arith, omega arith);
    },
    (
      record {
        no_descriptor = refl;
        starts_inside = omega (arith, page_len);
        fits = (omega arith, omega arith, omega arith, omega arith);
      },
      tt,
    ),
  );
  behind = (omega arith, (omega arith, tt));
  apart = ((inl (omega arith), tt), (tt, tt));
}

change_mode_page-IsWritten_example :
    (param : List ℕ) × IsWritten sample_lib options (wce ∷ rcd ∷ []) (buffer 2048) 12 8 param
    × (change_mode_page sample_lib options disk (pos 0) settings
        ≡ verdict options disk (buffer 2048) 8 (requests false []) param)
change_mode_page-IsWritten_example =
    change_mode_page-IsWritten sample_lib sample_laws options disk (pos 0) settings (buffer 2048) 12
      8 (requests false []) settings-IsChange

change_mode_page-Outcome_example :
    Outcome disk options
      (IsWritable sample_lib disk options (pos 0) settings)
      (change_mode_page sample_lib options disk (pos 0) settings)
change_mode_page-Outcome_example = change_mode_page-Outcome sample_lib disk options (pos 0) settings

set_mp_defaults-Outcome_example :
    Outcome disk options
      (λ earlier.
        ((disk.get_controls [] (controls_request sample_lib options disk (pos 8) (pos 0))).res
          ≡ pos 0)
        × IsResettable sample_lib options disk
            (pos 8)
            (pos 0)
            (disk.get_controls [] (controls_request sample_lib options disk (pos 8) (pos 0)))
            (controls_request sample_lib options disk (pos 8) (pos 0) ∷ [])
            earlier)
      (set_mp_defaults sample_lib options disk (pos 8) (pos 0))
set_mp_defaults-Outcome_example = set_mp_defaults-Outcome sample_lib options disk (pos 8) (pos 0)

fetch_page-fetched_example : (length (buffer 2048) ≡ 2048) × (12 ≤ 2048) × (8 ≤ 8)
fetch_page-fetched_example =
    fetch_page-fetched sample_lib sample_laws disk options (pos 8) (pos 0) false 2048
      (λ md_len. md_len) (replicate 2048 0) [] (buffer 2048) 12 8 (requests false []) (omega arith)
      refl disk_fetch

disk_fetch_default :
    fetch_page sample_lib disk options (pos 8) (pos 0) true 132 (λ md_len. 132) (replicate 132 0) []
    ≡ fetched (buffer 132) 12 8 (requests true [])
unfolding fetch_page find_page ll_mode_sense mode_data_len sample_lib
disk_fetch_default = refl

defaults-IsCovered :
    IsCovered sample_lib options disk
      (pos 8)
      (pos 0)
      default_page
      4
      []
      (buffer 132)
      12
      8
      (requests true [])
defaults-IsCovered = record {
  fetch = disk_fetch_default;
  page_inside = omega arith;
  covered = omega arith;
  enough = omega arith;
}

set_def_mode_page-IsReset_example :
    (param : List ℕ) × IsReset sample_lib default_page 12 8 param
    × (set_def_mode_page sample_lib options disk (pos 8) (pos 0) default_page 4 []
        ≡ dry_or_sent sample_lib sample_laws options disk param (requests true []))
set_def_mode_page-IsReset_example =
    set_def_mode_page-IsReset sample_lib sample_laws options disk (pos 8) (pos 0) default_page 4 []
      (buffer 132) 12 8 (requests true []) defaults-IsCovered
