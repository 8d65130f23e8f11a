-- ===== src/Examples/Options.antt =====
-- Runs of the reading of options.
use sdparm.Prelude.{ℕ, Option, none, some, List, [], ◌∷◌, ◌++◌, map, ◌≡◌, refl, false}
use sdparm.Prelude.Int.{negsuc}
use sdparm.Prelude.Text.{codes}
use sdparm.SgLib.Model.{sample_lib}
use sdparm.Options.PageArg.{Context, parse_page_str}
use sdparm.Options.PageText.{IsOfText, parse_page_str-IsOfText}
use sdparm.Options.Cases.{initial, case_of, short_cases}
use sdparm.Options.Parse.{parse_cmdline}
use sdparm.Options.Merge.{AreShort, alone, parse_cmdline-alone}

abbrev no_options : Context
no_options = record {
  inquiry = false;
  transport = negsuc 0;
  vendor_id = negsuc 0;
  t_com_pdt = negsuc 0;
}

parse_page_str-IsOfText_example :
    IsOfText sample_lib no_options (codes "ca") (parse_page_str sample_lib no_options (codes "ca"))
parse_page_str-IsOfText_example = parse_page_str-IsOfText sample_lib no_options (codes "ca")

long_hex : AreShort (codes "lH")
unfolding case_of short_cases
long_hex = ((_, refl), ((_, refl), tt))

parse_cmdline-alone_example :
    parse_cmdline sample_lib ((b'j', some (codes "lH")) ∷ []) (codes "/dev/sda" ∷ []) initial
    ≡ parse_cmdline sample_lib
        (alone b'j' ∷ (map alone (codes "lH") ++ []))
        (codes "/dev/sda" ∷ [])
        initial
parse_cmdline-alone_example =
    parse_cmdline-alone sample_lib b'l' (codes "H") [] (codes "/dev/sda" ∷ []) initial long_hex refl

abbrev set_words : List (ℕ × Option (List ℕ))
set_words = (b'S', none) ∷ ((b's', some (codes "WCE")) ∷ ((b't', some (codes "sas")) ∷ []))
