-- ===== src/Examples/Texts.antt =====
-- Strings and names.
use sdparm.Prelude.{true, map, ◌≡◌, ◌↔◌, arith}
use sdparm.Prelude.Text.{codes, to_upper}
use sdparm.Strings.{strcase_eq}
use sdparm.Strings.Laws.{IsText, strcase_eq_iff}

wce-IsText : IsText (codes "WCE")
wce-IsText = (omega arith, (omega arith, (omega arith, tt)))

wce_lower-IsText : IsText (codes "wce")
wce_lower-IsText = (omega arith, (omega arith, (omega arith, tt)))

strcase_eq_iff_example :
    (strcase_eq (codes "WCE") (codes "wce") ≡ true)
    ↔ (map to_upper (codes "WCE") ≡ map to_upper (codes "wce"))
strcase_eq_iff_example = strcase_eq_iff (codes "WCE") (codes "wce") wce-IsText wce_lower-IsText
