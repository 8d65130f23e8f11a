-- ===== src/Strings.antt =====
-- The case-insensitive comparisons of src/sdparm_access.c. A C string is the list of its
-- characters before the NUL; a read at the end of the list is the NUL, 0.
pub mod Laws
use sdparm.Prelude.{ℕ, zero, suc, Bool, true, false, ◌&&◌, List, [], ◌∷◌, leb, ◌==◌, if◌then◌else◌}
use sdparm.Prelude.Text.{to_upper}

-- One round of either loop: does it go on with these two characters?
unfoldable pub same_char : ℕ → ℕ → Bool
unfolding to_upper
same_char c1 c2 =
    if c1 == c2
    then true
    else if leb b'a' c2
    then c1 == to_upper c2
    else if leb b'a' c1
    then to_upper c1 == c2
    else false

-- sdp_strcase_eq. The loop ends behind the NUL of the first string.
unfoldable pub strcase_eq : List ℕ → List ℕ → Bool
unfolding same_char
strcase_eq [] [] = same_char 0 0
strcase_eq [] (c2 ∷ r2) = same_char 0 c2
strcase_eq (c1 ∷ r1) [] = same_char c1 0
strcase_eq (c1 ∷ r1) (c2 ∷ r2) = same_char c1 c2 && strcase_eq r1 r2

-- sdp_strcase_eq_upto
unfoldable pub strcase_eq_upto : List ℕ → List ℕ → ℕ → Bool
unfolding same_char
strcase_eq_upto s1 s2 zero = true
strcase_eq_upto [] [] (suc n) = same_char 0 0
strcase_eq_upto [] (c2 ∷ r2) (suc n) = same_char 0 c2
strcase_eq_upto (c1 ∷ r1) [] (suc n) = same_char c1 0
strcase_eq_upto (c1 ∷ r1) (c2 ∷ r2) (suc n) = same_char c1 c2 && strcase_eq_upto r1 r2 n
