-- ===== src/Strings/Laws.antt =====
-- What the comparisons decide.
use sdparm.Prelude.{ℕ, ◌<◌, true, List, [], ◌∷◌, map, ◌≡◌, refl, ◌↔◌, arith, &&-eq_true, All}
use sdparm.Prelude.Text.{to_upper}
use sdparm.Strings.{same_char, strcase_eq}

-- No NUL inside.
abbrev pub IsText : List ℕ → Type 0
IsText s = All (λ c. 0 < c) s

pub same_char_iff : (a b : ℕ) → (same_char a b ≡ true) ↔ (to_upper a ≡ to_upper b)
unfolding same_char
same_char_iff a b = ground arith

cons_path : {a b : ℕ} {r s : List ℕ} → a ≡ b → r ≡ s → (a ∷ r) ≡ (b ∷ s)
cons_path p q = λ i. p i ∷ q i

eq→upper :
    (s t : List ℕ) → IsText s → IsText t → strcase_eq s t ≡ true → map to_upper s ≡ map to_upper t
unfolding strcase_eq
eq→upper [] [] hs ht e = refl
eq→upper [] (b ∷ t) hs ht e = absurd (ground arith)
eq→upper (a ∷ s) [] hs ht e = absurd (ground arith)
eq→upper (a ∷ s) (b ∷ t) hs ht e =
    let (same, rest) = &&-eq_true (same_char a b) (strcase_eq s t) e in
    cons_path ((same_char_iff a b).0 same) (eq→upper s t hs.1 ht.1 rest)

upper→eq : (s t : List ℕ) → map to_upper s ≡ map to_upper t → strcase_eq s t ≡ true
unfolding strcase_eq
upper→eq [] [] e = refl
upper→eq [] (b ∷ t) e = cc
upper→eq (a ∷ s) [] e = cc
upper→eq (a ∷ s) (b ∷ t) e = ground (arith, same_char_iff a b, upper→eq s t)

-- `sdp_strcase_eq` accepts two strings without an inner NUL exactly when they have the same
-- characters once each is put in upper case.
pub strcase_eq_iff :
    (s t : List ℕ)
    → IsText s
    → IsText t
    → (strcase_eq s t ≡ true) ↔ (map to_upper s ≡ map to_upper t)
strcase_eq_iff s t hs ht = (eq→upper s t hs ht, upper→eq s t)
