-- ===== src/Options/Merge.antt =====
-- Letters that stand behind -j, as in -jxv, against the same letters as options of their own.
use sdparm.Prelude.{
  ℕ, true, false, Option, none, some, List, [], ◌∷◌, ◌++◌, map, ◌≡◌, refl, sym, ap, ◌∙◌, All, ◌==◌,
  ==_iff, Bool-cases, inl, inr,
}
use mathlib.Core.Option.{none-ne-some, some-injective}
use sdparm.SgLib.{SgLib}
use sdparm.Options.Cases.{OptColl, Switch, case_of, flag_cases, short_cases}
use sdparm.Options.Parse.{
  next, then_step, chk_short_opts, short_opts, json_option, parse_option, parse_options,
  parse_cmdline, take_devices,
}

-- What holds behind a -j without an argument.
abbrev IsJson : OptColl → Type 0
IsJson op = (op.do_json ≡ true) × (op.json_arg ≡ none)

json_again : (op : OptColl) → IsJson op → record op { do_json = true; json_arg = none } ≡ op
json_again op h =
    ap (λ b. record op { do_json = b; json_arg = none }) (sym h.0)
    ∙ ap (λ a. record op { do_json = op.do_json; json_arg = a }) (sym h.1)

-- A case of the one switch does the same as the other switch with this letter.
abbrev IsShared : SgLib → ℕ × (OptColl → OptColl) → Type 0
IsShared sg k =
    ((op : OptColl) → IsJson op → parse_option sg (k.0, none) op ≡ next (k.1 op))
    × ((op : OptColl) → IsJson op → IsJson (k.1 op))

same_case :
    (sg : SgLib) (c : ℕ) (f : OptColl → OptColl)
    → ((op : OptColl) → parse_option sg (c, none) op ≡ next (f op))
    → ((op : OptColl) → ((f op).do_json ≡ op.do_json) × ((f op).json_arg ≡ op.json_arg))
    → IsShared sg (c, f)
same_case sg c f e k = (λ op h. e op, λ op h. ((k op).0 ∙ h.0, (k op).1 ∙ h.1))

short_cases-IsShared : (sg : SgLib) → All (IsShared sg) short_cases
unfolding short_cases parse_option case_of flag_cases json_option
short_cases-IsShared sg = (
  same_case sg b'6' _ (λ op. refl) (λ op. (refl, refl)),
  (
    same_case sg b'a' _ (λ op. refl) (λ op. (refl, refl)),
    (
      same_case sg b'B' _ (λ op. refl) (λ op. (refl, refl)),
      (
        same_case sg b'd' _ (λ op. refl) (λ op. (refl, refl)),
        (
          same_case sg b'D' _ (λ op. refl) (λ op. (refl, refl)),
          (
            same_case sg b'e' _ (λ op. refl) (λ op. (refl, refl)),
            (
              same_case sg b'E' _ (λ op. refl) (λ op. (refl, refl)),
              (
                same_case sg b'f' _ (λ op. refl) (λ op. (refl, refl)),
                (
                  same_case sg b'F' _ (λ op. refl) (λ op. (refl, refl)),
                  (
                    same_case sg b'h' _ (λ op. refl) (λ op. (refl, refl)),
                    (
                      same_case sg b'H' _ (λ op. refl) (λ op. (refl, refl)),
                      (
                        same_case sg b'i' _ (λ op. refl) (λ op. (refl, refl)),
                        (
                          (λ op h. ap next (json_again op h), λ op h. h),
                          (
                            same_case sg b'l' _ (λ op. refl) (λ op. (refl, refl)),
                            (
                              same_case sg b'm' _ (λ op. refl) (λ op. (refl, refl)),
                              (
                                same_case sg b'n' _ (λ op. refl) (λ op. (refl, refl)),
                                (
                                  same_case sg b'q' _ (λ op. refl) (λ op. (refl, refl)),
                                  (
                                    same_case sg b'r' _ (λ op. refl) (λ op. (refl, refl)),
                                    (
                                      same_case sg b'R' _ (λ op. refl) (λ op. (refl, refl)),
                                      (
                                        same_case sg b'S' _ (λ op. refl) (λ op. (refl, refl)),
                                        (
                                          same_case sg b'v' _ (λ op. refl) (λ op. (refl, refl)),
                                          (
                                            same_case sg b'V' _ (λ op. refl) (λ op. (refl, refl)),
                                            (
                                              same_case sg b'x' _ (λ op. refl) (λ op. (refl, refl)),
                                              tt,
                                            ),
                                          ),
                                        ),
                                      ),
                                    ),
                                  ),
                                ),
                              ),
                            ),
                          ),
                        ),
                      ),
                    ),
                  ),
                ),
              ),
            ),
          ),
        ),
      ),
    ),
  ),
)

case_of-same :
    (k : ℕ × (OptColl → OptColl)) (ks : Switch) (c : ℕ)
    → (c == k.0) ≡ true
    → case_of c (k ∷ ks) ≡ some k.1
unfolding case_of
case_of-same k ks c h = rw h refl

case_of-other :
    (k : ℕ × (OptColl → OptColl)) (ks : Switch) (c : ℕ)
    → (c == k.0) ≡ false
    → case_of c (k ∷ ks) ≡ case_of c ks
unfolding case_of
case_of-other k ks c h = rw h refl

pub All-case_of :
    (P : ℕ × (OptColl → OptColl) → Type 0) (ks : Switch) (c : ℕ) (f : OptColl → OptColl)
    → All P ks
    → case_of c ks ≡ some f
    → P (c, f)
unfolding case_of
All-case_of P [] c f h e = absurd (none-ne-some f e)
All-case_of P (k ∷ ks) c f h e = elim (Bool-cases (c == k.0)) [
  | inl same ↦
      let it : k.1 ≡ f = some-injective k.1 f (sym (case_of-same k ks c same) ∙ e) in
      rw ((==_iff c k.0).0 same, ← it) h.0
  | inr other ↦ All-case_of P ks c f h.1 (sym (case_of-other k ks c other) ∙ e)
]

-- The letters that chk_short_opts knows, but for '?'.
abbrev pub AreShort : List ℕ → Type 0
AreShort = All (λ c. (f : OptColl → OptColl) × (case_of c short_cases ≡ some f))

abbrev pub alone : ℕ → ℕ × Option (List ℕ)
alone c = (c, none)

module _ (sg : SgLib) where
  short_opts-alone :
      (s : List ℕ) (os : List (ℕ × Option (List ℕ))) (op : OptColl)
      → AreShort s
      → IsJson op
      → then_step (short_opts s op) (parse_options sg os) ≡ parse_options sg (map alone s ++ os) op
  unfolding short_opts parse_options
  short_opts-alone [] os op h j = refl
  short_opts-alone (c ∷ s) os op h j =
      let f = h.0.0 in
      let shared = All-case_of (IsShared sg) short_cases c f (short_cases-IsShared sg) h.0.1 in
      let here : chk_short_opts c op ≡ next (f op) = unfold chk_short_opts in rw (h.0.1) refl in
      rw (here, shared.0 op j) (short_opts-alone s os (f op) h.1 (shared.1 op j))

  not_equals :
      (c : ℕ) (f : OptColl → OptColl) → case_of c short_cases ≡ some f → (c == b'=') ≡ false
  unfolding case_of short_cases
  not_equals c f e = elim (Bool-cases (c == b'=')) [
    | inl same ↦
        let there : case_of b'=' short_cases ≡ some f =
          ap (λ (d : ℕ). case_of d short_cases) (sym ((==_iff c b'=').0 same)) ∙ e in
        absurd (none-ne-some f there)
    | inr other ↦ other
  ]

  json_option-short :
      (c : ℕ) (s : List ℕ) (op : OptColl)
      → (c == b'=') ≡ false
      → op.json_arg ≡ none
      → parse_option sg (b'j', some (c ∷ s)) op
        ≡ short_opts (c ∷ s) (record op { do_json = true; json_arg = none })
  unfolding parse_option json_option case_of flag_cases
  json_option-short c s op other j =
      rw other (ap (λ a. short_opts (c ∷ s) (record op { do_json = true; json_arg = a })) j)

  json_alone :
      (op : OptColl)
      → parse_option sg (alone b'j') op ≡ next (record op { do_json = true; json_arg = none })
  unfolding parse_option json_option case_of flag_cases
  json_alone op = refl

  -- Letters in one word behind -j mean the same as -j and then each letter as an option of its
  -- own, whatever other options and words follow, and whatever stands in front but an argument of
  -- --json: the letters are those of options without an argument, j among them, but not '?'.
  pub parse_cmdline-alone :
      (c : ℕ) (s : List ℕ) (os : List (ℕ × Option (List ℕ))) (words : List (List ℕ)) (op : OptColl)
      → AreShort (c ∷ s)
      → op.json_arg ≡ none
      → parse_cmdline sg ((b'j', some (c ∷ s)) ∷ os) words op
        ≡ parse_cmdline sg (alone b'j' ∷ (map alone (c ∷ s) ++ os)) words op
  unfolding parse_cmdline parse_options
  parse_cmdline-alone c s os words op h j =
      let json = record op { do_json = true; json_arg = none } in
      let left = json_option-short c s op (not_equals c h.0.0 h.0.1) j in
      ap (λ r. then_step r (take_devices words))
        (ap (λ r. then_step r (parse_options sg os)) left
          ∙ short_opts-alone (c ∷ s) os json h (refl, refl)
          ∙ ap (λ r. then_step r (parse_options sg (map alone (c ∷ s) ++ os)))
              (sym (json_alone op)))
