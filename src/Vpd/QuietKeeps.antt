-- ===== src/Vpd/QuietKeeps.antt =====
-- What a round of decode_dev_ids_quiet of src/sdparm_vpd.c prints and holds back.
use sdparm.Vpd.Quiet.{
  Line, hex, hex_port, name_string, uuid, Held, at, until_nul, code_set, desig_type, assoc, naa,
  is_sas, QuietStep, silent, said, flush, sas_port, relative_port, show_naa, show_designator,
}
use sdparm.Prelude.{
  ℕ, suc, ◌+◌, ◌%◌, Bool, true, false, List, [], ◌∷◌, ◌++◌, take, drop, ltb, ◌==◌, ◌||◌, not,
  if◌then◌else◌, ◌≡◌, refl, arith, inl, inr, Bool-cases, map,
}
use sdparm.SgLib.{SgLib}

-- The identifier in a line.
abbrev pub ident : Line → List ℕ
ident (hex s) = s
ident (hex_port s rtp) = s
ident (name_string s) = s
ident (uuid s) = s

-- The address of an NAA designator: binary, of 8 bytes, or of 16 for NAA 6.
abbrev naa_wanted : List ℕ → List (List ℕ)
naa_wanted d =
    if not (code_set d == 1)
    then []
    else if (naa d == 2) || (naa d == 3)
    then (if at d 3 == 8 then take 8 (drop 4 d) ∷ [] else [])
    else if naa d == 5
    then (if not (at d 3 == 8) then [] else take 8 (drop 4 d) ∷ [])
    else if naa d == 6
    then (if at d 3 == 16 then take 16 (drop 4 d) ∷ [] else [])
    else []

-- The identifiers that a descriptor has to show: an EUI-64, an NAA, a SCSI name or a UUID.
abbrev pub wanted : List ℕ → List (List ℕ)
wanted d =
    if desig_type d == 2
    then take (at d 3) (drop 4 d) ∷ []
    else if desig_type d == 3
    then naa_wanted d
    else if desig_type d == 4
    then []
    else if desig_type d == 8
    then (if ltb (code_set d) 2 then [] else until_nul (take (at d 3) (drop 4 d)) ∷ [])
    else if desig_type d == 10
    then (if not (code_set d == 1) || not (at d 3 == 18) || not (naa d % 16 == 1)
        then []
        else take 16 (drop 6 d) ∷ [])
    else []

address_first : (d : List ℕ) → (naa d == 5) ≡ true → (at (take 8 (drop 4 d)) 0 == 0) ≡ false
address_first (a ∷ (b ∷ (c ∷ (n ∷ (x ∷ d))))) h = ground (arith, h)
address_first (a ∷ (b ∷ (c ∷ (n ∷ [])))) h = absurd (ground (arith, h))
address_first (a ∷ (b ∷ (c ∷ []))) h = absurd (ground (arith, h))
address_first (a ∷ (b ∷ [])) h = absurd (ground (arith, h))
address_first (a ∷ []) h = absurd (ground (arith, h))
address_first [] h = absurd (ground (arith, h))

module _ (p : List ℕ → Bool) where
  -- How many of the identifiers pass a test.
  unfoldable pub count : List (List ℕ) → ℕ
  count [] = 0
  count (s ∷ ss) = let rest = count ss in if p s then suc rest else rest

  pub count-append : (ss ts : List (List ℕ)) → count (ss ++ ts) ≡ count ss + count ts
  unfolding count
  count-append [] ts = omega arith
  count-append (s ∷ ss) ts = ground (arith, count-append ss ts)

  abbrev pub printed : List Line → ℕ
  printed ls = count (map ident ls)

  pub printed-append : (ks ls : List Line) → printed (ks ++ ls) ≡ printed ks + printed ls
  unfolding count
  printed-append [] ls = omega arith
  printed-append (k ∷ ks) ls = ground (arith, printed-append ks ls)

  -- A step prints what is wanted, or holds it back, and prints what was held, or goes on to hold it.
  abbrev Keeps : Held → List (List ℕ) → QuietStep → Type 0
  Keeps st w r = printed r.1 + printed (flush r.0) ≡ printed (flush st) + count w

  silent-Keeps : (st : Held) → Keeps st [] (silent st)
  unfolding count
  silent-Keeps st = omega arith

  said-Keeps : (st : Held) (l : Line) → Keeps st (ident l ∷ []) (said st l)
  unfolding count
  said-Keeps st l = omega arith

  if-Keeps :
      (b : Bool) (st : Held) (w w' : List (List ℕ)) (r r' : QuietStep)
      → (b ≡ true → Keeps st w r)
      → (b ≡ false → Keeps st w' r')
      → Keeps st (if b then w else w') (if b then r else r')
  if-Keeps true st w w' r r' h h' = h refl
  if-Keeps false st w w' r r' h h' = h' refl

  held_back :
      (rtp : ℕ) (s : List ℕ)
      → (at s 0 == 0) ≡ false
      → printed (flush (record { rtp = rtp; sas_tport_addr = s })) ≡ count (s ∷ [])
  unfolding count
  held_back rtp s h = rw h refl

  sas_port-Keeps :
      (st : Held) (d : List ℕ)
      → (naa d == 5) ≡ true
      → Keeps st (take 8 (drop 4 d) ∷ []) (sas_port st d)
  unfolding sas_port
  sas_port-Keeps st d h = elim (Bool-cases (st.rtp == 0)) [
    | inl free ↦ rw (free, held_back st.rtp (take 8 (drop 4 d)) (address_first d h)) refl
    | inr numbered ↦ rw numbered (numbered_keeps (printed (flush st)) (take 8 (drop 4 d)))
  ]
    where
      numbered_keeps : (n : ℕ) (s : List ℕ) → count (s ∷ []) + n ≡ n + count (s ∷ [])
      numbered_keeps n s = omega arith

  relative_port-Keeps : (sg : SgLib) (st : Held) (d : List ℕ) → Keeps st [] (relative_port sg st d)
  unfolding relative_port count
  relative_port-Keeps sg st d = ground arith

  either-Keeps :
      (b : Bool) (st : Held) (w : List (List ℕ)) (r r' : QuietStep)
      → Keeps st w r
      → Keeps st w r'
      → Keeps st w (if b then r else r')
  either-Keeps true st w r r' h h' = h
  either-Keeps false st w r r' h h' = h'

  show_naa-Keeps : (st : Held) (d : List ℕ) → Keeps st (naa_wanted d) (show_naa st d)
  unfolding show_naa
  show_naa-Keeps st d =
      let quiet = silent-Keeps st in
      let say8 = said-Keeps st (hex (take 8 (drop 4 d))) in
      let say16 = said-Keeps st (hex (take 16 (drop 4 d))) in
      if-Keeps (not (code_set d == 1)) st _ _ _ _ (λ e. quiet)
        (λ e.
          if-Keeps ((naa d == 2) || (naa d == 3)) st _ _ _ _
            (λ e. if-Keeps (at d 3 == 8) st _ _ _ _ (λ e. say8) (λ e. quiet))
            (λ e.
              if-Keeps (naa d == 5) st _ _ _ _
                (λ five.
                  if-Keeps (not (at d 3 == 8)) st _ _ _ _ (λ e. quiet)
                    (λ e.
                      either-Keeps (not (is_sas d) || not (assoc d == 1)) st _ _ _ say8
                        (sas_port-Keeps st d five)))
                (λ e.
                  if-Keeps (naa d == 6) st _ _ _ _
                    (λ e. if-Keeps (at d 3 == 16) st _ _ _ _ (λ e. say16) (λ e. quiet))
                    (λ e. quiet))))

  pub show_designator-Keeps :
      (sg : SgLib) (st : Held) (d : List ℕ) → Keeps st (wanted d) (show_designator sg st d)
  unfolding show_designator
  show_designator-Keeps sg st d =
      let quiet = silent-Keeps st in
      if-Keeps (desig_type d == 2) st _ _ _ _ (λ e. said-Keeps st (hex (take (at d 3) (drop 4 d))))
        (λ e.
          if-Keeps (desig_type d == 3) st _ _ _ _ (λ e. show_naa-Keeps st d)
            (λ e.
              if-Keeps (desig_type d == 4) st _ _ _ _
                (λ e.
                  either-Keeps
                    (not (is_sas d)
                      || not (code_set d == 1)
                      || not (assoc d == 1)
                      || not (at d 3 == 4))
                    st _ (silent st) (relative_port sg st d) quiet (relative_port-Keeps sg st d))
                (λ e.
                  if-Keeps (desig_type d == 8) st _ _ _ _
                    (λ e.
                      if-Keeps (ltb (code_set d) 2) st _ _ _ _ (λ e. quiet)
                        (λ e. said-Keeps st (name_string (until_nul (take (at d 3) (drop 4 d))))))
                    (λ e.
                      if-Keeps (desig_type d == 10) st _ _ _ _
                        (λ e.
                          if-Keeps
                            (not (code_set d == 1) || not (at d 3 == 18) || not (naa d % 16 == 1))
                            st _ _ _ _ (λ e. quiet)
                            (λ e. said-Keeps st (uuid (take 16 (drop 6 d)))))
                        (λ e. quiet)))))
