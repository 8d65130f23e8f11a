-- ===== src/Vpd/Walk.antt =====
-- The loop that the decoders of src/sdparm_vpd.c share.
use sdparm.Vpd.{Ending, ended, out_of_fuel, Round, row, last, Decoded, each, after, decode}
use sdparm.Prelude.{
  ℕ, zero, suc, ◌≤◌, false, List, [], ◌∷◌, ◌++◌, map, ◌≡◌, refl, sym, ltb, ap, ◌∙◌, arith, length,
  take, drop, All, length-drop, length-append,
}

-- A round makes a step forward, or the loop ends with one of the endings that `E` allows.
abbrev pub Fine {ℓ} : {A : Type 0} → (Ending → Type ℓ) → Round A → Type ℓ
Fine E (row a bump) = (1 ≤ bump) × E ended
Fine E (last rows e) = E e

abbrev pub IsEnding : Ending → Type 0
IsEnding out_of_fuel = ⊥
IsEnding e = Unit {0}

abbrev next_round : {A : Type 0} → (List ℕ → Round A) → List ℕ → ℕ → ℕ → Decoded A
next_round f bp fuel bump = each f (drop bump bp) fuel

module _ {ℓ} {A : Type 0} (E : Ending → Type ℓ) (f : List ℕ → Round A) where
  after-Fine :
      (r : Round A) (rest : ℕ → Decoded A)
      → Fine E r
      → ((bump : ℕ) → 1 ≤ bump → E (rest bump).1)
      → E (after r rest).1
  after-Fine (last rows e) rest h k = h
  after-Fine (row a bump) rest h k = k bump h.0

  -- If every round is fine then so is the end of the loop.
  pub each-Fine :
      E ended
      → ((b : ℕ) (bp : List ℕ) → Fine E (f (b ∷ bp)))
      → (bp : List ℕ) (fuel : ℕ) → length bp ≤ fuel
      → E (each f bp fuel).1
  unfolding each
  each-Fine e h [] fuel le = e
  each-Fine e h (b ∷ bp) zero le = absurd (omega arith)
  each-Fine e h (b ∷ bp) (suc fuel) le =
      after-Fine (f (b ∷ bp)) (next_round f (b ∷ bp) fuel) (h b bp) (λ bump pos.
        each-Fine e h (drop bump (b ∷ bp)) fuel (omega (arith, length-drop bump (b ∷ bp))))

pub drop-append : {A : Type 0} (xs ys : List A) → drop (length xs) (xs ++ ys) ≡ ys
drop-append [] ys = refl
drop-append (x ∷ xs) ys = drop-append xs ys

pub take-append : {A : Type 0} (xs ys : List A) → take (length xs) (xs ++ ys) ≡ xs
take-append [] ys = refl
take-append (x ∷ xs) ys = ap (λ t. x ∷ t) (take-append xs ys)

-- The bytes of some descriptors, one behind the other.
unfoldable pub bytes_of : {D : Type 0} → (D → List ℕ) → List D → List ℕ
bytes_of enc [] = []
bytes_of enc (d ∷ ds) = enc d ++ bytes_of enc ds

module _ {A : Type 0} (f : List ℕ → Round A) where
  each-row :
      (bp : List ℕ) (fuel : ℕ) (a : A) (bump : ℕ)
      → 1 ≤ length bp
      → length bp ≤ fuel
      → f bp ≡ row a bump
      → (rest : ℕ) × (fuel ≡ suc rest)
        × (each f bp fuel ≡ after (row a bump) (next_round f bp rest))
  unfolding each
  each-row [] fuel a bump long le h = absurd (omega arith)
  each-row (b ∷ bp) zero a bump long le h = absurd (omega arith)
  each-row (b ∷ bp) (suc fuel) a bump long le h =
      (fuel, refl, ap (λ r. after r (next_round f (b ∷ bp) fuel)) h)

module _ {D A : Type 0} (enc : D → List ℕ) (view : D → A) (f : List ℕ → Round A) where
  -- A loop that reads one encoded descriptor in a round reads all of them.
  pub each-bytes_of :
      (V : D → Type 0)
      → ((d : D) → 1 ≤ length (enc d))
      → ((d : D) (rest : List ℕ) → V d → f (enc d ++ rest) ≡ row (view d) (length (enc d)))
      → (ds : List D) (fuel : ℕ) → All V ds
      → length (bytes_of enc ds) ≤ fuel
      → each f (bytes_of enc ds) fuel ≡ (map view ds, ended)
  unfolding each bytes_of
  each-bytes_of V long h [] fuel v le = refl
  each-bytes_of V long h (d ∷ ds) fuel v le =
      let bp = enc d ++ bytes_of enc ds in
      let total = length-append (enc d) (bytes_of enc ds) in
      let r =
        each-row f bp fuel (view d) (length (enc d)) (omega (arith, total, long d)) le
          (h d (bytes_of enc ds) v.0) in
      let tail : next_round f bp r.0 (length (enc d)) ≡ (map view ds, ended) =
        ap (λ t. each f t r.0) (drop-append (enc d) (bytes_of enc ds))
        ∙ each-bytes_of V long h ds r.0 v.1 (omega (arith, total, long d, r.1)) in
      r.2 ∙ ap (λ t. (view d ∷ t.0, t.1)) tail

  -- The same for a whole page.
  pub decode-bytes_of :
      (V : D → Type 0)
      → ((d : D) → 1 ≤ length (enc d))
      → ((d : D) (rest : List ℕ) → V d → f (enc d ++ rest) ≡ row (view d) (length (enc d)))
      → (page_header : List ℕ) (ds : List D) → length page_header ≡ 4
      → All V ds
      → decode 4 4 f (page_header ++ bytes_of enc ds) ≡ (map view ds, ended)
  decode-bytes_of V long h page_header ds four v =
      let body = bytes_of enc ds in
      let l : ltb (length (page_header ++ body)) 4 ≡ false =
        ground (arith, length-append page_header body, four) in
      let e : drop 4 (page_header ++ body) ≡ body =
        ap (λ n. drop n (page_header ++ body)) (sym four) ∙ drop-append page_header body in
      rw (l, e) (each-bytes_of V long h ds (length body) v (omega arith))
