-- ===== src/Lookup/Items.antt =====
-- What sdp_find_mitem_by_acron finds, and that a loop of calls makes progress.
use sdparm.Prelude.{
  ℕ, zero, suc, ◌+◌, ◌-◌, ◌≤◌, ◌<◌, Bool, true, false, Option, none, some, List, [], ◌∷◌, ◌≡◌, refl,
  sym, ◌∙◌, ap, inl, inr, arith, Bool-cases, get_elem?, drop,
}
use sdparm.Prelude.Int.{ℤ, pos, pos_part}
use sdparm.Prelude.Text.{codes}
use sdparm.Strings.{strcase_eq}
use sdparm.Tables.Types.{MpItem}
use sdparm.Lookup.{select_items, find_row, find_mitem_by_acron}

-- Does a row have this acronym?
abbrev pub row_has : List ℕ → MpItem → Bool
row_has ap mpi = elim mpi.acron [ none ↦ false | some acron ↦ strcase_eq (codes acron) ap ]

-- Row `i` is the first from `k` on with the acronym.
pub record IsFirstRow (ap : List ℕ) (mpis : List MpItem) (k i : ℕ) (mpi : MpItem) : Type 0 where
  pub at_or_behind : k ≤ i
  pub there : get_elem? mpis i ≡ some mpi
  pub matches : row_has ap mpi ≡ true
  pub first :
      (j : ℕ) (other : MpItem)
      → k ≤ j
      → j < i
      → get_elem? mpis j ≡ some other
      → row_has ap other ≡ false

IsFirstRow-here :
    (ap : List ℕ) (x : MpItem) (xs : List MpItem)
    → row_has ap x ≡ true
    → IsFirstRow ap (x ∷ xs) 0 0 x
IsFirstRow-here ap x xs h = record {
  at_or_behind = omega arith;
  there = refl;
  matches = h;
  first = λ j other lo hi e. absurd (omega arith);
}

earlier :
    (ap : List ℕ) (x mpi : MpItem) (xs : List MpItem) (i j : ℕ) (other : MpItem)
    → row_has ap x ≡ false
    → IsFirstRow ap xs 0 i mpi
    → j < suc i
    → get_elem? (x ∷ xs) j ≡ some other
    → row_has ap other ≡ false
earlier ap x mpi xs i zero other h rest lt e = let same : x ≡ other = cc in rw (← same) h
earlier ap x mpi xs i (suc j) other h rest lt e = rest.first j other (omega arith) (omega arith) e

IsFirstRow-cons :
    (ap : List ℕ) (x mpi : MpItem) (xs : List MpItem) (i : ℕ)
    → row_has ap x ≡ false
    → IsFirstRow ap xs 0 i mpi
    → IsFirstRow ap (x ∷ xs) 0 (suc i) mpi
IsFirstRow-cons ap x mpi xs i h rest = record {
  at_or_behind = omega arith;
  there = rest.there;
  matches = rest.matches;
  first = λ j other lo hi e. earlier ap x mpi xs i j other h rest hi e;
}

find_row_at :
    (ap : List ℕ) (mpis : List MpItem) (k next : ℕ) (mpi : MpItem)
    → find_row ap mpis k ≡ (some mpi, next)
    → (i : ℕ) × (next ≡ suc (k + i)) × IsFirstRow ap mpis 0 i mpi
unfolding find_row
find_row_at ap [] k next mpi h = absurd (ground arith)
find_row_at ap (x ∷ xs) k next mpi h = elim (Bool-cases (row_has ap x)) [
  | inl has ↦
      let same : x ≡ mpi = ground arith in
      (0, ground arith, rw (← same) (IsFirstRow-here ap x xs has))
  | inr has_not ↦
      let (i, e, rest) = find_row_at ap xs (k + 1) next mpi (ground arith) in
      (suc i, omega arith, IsFirstRow-cons ap x mpi xs i has_not rest)
]

get_elem?-drop : (mpis : List MpItem) (k i : ℕ) → get_elem? (drop k mpis) i ≡ get_elem? mpis (k + i)
get_elem?-drop mpis zero i = let e : i ≡ 0 + i = omega arith in ap (λ (t : ℕ). get_elem? mpis t) e
get_elem?-drop [] (suc k) i = refl
get_elem?-drop (x ∷ xs) (suc k) i =
    let e : suc (k + i) ≡ suc k + i = omega arith in
    get_elem?-drop xs k i ∙ ap (λ (t : ℕ). get_elem? (x ∷ xs) t) e

IsFirstRow-drop :
    (ap : List ℕ) (mpis : List MpItem) (k i : ℕ) (mpi : MpItem)
    → IsFirstRow ap (drop k mpis) 0 i mpi
    → IsFirstRow ap mpis k (k + i) mpi
IsFirstRow-drop ap mpis k i mpi r = record {
  at_or_behind = omega arith;
  there = sym (get_elem?-drop mpis k i) ∙ r.there;
  matches = r.matches;
  first = λ j other lo hi e.
      r.first (j - k) other (omega arith) (omega arith)
        (get_elem?-drop mpis k (j - k) ∙ (let whole : k + (j - k) ≡ j = omega arith in rw whole e));
}

found :
    (acr : List ℕ) (from next : ℤ) (mpi : MpItem) (table : Option (List MpItem))
    → ◌≡◌ {A = Option MpItem × ℤ}
        (elim table [
          | none ↦ (none, from)
          | some mpis ↦
              let (row, n) = find_row acr (drop (pos_part from) mpis) (pos_part from) in
              (row, pos n)
        ])
        (some mpi, next)
    → (mpis : List MpItem) × (i : ℕ) × (table ≡ some mpis)
      × (next ≡ pos (suc i))
      × (pos_part from < suc i)
      × IsFirstRow acr mpis (pos_part from) i mpi
found acr from next mpi none h = absurd (ground arith)
found acr from next mpi (some mpis) h =
    let k = pos_part from in
    let p = find_row acr (drop k mpis) k in
    let (i, e, r) = find_row_at acr (drop k mpis) k p.1 mpi (λ d. ((h d).0, p.1)) in
    (
      mpis,
      k + i,
      refl,
      (λ d. (sym h d).1) ∙ ap pos e,
      omega arith,
      IsFirstRow-drop acr mpis k i mpi r,
    )

-- When `sdp_find_mitem_by_acron` returns a row, it is the first row of the selected table, from
-- where the search starts on, that has the acronym up to case; and the number that it stores is
-- that of the next row, which lies behind the start, so that a loop of such calls ends.
pub find_mitem_by_acron_lem :
    (ap : List ℕ) (from next transp_proto vendor_id : ℤ) (mpi : MpItem)
    → find_mitem_by_acron ap from transp_proto vendor_id ≡ (some mpi, next)
    → (mpis : List MpItem) × (i : ℕ) × (select_items transp_proto vendor_id ≡ some mpis)
      × (next ≡ pos (suc i))
      × (pos_part from < suc i)
      × IsFirstRow ap mpis (pos_part from) i mpi
unfolding find_mitem_by_acron
find_mitem_by_acron_lem ap from next transp_proto vendor_id mpi h =
    found ap from next mpi (select_items transp_proto vendor_id) h
