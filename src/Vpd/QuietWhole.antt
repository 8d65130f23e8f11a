-- ===== src/Vpd/QuietWhole.antt =====
-- The walk of decode_dev_ids_quiet of src/sdparm_vpd.c beside the one of decode_dev_ids.
use sdparm.Vpd.{ended, short_descriptor, Round, row, last, Decoded, byte, checked, after, ◌>>=◌}
use sdparm.Vpd.Designators.{Designator, designator_at, dev_id_round, dev_id_loop, decode_dev_ids}
use sdparm.Vpd.Quiet.{
  Line, Held, nothing_held, flush, show_designator, quiet_at, quiet_round, quiet_loop,
  decode_dev_ids_quiet,
}
use sdparm.Prelude.{
  ℕ, zero, suc, ◌+◌, Bool, true, false, Option, some, none, List, [], ◌∷◌, ◌++◌, length, drop, ltb,
  if◌then◌else◌, ◌≡◌, ◌≢◌, refl, arith, inl, inr, Bool-cases,
}
use sdparm.Prelude.Int.{ℤ, pos, negsuc, ◌==ℤ◌}
use sdparm.SgLib.{SgLib}
use sdparm.Vpd.QuietKeeps.{
  wanted, count, count-append, printed, printed-append, show_designator-Keeps,
}

abbrev pub all_wanted : List Designator → List (List ℕ)
all_wanted [] = []
all_wanted (d ∷ ds) = wanted d.descriptor ++ all_wanted ds

-- A round that does not go on is an error.
abbrev GoesOn : Round Designator → Type 0
GoesOn (row d off) = Unit
GoesOn (last rows e) = e ≢ ended

>>=-GoesOn :
    (o : Option ℕ) (f : ℕ → Option (Round Designator))
    → ((a : ℕ) → GoesOn (checked (f a)))
    → GoesOn (checked (o >>= f))
>>=-GoesOn none f h = λ e. cc
>>=-GoesOn (some a) f h = h a

either_GoesOn :
    (b : Bool) (x y : Option (Round Designator))
    → GoesOn (checked x)
    → GoesOn (checked y)
    → GoesOn (checked (if b then x else y))
either_GoesOn true x y hx hy = hx
either_GoesOn false x y hx hy = hy

designator_at-GoesOn : (buff : List ℕ) (off : ℤ) → GoesOn (designator_at buff off)
unfolding designator_at
designator_at-GoesOn buff (negsuc n) = λ e. cc
designator_at-GoesOn buff (pos off) = >>=-GoesOn (byte (drop off buff) 3) _ (λ i_len.
    either_GoesOn (ltb (length buff) (off + i_len + 4)) (some (last [] short_descriptor)) _
      (λ e. cc) (>>=-GoesOn (byte (drop off buff) 1) _ (λ b1. tt)))

module _ (p : List ℕ → Bool) (sg : SgLib) where
  abbrev IsSame : Held → Decoded Line → Decoded Designator → Type 0
  IsSame st q found =
      found.1 ≡ ended
      → (printed p q.0 ≡ printed p (flush st) + count p (all_wanted found.0)) × (q.1 ≡ ended)

  quiet_at-IsSame :
      (st : Held) (r : Round Designator) (next : ℕ → Held → Decoded Line)
      (rest : ℕ → Decoded Designator)
      → GoesOn r
      → ((off : ℕ) (st' : Held) → IsSame st' (next off st') (rest off))
      → IsSame st (quiet_at sg st r next) (after r rest)
  quiet_at-IsSame st (last rows e) next rest g h = λ same. absurd (g same)
  quiet_at-IsSame st (row d off) next rest g h = λ same.
      let shown = show_designator sg st d.descriptor in
      let later = h off shown.0 same in
      let keeps = show_designator-Keeps p sg st d.descriptor in
      let split = printed-append p shown.1 (next off shown.0).0 in
      let all = count-append p (wanted d.descriptor) (all_wanted (rest off).0) in
      let told = later.0 in (omega arith, later.1)

  quiet_round-IsSame :
      (buff : List ℕ) (st : Held) (u : ℤ × ℤ) (next : ℕ → Held → Decoded Line)
      (rest : ℕ → Decoded Designator)
      → ((off : ℕ) (st' : Held) → IsSame st' (next off st') (rest off))
      → IsSame st (quiet_round sg buff st u next) (after (dev_id_round buff u) rest)
  unfolding quiet_round dev_id_round count
  quiet_round-IsSame buff st u next rest h = elim (Bool-cases (u.0 ==ℤ pos 0)) [
    | inl more ↦
        rw more
          (quiet_at-IsSame st (designator_at buff u.1) next rest (designator_at-GoesOn buff u.1) h)
    | inr stop ↦ rw stop (stop_end (u.0 ==ℤ negsuc 1))
  ]
    where
      stop_end :
          (b : Bool)
          → IsSame st
              (flush st, if b then short_descriptor else ended)
              (after (last [] (if b then short_descriptor else ended)) rest)
      stop_end true = λ e. absurd cc
      stop_end false = λ e. (omega arith, refl)

  module _ (m_assoc m_desig_type m_code_set : ℤ) where
    quiet_loop-IsSame :
        (buff : List ℕ) (fuel : ℕ) (off : ℤ) (st : Held)
        → IsSame st
            (quiet_loop sg m_assoc m_desig_type m_code_set buff fuel off st)
            (dev_id_loop sg m_assoc m_desig_type m_code_set buff fuel off)
    unfolding quiet_loop dev_id_loop
    quiet_loop-IsSame buff zero off st = λ e. absurd cc
    quiet_loop-IsSame buff (suc fuel) off st =
        quiet_round-IsSame buff st (sg.vpd_dev_id_iter buff off m_assoc m_desig_type m_code_set)
          (λ next st'. quiet_loop sg m_assoc m_desig_type m_code_set buff fuel (pos next) st')
          (λ next. dev_id_loop sg m_assoc m_desig_type m_code_set buff fuel (pos next))
          (λ next st'. quiet_loop-IsSame buff fuel (pos next) st')

    -- With --quiet, where the walk without it comes to the end of the descriptors, so does this one,
    -- and each identifier is printed exactly as often as the listed designators have it to show: an
    -- address of a SAS target port is neither lost nor printed twice, wherever its port number
    -- stands. (`p` tests for an identifier; byte 2 is zero, as the walk without --quiet asks for.)
    pub decode_dev_ids_quiet-count :
        (buff : List ℕ)
        → byte buff 2 ≡ some 0
        → (decode_dev_ids sg m_assoc m_desig_type m_code_set buff).1 ≡ ended
        → (printed p (decode_dev_ids_quiet sg m_assoc m_desig_type m_code_set buff).0
            ≡ count p (all_wanted (decode_dev_ids sg m_assoc m_desig_type m_code_set buff).0))
          × ((decode_dev_ids_quiet sg m_assoc m_desig_type m_code_set buff).1 ≡ ended)
    unfolding decode_dev_ids decode_dev_ids_quiet count
    decode_dev_ids_quiet-count buff z = rw z (λ e.
        let same = quiet_loop-IsSame buff (length buff + 1) (negsuc 0) nothing_held e in
        let told = same.0 in (omega arith, same.1))
