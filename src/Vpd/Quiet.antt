-- ===== src/Vpd/Quiet.antt =====
-- decode_dev_ids_quiet of src/sdparm_vpd.c: the identifiers alone, where the address of a SAS target
-- port is held back until the relative target port number that belongs to it is found.
use sdparm.Vpd.{ended, short_descriptor, out_of_fuel, Round, row, last, Decoded}
use sdparm.Vpd.Designators.{Designator, designator_at}
use sdparm.Prelude.{
  ℕ, zero, suc, ◌+◌, ◌/◌, ◌%◌, Bool, List, [], ◌∷◌, ◌++◌, length, take, drop, ltb, ◌==◌, ◌&&◌, ◌||◌,
  not, if◌then◌else◌,
}
use sdparm.Prelude.Int.{ℤ, pos, negsuc, ◌==ℤ◌}
use sdparm.SgLib.{SgLib}

-- A line on stdout, by the printf that makes it.
pub data Line : Type 0 where
  hex : List ℕ → Line
  hex_port : List ℕ → ℕ → Line
  name_string : List ℕ → Line
  uuid : List ℕ → Line

-- rtp and sas_tport_addr
pub record Held : Type 0 where
  pub rtp : ℕ
  pub sas_tport_addr : List ℕ

abbrev pub zero_addr : List ℕ
zero_addr = 0 ∷ (0 ∷ (0 ∷ (0 ∷ (0 ∷ (0 ∷ (0 ∷ (0 ∷ [])))))))

abbrev pub nothing_held : Held
nothing_held = record { rtp = 0; sas_tport_addr = zero_addr }

-- d[i]. Behind the end of a designator, where C reads ip[0] of an NAA designator of length 0 too, no
-- line depends on it.
abbrev pub at : List ℕ → ℕ → ℕ
at [] i = 0
at (b ∷ d) zero = b
at (b ∷ d) (suc i) = at d i

abbrev pub is_held : Held → Bool
is_held st = not (at st.sas_tport_addr 0 == 0)

-- %.*s stops in front of a zero byte.
unfoldable pub until_nul : List ℕ → List ℕ
until_nul [] = []
until_nul (c ∷ s) = let rest = until_nul s in if c == 0 then [] else c ∷ rest

-- The fields of a descriptor `d`.
abbrev pub code_set : List ℕ → ℕ
code_set d = at d 0 % 16

abbrev pub desig_type : List ℕ → ℕ
desig_type d = at d 1 % 16

abbrev pub assoc : List ℕ → ℕ
assoc d = at d 1 / 16 % 4

abbrev pub naa : List ℕ → ℕ
naa d = at d 4 / 16

abbrev pub is_sas : List ℕ → Bool
is_sas d = (at d 1 / 128 % 2 == 1) && (at d 0 / 16 % 16 == 6)

-- What is held afterwards, and the lines.
abbrev pub QuietStep : Type 0
QuietStep = Held × List Line

abbrev pub silent : Held → QuietStep
silent st = (st, [])

abbrev pub said : Held → Line → QuietStep
said st l = (st, l ∷ [])

-- A SAS target port without a port number: what was held comes first.
abbrev pub flush : Held → List Line
flush st = if is_held st then hex st.sas_tport_addr ∷ [] else []

unfoldable pub sas_port : Held → List ℕ → QuietStep
sas_port st d =
    if not (st.rtp == 0)
    then (record st { rtp = 0 }, hex_port (take 8 (drop 4 d)) st.rtp ∷ [])
    else (record st { sas_tport_addr = take 8 (drop 4 d) }, flush st)

unfoldable pub relative_port : SgLib → Held → List ℕ → QuietStep
relative_port sg st d =
    let rtp = sg.get_unaligned_be16 (drop 6 d) in
    if is_held st
    then (nothing_held, hex_port st.sas_tport_addr rtp ∷ [])
    else silent (record st { rtp = rtp })

-- NAA 2, 3, 5 and 6.
unfoldable pub show_naa : Held → List ℕ → QuietStep
unfolding sas_port
show_naa st d =
    if not (code_set d == 1)
    then silent st
    else if (naa d == 2) || (naa d == 3)
    then (if at d 3 == 8 then said st (hex (take 8 (drop 4 d))) else silent st)
    else if naa d == 5
    then (if not (at d 3 == 8)
        then silent st
        else if not (is_sas d) || not (assoc d == 1)
        then said st (hex (take 8 (drop 4 d)))
        else sas_port st d)
    else if naa d == 6
    then (if at d 3 == 16 then said st (hex (take 16 (drop 4 d))) else silent st)
    else silent st

-- The switch on the designator's type.
unfoldable pub show_designator : SgLib → Held → List ℕ → QuietStep
unfolding show_naa relative_port until_nul
show_designator sg st d =
    if desig_type d == 2
    then said st (hex (take (at d 3) (drop 4 d)))
    else if desig_type d == 3
    then show_naa st d
    else if desig_type d == 4
    then (if not (is_sas d) || not (code_set d == 1) || not (assoc d == 1) || not (at d 3 == 4)
        then silent st
        else relative_port sg st d)
    else if desig_type d == 8
    then (if ltb (code_set d) 2
        then silent st
        else said st (name_string (until_nul (take (at d 3) (drop 4 d)))))
    else if desig_type d == 10
    then (if not (code_set d == 1) || not (at d 3 == 18) || not (naa d % 16 == 1)
        then silent st
        else said st (uuid (take 16 (drop 6 d))))
    else silent st

-- A round behind the test of the length, which decode_dev_ids has too.
abbrev pub quiet_at : SgLib → Held → Round Designator → (ℕ → Held → Decoded Line) → Decoded Line
quiet_at sg st (last rows e) next = ([], e)
quiet_at sg st (row d off) next =
    let shown = show_designator sg st d.descriptor in
    let rest = next off shown.0 in (shown.1 ++ rest.0, rest.1)

-- The condition of the loop, and what stands behind the loop.
unfoldable pub quiet_round :
    SgLib → List ℕ → Held → ℤ × ℤ → (ℕ → Held → Decoded Line) → Decoded Line
unfolding show_designator designator_at
quiet_round sg buff st u next =
    if u.0 ==ℤ pos 0
    then quiet_at sg st (designator_at buff u.1) next
    else (flush st, if u.0 ==ℤ negsuc 1 then short_descriptor else ended)

module _ (sg : SgLib) (m_assoc m_desig_type m_code_set : ℤ) where
  unfoldable pub quiet_loop : List ℕ → ℕ → ℤ → Held → Decoded Line
  unfolding quiet_round
  quiet_loop buff zero off st = ([], out_of_fuel)
  quiet_loop buff (suc fuel) off st =
      quiet_round sg buff st (sg.vpd_dev_id_iter buff off m_assoc m_desig_type m_code_set)
        (λ next st'. quiet_loop buff fuel (pos next) st')

  unfoldable pub decode_dev_ids_quiet : List ℕ → Decoded Line
  unfolding quiet_loop
  decode_dev_ids_quiet buff = quiet_loop buff (length buff + 1) (negsuc 0) nothing_held
