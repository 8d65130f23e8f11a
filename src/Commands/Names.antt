-- ===== src/Commands/Names.antt =====
-- What the names of commands find.
use sdparm.Prelude.{ℕ, true, Option, none, some, List, [], ◌∷◌, ◌≡◌, arith}
use sdparm.Prelude.Text.{codes}
use sdparm.Prelude.Find.{first_match, first_match_passes}
use sdparm.Strings.{strcase_eq}
use sdparm.Tables.Types.{Command, command}
use sdparm.Tables.Registry.{command_arr}
use sdparm.Commands.{same_two, or_two, find_cmd}

abbrev pub stop_command : Command
stop_command = command 3 "stop" "sto"

abbrev by_two : List ℕ → Option Command
by_two cp = first_match (λ scmdp. same_two (codes scmdp.min_abbrev) cp) command_arr

-- The row of start stands in front.
no_stop : (cp : List ℕ) → by_two cp ≡ some stop_command → ⊥
unfolding command_arr first_match same_two
no_stop [] h = ground arith
no_stop (c ∷ []) h = ground arith
no_stop (c ∷ d ∷ cs) h = ground arith

-- What the search by whole names finds is named so, up to case.
by_name :
    (cp : List ℕ) (scmdp : Command)
    → first_match (λ c. strcase_eq (codes c.cmd_name) cp) command_arr ≡ some scmdp
    → strcase_eq (codes scmdp.cmd_name) cp ≡ true
by_name cp scmdp h = first_match_passes (λ c. strcase_eq (codes c.cmd_name) cp) command_arr scmdp h

only_by_name :
    (whole : Option Command) (cp : List ℕ)
    → ((scmdp : Command) → whole ≡ some scmdp → strcase_eq (codes scmdp.cmd_name) cp ≡ true)
    → or_two whole cp ≡ some stop_command
    → strcase_eq (codes "stop") cp ≡ true
unfolding or_two
only_by_name none cp named h = absurd (no_stop cp (ground (arith, h)))
only_by_name (some scmdp) cp named h = let same : scmdp ≡ stop_command = cc in named stop_command h

-- The stop command is found by its whole name only, up to case: no abbreviation of it, not even
-- the one in the table, finds it.
pub find_cmd-stop :
    (cp : List ℕ) → find_cmd cp ≡ some stop_command → strcase_eq (codes "stop") cp ≡ true
unfolding find_cmd
find_cmd-stop cp h =
    only_by_name (first_match (λ c. strcase_eq (codes c.cmd_name) cp) command_arr) cp (by_name cp) h
