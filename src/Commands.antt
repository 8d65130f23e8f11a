-- ===== src/Commands.antt =====
-- The commands of --command=, in src/sdparm_cmd.c: which one a name means.
pub mod Names
pub mod Process
pub mod Safety
pub mod Capacity
use sdparm.Prelude.{
  ℕ, zero, suc, ◌<◌, Bool, true, false, not, ◌&&◌, ◌||◌, Option, none, some, List, [], ◌∷◌, length,
  leb, ltb, ◌==◌, take, if◌then◌else◌,
}
use mathlib.Core.Option
use sdparm.Prelude.Int.{ℤ, negsuc}
use sdparm.Settings.Text.{split_at}
use sdparm.Prelude.Text.{codes}
use sdparm.Prelude.Find.{first_match}
use sdparm.Strings.{strcase_eq}
use sdparm.Tables.Types.{Command}
use sdparm.Tables.Registry.{command_arr}

-- `0 == memcmp(a, b, 2)`, of texts of two characters at least
unfoldable pub same_two : List ℕ → List ℕ → Bool
same_two (a ∷ b ∷ r) (c ∷ d ∷ s) = a == c && b == d
same_two r s = false

-- The second loop of sdp_build_cmd over the table, in case the first has found nothing.
unfoldable pub or_two : Option Command → List ℕ → Option Command
or_two (some scmdp) cp = some scmdp
or_two none cp =
    if leb 2 (length cp)
    then first_match (λ scmdp. same_two (codes scmdp.min_abbrev) cp) command_arr
    else none

-- Both loops, for the part `cp` of the text before a '='.
unfoldable pub find_cmd : List ℕ → Option Command
unfolding or_two
find_cmd cp = or_two (first_match (λ scmdp. strcase_eq (codes scmdp.cmd_name) cp) command_arr) cp

-- What is stored through `rwp`: CMD_READY is 1, CMD_SENSE 7 and CMD_CAPACITY 9.
unfoldable pub needs_rw : Command → Bool
needs_rw scmdp = not (scmdp.cmd_num == 1 || scmdp.cmd_num == 7 || scmdp.cmd_num == 9)

-- The command and the number behind a '=', -1 without one. `read_int` is sscanf with "%d", and the
-- name has room for 15 characters there.
unfoldable pub with_eq :
    (List ℕ → Option ℤ) → List ℕ → Option (List ℕ × List ℕ) → Option (Command × ℤ)
unfolding find_cmd
with_eq read_int cmd_str none = Option.map (λ c. (c, negsuc 0)) (find_cmd cmd_str)
with_eq read_int cmd_str (some (name, text)) =
    if leb 16 (length name) then none else elim (read_int text) [
      | none ↦ none
      | some arg ↦ Option.map (λ c. (c, arg)) (find_cmd name)
    ]

unfoldable pub build_cmd : (List ℕ → Option ℤ) → List ℕ → Option (Command × ℤ)
unfolding with_eq
build_cmd read_int cmd_str = with_eq read_int cmd_str (split_at b'=' cmd_str)
