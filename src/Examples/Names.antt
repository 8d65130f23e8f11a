-- ===== src/Examples/Names.antt =====
-- Names of commands.
use sdparm.Prelude.{◌≡◌, true, some, refl}
use sdparm.Prelude.Text.{codes, to_upper, is_lower}
use sdparm.Prelude.Find.{first_match}
use sdparm.Strings.{strcase_eq, same_char}
use sdparm.Tables.Types.{command}
use sdparm.Tables.Registry.{command_arr}
use sdparm.Commands.{find_cmd, or_two, same_two}
use sdparm.Commands.Names.{stop_command, find_cmd-stop}

stop_found : find_cmd (codes "STOP") ≡ some stop_command
unfolding find_cmd or_two same_two first_match command_arr strcase_eq same_char to_upper is_lower
stop_found = refl

find_cmd-stop_example : strcase_eq (codes "stop") (codes "STOP") ≡ true
find_cmd-stop_example = find_cmd-stop (codes "STOP") stop_found

-- The abbreviation of stop in the table starts the device.
sto_starts : find_cmd (codes "sto") ≡ some (command 2 "start" "sta")
unfolding find_cmd or_two same_two first_match command_arr strcase_eq same_char to_upper is_lower
sto_starts = refl
