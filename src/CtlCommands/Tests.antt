-- ===== src/CtlCommands/Tests.antt =====
-- The names of src/ctl-commands.c on concrete inputs.
use wayvnc.Prelude.{◌≡◌, refl, none}
use wayvnc.Text.{str_eq}
use wayvnc.JsonIpc.{text}
use wayvnc.CtlCommands.{command_info, all_commands, find_command, command_parse_name}

no_prefix : command_parse_name (text "output") ≡ none
unfolding command_parse_name find_command all_commands command_info str_eq
no_prefix = refl
