-- ===== src/CtlClient.antt =====
-- src/ctl-client.c: the options of a command, and the request that they make.
pub mod Given
pub mod Meant
pub mod Reading
pub mod Framed
pub mod Whole
pub mod Run
pub mod Reads
pub mod Attempts
pub mod Ends
pub mod Prints
pub mod Command
pub mod Plans
pub mod Together
mod Tests
use wayvnc.Prelude.{
  ℕ, Bool, true, false, List, [], ◌∷◌, ◌++◌, Option, none, some, if◌then◌else◌, map,
}
use wayvnc.Text.{Str}
use wayvnc.Json.{Json}
use wayvnc.JsonIpc.{text, Request, request_new}
use wayvnc.CtlCommands.{CmdType, help, event_receive, CmdParam, command_info}
use wayvnc.OptionParser.{WvOption, Parser, init}
use wayvnc.OptionParser.Values.{get_value}

-- The option for one parameter, in the loop of `ctl_client_init_cmd_parser`.
unfoldable pub param_option : CmdParam → WvOption
param_option p = record {
  short_opt = 0;
  long_opt = if p.positional then none else some p.name;
  schema = if p.positional then none else p.schema;
  help = some p.description;
  default_ = none;
  positional = if p.positional then some p.name else none;
  is_subcommand = false;
  is_repeating = false;
}

-- A long option of the command line itself.
unfoldable pub own_option : ℕ → Str → Option Str → Str → WvOption
own_option letter name schema description = record {
  short_opt = letter;
  long_opt = some name;
  schema = schema;
  help = some description;
  default_ = none;
  positional = none;
  is_subcommand = false;
  is_repeating = false;
}

unfoldable pub show_options : CmdType → List WvOption
unfolding own_option
show_options event_receive =
    own_option 0 (text "show") (some (text "<event-name>"))
      (text "Display details about the given event")
    ∷ []
show_options _ = []

-- `ctl_client_init_cmd_parser`: every type of a command is in the table.
unfoldable pub init_cmd_parser : CmdType → Parser
init_cmd_parser cmd = init (
    map param_option (command_info cmd).params
    ++ (show_options cmd
        ++ own_option b'h' (text "help") none (text "Display this help text") ∷ []))

module _ (js : Json) where
  open js use {J, object, string}

  -- `json_string` is NULL for text that is no UTF-8.
  abbrev pub utf8_only : Option Str → Option Str
  utf8_only none = none
  utf8_only (some value) = if js.is_utf8 value then some value else none

  -- The loop of `ctl_client_parse_args`: a member for each parameter with a value; the result of
  -- `json_object_set_new`, which sets no NULL, is ignored. The parameters of a command have different
  -- names.
  unfoldable pub given : Parser → List CmdParam → List (Str × J)
  given options [] = []
  given options (p ∷ ps) = elim (utf8_only (get_value options p.name)) [
    | none ↦ given options ps
    | some value ↦ (p.name, string value) ∷ given options ps
  ]

  -- `ctl_client_parse_args`, with the counter of requests: the command may become CMD_HELP.
  unfoldable pub parse_args : ℕ → CmdType → Parser → (Request J × ℕ) × CmdType
  parse_args request_id cmd options = elim (get_value options (text "help")) [
    | some _ ↦
        let params = object ((text "command", string (command_info cmd).name) ∷ []) in
        (request_new js request_id (command_info help).name (some params), help)
    | none ↦
        let params = object (given options (command_info cmd).params) in
        (request_new js request_id (command_info cmd).name (some params), cmd)
  ]
