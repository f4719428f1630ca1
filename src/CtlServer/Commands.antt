-- ===== src/CtlServer/Commands.antt =====
-- The commands of src/ctl-server.c, as `parse_command` takes them from a request.
use wayvnc.Prelude.{Bool, true, false, [], ◌∷◌, ◌++◌, Option, none, some, map, if◌then◌else◌}
use wayvnc.Text.{Str, truncated}
use wayvnc.Json.{Json}
use wayvnc.JsonIpc.{
  text, einval, enoent, jvprintf, error_key, Request, Result, ok, err, error_printf, failure,
  string_member,
}
use wayvnc.CtlCommands.{
  CmdType, attach, detach, help, event_receive, client_list, client_disconnect, set_desktop_name,
  output_list, output_cycle, output_set, version, wayvnc_exit, command_info, event_info,
  all_commands, all_events, command_parse_name,
}

-- `enum image_source_type`
pub data ImageSourceType : Type 0 where
  unspec desktop output toplevel : ImageSourceType

-- `struct cmd` and the structures that begin with it.
pub data Cmd : Type 0 where
  cmd_attach : (display : Str) → ImageSourceType → (name : Str) → Cmd
  cmd_help : (id : Str) → (id_is_command : Bool) → Cmd
  cmd_set_output : (target : Str) → Cmd
  cmd_disconnect_client : (id : Str) → Cmd
  cmd_set_desktop_name : (name : Str) → Cmd
  cmd : CmdType → Cmd

module _ (js : Json) where
  open js use {J, object, is_object, get, string, string_value, array}

  -- A member under the format `s?s`: it may be missing, but is no other value than a string.
  unfoldable pub optional_string : J → Str → Result J (Option Str)
  optional_string args key = elim (get args key) [
    | none ↦ ok none
    | some v ↦ elim (string_value v) [
      | none ↦ err (record { code = einval; content = none })
      | some s ↦ ok (some s)
    ]
  ]

  -- `json_unpack` of the three optional members of the attach command.
  abbrev Sources : Type 0
  Sources = Option Str × Option Str × Option Str

  unfoldable pub unpack_sources : J → Option Sources
  unfolding optional_string
  unpack_sources args = elim (optional_string args (text "desktop")) [
    | err _ ↦ none
    | ok d ↦ elim (optional_string args (text "output")) [
      | err _ ↦ none
      | ok o ↦ elim (optional_string args (text "toplevel")) [
        | err _ ↦ none
        | ok t ↦ some (d, o, t)
      ]
    ]
  ]

  unfoldable pub source_of : Str → Sources → Cmd
  source_of display (some _, o, t) = cmd_attach (truncated 128 display) desktop []
  source_of display (none, some o, t) = cmd_attach (truncated 128 display) output (truncated 128 o)
  source_of display (none, none, some t) =
      cmd_attach (truncated 128 display) toplevel (truncated 128 t)
  source_of display (none, none, none) = cmd_attach (truncated 128 display) unspec []

  abbrev Parsed : Type 0
  Parsed = Option (Result J Cmd)

  abbrev refuse : Str → Parsed
  refuse message = failure js (error_printf js einval message)

  unfoldable pub cmd_attach_new : Option J → Parsed
  unfolding source_of
  cmd_attach_new none = refuse (text "Missing display name")
  cmd_attach_new (some args) = elim (string_member js args (text "display")) [
    | none ↦ refuse (text "Missing display name")
    | some display ↦ elim (unpack_sources args) [
      | none ↦ refuse (text "Missing display name")
      | some sources ↦ some (ok (source_of display sources))
    ]
  ]

  abbrev pub help_of : Option Str → Option Str → Parsed
  help_of (some command) (some event) =
      refuse (text "expecting exacly one of \"command\" or \"event\"")
  help_of (some command) none = some (ok (cmd_help (truncated 64 command) true))
  help_of none (some event) = some (ok (cmd_help (truncated 64 event) false))
  help_of none none = some (ok (cmd_help [] false))

  unfoldable pub cmd_help_new : Option J → Parsed
  cmd_help_new none = help_of none none
  cmd_help_new (some args) =
      if is_object args
      then elim (optional_string args (text "command")) [
        | err _ ↦ refuse (text "expecting \"command\" or \"event\" (optional)")
        | ok command ↦ elim (optional_string args (text "event")) [
          | err _ ↦ refuse (text "expecting \"command\" or \"event\" (optional)")
          | ok event ↦ help_of command event
        ]
      ]
      else refuse (text "expecting \"command\" or \"event\" (optional)")

  -- A command with one string parameter.
  unfoldable pub one_string : Option J → Str → Str → (Str → Cmd) → Parsed
  one_string none key message make = refuse message
  one_string (some args) key message make = elim (string_member js args key) [
    | none ↦ refuse message
    | some s ↦ some (ok (make s))
  ]

  unfoldable pub cmd_set_output_new : Option J → Parsed
  cmd_set_output_new args =
      one_string args (text "output-name") (text "Missing output name")
        (λ s. cmd_set_output (truncated 64 s))

  unfoldable pub cmd_disconnect_client_new : Option J → Parsed
  cmd_disconnect_client_new args =
      one_string args (text "id") (text "Missing client id")
        (λ s. cmd_disconnect_client (truncated 64 s))

  unfoldable pub cmd_set_desktop_name_new : Option J → Parsed
  cmd_set_desktop_name_new args =
      one_string args (text "desktop-name") (text "Missing desktop name")
        (λ s. cmd_set_desktop_name (truncated 256 s))

  unfoldable pub list_allowed_commands : J
  list_allowed_commands = array (map (λ c. string (command_info c).name) all_commands)

  unfoldable pub list_allowed_events : J
  list_allowed_events = array (map (λ e. string (event_info e).name) all_events)

  -- The error of CMD_UNKNOWN.
  unfoldable pub unknown_command : Str → Parsed
  unknown_command method = elim (jvprintf (text "Unknown command \"" ++ method ++ text "\"")) [
    | none ↦ none
    | some s ↦ some (
        err (record {
          code = enoent;
          content =
              some (object ((error_key, string s) ∷ (text "commands", list_allowed_commands) ∷ []));
        }))
  ]

  unfoldable pub parse_command_args : CmdType → Option J → Parsed
  parse_command_args attach args = cmd_attach_new args
  parse_command_args help args = cmd_help_new args
  parse_command_args output_set args = cmd_set_output_new args
  parse_command_args client_disconnect args = cmd_disconnect_client_new args
  parse_command_args set_desktop_name args = cmd_set_desktop_name_new args
  parse_command_args detach args = some (ok (cmd detach))
  parse_command_args version args = some (ok (cmd version))
  parse_command_args event_receive args = some (ok (cmd event_receive))
  parse_command_args client_list args = some (ok (cmd client_list))
  parse_command_args output_list args = some (ok (cmd output_list))
  parse_command_args output_cycle args = some (ok (cmd output_cycle))
  parse_command_args wayvnc_exit args = some (ok (cmd wayvnc_exit))

  -- `parse_command`: `none` is the fault of `jvprintf`.
  unfoldable pub parse_command : Request J → Option (Result J Cmd)
  parse_command ipc = elim (command_parse_name ipc.method) [
    | none ↦ unknown_command ipc.method
    | some t ↦ parse_command_args t ipc.params
  ]
