-- ===== src/CtlClient/Command.antt =====
-- `ctl_client_run_command` of src/ctl-client.c: from the command line to the exit status.
use wayvnc.Prelude.{ℕ, Bool, true, false, ◌||◌, List, [], ◌∷◌, Option, none, some, if◌then◌else◌}
use wayvnc.Text.{Str, str_eq}
use wayvnc.Json.{Json}
use wayvnc.JsonIpc.{text, Request}
use wayvnc.CtlCommands.{CmdType, help, event_receive, CmdInfo, command_parse_name, event_by_name}
use wayvnc.OptionParser.{Parser, is_some}
use wayvnc.OptionParser.Parse.{Parsed, parsed, parse}
use wayvnc.OptionParser.Values.{get_value}
use wayvnc.CtlClient.{init_cmd_parser, parse_args}
use wayvnc.CtlClient.Reading.{Link, Poll}
use wayvnc.CtlClient.Run.{
  Attempt, internal_events, Reply, reply, no_reply, Events, returned, print_single_command,
  event_loop,
}

unfoldable pub find_internal_event : List CmdInfo → Str → Bool
find_internal_event [] name = false
find_internal_event (e ∷ es) name = str_eq name e.name || find_internal_event es name

-- `print_event_details` returns 0 for an event that is known.
unfoldable pub print_event_details : Str → ℕ
print_event_details name =
    if is_some (event_by_name name) || find_internal_event internal_events name then 0 else 1

-- What one look of `wait_for_socket` finds at the path, and whether the `usleep` after it runs to
-- its end; what `connect` does.
pub data Look : Type 0 where
  socket other : Look
  missing : (sleeps : Bool) → Look

pub data Try : Type 0 where
  connected refused : Try
  no_entry : (sleeps : Bool) → Try

pub data Connect : Type 0 where
  ready failed waiting : Connect

-- The timeout is 0 or -1, for none.
unfoldable pub wait_for_socket : (forever : Bool) → List Look → Connect
wait_for_socket forever [] = waiting
wait_for_socket forever (socket ∷ looks) = ready
wait_for_socket forever (other ∷ looks) = failed
wait_for_socket forever (missing sleeps ∷ looks) = elim forever [
  | false ↦ failed
  | true ↦ elim sleeps [ false ↦ failed | true ↦ wait_for_socket true looks ]
]

-- `try_connect`, whose `socket` succeeds.
unfoldable pub try_connect : (forever : Bool) → List Try → Connect
try_connect forever [] = waiting
try_connect forever (connected ∷ tries) = ready
try_connect forever (refused ∷ tries) = failed
try_connect forever (no_entry sleeps ∷ tries) = elim forever [
  | false ↦ failed
  | true ↦ elim sleeps [ false ↦ failed | true ↦ try_connect true tries ]
]

unfoldable pub connect : (forever : Bool) → List Look → List Try → Connect
unfolding wait_for_socket try_connect
connect forever looks tries = elim (wait_for_socket forever looks) [
  | ready ↦ try_connect forever tries
  | failed ↦ failed
  | waiting ↦ waiting
]

-- What a command line comes to before the client connects: it ends with a status, or there is a
-- request to send. The options of the command are kept for the theorems.
pub data Plan (J : Type 0) : Type 0 where
  ends : (code : ℕ) → Plan J
  sends : CmdType → Request J → (options : Parser) → Plan J
  out_of_fuel : Plan J

-- What the client comes to: a status, -1 as `none`, a wait or a fault.
pub data Exit : Type 0 where
  exits : (code : Option ℕ) → Exit
  waits fault out_of_fuel : Exit

-- `ctl_command_parse_name`, which takes NULL for no name.
abbrev pub command_of : Option Str → Option CmdType
command_of none = none
command_of (some name) = command_parse_name name

abbrev pub is_event_receive : CmdType → Bool
is_event_receive event_receive = true
is_event_receive _ = false

abbrev pub given_or_empty : Option (List Str) → List Str
given_or_empty none = []
given_or_empty (some argv) = argv

module _ (js : Json) where
  open js use {J}

  unfoldable pub plan_request : ℕ → CmdType → Parser → Plan J
  plan_request request_id cmd options =
      let r = parse_args js request_id cmd options in sends r.1 r.0.0 options

  unfoldable pub plan_show : ℕ → CmdType → Parser → Option Str → Plan J
  unfolding plan_request
  plan_show request_id cmd options show = elim (if is_event_receive cmd then show else none) [
    | some name ↦ ends (print_event_details name)
    | none ↦ plan_request request_id cmd options
  ]

  -- From the options of the command on; `json` is CTL_CLIENT_PRINT_JSON, under which there is no
  -- usage text.
  unfoldable pub plan_options : ℕ → Bool → CmdType → Parser → Plan J
  unfolding plan_show
  plan_options request_id json cmd options = elim (get_value options (text "help")) [
    | some _ ↦ ends (if json then 1 else 0)
    | none ↦ plan_show request_id cmd options (get_value options (text "show"))
  ]

  unfoldable pub plan_parsed : ℕ → Bool → CmdType → Parsed → Plan J
  unfolding plan_options
  plan_parsed request_id json cmd (parsed options) = plan_options request_id json cmd options
  plan_parsed request_id json cmd (Parsed.failed _) = ends 1
  plan_parsed request_id json cmd Parsed.out_of_fuel = Plan.out_of_fuel

  unfoldable pub plan_command : ℕ → Bool → Option CmdType → List Str → Plan J
  unfolding plan_parsed
  plan_command request_id json none argv = ends 1
  plan_command request_id json (some help) argv = ends 1
  plan_command request_id json (some cmd) argv =
      plan_parsed request_id json cmd (parse (init_cmd_parser cmd) argv)

  -- With the options of wayvncctl itself.
  unfoldable pub plan : ℕ → Bool → Parser → Plan J
  unfolding plan_command
  plan request_id json parent_options =
      plan_command request_id json (command_of (get_value parent_options (text "command")))
        (given_or_empty parent_options.remaining_argv)

  unfoldable pub single_exit : Reply ℕ → Exit
  single_exit (reply code l ps) = exits (some code)
  single_exit (no_reply errno l ps) = exits (some 1)
  single_exit (Reply.pending l) = waits
  single_exit Reply.fault = fault

  unfoldable pub events_exit : Events J → Exit
  events_exit (returned printed code) = exits code
  events_exit (Events.pending printed l) = waits
  events_exit Events.fault = fault
  events_exit Events.out_of_fuel = Exit.out_of_fuel

  -- The switch on the command, once there is a connection.
  unfoldable pub run_connected :
      CmdType → Request J → Bool → Option ℕ → Link → List Poll → List Attempt → Exit
  unfolding single_exit events_exit
  run_connected event_receive request reconnects send_fails l ps attempts =
      events_exit (event_loop js request reconnects send_fails l ps attempts)
  run_connected cmd request reconnects send_fails l ps attempts =
      single_exit (print_single_command js cmd request send_fails l ps)

  -- `ctl_client_run_command`, given what `ctl_client_connect` comes to.
  unfoldable pub run_command :
      Plan J → Connect → Bool → Option ℕ → Link → List Poll → List Attempt → Exit
  unfolding run_connected
  run_command (ends code) connection reconnects send_fails l ps attempts = exits (some code)
  run_command (sends cmd request options) ready reconnects send_fails l ps attempts =
      run_connected cmd request reconnects send_fails l ps attempts
  run_command (sends cmd request options) failed reconnects send_fails l ps attempts =
      exits (some 1)
  run_command (sends cmd request options) waiting reconnects send_fails l ps attempts = waits
  run_command Plan.out_of_fuel connection reconnects send_fails l ps attempts = Exit.out_of_fuel
