-- ===== src/CtlServer/Receive.antt =====
-- Reading and answering requests, as `recv_ready` of src/ctl-server.c does it.
use wayvnc.Prelude.{
  ℕ, zero, suc, Bool, true, List, [], ◌∷◌, ◌++◌, Option, none, some, if◌then◌else◌, length, map,
}
use wayvnc.Text.{Str}
use wayvnc.Json.{Json}
use wayvnc.JsonIpc.{text, Request, Result, ok, err, request_parse_new}
use wayvnc.CtlCommands.{
  CmdType, detach, event_receive, client_list, output_list, output_cycle, version, wayvnc_exit,
  CmdParam, command_by_name, event_by_name,
}
use wayvnc.CtlServer.Commands.{
  ImageSourceType, Cmd, cmd_attach, cmd_help, cmd_set_output, cmd_disconnect_client,
  cmd_set_desktop_name, cmd, list_allowed_commands, list_allowed_events, parse_command,
}
use wayvnc.CtlServer.Client.{
  Client, CmdResponse, fifo, client_enqueue, enqueue_response, client_enqueue_error,
  client_enqueue_internal_error,
}
use wayvnc.CtlServer.Input.{
  Recv, no_data, fatal, data_, object_, no_object, bad, client_read, client_next_object,
}

-- `struct ctl_server_client_info`, with the address as text where `sockaddr_to_string` knows its
-- family, and `struct ctl_server_output`. Numbers come as `snprintf` prints them.
pub record ClientInfo : Type 0 where
  pub id : Str
  pub address : Option Str
  pub username : Option Str
  pub seat : Option Str

pub record OutputInfo : Type 0 where
  pub name : Str
  pub description : Str
  pub height : ℕ
  pub width : ℕ
  pub captured : Bool
  pub power : Str

-- `struct ctl_server_actions`, over the state `W` of the program behind it, and the values that the
-- version command reports. Beside its response an action gives the packed events that it sends by
-- `ctl_server_enqueue_event` meanwhile.
pub record Actions (J W : Type 0) : Type 0 where
  pub on_attach : W → Str → ImageSourceType → Str → CmdResponse J × List J × W
  pub on_detach : W → CmdResponse J × List J × W
  pub on_output_cycle : W → CmdResponse J × List J × W
  pub on_output_switch : W → Str → CmdResponse J × List J × W
  pub on_disconnect_client : W → Str → CmdResponse J × List J × W
  pub on_set_desktop_name : W → Str → CmdResponse J × List J × W
  pub on_wayvnc_exit : W → CmdResponse J × List J × W
  pub clients : W → List ClientInfo
  pub outputs : W → List OutputInfo
  pub versions : List (Str × J)
  pub boolean : Bool → J

module _ (js : Json) where
  open js use {J, object, string, array, integer, load}

  abbrev respond : J → CmdResponse J
  respond content = record { code = 0; content = some content }

  -- `cmd_ok`
  abbrev cmd_ok : CmdResponse J
  cmd_ok = record { code = 0; content = none }

  abbrev describe_params : List CmdParam → List (Str × J)
  describe_params [] = []
  describe_params ps = (text "params", object (map (λ p. (p.name, string p.description)) ps)) ∷ []

  unfoldable pub generate_help_object : Str → Bool → CmdResponse J
  generate_help_object id id_is_command =
      elim (if id_is_command then command_by_name id else event_by_name id) [
        | none ↦ respond (
            object (
              (text "commands", list_allowed_commands js)
              ∷ (text "events", list_allowed_events js)
              ∷ []))
        | some info ↦ respond (
            object (
              (
                info.name,
                object
                    ((text "description", string info.description) ∷ describe_params info.params),
              )
              ∷ []))
      ]

  abbrev optional_text : Str → Option Str → List (Str × J)
  optional_text key none = []
  optional_text key (some s) = (key, string s) ∷ []

  unfoldable pub client_object : ClientInfo → J
  client_object info = object (
      (text "id", string info.id)
      ∷ (optional_text (text "address") info.address
          ++ (optional_text (text "username") info.username
              ++ optional_text (text "seat") info.seat)))

  unfoldable pub output_object : (Bool → J) → OutputInfo → J
  output_object boolean o = object (
      (text "name", string o.name)
      ∷ (text "description", string o.description)
      ∷ (text "height", integer o.height)
      ∷ (text "width", integer o.width)
      ∷ (text "captured", boolean o.captured)
      ∷ (text "power", string o.power)
      ∷ [])

  module _ {W : Type 0} (actions : Actions J W) where
    open actions use {
      on_attach, on_detach, on_output_cycle, on_output_switch, on_disconnect_client,
      on_set_desktop_name, on_wayvnc_exit, clients, outputs, versions, boolean,
    }

    abbrev pub Answer : Type 0
    Answer = CmdResponse J × W × Client J

    -- What `ctl_server_enqueue_event` does to this client during an action.
    unfoldable pub notify : Client J → List J → Client J
    notify client [] = client
    notify client (m ∷ ms) =
        if client.accept_events then notify (client_enqueue client m fifo) ms else notify client ms

    unfoldable pub act : Client J → CmdResponse J × List J × W → Answer
    act client (response, events, w) = (response, w, notify client events)

    -- The commands without parameters; those with parameters have structures of their own.
    unfoldable pub dispatch_plain : W → Client J → CmdType → Answer
    dispatch_plain w client detach = act client (on_detach w)
    dispatch_plain w client wayvnc_exit = act client (on_wayvnc_exit w)
    dispatch_plain w client version = (respond (object versions), w, client)
    dispatch_plain w client event_receive = (cmd_ok, w, record client { accept_events = true })
    dispatch_plain w client client_list =
        (respond (array (map client_object (clients w))), w, client)
    dispatch_plain w client output_list =
        (respond (array (map (output_object boolean) (outputs w))), w, client)
    dispatch_plain w client output_cycle = act client (on_output_cycle w)
    dispatch_plain w client _ = (cmd_ok, w, client)

    unfoldable pub dispatch_cmd : W → Client J → Cmd → Answer
    dispatch_cmd w client (cmd_attach display source name) =
        act client (on_attach w display source name)
    dispatch_cmd w client (cmd_help id is_command) = (generate_help_object id is_command, w, client)
    dispatch_cmd w client (cmd_set_output target) = act client (on_output_switch w target)
    dispatch_cmd w client (cmd_disconnect_client id) = act client (on_disconnect_client w id)
    dispatch_cmd w client (cmd_set_desktop_name name) = act client (on_set_desktop_name w name)
    dispatch_cmd w client (cmd t) = dispatch_plain w client t

    abbrev pub State : Type 0
    State = W × Client J

    -- One round of the loop of `recv_ready`, on the value that was read; `none` is the fault of
    -- `jvprintf`.
    unfoldable pub answer : State → Request J → Result J Cmd → State
    answer (w, client) request (err e) = (w, client_enqueue_error js client e request.id)
    answer (w, client) request (ok c) =
        let (response, w', client') = dispatch_cmd w client c in
        (w', enqueue_response js client' response request.id fifo)

    unfoldable pub handle_request : State → Result J (Request J) → Option State
    handle_request (w, client) (err e) = some (w, client_enqueue_error js client e none)
    handle_request state (ok request) = elim (parse_command js request) [
      | none ↦ none
      | some c ↦ some (answer state request c)
    ]

    unfoldable pub handle_object : State → J → Option State
    handle_object state root = elim (request_parse_new js root) [
      | none ↦ none
      | some r ↦ handle_request state r
    ]

    pub data Handled : Type 0 where
      handled : State → Option (CmdResponse J) → Handled
      fault out_of_fuel : Handled

    -- The loop, with the internal error that ends it if any.
    unfoldable pub handle_objects : ℕ → State → Handled
    handle_objects zero state = out_of_fuel
    handle_objects (suc fuel) (w, client) = elim (client_next_object js client) [
      | no_object ↦ handled (w, client) none
      | bad e ↦ handled (w, client) (some e)
      | object_ root client' ↦ elim (handle_object (w, client') root) [
        | none ↦ fault
        | some state' ↦ handle_objects fuel state'
      ]
    ]

    -- `recv_ready`: the state of the program and the client, `gone` if it is destroyed.
    pub data Received : Type 0 where
      alive : State → Received
      gone : W → Received
      fault out_of_fuel : Received

    unfoldable pub finish : Handled → Received
    finish (handled state none) = alive state
    finish (handled (w, client) (some e)) = alive (w, client_enqueue_internal_error js client e)
    finish Handled.fault = Received.fault
    finish Handled.out_of_fuel = Received.out_of_fuel

    -- Each value takes at least one byte of the buffer, so one round for each byte is enough.
    unfoldable pub recv_ready : State → Recv → Received
    unfolding finish
    recv_ready (w, client) r = elim (client_read js client r) [
      | no_data ↦ alive (w, client)
      | fatal none ↦ gone w
      | fatal (some e) ↦ alive (w, client_enqueue_internal_error js client e)
      | data_ client' ↦ finish (handle_objects (suc (length client'.read_buffer)) (w, client'))
    ]
