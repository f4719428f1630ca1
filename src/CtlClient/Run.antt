-- ===== src/CtlClient/Run.antt =====
-- Sending a request and waiting for responses and events, in src/ctl-client.c.
use wayvnc.Prelude.{
  ℕ, zero, suc, Bool, true, false, ◌&&◌, List, [], ◌∷◌, ◌++◌, ◌+◌, Option, none, some, ◌==◌, ltb,
  if◌then◌else◌, length,
}
use wayvnc.Text.{Str}
use wayvnc.Json.{Json}
use wayvnc.JsonIpc.{
  text, Request, Response, Result, ok, err, request_parse_new, response_parse_new, event_new,
  request_pack,
}
use wayvnc.CtlCommands.{CmdType, wayvnc_exit, CmdInfo}
use wayvnc.CtlClient.Reading.{
  econnreset, Link, Poll, OneObject, object_, null, waiting, read_one_object,
}

-- `internal_events`: their names and descriptions.
unfoldable pub internal_events : List CmdInfo
internal_events =
    record {
      name = text "wayvnc-startup";
      description =
          text
            "Sent by wayvncctl when a successful wayvnc control connection is established and event registration has succeeded, both upon initial startup and on subsequent registrations with --reconnect.";
      params = [];
    }
    ∷ record {
      name = text "wayvnc-shutdown";
      description =
          text
            "Sent by wayvncctl when the wayvnc control connection is dropped, usually due to wayvnc exiting.";
      params = [];
    }
    ∷ []

abbrev is_exit : CmdType → Bool
is_exit wayvnc_exit = true
is_exit _ = false

-- `ctl_client_connect`, in `block_until_reconnect`: whether it succeeds, the errno of a `send` that
-- fails, what the server sends and what happens then, and whether a `usleep` after a failure runs
-- to its end.
pub record Attempt : Type 0 where
  pub connects : Bool
  pub send_fails : Option ℕ
  pub stream : Str
  pub polls : List Poll
  pub sleeps : Bool

-- What `ctl_client_wait_for_response` and the functions above it come to: a response, NULL with
-- `errno` if the reading has set it, a wait, or a fault.
pub data Reply (A : Type 0) : Type 0 where
  reply : A → Link → List Poll → Reply A
  no_reply : (errno : Option ℕ) → Link → List Poll → Reply A
  pending : Link → Reply A
  fault : Reply A

-- What `block_until_reconnect` comes to.
pub data Reconnect : Type 0 where
  reconnected : Link → List Poll → List Attempt → Reconnect
  given_up : Reconnect
  pending : Link → Reconnect
  fault : Reconnect

-- What `ctl_client_event_loop` comes to, with the events that it has printed: it has returned, 0 or
-- -1 or the code of the response, or still waits.
pub data Events (J : Type 0) : Type 0 where
  returned : List (Request J) → (code : Option ℕ) → Events J
  pending : List (Request J) → Link → Events J
  fault out_of_fuel : Events J

-- What one round of the loop of `ctl_client_event_loop` does.
pub data Round (J : Type 0) : Type 0 where
  stop : Events J → Round J
  next : List (Request J) → Link → List Poll → List Attempt → Round J

-- All the bytes that may come, and the attempts.
unfoldable pub supply : Link → List Attempt → ℕ
supply l [] = length l.read_buffer + length l.stream
supply l (a ∷ attempts) = suc (length a.stream + supply l attempts)

module _ (js : Json) where
  open js use {J, dump}

  abbrev send_size : ℕ
  send_size = 512

  -- `ctl_client_send_request`: the bytes for `send`. `json_dumpb` returns the length that the text
  -- needs, which `send` then reads; `none` is a read outside the buffer.
  unfoldable pub send_request : Request J → Option Str
  send_request request =
      let s = dump (request_pack js request) in if ltb send_size (length s) then none else some s

  unfoldable pub response_of : OneObject J → Reply (Response J)
  response_of (waiting l) = Reply.pending l
  response_of (null errno l ps) = no_reply (some errno) l ps
  response_of (object_ root l ps) = elim (response_parse_new js root) [
    | none ↦ Reply.fault
    | some (err e) ↦ no_reply none l ps
    | some (ok response) ↦ reply response l ps
  ]

  unfoldable pub wait_for_response : Link → List Poll → Reply (Response J)
  unfolding response_of
  wait_for_response l ps = response_of (read_one_object js l ps)

  -- `ctl_client_run_single_command`, with the errno of a `send` that fails.
  unfoldable pub run_single_command : Request J → Option ℕ → Link → List Poll → Reply (Response J)
  run_single_command request send_fails l ps = elim (send_request request) [
    | none ↦ Reply.fault
    | some _ ↦ elim send_fails [
      | some errno ↦ no_reply (some errno) l ps
      | none ↦ wait_for_response l ps
    ]
  ]

  -- `ctl_client_print_response` returns the code.
  unfoldable pub single_result : CmdType → Reply (Response J) → Reply ℕ
  single_result c (reply response l ps) = reply response.code l ps
  single_result c (pending l) = Reply.pending l
  single_result c Reply.fault = Reply.fault
  single_result c (no_reply none l ps) = reply 1 l ps
  single_result c (no_reply (some errno) l ps) =
      reply (if (errno == econnreset) && is_exit c then 0 else 1) l ps

  unfoldable pub print_single_command : CmdType → Request J → Option ℕ → Link → List Poll → Reply ℕ
  unfolding single_result
  print_single_command c request send_fails l ps =
      single_result c (run_single_command request send_fails l ps)

  -- `send_startup_event` and `send_shutdown_event`, as the events that they print.
  unfoldable pub startup_event : Request J
  startup_event = event_new js (text "wayvnc-startup") none

  unfoldable pub shutdown_event : Request J
  shutdown_event = event_new js (text "wayvnc-shutdown") none

  -- `block_until_reconnect` with `ctl_client_reconnect_event_loop`. The read buffer is kept over the
  -- connections.
  unfoldable pub block_until_reconnect : Request J → Link → List Attempt → Reconnect
  block_until_reconnect request l [] = pending l
  block_until_reconnect request l (a ∷ attempts) = elim a.connects [
    | false ↦ elim a.sleeps [ false ↦ given_up | true ↦ block_until_reconnect request l attempts ]
    | true ↦
        elim (run_single_command request a.send_fails (record l { stream = a.stream }) a.polls) [
          | fault ↦ fault
          | pending l' ↦ pending l'
          | no_reply _ l' _ ↦ elim a.sleeps [
            | false ↦ given_up
            | true ↦ block_until_reconnect request l' attempts
          ]
          | reply response l' ps ↦ elim (response.code == 0) [
            | true ↦ reconnected l' ps attempts
            | false ↦ elim a.sleeps [
              | false ↦ given_up
              | true ↦ block_until_reconnect request l' attempts
            ]
          ]
        ]
  ]

  -- `print_event` of what `jsonipc_event_parse_new` gives: a value that is no event makes it
  -- follow NULL.
  unfoldable pub print_parsed :
      List (Request J) → Option (Result J (Request J)) → Link → List Poll → List Attempt → Round J
  print_parsed printed none l ps attempts = stop Events.fault
  print_parsed printed (some (err _)) l ps attempts = stop Events.fault
  print_parsed printed (some (ok event)) l ps attempts = next (printed ++ event ∷ []) l ps attempts

  unfoldable pub after_reconnect : List (Request J) → Reconnect → Round J
  after_reconnect printed Reconnect.fault = stop Events.fault
  after_reconnect printed (Reconnect.pending l) =
      stop (Events.pending (printed ++ shutdown_event ∷ []) l)
  after_reconnect printed given_up = stop (returned (printed ++ shutdown_event ∷ []) (some 0))
  after_reconnect printed (reconnected l ps attempts) =
      next (printed ++ shutdown_event ∷ startup_event ∷ []) l ps attempts

  -- The rest of a round of the loop `while (self->wait_for_events)`, after `read_one_object`, with
  -- CTL_CLIENT_RECONNECT as `reconnects`.
  unfoldable pub after_read :
      Request J → Bool → List (Request J) → OneObject J → List Attempt → Round J
  unfolding print_parsed after_reconnect
  after_read request reconnects printed (waiting l) attempts = stop (Events.pending printed l)
  after_read request reconnects printed (object_ root l ps) attempts =
      print_parsed printed (request_parse_new js root) l ps attempts
  after_read request reconnects printed (null errno l ps) attempts =
      if errno == econnreset
      then if reconnects
        then after_reconnect printed (block_until_reconnect request l attempts)
        else stop (returned (printed ++ shutdown_event ∷ []) (some 0))
      else stop (returned printed (some 0))

  unfoldable pub events_from :
      Request J → Bool → ℕ → List (Request J) → Link → List Poll → List Attempt → Events J
  events_from request reconnects zero printed l ps attempts = out_of_fuel
  events_from request reconnects (suc fuel) printed l ps attempts = elim l.wait_for_events [
    | false ↦ returned printed (some 0)
    | true ↦ elim (after_read request reconnects printed (read_one_object js l ps) attempts) [
      | stop result ↦ result
      | next printed' l' ps' attempts' ↦
          events_from request reconnects fuel printed' l' ps' attempts'
    ]
  ]

  -- `ctl_client_event_loop`: each round of its loop takes a byte or an attempt.
  unfoldable pub event_loop :
      Request J → Bool → Option ℕ → Link → List Poll → List Attempt → Events J
  event_loop request reconnects send_fails l ps attempts =
      elim (run_single_command request send_fails l ps) [
        | fault ↦ fault
        | pending l' ↦ pending [] l'
        | no_reply _ l' _ ↦ returned [] none
        | reply response l' ps' ↦ elim (response.code == 0) [
          | false ↦ returned [] (some response.code)
          | true ↦
              events_from request reconnects (suc (supply l' attempts)) (startup_event ∷ [])
                (record l' { wait_for_events = true }) ps' attempts
        ]
      ]
