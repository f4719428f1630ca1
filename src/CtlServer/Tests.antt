-- ===== src/CtlServer/Tests.antt =====
-- The control server of src/ctl-server.c over the sample implementation of JSON.
use wayvnc.Prelude.{
  ℕ, ◌≡◌, refl, ◌+◌, none, some, List, [], ◌∷◌, map, arith, replicate, true, false,
}
use wayvnc.Text.{str_eq}
use wayvnc.Json.Sample.{sample, Value, num, str}
use wayvnc.JsonIpc.{
  text, Request, is_valid_id, request_parse_new, string_member, method_key, id_key, response_pack,
  response_new,
}
use wayvnc.CtlCommands.{output_added, command_parse_name, find_command, all_commands, command_info}
use wayvnc.CtlServer.Commands.{parse_command, parse_command_args}
use wayvnc.CtlServer.Client.{
  Client, CmdResponse, client_enqueue, client_enqueue_internal_error, enqueue_response, fifo, again,
  accepted, send_ready,
}
use wayvnc.CtlServer.Receive.{
  act, notify, Actions, State, handle_object, handle_request, handle_objects, answer, dispatch_cmd,
  dispatch_plain,
}
use wayvnc.CtlServer.Delivery.{pending, Event, enqueue, writable, run, InOrder, run-InOrder}
use wayvnc.CtlServer.Drop.{send_ready-internal_error_lost}
use wayvnc.CtlServer.Requests.{Answered, handle_object-Answered}
use wayvnc.CtlServer.Loop.{EachAnswered, objects, handle_objects-EachAnswered}
use wayvnc.CtlServer.Events.{enqueue_event, event_message, after_event, enqueue_event_lem}
use wayvnc.CtlServer.Unknown.{parse_command-unknown_long}

abbrev idle : Client Value
idle = record {
  read_buffer = [];
  response_queue = [];
  write_buffer = none;
  drop_after_next_send = false;
  accept_events = false;
  wants_write = false;
}

-- One byte of a message has been left over.
abbrev busy : Client Value
busy = record idle { write_buffer = some (b'v' ∷ []); accept_events = true; wants_write = true }

abbrev broken : CmdResponse Value
broken = record { code = 5; content = none }

-- The program behind the server counts the calls.
abbrev actions : Actions Value ℕ
actions = record {
  on_attach = λ w display source name. (broken, num 9 ∷ [], w + 1);
  on_detach = λ w. (broken, num 9 ∷ [], w + 1);
  on_output_cycle = λ w. (broken, num 9 ∷ [], w + 1);
  on_output_switch = λ w name. (broken, num 9 ∷ [], w + 1);
  on_disconnect_client = λ w id. (broken, num 9 ∷ [], w + 1);
  on_set_desktop_name = λ w name. (broken, num 9 ∷ [], w + 1);
  on_wayvnc_exit = λ w. (broken, num 9 ∷ [], w + 1);
  clients = λ w. [];
  outputs = λ w. [];
  versions = [];
  boolean = λ b. num 0;
}

abbrev history : List (Event sample)
history =
    enqueue (num 1)
    ∷ writable again
    ∷ writable (accepted 1)
    ∷ enqueue (num 2)
    ∷ writable (accepted 2)
    ∷ []

run-InOrder_example : InOrder sample busy history (run sample busy history)
run-InOrder_example = run-InOrder sample busy history

send_ready-internal_error_lost_example :
    send_ready sample (client_enqueue_internal_error sample busy broken) (accepted 1)
    ≡ (b'v' ∷ [], none)
send_ready-internal_error_lost_example =
    send_ready-internal_error_lost sample busy broken (b'v' ∷ []) refl

abbrev detach_request : Request Value
detach_request = record { method = text "detach"; params = none; id = some (num 7) }

abbrev detach_value : Value
detach_value = sample.object ((method_key, str (text "detach")) ∷ (id_key, num 7) ∷ [])

abbrev detached : State sample actions
detached =
    (1, client_enqueue idle (response_pack sample (response_new sample 5 none (some (num 7)))) fifo)

handle_object-Answered_example : Answered sample actions idle (some (num 7)) detached.1
unfolding act notify request_parse_new string_member is_valid_id str_eq handle_object handle_request
    answer dispatch_cmd dispatch_plain enqueue_response parse_command parse_command_args
    command_parse_name find_command all_commands command_info
handle_object-Answered_example =
    handle_object-Answered sample actions 0 idle detach_value detach_request {t = detached} refl
      refl

abbrev two_bytes : Client Value
two_bytes = record idle { read_buffer = 1 ∷ 2 ∷ [] }

handle_objects-EachAnswered_example :
    EachAnswered sample actions
      (objects sample actions 3 (1 ∷ 2 ∷ []))
      two_bytes
      (handle_objects sample actions 3 (0, two_bytes))
handle_objects-EachAnswered_example =
    handle_objects-EachAnswered sample actions 3 0 two_bytes (omega arith)

enqueue_event_lem_example :
    (map (pending sample) (enqueue_event sample (idle ∷ busy ∷ []) output_added (num 0)).0
      ≡ map (after_event sample (event_message sample output_added (num 0))) (idle ∷ busy ∷ []))
    × ((enqueue_event sample (idle ∷ busy ∷ []) output_added (num 0)).1 ≡ 1)
enqueue_event_lem_example = enqueue_event_lem sample (idle ∷ busy ∷ []) output_added (num 0)

abbrev long_request : Request Value
long_request = record { method = replicate 150 b'x'; params = none; id = none }

parse_command-unknown_long_example : parse_command sample long_request ≡ none
unfolding command_parse_name find_command all_commands command_info str_eq
parse_command-unknown_long_example =
    parse_command-unknown_long sample long_request refl (omega arith)
