-- ===== src/CtlClient/Tests.antt =====
-- The client of src/ctl-client.c over a parser that takes two messages.
use wayvnc.Prelude.{
  ℕ, ◌≤◌, ◌≡◌, ◌≢◌, refl, List, [], ◌∷◌, ◌++◌, none, some, arith, ◌+◌, length, true, false,
  if◌then◌else◌, ◌==◌, drop, ap,
}
use wayvnc.Text.{Str, str_eq}
use wayvnc.Json.{Json, Loaded, value, premature}
use wayvnc.Json.Sample.{sample, Value, num, get}
use wayvnc.JsonIpc.{text, Request, request_pack, response_pack, response_new, is_valid_id}
use wayvnc.OptionParser.{Parser, init, WvOption}
use wayvnc.CtlCommands.{command_parse_name, find_command, all_commands, command_info, detach}
use wayvnc.CtlServer.Commands.{cmd, parse_command, parse_command_args}
use wayvnc.CtlServer.Client.{new_client}
use wayvnc.CtlServer.Input.{received}
use wayvnc.CtlServer.Receive.{Actions, alive, recv_ready, dispatch_cmd, dispatch_plain, act, notify}
use wayvnc.CtlServer.Delivery.{pending}
use wayvnc.CtlClient.Reading.{Link, Poll, interrupted, readable, read_one_object}
use wayvnc.CtlClient.Whole.{Delivers, read_one_object-Delivers}
use wayvnc.CtlClient.Framed.{IsPart, IsFramed}
use wayvnc.CtlClient.Run.{Attempt, print_single_command, event_loop}
use wayvnc.CtlClient.Ends.{HasFuel, event_loop-HasFuel}
use wayvnc.CtlClient.Prints.{Prints}
use wayvnc.CtlClient.Command.{plan}
use wayvnc.CtlClient.Plans.{IsSound, plan-IsSound}
use wayvnc.CtlClient.Together.{IsStatus, client_after, code-IsStatus}

-- The request and the response; they are written as `qq` and `rr`.
abbrev request : Request Value
request = record { method = text "detach"; params = none; id = some (num 7) }

abbrev question : Value
question = request_pack sample request

abbrev reply_value : Value
reply_value = response_pack sample (response_new sample 5 none (some (num 7)))

abbrev dump : Value → Str
dump v = elim (get v (text "method")) [ none ↦ b'r' ∷ b'r' ∷ [] | some _ ↦ b'q' ∷ b'q' ∷ [] ]

abbrev load : Str → Loaded Value
load [] = premature
load (c ∷ []) = premature
load (c ∷ d ∷ s) = if c == b'r' then value reply_value 2 else value question 2

load_takes : (s : Str) (v : Value) (n : ℕ) → load s ≡ value v n → (1 ≤ n) × (n ≤ length s)
load_takes [] v n e = cc
load_takes (c ∷ []) v n e = cc
load_takes (c ∷ d ∷ s) v n e = ground arith

abbrev two : Json
two = record sample { dump = dump; load = load; load_takes = load_takes }

part : (x : ℕ) (a b : Str) → a ++ b ≡ x ∷ x ∷ [] → a ≢ [] → b ≢ [] → IsPart (load a)
part x [] b e na nb = absurd (na refl)
part x (c ∷ []) b e na nb = tt
part x (c ∷ d ∷ []) b e na nb = absurd (nb (ap (drop 2) e))
part x (c ∷ d ∷ f ∷ a) b e na nb = absurd (nonempty (ap (drop 2) e))
  where
    nonempty : f ∷ (a ++ b) ≢ []
    nonempty e = cc

question_framed : IsFramed two question
unfolding request_pack str_eq
question_framed = record { whole = λ s. refl; part = part b'q' }

reply_framed : IsFramed two reply_value
unfolding response_pack response_new str_eq
reply_framed = record { whole = λ s. refl; part = part b'r' }

abbrev half_read : Link
half_read = record { read_buffer = b'q' ∷ []; wait_for_events = true; stream = b'q' ∷ b'r' ∷ [] }

abbrev rounds : List Poll
rounds = interrupted false ∷ readable 1 ∷ []

read_one_object-Delivers_example :
    Delivers two question
      (b'r' ∷ [])
      question_framed
      half_read
      rounds
      (read_one_object two half_read rounds)
unfolding request_pack str_eq
read_one_object-Delivers_example =
    read_one_object-Delivers two question (b'r' ∷ []) question_framed half_read rounds (omega arith)
      refl (omega arith) (refl, refl, (omega arith, tt))

abbrev attempt : Attempt
attempt = record {
  connects = true;
  send_fails = none;
  stream = b'r' ∷ b'r' ∷ [];
  polls = readable 5 ∷ [];
  sleeps = true;
}

event_loop-HasFuel_example :
    HasFuel two request (event_loop two request true none half_read rounds (attempt ∷ attempt ∷ []))
event_loop-HasFuel_example =
    event_loop-HasFuel two request true none half_read rounds (attempt ∷ attempt ∷ [])

abbrev command_option : WvOption
command_option = record {
  short_opt = 0;
  long_opt = none;
  schema = none;
  help = none;
  default_ = none;
  positional = some (text "command");
  is_subcommand = true;
  is_repeating = false;
}

abbrev parent : Parser
parent = record (init (command_option ∷ [])) {
  values = record { option = command_option; value = text "attach" } ∷ [];
  remaining_argc = 2;
  remaining_argv = some (text "attach" ∷ text "wayland-1" ∷ []);
}

plan-IsSound_example : IsSound two (plan two 3 false parent)
plan-IsSound_example = plan-IsSound two 3 false parent (omega arith) (omega arith)

-- The action behind the server fails with the code 5.
abbrev failing : Actions Value ℕ
failing = record {
  on_attach = λ w display source name. (record { code = 5; content = none }, [], w);
  on_detach = λ w. (record { code = 5; content = none }, [], w + 1);
  on_output_cycle = λ w. (record { code = 5; content = none }, [], w);
  on_output_switch = λ w name. (record { code = 5; content = none }, [], w);
  on_disconnect_client = λ w id. (record { code = 5; content = none }, [], w);
  on_set_desktop_name = λ w name. (record { code = 5; content = none }, [], w);
  on_wayvnc_exit = λ w. (record { code = 5; content = none }, [], w);
  clients = λ w. [];
  outputs = λ w. [];
  versions = [];
  boolean = λ b. num 0;
}

code-IsStatus_example :
    (recv_ready two failing (0, new_client) (received (b'q' ∷ b'q' ∷ []))
      ≡ alive (1, client_after two failing 0 request (cmd detach)))
    × (pending two (client_after two failing 0 request (cmd detach)) ≡ b'r' ∷ b'r' ∷ [])
    × IsStatus two failing 0 request (cmd detach) (
        print_single_command two detach request none
          (record { read_buffer = []; wait_for_events = false; stream = b'r' ∷ b'r' ∷ [] })
          (readable 1 ∷ readable 1 ∷ []))
unfolding request_pack response_pack response_new str_eq parse_command parse_command_args
    command_parse_name find_command all_commands command_info dispatch_cmd dispatch_plain act notify
    is_valid_id new_client
code-IsStatus_example =
    code-IsStatus two failing 0 request (cmd detach) detach reply_framed
      (readable 1 ∷ readable 1 ∷ []) refl (omega arith) refl refl refl (omega arith) (omega arith)
      (omega arith, (omega arith, tt))
