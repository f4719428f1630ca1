-- ===== src/CtlClient/Plans.antt =====
-- What the command lines of wayvncctl come to, in src/ctl-client.c and src/ctl-server.c.
use wayvnc.Prelude.{
  sym, ◌∙◌, ◌||◌, subst, if◌then◌else◌, ℕ, ◌<◌, ◌≤◌, ◌^◌, ◌≡◌, ◌≢◌, refl, Bool, true, false, List,
  Option, none, some, length, arith,
}
use wayvnc.Text.{Str}
use wayvnc.Json.{Json}
use wayvnc.JsonIpc.{text}
use wayvnc.CtlCommands.{
  CmdType, attach, detach, help, event_receive, client_list, client_disconnect, set_desktop_name,
  output_list, output_cycle, output_set, version, wayvnc_exit, event_by_name,
}
use wayvnc.CtlClient.Run.{internal_events}
use wayvnc.OptionParser.{is_some, Parser, WvOption}
use wayvnc.OptionParser.Parse.{Parsed, parsed, parse}
use wayvnc.OptionParser.Values.{get_value}
use wayvnc.OptionParser.Totality.{Ended, parse-Ended}
use wayvnc.CtlServer.Commands.{parse_command}
use wayvnc.CtlClient.{init_cmd_parser, parse_args}
use wayvnc.CtlClient.Meant.{meant, IsTaken, parse_command-parse_args, request_of}
use wayvnc.CtlClient.Command.{
  Plan, ends, sends, print_event_details, plan_request, plan_show, plan_options, plan_parsed,
  plan_command, plan, given_or_empty, command_of, is_event_receive, find_internal_event,
}

module _ (js : Json) where
  open js use {J}

  -- A status of 0 or 1, or a request for a command other than help.
  abbrev pub IsSound : Plan J → Type 0
  IsSound (ends code) = code ≤ 1
  IsSound (sends c request options) =
      (c ≢ help) × IsTaken (parse_command js request) (meant js c options)
  IsSound Plan.out_of_fuel = ⊥

  same_command :
      (n : ℕ) (c : CmdType) (p : Parser)
      → get_value p (text "help") ≡ none
      → (parse_args js n c p).1 ≡ c
  unfolding parse_args
  same_command n c p e = rw (parse_args, e) refl

  known : (b : Bool) → (if b then 0 else 1) ≤ 1
  known true = omega arith
  known false = omega arith

  if_le : (b : Bool) → (if b then 1 else 0) ≤ 1
  if_le true = omega arith
  if_le false = omega arith

  module _ (n : ℕ) (json : Bool) (c : CmdType) (h : c ≢ help) where
    plan_request-IsSound :
        (p : Parser) → get_value p (text "help") ≡ none → IsSound (plan_request js n c p)
    unfolding plan_request
    plan_request-IsSound p e = (
      λ same_help. h (sym same ∙ same_help),
      subst (λ d. IsTaken (parse_command js (request_of js n c p)) (meant js d p)) (sym same)
          (parse_command-parse_args js n c p h e),
    )
      where
        same : (parse_args js n c p).1 ≡ c
        same = same_command n c p e

    plan_show-IsSound :
        (p : Parser) (o : Option Str)
        → get_value p (text "help") ≡ none
        → IsSound (plan_show js n c p o)
    unfolding plan_show print_event_details
    plan_show-IsSound p o e = go (if is_event_receive c then o else none)
      where
        go :
            (shown : Option Str)
            → IsSound (elim shown [
              | some name ↦ ends (print_event_details name)
              | none ↦ plan_request js n c p
            ])
        go none = plan_request-IsSound p e
        go (some name) =
            known (is_some (event_by_name name) || find_internal_event internal_events name)

    plan_options-IsSound : (p : Parser) → IsSound (plan_options js n json c p)
    unfolding plan_options
    plan_options-IsSound p = go (get_value p (text "help")) refl
      where
        go :
            (o : Option Str)
            → get_value p (text "help") ≡ o
            → IsSound (elim o [
              | some _ ↦ ends (if json then 1 else 0)
              | none ↦ plan_show js n c p (get_value p (text "show"))
            ])
        go none e = plan_show-IsSound p (get_value p (text "show")) e
        go (some s) e = if_le json

    plan_parsed-IsSound :
        (options : List WvOption) (argv : List Str) (r : Parsed)
        → Ended options argv r
        → IsSound (plan_parsed js n json c r)
    unfolding plan_parsed
    plan_parsed-IsSound options argv (parsed p) e = plan_options-IsSound p
    plan_parsed-IsSound options argv (Parsed.failed p) e = omega arith
    plan_parsed-IsSound options argv Parsed.out_of_fuel e = e

  module _ (n : ℕ) (json : Bool) (argv : List Str) (some_args : 0 < length argv)
      (few : length argv < 2 ^ 64) where
    command-IsSound :
        (c : CmdType)
        → c ≢ help
        → IsSound (plan_parsed js n json c (parse (init_cmd_parser c) argv))
    unfolding init_cmd_parser
    command-IsSound c h = plan_parsed-IsSound n json c h _ argv _ (parse-Ended _ argv some_args few)

    plan_command-IsSound : (o : Option CmdType) → IsSound (plan_command js n json o argv)
    unfolding plan_command
    plan_command-IsSound none = omega arith
    plan_command-IsSound (some help) = omega arith
    plan_command-IsSound (some attach) = command-IsSound attach (λ e. cc)
    plan_command-IsSound (some detach) = command-IsSound detach (λ e. cc)
    plan_command-IsSound (some event_receive) = command-IsSound event_receive (λ e. cc)
    plan_command-IsSound (some client_list) = command-IsSound client_list (λ e. cc)
    plan_command-IsSound (some client_disconnect) = command-IsSound client_disconnect (λ e. cc)
    plan_command-IsSound (some set_desktop_name) = command-IsSound set_desktop_name (λ e. cc)
    plan_command-IsSound (some output_list) = command-IsSound output_list (λ e. cc)
    plan_command-IsSound (some output_cycle) = command-IsSound output_cycle (λ e. cc)
    plan_command-IsSound (some output_set) = command-IsSound output_set (λ e. cc)
    plan_command-IsSound (some version) = command-IsSound version (λ e. cc)
    plan_command-IsSound (some wayvnc_exit) = command-IsSound wayvnc_exit (λ e. cc)

  -- Whatever the command line, the client ends with a status of 0 or 1 before it connects, or
  -- it has a request for a command other than help. As a value, however long its text, the server
  -- takes this request for the command with the parameters of its options, of which those that are
  -- no UTF-8 are dropped, or refuses it with EINVAL where one is missing. The arguments from the
  -- command on are at least one, and fewer than 2 ^ 64.
  pub plan-IsSound :
      (n : ℕ) (json : Bool) (parent : Parser)
      → 0 < length (given_or_empty parent.remaining_argv)
      → length (given_or_empty parent.remaining_argv) < 2 ^ 64
      → IsSound (plan js n json parent)
  unfolding plan
  plan-IsSound n json parent h few =
      plan_command-IsSound n json (given_or_empty parent.remaining_argv) h few
        (command_of (get_value parent (text "command")))
