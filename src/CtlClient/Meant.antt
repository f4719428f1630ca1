-- ===== src/CtlClient/Meant.antt =====
-- What src/ctl-server.c takes a request of src/ctl-client.c for.
use wayvnc.Prelude.{ℕ, ◌≡◌, ◌≢◌, refl, sym, true, List, [], Option, none, some, subst}
use wayvnc.Text.{Str, str_eq, truncated}
use wayvnc.Json.{Json}
use wayvnc.JsonIpc.{
  text, einval, Result, ok, err, Request, request_new, error_printf, jvprintf, failure,
}
use wayvnc.CtlCommands.{
  CmdType, attach, detach, help, event_receive, client_list, client_disconnect, set_desktop_name,
  output_list, output_cycle, output_set, version, wayvnc_exit, CmdParam, command_info,
  command_parse_name, find_command, all_commands,
}
use wayvnc.OptionParser.{Parser}
use wayvnc.OptionParser.Values.{get_value}
use wayvnc.CtlServer.Commands.{
  Cmd, cmd_attach, cmd_help, cmd_set_output, cmd_disconnect_client, cmd_set_desktop_name, cmd,
  ImageSourceType, desktop, output, toplevel, unspec, optional_string, parse_command, one_string,
  cmd_attach_new, unpack_sources, source_of, cmd_set_output_new, cmd_disconnect_client_new,
  cmd_set_desktop_name_new,
}
use wayvnc.CtlServer.Commands
use wayvnc.CtlClient.{given, parse_args}
use wayvnc.CtlClient.Given.{given_value, has_param, string_member-given, optional_string-given}

-- What the options ask for; `none` where a parameter that is not optional has no value that is
-- UTF-8. The texts go into buffers of the server.
abbrev pub source : Str → Option Str → Option Str → Option Str → Cmd
source display (some _) o t = cmd_attach display desktop []
source display none (some o) t = cmd_attach display output (truncated 128 o)
source display none none (some t) = cmd_attach display toplevel (truncated 128 t)
source display none none none = cmd_attach display unspec []

abbrev pub with_value : Option Str → (Str → Cmd) → Option Cmd
with_value none make = none
with_value (some s) make = some (make s)

unfoldable pub meant : Json → CmdType → Parser → Option Cmd
meant js attach p = with_value (given_value js p (text "display")) (λ d.
    source (truncated 128 d) (given_value js p (text "desktop")) (given_value js p (text "output"))
      (given_value js p (text "toplevel")))
meant js output_set p =
    with_value (given_value js p (text "output-name")) (λ s. cmd_set_output (truncated 64 s))
meant js client_disconnect p =
    with_value (given_value js p (text "id")) (λ s. cmd_disconnect_client (truncated 64 s))
meant js set_desktop_name p =
    with_value (given_value js p (text "desktop-name"))
      (λ s. cmd_set_desktop_name (truncated 256 s))
meant js c p = some (cmd c)

-- The server takes the request for the command, or refuses it with EINVAL where there is none.
abbrev pub IsTaken : {J : Type 0} → Option (Result J Cmd) → Option Cmd → Type 0
IsTaken (some (ok c)) (some d) = c ≡ d
IsTaken (some (err e)) none = e.code ≡ einval
IsTaken _ _ = ⊥

module _ (js : Json) where
  open js use {J, object, string_value}

  one_string-IsTaken :
      (p : Parser) (ps : List CmdParam) (key message : Str) (make : Str → Cmd)
      → has_param ps key ≡ true
      → IsTaken {J = J} (failure js (error_printf js einval message)) none
      → IsTaken
          (one_string js (some (object (given js p ps))) key message make)
          (with_value (given_value js p key) make)
  unfolding one_string
  one_string-IsTaken p ps key message make h r =
      rw (one_string, string_member-given js p ps key h) (go (given_value js p key))
    where
      go :
          (o : Option Str)
          → IsTaken {J = J}
              (elim o [
                | none ↦ failure js (error_printf js einval message)
                | some s ↦ some (ok (make s))
              ])
              (with_value o make)
      go none = r
      go (some s) = refl

  sources_given :
      (p : Parser)
      → unpack_sources js (object (given js p (command_info attach).params))
        ≡ some (
          given_value js p (text "desktop"),
          given_value js p (text "output"),
          given_value js p (text "toplevel"),
        )
  unfolding unpack_sources command_info str_eq
  sources_given p =
      let ps = (command_info attach).params in
      rw (unpack_sources, optional_string-given js p ps (text "desktop") refl)
        (rw (optional_string-given js p ps (text "output") refl)
          (rw (optional_string-given js p ps (text "toplevel") refl) refl))

  attach-IsTaken :
      (p : Parser)
      → IsTaken
          (cmd_attach_new js (some (object (given js p (command_info attach).params))))
          (meant js attach p)
  unfolding cmd_attach_new meant command_info str_eq error_printf jvprintf source_of
  attach-IsTaken p =
      rw (string_member-given js p ps (text "display") refl, cmd_attach_new)
        (taken (given_value js p (text "display")))
    where
      ps : List CmdParam
      ps = (command_info attach).params

      missing : Option (Result J Cmd)
      missing = failure js (error_printf js einval (text "Missing display name"))

      chosen :
          (s : Str) (d o t : Option Str)
          → IsTaken {J = J}
              (some (ok (source_of js s (d, o, t))))
              (some (source (truncated 128 s) d o t))
      chosen s (some d) o t = refl
      chosen s none (some o) t = refl
      chosen s none none (some t) = refl
      chosen s none none none = refl

      taken :
          (a : Option Str)
          → IsTaken {J = J}
              (elim a [
                | none ↦ missing
                | some display ↦ elim (unpack_sources js (object (given js p ps))) [
                  | none ↦ missing
                  | some sources ↦ some (ok (source_of js display sources))
                ]
              ])
              (with_value a (λ d.
                source
                  (truncated 128 d)
                  (given_value js p (text "desktop"))
                  (given_value js p (text "output"))
                  (given_value js p (text "toplevel"))))
      taken none = refl
      taken (some s) = rw (sources_given p) (
          chosen s (given_value js p (text "desktop")) (given_value js p (text "output"))
            (given_value js p (text "toplevel")))

  abbrev pub request_of : ℕ → CmdType → Parser → Request J
  request_of n c p = (parse_args js n c p).0.0

  -- A request that the client makes of the parameters of a command, without --help, is taken for
  -- this command with its parameters; one that lacks a parameter is refused with EINVAL.
  pub parse_command-parse_args :
      (n : ℕ) (c : CmdType) (p : Parser)
      → c ≢ help
      → get_value p (text "help") ≡ none
      → IsTaken (parse_command js (request_of n c p)) (meant js c p)
  unfolding parse_args request_new parse_command Commands.parse_command_args command_parse_name
      find_command all_commands command_info str_eq meant error_printf jvprintf cmd_set_output_new
      cmd_disconnect_client_new cmd_set_desktop_name_new
  parse_command-parse_args n c p h e =
      subst (λ r. IsTaken (parse_command js r) (meant js c p)) (sym same) (go c h)
    where
      made : CmdType → Request J
      made c = record {
        method = (command_info c).name;
        params = some (object (given js p (command_info c).params));
        id = some (js.integer n);
      }

      same : request_of n c p ≡ made c
      same = rw (request_of, parse_args, e) refl

      go : (c : CmdType) → c ≢ help → IsTaken (parse_command js (made c)) (meant js c p)
      go attach h = attach-IsTaken p
      go help h = absurd (h refl)
      go output_set h =
          one_string-IsTaken p (command_info output_set).params (text "output-name")
            (text "Missing output name") (λ s. cmd_set_output (truncated 64 s)) refl refl
      go client_disconnect h =
          one_string-IsTaken p (command_info client_disconnect).params (text "id")
            (text "Missing client id") (λ s. cmd_disconnect_client (truncated 64 s)) refl refl
      go set_desktop_name h =
          one_string-IsTaken p (command_info set_desktop_name).params (text "desktop-name")
            (text "Missing desktop name") (λ s. cmd_set_desktop_name (truncated 256 s)) refl refl
      go detach h = refl
      go version h = refl
      go event_receive h = refl
      go client_list h = refl
      go output_list h = refl
      go output_cycle h = refl
      go wayvnc_exit h = refl
