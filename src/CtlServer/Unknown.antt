-- ===== src/CtlServer/Unknown.antt =====
-- An unknown command of src/ctl-server.c, and the buffer that its error message goes through.
use wayvnc.Prelude.{◌<◌, ◌≡◌, refl, ◌++◌, none, arith, length, length-append}
use wayvnc.Json.{Json}
use wayvnc.JsonIpc.{text, Request}
use wayvnc.JsonIpc.Format.{jvprintf-long}
use wayvnc.CtlCommands.{command_parse_name}
use wayvnc.CtlServer.Commands.{unknown_command, parse_command}

-- Refusing a method of more than 110 bytes that is no command reads past the buffer of `jvprintf`.
pub parse_command-unknown_long :
    (js : Json) (r : Request js.J)
    → command_parse_name r.method ≡ none
    → 110 < length r.method
    → parse_command js r ≡ none
unfolding parse_command unknown_command
parse_command-unknown_long js r unknown long =
    rw (unknown, parse_command)
      (rw
        (
          jvprintf-long (text "Unknown command \"" ++ (r.method ++ text "\""))
              (omega (arith, length-append r.method (text "\""))),
          unknown_command,
        )
        refl)
