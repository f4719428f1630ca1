-- ===== src/CtlCommands.antt =====
-- src/ctl-commands.c: the commands and the events of the control socket, and their names.
pub mod Names
mod Tests
use wayvnc.Prelude.{ℕ, suc, Bool, true, false, List, [], ◌∷◌, Option, none, some, if◌then◌else◌}
use wayvnc.Text.{Str, str_eq}
use wayvnc.JsonIpc.{text}

-- `enum cmd_type`, and `enum event_type` without EVT_UNKNOWN, which is `none`.
pub data CmdType : Type 0 where
  attach detach help event_receive client_list client_disconnect set_desktop_name output_list
        output_cycle output_set version wayvnc_exit :
      CmdType

pub data EventType : Type 0 where
  capture_changed client_connected client_disconnected detached output_added output_removed :
      EventType

-- `struct cmd_param_info` and `struct cmd_info`.
pub record CmdParam : Type 0 where
  pub name : Str
  pub description : Str
  pub schema : Option Str
  pub positional : Bool

pub record CmdInfo : Type 0 where
  pub name : Str
  pub description : Str
  pub params : List CmdParam

abbrev param : Str → Str → Option Str → Bool → CmdParam
param n d s p = record { name = n; description = d; schema = s; positional = p }

-- `ctl_command_list`, at each designator. CMD_UNKNOWN has no entry.
unfoldable pub command_info : CmdType → CmdInfo
command_info attach = record {
  name = text "attach";
  description = text "Attach to a running wayland compositor";
  params =
      (param (text "display") (text "Display name") (some (text "<name>")) true)
      ∷ (param (text "desktop") (text "Capture all outputs") none false)
      ∷ (param (text "output") (text "Capture a specific output") (some (text "<name>")) false)
      ∷ (param (text "toplevel") (text "Capture a toplevel") (some (text "<identifier>")) false)
      ∷ [];
}
command_info detach = record {
  name = text "detach";
  description = text "Detach from the wayland compositor";
  params = [];
}
command_info help = record {
  name = text "help";
  description = text "List all commands and events, or show usage of a specific command or event";
  params =
      (param (text "command") (text "The command to show (optional)") (some (text "<name>")) false)
      ∷ (param (text "event") (text "The event to show (optional)") (some (text "<name>")) false)
      ∷ [];
}
command_info event_receive = record {
  name = text "event-receive";
  description = text "Register to begin receiving asynchronous events from wayvnc";
  params = [];
}
command_info client_list = record {
  name = text "client-list";
  description = text "Return a list of all currently connected VNC sessions";
  params = [];
}
command_info client_disconnect = record {
  name = text "client-disconnect";
  description = text "Disconnect a VNC session";
  params =
      (param (text "id") (text "The ID of the client to disconnect") (some (text "<integer>")) true)
      ∷ [];
}
command_info set_desktop_name = record {
  name = text "set-desktop-name";
  description = text "Update the desktop name";
  params =
      (param (text "desktop-name") (text "The desktop name") (some (text "<string>")) true) ∷ [];
}
command_info output_list = record {
  name = text "output-list";
  description = text "Return a list of all currently detected Wayland outputs";
  params = [];
}
command_info output_cycle = record {
  name = text "output-cycle";
  description =
      text
        "Cycle the actively captured output to the next available output, wrapping through all outputs.";
  params = [];
}
command_info output_set = record {
  name = text "output-set";
  description = text "Switch the actively captured output";
  params =
      (param (text "output-name") (text "The specific output name to capture")
        (some (text "<string>")) true)
      ∷ [];
}
command_info version = record {
  name = text "version";
  description = text "Query the version of the wayvnc process";
  params = [];
}
command_info wayvnc_exit = record {
  name = text "wayvnc-exit";
  description = text "Disconnect all clients and shut down wayvnc";
  params = [];
}

-- `ctl_event_list`.
unfoldable pub event_info : EventType → CmdInfo
event_info capture_changed = record {
  name = text "capture-changed";
  description = text "Sent by wayvnc when the captured output is changed";
  params =
      (param (text "output-name") (text "The name of the output now being captured")
        (some (text "<string>")) false)
      ∷ [];
}
event_info client_connected = record {
  name = text "client-connected";
  description = text "Sent by wayvnc when a new VNC client connects";
  params =
      (param (text "id") (text "A unique identifier for this client") (some (text "<integer>"))
        false)
      ∷ (param (text "connection_count")
          (text "The total number of connected VNC clients including this one.")
          (some (text "<integer>")) false)
      ∷ (param (text "address") (text "The IP address of this client (may be null)")
          (some (text "<name|ip>")) false)
      ∷ (param (text "username") (text "The username used to authentice this client (may be null).")
          (some (text "<string>")) false)
      ∷ [];
}
event_info client_disconnected = record {
  name = text "client-disconnected";
  description = text "Sent by waynvc when a VNC client disconnects";
  params =
      (param (text "id") (text "A unique identifier for this client") (some (text "<integer>"))
        false)
      ∷ (param (text "connection_count")
          (text "The total number of connected VNC clients not including this one.")
          (some (text "<integer>")) false)
      ∷ (param (text "address") (text "The IP address of this client (may be null)")
          (some (text "<name|ip>")) false)
      ∷ (param (text "username") (text "The username used to authentice this client (may be null).")
          (some (text "<string>")) false)
      ∷ [];
}
event_info detached = record {
  name = text "detached";
  description = text "Sent after detaching from compositor";
  params = [];
}
event_info output_added = record {
  name = text "output-added";
  description = text "Sent when an output is added by the compositor";
  params = (param (text "name") (text "Output name") (some (text "<string>")) false) ∷ [];
}
event_info output_removed = record {
  name = text "output-removed";
  description = text "Sent when an output is removed by the compositor";
  params = (param (text "name") (text "Output name") (some (text "<string>")) false) ∷ [];
}

-- The indices of the two lists, in the order of the enumerations.
unfoldable pub all_commands : List CmdType
all_commands =
    attach ∷ detach ∷ help ∷ event_receive ∷ client_list ∷ client_disconnect ∷ set_desktop_name
    ∷ output_list ∷ output_cycle ∷ output_set ∷ version ∷ wayvnc_exit ∷ []

unfoldable pub all_events : List EventType
all_events =
    capture_changed ∷ client_connected ∷ client_disconnected ∷ detached ∷ output_added
    ∷ output_removed ∷ []

-- The loop of `ctl_command_parse_name`; `none` is CMD_UNKNOWN.
unfoldable pub find_command : List CmdType → Str → Option CmdType
find_command [] name = none
find_command (c ∷ cs) name =
    if str_eq name (command_info c).name then some c else find_command cs name

unfoldable pub command_parse_name : Str → Option CmdType
command_parse_name [] = none
command_parse_name (c ∷ s) = find_command all_commands (c ∷ s)

unfoldable pub find_event : List EventType → Str → Option EventType
find_event [] name = none
find_event (e ∷ es) name = if str_eq name (event_info e).name then some e else find_event es name

unfoldable pub event_parse_name : Str → Option EventType
event_parse_name [] = none
event_parse_name (c ∷ s) = find_event all_events (c ∷ s)

-- `ctl_command_by_name` and `ctl_event_by_name`.
unfoldable pub command_by_name : Str → Option CmdInfo
command_by_name name = elim (command_parse_name name) [
  | none ↦ none
  | some c ↦ some (command_info c)
]

unfoldable pub event_by_name : Str → Option CmdInfo
event_by_name name = elim (event_parse_name name) [ none ↦ none | some e ↦ some (event_info e) ]
