-- ===== src/CtlCommands/Names.antt =====
-- The names of commands and events stand for one command or event each.
use wayvnc.Prelude.{◌≡◌, refl, ◌↔◌, ◌∙◌, ap, List, [], ◌∷◌, some, arith, Bool-cases, inl, inr}
use wayvnc.Text.{Str, str_eq, str_eq_sound}
use wayvnc.CtlCommands.{
  CmdType, attach, EventType, capture_changed, command_info, event_info, all_commands, all_events,
  find_command, command_parse_name, find_event, event_parse_name,
}

find_command_sound :
    (cs : List CmdType) (s : Str) (c : CmdType)
    → find_command cs s ≡ some c
    → s ≡ (command_info c).name
unfolding find_command
find_command_sound [] s c e = cc
find_command_sound (d ∷ cs) s c e = elim (Bool-cases (str_eq s (command_info d).name)) [
  | inl hit ↦ str_eq_sound s _ hit ∙ ap (λ t. (command_info t).name) (ground arith)
  | inr miss ↦ find_command_sound cs s c (ground arith)
]

find_event_sound :
    (es : List EventType) (s : Str) (e : EventType)
    → find_event es s ≡ some e
    → s ≡ (event_info e).name
unfolding find_event
find_event_sound [] s e h = cc
find_event_sound (d ∷ es) s e h = elim (Bool-cases (str_eq s (event_info d).name)) [
  | inl hit ↦ str_eq_sound s _ hit ∙ ap (λ t. (event_info t).name) (ground arith)
  | inr miss ↦ find_event_sound es s e (ground arith)
]

command_parse_name_sound :
    (s : Str) (c : CmdType) → command_parse_name s ≡ some c → s ≡ (command_info c).name
unfolding command_parse_name
command_parse_name_sound [] c e = cc
command_parse_name_sound (b ∷ s) c e = find_command_sound all_commands (b ∷ s) c e

event_parse_name_sound :
    (s : Str) (e : EventType) → event_parse_name s ≡ some e → s ≡ (event_info e).name
unfolding event_parse_name
event_parse_name_sound [] e h = cc
event_parse_name_sound (b ∷ s) e h = find_event_sound all_events (b ∷ s) e h

command_parse_name-name : (c : CmdType) → command_parse_name (command_info c).name ≡ some c
unfolding command_parse_name find_command all_commands command_info str_eq
command_parse_name-name attach = refl
command_parse_name-name _ = refl

event_parse_name-name : (e : EventType) → event_parse_name (event_info e).name ≡ some e
unfolding event_parse_name find_event all_events event_info str_eq
event_parse_name-name capture_changed = refl
event_parse_name-name _ = refl

-- A text is parsed to a command exactly when it is that command's name in the list.
pub command_parse_name_iff :
    (s : Str) (c : CmdType) → (command_parse_name s ≡ some c) ↔ (s ≡ (command_info c).name)
command_parse_name_iff s c =
    (command_parse_name_sound s c, λ e. ap command_parse_name e ∙ command_parse_name-name c)

-- A text is parsed to an event exactly when it is that event's name in the list.
pub event_parse_name_iff :
    (s : Str) (e : EventType) → (event_parse_name s ≡ some e) ↔ (s ≡ (event_info e).name)
event_parse_name_iff s e =
    (event_parse_name_sound s e, λ h. ap event_parse_name h ∙ event_parse_name-name e)
