-- ===== src/Clipboard.antt =====
-- src/data-control.c: the clipboard. The functions for the two protocols, wlr and ext, are the same
-- but for their names; the lines for wlr are followed.
pub mod Transfer
pub mod Offers
mod Tests
use wayvnc.Prelude.{
  ℕ, ◌+◌, ◌-◌, Bool, true, false, ◌&&◌, not, List, [], ◌∷◌, ◌++◌, Option, none, some, ◌==◌,
  if◌then◌else◌, length, take, drop, min,
}
use wayvnc.Text.{Str, str_eq}
use wayvnc.JsonIpc.{text}

-- What `read` does in `on_receive`: EAGAIN, another error, or the bytes that are there (0 of them at
-- the end), and whether the buffer can then grow.
pub data Read : Type 0 where
  again failed : Read
  bytes : Str → (grows : Bool) → Read

-- A receive context: its buffer, or the cut text that it has passed on before it was destroyed; or
-- it is used and destroyed again after it has been destroyed.
pub data Receiving : Type 0 where
  waiting : Str → Receiving
  finished : Option Str → Receiving
  destroyed_twice : Receiving

abbrev pub cut_text : Str → Option Str
cut_text [] = none
cut_text (c ∷ s) = some (c ∷ s)

unfoldable pub on_receive : Str → Read → Receiving
on_receive buffer again = waiting buffer
on_receive buffer failed = destroyed_twice
on_receive buffer (bytes s grows) = elim (take 4096 s) [
  | [] ↦ finished (cut_text buffer)
  | c ∷ t ↦ waiting (if grows then buffer ++ c ∷ t else buffer)
]

unfoldable pub receive_all : Str → List Read → Receiving
receive_all buffer [] = waiting buffer
receive_all buffer (r ∷ rs) = elim (on_receive buffer r) [
  | waiting b ↦ receive_all b rs
  | finished t ↦ finished t
  | destroyed_twice ↦ destroyed_twice
]

-- `struct send_context`; `length` is the length of the data.
pub record SendContext : Type 0 where
  pub content : Str
  pub index : ℕ

-- What `write` does: EAGAIN, another error, or it takes at most so many bytes.
pub data Write : Type 0 where
  again failed : Write
  accepted : ℕ → Write

-- The context while there is one; all has been written; the rest is given up.
pub data Sending : Type 0 where
  active : SendContext → Sending
  complete broken : Sending

-- What goes into the pipe, and what follows.
unfoldable pub on_send : SendContext → Write → Str × Sending
on_send ctx again = ([], active ctx)
on_send ctx failed = ([], broken)
on_send ctx (accepted n) =
    let left = drop ctx.index ctx.content in
    (
      take n left,
      (if length (take n left) == length ctx.content - ctx.index
          then complete
          else active (record ctx { index = ctx.index + length (take n left) })),
    )

unfoldable pub custom_mime_type_data : Str
custom_mime_type_data = text "wayvnc"

-- `data_control_source_send_common` from its first `write` on.
unfoldable pub first_write : Str → Write → Str × Sending
first_write d again = ([], active (record { content = d; index = 0 }))
first_write d failed = ([], broken)
first_write d (accepted n) = (
  take n d,
  (if length (take n d) == length d
      then complete
      else active (record { content = drop (length (take n d)) d; index = 0 })),
)

-- `struct data_control` as far as offers and selections go; `none` for NULL.
pub record Control : Type 0 where
  pub offer : Option ℕ
  pub is_own_offer : Bool
  pub mime_type : Str
  pub custom_mime_type_name : Str
  pub cb_data : Option Str
  pub selection : Option ℕ
  pub primary_selection : Option ℕ

-- `none` is a failed assertion. The text is not empty.
unfoldable pub source_send : Control → Str → (nonblocking : Bool) → Write → Option (Str × Sending)
unfolding first_write
source_send self mime nonblocking w = elim self.cb_data [
  | none ↦ none
  | some d ↦
      let content = if str_eq mime self.custom_mime_type_name then custom_mime_type_data else d in
      some (if nonblocking then first_write content w else ([], broken))
]

-- `data_control_offer_wlr`: a type of the offer `id`.
unfoldable pub data_control_offer : ℕ → Str → Control → Control
data_control_offer id mime self =
    if str_eq mime self.custom_mime_type_name
    then record self { is_own_offer = true }
    else elim self.offer [
      | some _ ↦ self
      | none ↦ if str_eq mime self.mime_type then record self { offer = some id } else self
    ]

abbrev pub is_offer : Option ℕ → ℕ → Bool
is_offer none id = false
is_offer (some o) id = o == id

-- What an event of the device does: the offer that is received from, the offer that is destroyed,
-- and the state.
pub record Effect : Type 0 where
  pub receives : Option ℕ
  pub destroys : Option ℕ
  pub after : Control

-- `data_control_device_selection_wlr`, and the same for the primary selection.
unfoldable pub data_control_device_selection : Option ℕ → Control → Effect
data_control_device_selection none self = elim self.offer [
  | none ↦ record { receives = none; destroys = none; after = self }
  | some o ↦ record {
    receives = none;
    destroys = some o;
    after = record self { offer = none; is_own_offer = false };
  }
]
data_control_device_selection (some id) self = record {
  receives = if is_offer self.offer id && not self.is_own_offer then some id else none;
  destroys = some id;
  after = record self { offer = none; is_own_offer = false };
}

unfoldable pub source_cancelled : ℕ → Control → Control
source_cancelled id self = record self {
  selection = if is_offer self.selection id then none else self.selection;
  primary_selection = if is_offer self.primary_selection id then none else self.primary_selection;
}

-- `set_selection_wlr`, given the source that is created, if one is.
unfoldable pub set_selection : Option ℕ → Control → Option ℕ × Control
set_selection none self = (none, record self { cb_data = none })
set_selection (some id) self = (some id, self)

-- `data_control_to_clipboard`, given the two sources.
unfoldable pub to_clipboard : Str → Option ℕ → Option ℕ → Control → Control
unfolding set_selection
to_clipboard [] first second self = self
to_clipboard (c ∷ s) first second self =
    let (a, u) = set_selection first (record self { cb_data = some (c ∷ s) }) in
    let (b, v) = set_selection second (record u { selection = a }) in
    record v { primary_selection = b }
