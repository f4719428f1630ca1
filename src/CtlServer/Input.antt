-- ===== src/CtlServer/Input.antt =====
-- Reading requests from the socket of a client of src/ctl-server.c.
use wayvnc.Prelude.{
  ℕ, ◌-◌, [], ◌∷◌, ◌++◌, Option, none, some, ◌==◌, if◌then◌else◌, length, take, drop,
}
use wayvnc.Text.{Str}
use wayvnc.Json.{Json, Loaded, value, premature, invalid}
use wayvnc.JsonIpc.{text, einval, eio}
use wayvnc.CtlServer.Client.{Client, CmdResponse, internal_error}

-- What `recv` returns: -1 with EAGAIN, -1 with another error, 0, or bytes of the stream.
pub data Recv : Type 0 where
  would_block closed : Recv
  failed : Str → Recv
  received : Str → Recv

-- What `client_read` returns: 0, -1 with the error that it has set if any, or a number of bytes.
pub data Read (J : Type 0) : Type 0 where
  no_data : Read J
  fatal : Option (CmdResponse J) → Read J
  data_ : Client J → Read J

-- What `client_next_object` returns: a value, NULL, or NULL and an error.
pub data Next (J : Type 0) : Type 0 where
  object_ : J → Client J → Next J
  no_object : Next J
  bad : CmdResponse J → Next J

module _ (js : Json) where
  open js use {J, object, string, array, integer, load}

  abbrev pub buffer_size : ℕ
  buffer_size = 512

  unfoldable pub client_read : Client J → Recv → Read J
  client_read self r =
      let bufferspace = buffer_size - length self.read_buffer in
      if bufferspace == 0
      then fatal (some (internal_error js eio (text "Buffer overflow")))
      else elim r [
        | would_block ↦ no_data
        | failed message ↦ fatal (some (internal_error js eio (text "Read failed: " ++ message)))
        | closed ↦ fatal none
        | received bytes ↦
            data_ (record self { read_buffer = self.read_buffer ++ take bufferspace bytes })
      ]

  -- The text of the error goes through printf formatting and is truncated by the source, with its
  -- bytes as the format; it is taken literally here.
  unfoldable pub next_from : Client J → Loaded J → Next J
  next_from self (value root n) =
      object_ root (record self { read_buffer = drop n self.read_buffer })
  next_from self premature = no_object
  next_from self (invalid message) = bad (internal_error js einval message)

  unfoldable pub client_next_object : Client J → Next J
  client_next_object self = elim self.read_buffer [
    | [] ↦ no_object
    | c ∷ s ↦ next_from self (load (c ∷ s))
  ]
