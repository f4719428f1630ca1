-- ===== src/CtlServer/Client.antt =====
-- A client of the control socket of src/ctl-server.c: its queue and its write buffer.
use wayvnc.Prelude.{
  ℕ, Bool, true, false, List, [], ◌∷◌, ◌++◌, Option, none, some, if◌then◌else◌, take, drop,
}
use wayvnc.Text.{Str}
use wayvnc.Json.{Json}
use wayvnc.JsonIpc.{error_key, Error, response_new, error_response_new, response_pack}

-- `struct ctl_client` without its handles. `write_buffer` holds the `write_len` bytes from
-- `write_ptr` on; `wants_write` is AML_EVENT_WRITE in the handler's event mask.
pub record Client (J : Type 0) : Type 0 where
  pub read_buffer : Str
  pub response_queue : List J
  pub write_buffer : Option Str
  pub drop_after_next_send : Bool
  pub accept_events : Bool
  pub wants_write : Bool

-- `struct cmd_response`
pub record CmdResponse (J : Type 0) : Type 0 where
  pub code : ℕ
  pub content : Option J

pub data SendPriority : Type 0 where
  fifo immediate : SendPriority

-- What `send` returns: -1 with EAGAIN, -1 with another error, or the number of bytes taken.
pub data Send : Type 0 where
  again failed : Send
  accepted : ℕ → Send

module _ {J : Type 0} where
  -- The test `json_array_size(self->response_queue) > 0 || self->write_len`.
  abbrev pub has_output : List J → Option Str → Bool
  has_output (m ∷ ms) w = true
  has_output [] none = false
  has_output [] (some []) = false
  has_output [] (some (c ∷ s)) = true

  -- `on_connection`: a new client.
  unfoldable pub new_client : Client J
  new_client = record {
    read_buffer = [];
    response_queue = [];
    write_buffer = none;
    drop_after_next_send = false;
    accept_events = false;
    wants_write = false;
  }

  unfoldable pub client_set_aml_event_mask : Client J → Client J
  client_set_aml_event_mask self = record self {
    wants_write = has_output self.response_queue self.write_buffer;
  }

  -- `client_enqueue`, whose array operations succeed.
  unfoldable pub client_enqueue : Client J → J → SendPriority → Client J
  unfolding client_set_aml_event_mask
  client_enqueue self message fifo =
      client_set_aml_event_mask
        (record self { response_queue = self.response_queue ++ message ∷ [] })
  client_enqueue self message immediate =
      client_set_aml_event_mask (record self { response_queue = message ∷ self.response_queue })

  -- From the label `send_eagain` on, with the bytes that are left; `none` is a destroyed client.
  unfoldable pub after_send : Client J → Str → Option (Client J)
  unfolding client_set_aml_event_mask
  after_send self [] =
      if self.drop_after_next_send
      then none
      else some (client_set_aml_event_mask (record self { write_buffer = none }))
  after_send self (c ∷ s) =
      some (client_set_aml_event_mask (record self { write_buffer = some (c ∷ s) }))

module _ (js : Json) where
  open js use {J, object, string, dump}

  -- `set_internal_error`
  unfoldable pub internal_error : ℕ → Str → CmdResponse J
  internal_error code message = record {
    code = code;
    content = some (object ((error_key, string message) ∷ []));
  }

  -- `client_enqueue__response`
  unfoldable pub enqueue_response : Client J → CmdResponse J → Option J → SendPriority → Client J
  enqueue_response self response id priority =
      client_enqueue self (response_pack js (response_new js response.code response.content id))
        priority

  unfoldable pub client_enqueue_error : Client J → Error J → Option J → Client J
  client_enqueue_error self e id =
      client_enqueue self (response_pack js (error_response_new js e id)) fifo

  unfoldable pub client_enqueue_internal_error : Client J → CmdResponse J → Client J
  unfolding enqueue_response
  client_enqueue_internal_error self e = record (enqueue_response self e none immediate) {
    drop_after_next_send = true;
  }

  -- The message that `send_ready` starts on, where none is under way.
  unfoldable pub load_message : Client J → Client J
  load_message self = elim self.write_buffer [
    | some w ↦ self
    | none ↦ elim self.response_queue [
      | [] ↦ self
      | m ∷ ms ↦ record self { response_queue = ms; write_buffer = some (dump m) }
    ]
  ]

  -- The bytes that went out, and the client.
  unfoldable pub send_loaded : Client J → Send → Str × Option (Client J)
  send_loaded self r = elim self.write_buffer [
    | none ↦ ([], some (client_set_aml_event_mask self))
    | some w ↦ elim r [
      | failed ↦ ([], none)
      | again ↦ ([], after_send self w)
      | accepted n ↦ (take n w, after_send self (drop n w))
    ]
  ]

  unfoldable pub send_ready : Client J → Send → Str × Option (Client J)
  send_ready self r = send_loaded (load_message self) r
