-- ===== src/Addresses.antt =====
-- The addresses of src/main.c: what the configured text makes the server listen on. `atoi` and the
-- outcomes of listening are parameters.
pub mod Forms
mod Tests
use wayvnc.Prelude.{
  ℕ, zero, suc, ◌+◌, ◌%◌, ◌^◌, Bool, true, false, not, ◌&&◌, Option, none, some, List, [], ◌∷◌,
  ◌==◌, ltb, if◌then◌else◌, drop,
}
use wayvnc.Prelude.Int.{ℤ}
use wayvnc.Pixels.{to_uint32}
use wayvnc.Text.{Str, cut_at, truncated}
use wayvnc.JsonIpc.{text}

-- `enum socket_type`
pub data SocketType : Type 0 where
  tcp unix from_fd : SocketType

-- The values of neatvnc's `enum nvnc_stream_type` that are used here.
pub data StreamType : Type 0 where
  normal websocket : StreamType

unfoldable pub is_prefix : Str → Str → Bool
is_prefix [] str = true
is_prefix (c ∷ prefix) [] = false
is_prefix (c ∷ prefix) (d ∷ str) = c == d && is_prefix prefix str

abbrev pub colon : ℕ
colon = 58

abbrev pub open_bracket : ℕ
open_bracket = 91

abbrev pub close_bracket : ℕ
close_bracket = 93

unfoldable pub count_colons_in_string : Str → ℕ
count_colons_in_string [] = 0
count_colons_in_string (c ∷ str) =
    let n = count_colons_in_string str in if c == colon then suc n else n

unfoldable pub parse_address_prefix : Str → SocketType → StreamType → Str × SocketType × StreamType
unfolding is_prefix
parse_address_prefix addr socket_type stream_type =
    if is_prefix (text "tcp:") addr
    then (drop 4 addr, tcp, normal)
    else if is_prefix (text "unix:") addr
    then (drop 5 addr, unix, normal)
    else if is_prefix (text "fd:") addr
    then (drop 3 addr, from_fd, normal)
    else if is_prefix (text "ws:") addr
    then (drop 3 addr, tcp, websocket)
    else if is_prefix (text "ws-tcp:") addr
    then (drop 7 addr, tcp, websocket)
    else if is_prefix (text "ws-unix:") addr
    then (drop 8 addr, unix, websocket)
    else if is_prefix (text "ws-fd:") addr
    then (drop 6 addr, from_fd, websocket)
    else (addr, socket_type, stream_type)

-- What the server is told to listen on.
pub data Listen : Type 0 where
  listen_tcp : Str → (port : ℕ) → StreamType → Listen
  listen_unix : Str → StreamType → Listen
  listen_fd : ℤ → StreamType → Listen

-- `cfg.port`, or DEFAULT_PORT.
abbrev pub configured : ℕ → ℕ
configured zero = 5900
configured (suc port) = suc port

abbrev pub space : ℕ
space = 32

-- The text up to the first space, and the texts between the later ones.
abbrev pub split : Str → Str × List Str
split [] = ([], [])
split (c ∷ s) = let r = split s in if c == space then ([], r.0 ∷ r.1) else (c ∷ r.0, r.1)

abbrev pub without_empty : List Str → List Str
without_empty [] = []
without_empty ([] ∷ ss) = without_empty ss
without_empty ((c ∷ s) ∷ ss) = (c ∷ s) ∷ without_empty ss

-- What `strtok` gives, one after the other, with the space as the delimiter.
unfoldable pub tokens : Str → List Str
tokens s = let r = split s in without_empty (r.0 ∷ r.1)

module _ (atoi : Str → ℤ) where
  -- The conversion of `atoi` to `uint16_t`.
  unfoldable pub port_of : Str → ℕ
  unfolding to_uint32
  port_of s = to_uint32 (atoi s) % 2 ^ 16

  -- What follows the closing bracket.
  unfoldable pub after_bracket : Str → ℕ
  unfolding port_of
  after_bracket [] = 0
  after_bracket (c ∷ s) = if c == colon then port_of s else 0

  unfoldable pub bracketed : Str → Str × Option Str → Str × ℕ
  unfolding after_bracket
  bracketed addr (before, none) = (addr, 0)
  bracketed addr (before, some rest) = (drop 1 before, after_bracket rest)

  unfoldable pub at_colon : Str → Str × Option Str → Str × ℕ
  unfolding port_of
  at_colon addr (before, none) = (addr, 0)
  at_colon addr (before, some rest) = (before, port_of rest)

  unfoldable pub unbracketed : Str → Str × ℕ
  unfolding at_colon cut_at count_colons_in_string
  unbracketed addr =
      if ltb 1 (count_colons_in_string addr) then (addr, 0) else at_colon addr (cut_at colon addr)

  -- The address and the port; zero where the port is left as it was.
  unfoldable pub parse_address_port : Str → Str × ℕ
  unfolding unbracketed bracketed cut_at
  parse_address_port [] = unbracketed []
  parse_address_port (c ∷ s) =
      if c == open_bracket
      then bracketed (c ∷ s) (cut_at close_bracket (c ∷ s))
      else unbracketed (c ∷ s)

  abbrev pub with_port : (default_port : ℕ) → StreamType → Str × ℕ → Listen
  with_port default_port stream_type (addr, port) =
      listen_tcp addr (if port == 0 then default_port else port) stream_type

  unfoldable pub listen_on : (default_port : ℕ) → Str × SocketType × StreamType → Listen
  unfolding parse_address_port
  listen_on default_port (addr, tcp, stream_type) =
      with_port default_port stream_type (parse_address_port addr)
  listen_on default_port (addr, unix, stream_type) = listen_unix addr stream_type
  listen_on default_port (addr, from_fd, stream_type) = listen_fd (atoi addr) stream_type

  -- What `add_listening_address` asks of neatvnc.
  unfoldable pub listening_address : Str → (port : ℕ) → SocketType → StreamType → Listen
  unfolding parse_address_prefix listen_on
  listening_address address port socket_type stream_type =
      listen_on port (parse_address_prefix (truncated 256 address) socket_type stream_type)

  module _ (listens : Listen → Bool) where
    -- The call that is made, and whether it succeeds.
    unfoldable pub add_listening_address : Str → ℕ → SocketType → StreamType → Listen × Bool
    unfolding listening_address
    add_listening_address address port socket_type stream_type =
        let call = listening_address address port socket_type stream_type in (call, listens call)

    abbrev pub first_then : Listen × Bool → List Listen × Bool → List Listen × Bool
    first_then (call, true) rest = (call ∷ rest.0, rest.1)
    first_then (call, false) rest = (call ∷ [], false)

    unfoldable pub add_each : List Str → ℕ → SocketType → StreamType → List Listen × Bool
    unfolding add_listening_address
    add_each [] port socket_type stream_type = ([], true)
    add_each (tok ∷ toks) port socket_type stream_type =
        first_then (add_listening_address tok port socket_type stream_type)
          (add_each toks port socket_type stream_type)

    -- `apply_addresses_from_config`
    unfoldable pub apply_addresses :
        (address : Option Str) → (port : ℕ) → SocketType → StreamType → List Listen × Bool
    unfolding add_listening_address add_each tokens
    apply_addresses none port socket_type stream_type =
        first_then
          (add_listening_address (text "127.0.0.1") (configured port) socket_type stream_type)
          ([], true)
    apply_addresses (some addresses) port socket_type stream_type =
        add_each (tokens addresses) (configured port) socket_type stream_type
