-- ===== src/CtlClient/Reading.antt =====
-- Reading a value from the socket, as `read_one_object` of src/ctl-client.c does it.
use wayvnc.Prelude.{
  ℕ, ◌-◌, Bool, true, false, ◌&&◌, not, List, [], ◌∷◌, ◌++◌, ◌==◌, if◌then◌else◌, length, take,
  drop, min,
}
use wayvnc.Text.{Str}
use wayvnc.Json.{Json, Loaded, value, premature, invalid}
use wayvnc.JsonIpc.{einval}

-- errno.h, on Linux.
abbrev pub eintr : ℕ
eintr = 4

abbrev pub eagain : ℕ
eagain = 11

abbrev pub emsgsize : ℕ
emsgsize = 90

abbrev pub econnreset : ℕ
econnreset = 104

abbrev pub read_size : ℕ
read_size = 1024

-- `struct ctl_client` as far as reading goes, with the bytes that the server has sent and that are
-- still in the socket.
pub record Link : Type 0 where
  pub read_buffer : Str
  pub wait_for_events : Bool
  pub stream : Str

-- What happens in one round of the loop of `read_one_object`: `poll` is interrupted, by a signal
-- that runs `stop_loop` or by another, fails otherwise or times out, `recv` fails, or it takes at
-- most the given number of bytes. Printing leaves `errno` as it is.
pub data Poll : Type 0 where
  interrupted : (stopped : Bool) → Poll
  poll_failed : (errno : ℕ) → Poll
  timed_out : Poll
  recv_failed : (errno : ℕ) → Poll
  readable : (n : ℕ) → Poll

-- What `json_from_buffer` returns: a value and what is left of the buffer, or NULL and `errno`.
pub data Found (J : Type 0) : Type 0 where
  found : J → Str → Found J
  nothing : (errno : ℕ) → Found J

-- What `read_one_object` returns, with the rounds that are left, or that it still waits.
pub data OneObject (J : Type 0) : Type 0 where
  object_ : J → Link → List Poll → OneObject J
  null : (errno : ℕ) → Link → List Poll → OneObject J
  waiting : Link → OneObject J

-- src/util.c
unfoldable pub advance_read_buffer : Str → ℕ → Str
advance_read_buffer buffer advance_by = drop advance_by buffer

-- The bytes that `recv` takes.
abbrev pub capacity : Link → ℕ → ℕ
capacity self n = min n (read_size - length self.read_buffer)

module _ (js : Json) where
  open js use {J, load}

  unfoldable pub found_in : Str → Loaded J → Found J
  found_in buffer (value root n) = found root (advance_read_buffer buffer n)
  found_in buffer premature = nothing (if length buffer == read_size then emsgsize else eagain)
  found_in buffer (invalid _) = nothing einval

  unfoldable pub json_from_buffer : Str → Found J
  json_from_buffer [] = nothing eagain
  json_from_buffer (c ∷ s) = found_in (c ∷ s) (load (c ∷ s))

  -- The loop `while (!root)`.
  unfoldable pub read_loop : Link → List Poll → OneObject J
  read_loop self [] = waiting self
  read_loop self (interrupted stopped ∷ ps) = elim (self.wait_for_events && not stopped) [
    | true ↦ read_loop self ps
    | false ↦ null eintr (record self { wait_for_events = false }) ps
  ]
  read_loop self (poll_failed errno ∷ ps) = null errno self ps
  read_loop self (timed_out ∷ ps) = null eagain self ps
  read_loop self (recv_failed errno ∷ ps) = null errno self ps
  read_loop self (readable n ∷ ps) = elim (take (capacity self n) self.stream) [
    | [] ↦ null econnreset self ps
    | c ∷ s ↦
        let buffer = self.read_buffer ++ c ∷ s in
        let stream = drop (capacity self n) self.stream in
        elim (json_from_buffer buffer) [
          | found root left ↦ object_ root (record self { read_buffer = left; stream = stream }) ps
          | nothing errno ↦ elim (errno == eagain) [
            | true ↦ read_loop (record self { read_buffer = buffer; stream = stream }) ps
            | false ↦ null errno (record self { read_buffer = buffer; stream = stream }) ps
          ]
        ]
  ]

  unfoldable pub read_one_object : Link → List Poll → OneObject J
  read_one_object self ps = elim (json_from_buffer self.read_buffer) [
    | found root left ↦ object_ root (record self { read_buffer = left }) ps
    | nothing errno ↦ elim (errno == eagain) [
      | true ↦ read_loop self ps
      | false ↦ null errno self ps
    ]
  ]
