-- ===== src/JsonIpc.antt =====
-- src/json-ipc.c: requests, responses and errors of the control protocol. Reference counts are
-- left out: a value is a value.
pub mod Laws
pub mod Format
mod Tests
use Prim.Native.String.{String}
use Prim.Native.Char.{code}
use wayvnc.Prelude.{
  ℕ, ◌+◌, Bool, true, false, ◌||◌, List, [], ◌∷◌, ◌++◌, Option, none, some, leb, ltb, if◌then◌else◌,
  length, take, ◌==◌,
}
use wayvnc.Text.{Str}
use wayvnc.Json.{Json}

-- The bytes of an ASCII text.
abbrev pub text : String → Str
text String.[] = []
text (String.◌∷◌ c s) = code c ∷ text s

-- errno.h, on Linux.
abbrev pub einval : ℕ
einval = 22

abbrev pub enoent : ℕ
enoent = 2

abbrev pub eio : ℕ
eio = 5

-- `jvprintf`, given the formatted text: `vsnprintf` writes at most 127 bytes of it and a zero into
-- the buffer of 128, and `json_stringn` then reads as many bytes as the text has. `none` is a read
-- outside the buffer.
unfoldable pub jvprintf : Str → Option Str
jvprintf formatted =
    if ltb (length formatted) 128
    then some formatted
    else if length formatted == 128
    then some (take 127 formatted ++ 0 ∷ [])
    else none

-- `struct jsonipc_request` and `struct jsonipc_response`, without the reference to the whole value.
pub record Request (J : Type 0) : Type 0 where
  pub method : Str
  pub params : Option J
  pub id : Option J

pub record Response (J : Type 0) : Type 0 where
  pub code : ℕ
  pub content : Option J
  pub id : Option J

-- `struct jsonipc_error`
pub record Error (J : Type 0) : Type 0 where
  pub code : ℕ
  pub content : Option J

-- What a parsing function gives: a value, or NULL and the error that it has set.
pub data Result (J A : Type 0) : Type 0 where
  ok : A → Result J A
  err : Error J → Result J A

abbrev pub method_key : Str
method_key = text "method"

abbrev pub params_key : Str
params_key = text "params"

abbrev pub id_key : Str
id_key = text "id"

abbrev pub code_key : Str
code_key = text "code"

abbrev pub data_key : Str
data_key = text "data"

abbrev pub error_key : Str
error_key = text "error"

-- A member that `json_pack` leaves out where its value is NULL: the format `s:O*`.
abbrev pub optional {ℓ} : {A : Type ℓ} → Str → Option A → List (Str × A)
optional key none = []
optional key (some v) = (key, v) ∷ []

module _ (js : Json) where
  open js use {
    J, object, get, string, string_value, integer, integer_value, is_number, dumps, unpack_error,
  }

  -- `jsonipc_error_printf`, given the formatted text.
  unfoldable pub error_printf : ℕ → Str → Option (Error J)
  error_printf code formatted = elim (jvprintf formatted) [
    | none ↦ none
    | some s ↦ some (record { code = code; content = some (object ((error_key, string s) ∷ [])) })
  ]

  -- The string member that the formats `s:s` ask for.
  unfoldable pub string_member : J → Str → Option Str
  string_member root key = elim (get root key) [ none ↦ none | some v ↦ string_value v ]

  unfoldable pub integer_member : J → Str → Option ℕ
  integer_member root key = elim (get root key) [ none ↦ none | some v ↦ integer_value v ]

  unfoldable pub is_valid_id : Option J → Bool
  is_valid_id none = true
  is_valid_id (some id) = elim (string_value id) [ some _ ↦ true | none ↦ is_number id ]

  -- `goto failure` with the error that is set; `none` is the fault of `jvprintf`.
  abbrev pub failure : {A : Type 0} → Option (Error J) → Option (Result J A)
  failure none = none
  failure (some e) = some (err e)

  abbrev dumped : Option J → Str
  dumped none = []
  dumped (some id) = dumps id

  unfoldable pub invalid_id : Option J → Option (Error J)
  invalid_id id = error_printf einval (text "Invalid ID \"" ++ dumped id ++ text "\"")

  unfoldable pub request_parse_new : J → Option (Result J (Request J))
  request_parse_new root = elim (string_member root method_key) [
    | none ↦ failure (error_printf einval (unpack_error root))
    | some method ↦
        if is_valid_id (get root id_key)
        then some
            (ok (record { method = method; params = get root params_key; id = get root id_key }))
        else failure (invalid_id (get root id_key))
  ]

  unfoldable pub response_parse_new : J → Option (Result J (Response J))
  response_parse_new root = elim (integer_member root code_key) [
    | none ↦ failure (error_printf einval (unpack_error root))
    | some code ↦
        if is_valid_id (get root id_key)
        then some (ok (record { code = code; content = get root data_key; id = get root id_key }))
        else failure (invalid_id (get root id_key))
  ]

  -- `jsonipc_request_new` takes its number from the static counter `request_id`.
  unfoldable pub request_new : ℕ → Str → Option J → Request J × ℕ
  request_new request_id method params =
      (record { method = method; params = params; id = some (integer request_id) }, request_id + 1)

  unfoldable pub event_new : Str → Option J → Request J
  event_new method params = record { method = method; params = params; id = none }

  unfoldable pub request_pack : Request J → J
  request_pack self = object (
      (method_key, string self.method)
      ∷ (optional params_key self.params ++ optional id_key self.id))

  unfoldable pub response_new : ℕ → Option J → Option J → Response J
  response_new code content id = record { code = code; content = content; id = id }

  unfoldable pub error_response_new : Error J → Option J → Response J
  unfolding response_new
  error_response_new e id = response_new e.code e.content id

  unfoldable pub response_pack : Response J → J
  response_pack self =
      object (
        (code_key, integer self.code) ∷ (optional id_key self.id ++ optional data_key self.content))
