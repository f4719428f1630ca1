-- ===== src/Json.antt =====
-- jansson as far as src/json-ipc.c and src/ctl-server.c rely on it. The library's code is not
-- part of the program, so it is a record of its operations and of their documented laws.
pub mod Sample
use wayvnc.Prelude.{
  ℕ, ◌≡◌, ◌≤◌, ◌<◌, Bool, true, false, List, [], ◌∷◌, Option, none, some, if◌then◌else◌, length,
}
use wayvnc.Text.{Str, str_eq}

-- The last member of a key counts.
abbrev pub member {ℓ} : {A : Type ℓ} → List (Str × A) → Str → Option A
member [] key = none
member ((k, v) ∷ kvs) key = elim (member kvs key) [
  | some w ↦ some w
  | none ↦ if str_eq k key then some v else none
]

-- What `json_loadb` with JSON_DISABLE_EOF_CHECK returns: a value and the number of bytes that it
-- took, a premature end of the input, or another error with its text.
pub data Loaded (J : Type 0) : Type 0 where
  value : J → ℕ → Loaded J
  premature : Loaded J
  invalid : Str → Loaded J

pub record Json : Type 1 where
  -- json_t
  pub J : Type 0
  -- json_pack of an object from its members, and json_object_get (`none` also where the value is
  -- no object)
  pub object : List (Str × J) → J
  pub is_object : J → Bool
  pub get : J → Str → Option J
  -- json_string, which takes only UTF-8 and is NULL for other text (a user of `string` asks
  -- `is_utf8` where the text may be other), json_string_value, json_integer, json_integer_value, json_is_number
  pub is_utf8 : Str → Bool
  pub string : Str → J
  pub string_value : J → Option Str
  pub integer : ℕ → J
  pub integer_value : J → Option ℕ
  pub is_number : J → Bool
  pub array : List J → J
  -- json_dumpb with JSON_COMPACT, and json_dumps with JSON_EMBED | JSON_ENCODE_ANY
  pub dump : J → Str
  pub dumps : J → Str
  pub load : Str → Loaded J
  -- the text of the error that json_unpack_ex reports on a value
  pub unpack_error : J → Str
  pub is_object-object : (kvs : List (Str × J)) → is_object (object kvs) ≡ true
  pub get-object : (kvs : List (Str × J)) (key : Str) → get (object kvs) key ≡ member kvs key
  pub string_value-string : (s : Str) → is_utf8 s ≡ true → string_value (string s) ≡ some s
  pub integer_value-integer : (n : ℕ) → integer_value (integer n) ≡ some n
  pub is_number-integer : (n : ℕ) → is_number (integer n) ≡ true
  -- a value takes at least one byte, and no more than there are
  pub load_takes : (s : Str) (v : J) (n : ℕ) → load s ≡ value v n → (1 ≤ n) × (n ≤ length s)
