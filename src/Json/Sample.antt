-- ===== src/Json/Sample.antt =====
-- A small implementation of the JSON operations, to try the theorems on: its text is one number of
-- one byte for each value.
use wayvnc.Prelude.{
  ℕ, ◌≡◌, refl, ◌≤◌, ap, Bool, true, false, List, [], ◌∷◌, Option, none, some, length, arith,
}
use wayvnc.Text.{Str}
use wayvnc.Json.{Json, Loaded, value, premature, member}

mutual
  pub data Value : Type 0 where
    str : Str → Value
    num : ℕ → Value
    obj : Members → Value
    arr : Members → Value

  pub data Members : Type 0 where
    end : Members
    entry : Str → Value → Members → Members

abbrev pub build : List (Str × Value) → Members
build [] = end
build ((k, v) ∷ kvs) = entry k v (build kvs)

abbrev pub entries : Members → List (Str × Value)
entries end = []
entries (entry k v ms) = (k, v) ∷ entries ms

pub entries-build : (kvs : List (Str × Value)) → entries (build kvs) ≡ kvs
entries-build [] = refl
entries-build ((k, v) ∷ kvs) = ap (◌∷◌ (k, v)) (entries-build kvs)

abbrev pub items : List Value → Members
items [] = end
items (v ∷ vs) = entry [] v (items vs)

abbrev pub get : Value → Str → Option Value
get (obj ms) key = member (entries ms) key
get (str s) key = none
get (num n) key = none
get (arr ms) key = none

abbrev pub is_object : Value → Bool
is_object (obj ms) = true
is_object (str s) = false
is_object (num n) = false
is_object (arr ms) = false

abbrev pub string_value : Value → Option Str
string_value (str s) = some s
string_value (obj ms) = none
string_value (num n) = none
string_value (arr ms) = none

abbrev pub number_value : Value → Option ℕ
number_value (num n) = some n
number_value (str s) = none
number_value (obj ms) = none
number_value (arr ms) = none

abbrev pub is_number : Value → Bool
is_number (num n) = true
is_number (str s) = false
is_number (obj ms) = false
is_number (arr ms) = false

abbrev pub load : Str → Loaded Value
load [] = premature
load (c ∷ s) = value (num c) 1

pub load_takes : (s : Str) (v : Value) (n : ℕ) → load s ≡ value v n → (1 ≤ n) × (n ≤ length s)
load_takes [] v n e = cc
load_takes (c ∷ s) v n e = ground arith

abbrev pub sample : Json
sample = record {
  J = Value;
  object = λ kvs. obj (build kvs);
  is_object = is_object;
  get = get;
  is_utf8 = λ s. true;
  string = str;
  string_value = string_value;
  integer = num;
  integer_value = number_value;
  is_number = is_number;
  array = λ vs. arr (items vs);
  dump = λ v. b'v' ∷ b'v' ∷ [];
  dumps = λ v. b'v' ∷ [];
  load = load;
  unpack_error = λ v. b'e' ∷ [];
  is_object-object = λ kvs. refl;
  get-object = λ kvs key. ap (λ l. member l key) (entries-build kvs);
  string_value-string = λ s e. refl;
  integer_value-integer = λ n. refl;
  is_number-integer = λ n. refl;
  load_takes = load_takes;
}
