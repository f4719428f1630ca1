-- ===== src/JsonIpc/Laws.antt =====
-- Packing and parsing of src/json-ipc.c.
use wayvnc.Prelude.{◌≡◌, refl, ◌∙◌, true, List, ◌∷◌, ◌++◌, Option, none, some}
use wayvnc.Text.{Str, str_eq}
use wayvnc.Json.{Json, member}
use wayvnc.JsonIpc.{
  Request, Response, ok, method_key, params_key, id_key, code_key, data_key, optional,
  string_member, integer_member, is_valid_id, request_parse_new, response_parse_new, request_pack,
  response_pack,
}

-- The members of packed values, by key.
request_members : {A : Type 0} → A → Option A → Option A → List (Str × A)
request_members k a b = (method_key, k) ∷ (optional params_key a ++ optional id_key b)

response_members : {A : Type 0} → A → Option A → Option A → List (Str × A)
response_members k a b = (code_key, k) ∷ (optional id_key a ++ optional data_key b)

record Members {A : Type 0} (kvs : List (Str × A)) (k₁ k₂ k₃ : Str) (v : A) (a b : Option A)
    : Type 0 where
  first : member kvs k₁ ≡ some v
  second : member kvs k₂ ≡ a
  third : member kvs k₃ ≡ b

request-Members :
    {A : Type 0} (k : A) (a b : Option A)
    → Members (request_members k a b) method_key params_key id_key k a b
unfolding request_members str_eq
request-Members k none none = record { first = refl; second = refl; third = refl }
request-Members k none (some _) = record { first = refl; second = refl; third = refl }
request-Members k (some _) none = record { first = refl; second = refl; third = refl }
request-Members k (some _) (some _) = record { first = refl; second = refl; third = refl }

response-Members :
    {A : Type 0} (k : A) (a b : Option A)
    → Members (response_members k a b) code_key id_key data_key k a b
unfolding response_members str_eq
response-Members k none none = record { first = refl; second = refl; third = refl }
response-Members k none (some _) = record { first = refl; second = refl; third = refl }
response-Members k (some _) none = record { first = refl; second = refl; third = refl }
response-Members k (some _) (some _) = record { first = refl; second = refl; third = refl }

module _ (js : Json) where
  open js use {
    J, object, get, string, string_value, integer, integer_value, get-object, string_value-string,
    integer_value-integer, is_number-integer,
  }

  get-request_pack :
      (r : Request J) (key : Str)
      → get (request_pack js r) key ≡ member (request_members (string r.method) r.params r.id) key
  unfolding request_pack request_members
  get-request_pack r key = get-object _ key

  string_member-request_pack :
      (r : Request J)
      → js.is_utf8 r.method ≡ true
      → string_member js (request_pack js r) method_key ≡ some r.method
  unfolding string_member
  string_member-request_pack r utf8 =
      let m = request-Members (string r.method) r.params r.id in
      rw (get-request_pack r method_key ∙ m.first, string_member)
        (string_value-string r.method utf8)

  -- A request whose method is UTF-8 and whose id is absent, a string or a number is parsed back from its packed form.
  pub request_parse_new-request_pack :
      (r : Request J)
      → js.is_utf8 r.method ≡ true
      → is_valid_id js r.id ≡ true
      → request_parse_new js (request_pack js r) ≡ some (ok r)
  unfolding request_parse_new
  request_parse_new-request_pack r utf8 valid =
      let m = request-Members (string r.method) r.params r.id in
      rw (string_member-request_pack r utf8, request_parse_new)
        (rw (get-request_pack r params_key ∙ m.second, get-request_pack r id_key ∙ m.third)
          (rw valid refl))

  get-response_pack :
      (r : Response J) (key : Str)
      → get (response_pack js r) key ≡ member (response_members (integer r.code) r.id r.content) key
  unfolding response_pack response_members
  get-response_pack r key = get-object _ key

  integer_member-response_pack :
      (r : Response J) → integer_member js (response_pack js r) code_key ≡ some r.code
  unfolding integer_member
  integer_member-response_pack r =
      let m = response-Members (integer r.code) r.id r.content in
      rw (get-response_pack r code_key ∙ m.first, integer_member) (integer_value-integer r.code)

  -- A response whose id is absent, a string or a number is parsed back from its packed form.
  pub response_parse_new-response_pack :
      (r : Response J)
      → is_valid_id js r.id ≡ true
      → response_parse_new js (response_pack js r) ≡ some (ok r)
  unfolding response_parse_new
  response_parse_new-response_pack r valid =
      let m = response-Members (integer r.code) r.id r.content in
      rw (integer_member-response_pack r, response_parse_new)
        (rw (get-response_pack r id_key ∙ m.second, get-response_pack r data_key ∙ m.third)
          (rw valid refl))
