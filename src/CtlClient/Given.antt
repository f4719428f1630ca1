-- ===== src/CtlClient/Given.antt =====
-- The members of a request of src/ctl-client.c that the options give.
use wayvnc.Prelude.{
  ◌≡◌, refl, Bool, true, false, ◌||◌, List, [], ◌∷◌, Option, none, some, Bool-cases, inl, inr,
  Option-cases, if◌then◌else◌, arith,
}
use wayvnc.Text.{Str, str_eq, str_eq_sound}
use wayvnc.Json.{Json, member}
use wayvnc.JsonIpc.{einval, Result, ok, err, string_member}
use wayvnc.CtlCommands.{CmdParam}
use wayvnc.OptionParser.{Parser}
use wayvnc.OptionParser.Values.{get_value}
use wayvnc.CtlServer.Commands.{optional_string}
use wayvnc.CtlClient.{given, utf8_only}

abbrev pub has_param : List CmdParam → Str → Bool
has_param [] key = false
has_param (p ∷ ps) key = str_eq p.name key || has_param ps key

-- The value of an option, where it can be a member.
abbrev pub given_value : Json → Parser → Str → Option Str
given_value js p key = utf8_only js (get_value p key)

module _ (js : Json) where
  open js use {J, object, string, get, get-object, string_value, string_value-string}

  abbrev pub as_string : Option Str → Option J
  as_string none = none
  as_string (some s) = some (string s)

  pub member-given :
      (p : Parser) (ps : List CmdParam) (key : Str)
      → member (given js p ps) key
        ≡ (if has_param ps key then as_string (given_value js p key) else none)
  unfolding given
  member-given p [] key = refl
  member-given p (q ∷ qs) key = elim (Bool-cases (str_eq q.name key)) [
    | inl e ↦ elim (Option-cases (given_value js p key)) [
      | inl n ↦ ground (arith, member-given p qs key, str_eq_sound q.name key e)
      | inr (s, n) ↦ ground (arith, member-given p qs key, str_eq_sound q.name key e)
    ]
    | inr e ↦ elim (Option-cases (given_value js p q.name)) [
      | inl n ↦ rw (n, e, given) (member-given p qs key)
      | inr (s, n) ↦ ground (arith, member-given p qs key)
    ]
  ]

  pub string_member-given :
      (p : Parser) (ps : List CmdParam) (key : Str)
      → has_param ps key ≡ true
      → string_member js (object (given js p ps)) key ≡ given_value js p key
  unfolding string_member
  string_member-given p ps key h =
      rw (string_member, get-object (given js p ps) key, member-given p ps key, h)
        (back (get_value p key))
    where
      back :
          (o : Option Str)
          → elim (as_string (utf8_only js o)) [ none ↦ none | some v ↦ string_value v ]
            ≡ utf8_only js o
      back none = refl
      back (some s) = elim (Bool-cases (js.is_utf8 s)) [
        | inl e ↦ rw e (string_value-string s e)
        | inr e ↦ rw e refl
      ]

  pub optional_string-given :
      (p : Parser) (ps : List CmdParam) (key : Str)
      → has_param ps key ≡ true
      → optional_string js (object (given js p ps)) key ≡ ok (given_value js p key)
  unfolding optional_string
  optional_string-given p ps key h =
      rw (optional_string, get-object (given js p ps) key, member-given p ps key, h)
        (back (get_value p key))
    where
      back :
          (o : Option Str)
          → ◌≡◌ {A = Result J (Option Str)}
              (elim (as_string (utf8_only js o)) [
                | none ↦ ok none
                | some v ↦ elim (string_value v) [
                  | none ↦ err (record { code = einval; content = none })
                  | some s ↦ ok (some s)
                ]
              ])
              (ok (utf8_only js o))
      back none = refl
      back (some s) = elim (Bool-cases (js.is_utf8 s)) [
        | inl e ↦ rw e (rw (string_value-string s e) refl)
        | inr e ↦ rw e refl
      ]
