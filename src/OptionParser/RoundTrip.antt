-- ===== src/OptionParser/RoundTrip.antt =====
-- From the command line to `option_parser_get_value` and back, and the `char argc` of
-- `parse_short_args`.
use wayvnc.Prelude.{
  ℕ, ◌+◌, ◌≤◌, ◌<◌, ◌≡◌, refl, true, false, List, [], ◌∷◌, ◌++◌, none, some, arith, ltb,
  if◌then◌else◌, length, get_or, inl, inr, Bool-cases,
}
use wayvnc.Text.{Str, Without, take_all, truncated}
use wayvnc.OptionParser.{
  WvOption, Parser, active, is_some, named, init, append_value, find_long_option,
}
use wayvnc.OptionParser.Parse.{
  kind, long, append_and_count, parse_long_arg, no_next_arg, parse_letter_value, round, next,
  parsed, finish, parse_from, parse,
}
use wayvnc.OptionParser.Values.{is_short, answers, get_value_no_default, get_value}
use wayvnc.OptionParser.Forms.{dashes, parse_long_arg-forms}

find_long_option-named :
    (opts : List WvOption) (name : Str) (o : WvOption)
    → find_long_option opts name ≡ some o
    → named o.long_opt name ≡ true
unfolding find_long_option
find_long_option-named [] name o e = cc
find_long_option-named (opt ∷ opts) name o e = elim (Bool-cases (named opt.long_opt name)) [
  | inl hit ↦ ground (arith, hit)
  | inr miss ↦ find_long_option-named opts name o (ground arith)
]

kind-long : (name value : Str) → kind (dashes (name ++ b'=' ∷ value)) ≡ long
unfolding kind
kind-long [] value = refl
kind-long (c ∷ name) value = refl

module _ (options : List WvOption) (prog name value : Str) (opt : WvOption) where
  abbrev command_line : List Str
  command_line = prog ∷ dashes (name ++ b'=' ∷ value) ∷ []

  abbrev stored : Parser
  stored = record (init options) {
    values = record { option = opt; value = truncated 256 value } ∷ [];
  }

  append_stored : append_and_count (init options) opt value 1 ≡ (stored, some 1)
  unfolding append_and_count append_value init
  append_stored = refl

  round-stored :
      parse_long_arg (init options) command_line 1 ≡ append_and_count (init options) opt value 1
      → round (init options) command_line 1 ≡ next stored 2
  unfolding round
  round-stored e = rw (kind-long name value, round) (rw (e, append_stored) refl)

  parse-stored :
      round (init options) command_line 1 ≡ next stored 2
      → parse (init options) command_line ≡ parsed (finish stored command_line 2)
  unfolding parse parse_from
  parse-stored e = rw (e, parse_from) refl

  get_value-stored :
      is_short name ≡ false
      → named opt.long_opt name ≡ true
      → length value ≤ 255
      → get_value (finish stored command_line 2) name ≡ some value
  unfolding get_value get_value_no_default finish answers
  get_value-stored s e fits = ground (arith, take_all 255 value fits)

  -- An option of the table that takes a value, given by its long name as `--name=value`, where it all
  -- fits the buffer and the name has more than one byte and no `=` in it, is parsed
  -- without anything left over, and `option_parser_get_value` then answers the value.
  pub get_value-parse :
      Without b'=' name
      → length name + 1 + length value ≤ 255
      → find_long_option (active (init options)) name ≡ some opt
      → is_some opt.schema ≡ true
      → is_short name ≡ false
      → (p : Parser) × (parse (init options) command_line ≡ parsed p)
        × (get_value p name ≡ some value)
        × (p.remaining_argc ≡ 0)
  unfolding finish
  get_value-parse bare fits found schema s = (
    finish stored command_line 2,
    parse-stored (
        round-stored
          (parse_long_arg-forms (init options) name value opt command_line
            (prog ∷ dashes name ∷ value ∷ []) 1 bare fits found schema refl refl refl
            (omega arith)).0),
    get_value-stored s (find_long_option-named _ name opt found) (omega arith),
    refl,
  )

-- `parse_short_args` takes the next argument as a letter's value, if there are fewer than 128
-- arguments; with 128 to 255 it refuses the letter, though the next argument is there.
pub parse_letter_value-char_argc :
    (p : Parser) (argv : List Str) (i : ℕ) (opt : WvOption)
    → length argv < 256
    → i + 1 < length argv
    → parse_letter_value p argv i opt [] ≡ (
        if ltb (length argv) 128
        then append_and_count p opt (get_or argv (i + 1) []) 2
        else (p, none))
unfolding parse_letter_value no_next_arg
parse_letter_value-char_argc p argv i opt k inside = ground arith
