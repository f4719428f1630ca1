-- ===== src/OptionParser/Parse.antt =====
-- Parsing the command line, as src/option-parser.c does it.
use wayvnc.Prelude.{
  ℕ, zero, suc, ◌+◌, ◌-◌, ◌%◌, ◌^◌, Bool, true, false, List, [], ◌∷◌, Option, none, some, ◌==◌, ltb,
  leb, if◌then◌else◌, length, drop, get_or,
}
use wayvnc.Text.{Str, cut_at, truncated}
use wayvnc.OptionParser.{
  WvOption, Parser, active, is_some, find_long_option, find_short_option, find_positional_option,
  append_value,
}

-- What a parsing function returns: the parser as it leaves it, and its value, `none` for -1.
abbrev pub Outcome : Type 0
Outcome = Parser × Option ℕ

-- The value of an option that has none on the command line.
abbrev pub one : Str
one = b'1' ∷ []

unfoldable pub append_and_count : Parser → WvOption → Str → ℕ → Outcome
append_and_count self opt value count = elim (append_value self opt value) [
  | none ↦ (self, none)
  | some self' ↦ (self', some count)
]

-- The rest of `parse_long_arg` once the option is found: `after_eq` is what follows `=`.
unfoldable pub parse_long_value : Parser → List Str → ℕ → WvOption → Option Str → Outcome
parse_long_value self argv index opt (some value) =
    if is_some opt.schema
    then append_and_count self opt value 1
    else append_and_count self opt one 1
parse_long_value self argv index opt none =
    if is_some opt.schema
    then if leb (length argv) (index + 1)
      then (self, none)
      else append_and_count self opt (get_or argv (index + 1) []) 2
    else append_and_count self opt one 1

-- `parse_long_arg`, given the name and what follows `=`.
unfoldable pub parse_long_parts : Parser → List Str → ℕ → Str × Option Str → Outcome
parse_long_parts self argv index (name, eq) = elim (find_long_option (active self) name) [
  | none ↦ (self, none)
  | some opt ↦ parse_long_value self argv index opt eq
]

-- The name and what follows `=` go through a buffer of 256 bytes.
unfoldable pub parse_long_arg : Parser → List Str → ℕ → Outcome
parse_long_arg self argv index =
    parse_long_parts self argv index (cut_at b'=' (truncated 256 (drop 2 (get_or argv index []))))

-- `index + 1 >= argc` with the parameter `char argc`, on a machine whose `char` is signed: an
-- `argc` of 128 to 255 reads as a negative number.
unfoldable pub no_next_arg : ℕ → ℕ → Bool
no_next_arg index argc = let c = argc % 2 ^ 8 in if ltb c 128 then leb c (index + 1) else true

-- The value of an option with a letter, in the branch with a schema: `tail` is what follows the
-- letter in its argument.
unfoldable pub parse_letter_value : Parser → List Str → ℕ → WvOption → Str → Outcome
parse_letter_value self argv index opt [] =
    if no_next_arg index (length argv)
    then (self, none)
    else append_and_count self opt (get_or argv (index + 1) []) 2
parse_letter_value self argv index opt (c ∷ rest) =
    append_and_count self opt (if c == b'=' then rest else c ∷ rest) 1

-- The loop of `parse_short_args`, over the letters that are left.
unfoldable pub parse_letters : Parser → List Str → ℕ → Str → Outcome
parse_letters self argv index [] = (self, some 1)
parse_letters self argv index (name ∷ tail) = elim (find_short_option (active self) name) [
  | none ↦ (self, none)
  | some opt ↦
      if is_some opt.schema
      then parse_letter_value self argv index opt tail
      else elim (append_value self opt one) [
        | none ↦ (self, none)
        | some self' ↦ parse_letters self' argv index tail
      ]
]

unfoldable pub parse_short_args : Parser → List Str → ℕ → Outcome
parse_short_args self argv index = parse_letters self argv index (drop 1 (get_or argv index []))

-- `parse_positional_arg`: 0 ends the parsing at a subcommand.
unfoldable pub parse_positional_arg : Parser → List Str → ℕ → Outcome
parse_positional_arg self argv i = elim (find_positional_option (active self) self.position) [
  | none ↦ (self, some 1)
  | some opt ↦ elim (append_value self opt (get_or argv i [])) [
    | none ↦ (self, none)
    | some self' ↦ (
      (if opt.is_repeating then self' else record self' { position = self'.position + 1 }),
      some (if opt.is_subcommand then 0 else 1),
    )
  ]
]

-- What one round of the loop of `option_parser_parse` does with `argv[i]`.
pub data Round : Type 0 where
  stop : Parser → ℕ → Round
  fail : Parser → Round
  next : Parser → ℕ → Round

-- `rc < 0` fails, and `i += rc` goes on.
abbrev pub advance : ℕ → Outcome → Round
advance i (self, none) = fail self
advance i (self, some rc) = next self (i + rc)

-- The same with `if (rc == 0) break` in between.
abbrev pub advance_positional : ℕ → Outcome → Round
advance_positional i (self, none) = fail self
advance_positional i (self, some rc) = if rc == 0 then stop self i else next self (i + rc)

pub data Kind : Type 0 where
  end_of_options long short positional : Kind

-- The tests on the first three bytes.
unfoldable pub kind : Str → Kind
kind [] = positional
kind (c ∷ []) = if c == b'-' then short else positional
kind (c ∷ d ∷ []) = if c == b'-' then (if d == b'-' then end_of_options else short) else positional
kind (c ∷ d ∷ e ∷ s) = if c == b'-' then (if d == b'-' then long else short) else positional

unfoldable pub round : Parser → List Str → ℕ → Round
round self argv i = elim (kind (get_or argv i [])) [
  | end_of_options ↦ stop self (i + 1)
  | long ↦ advance i (parse_long_arg self argv i)
  | short ↦ advance i (parse_short_args self argv i)
  | positional ↦ advance_positional i (parse_positional_arg self argv i)
]

-- The parser after a return of 0 or -1; the loop has fuel.
pub data Parsed : Type 0 where
  parsed : Parser → Parsed
  failed : Parser → Parsed
  out_of_fuel : Parsed

-- `remaining_argc` is a `size_t`.
unfoldable pub finish : Parser → List Str → ℕ → Parser
finish self argv i =
    let left = (length argv + 2 ^ 64 - i) % 2 ^ 64 in
    record self {
      remaining_argc = left;
      remaining_argv = if left == 0 then self.remaining_argv else some (drop i argv);
    }

unfoldable pub parse_from : ℕ → Parser → List Str → ℕ → Parsed
parse_from zero self argv i = out_of_fuel
parse_from (suc fuel) self argv i = elim (ltb i (length argv)) [
  | false ↦ parsed (finish self argv i)
  | true ↦ elim (round self argv i) [
    | stop self' i' ↦ parsed (finish self' argv i')
    | fail self' ↦ failed self'
    | next self' i' ↦ parse_from fuel self' argv i'
  ]
]

-- Each round takes at least one argument, so one unit of fuel for each is enough.
unfoldable pub parse : Parser → List Str → Parsed
parse self argv = parse_from (suc (length argv)) self argv 1
