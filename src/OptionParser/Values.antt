-- ===== src/OptionParser/Values.antt =====
-- Asking for values, as src/option-parser.c answers.
use wayvnc.Prelude.{
  ℕ, ◌-◌, Bool, true, false, ◌&&◌, ◌||◌, not, List, [], ◌∷◌, Option, none, some, ◌==◌,
  if◌then◌else◌,
}
use wayvnc.Text.{Str}
use wayvnc.OptionParser.{
  WvOption, OptionValue, Parser, active, named, find_short_option, find_long_option,
  find_positional_option_by_name,
}

-- `name[0] && !name[1]`
unfoldable pub is_short : Str → Bool
is_short [] = false
is_short (c ∷ []) = true
is_short (c ∷ d ∷ s) = false

-- `name[0]`
unfoldable pub first : Str → ℕ
first [] = 0
first (c ∷ s) = c

-- The tests of `option_parser_get_value_no_default` on one stored value.
unfoldable pub answers : WvOption → Str → Bool
answers opt name =
    (if is_short name
      then not (opt.short_opt == 0) && (opt.short_opt == first name)
      else named opt.long_opt name)
    || named opt.positional name

unfoldable pub find_value : List OptionValue → Str → Option Str
find_value [] name = none
find_value (v ∷ vs) name = if answers v.option name then some v.value else find_value vs name

unfoldable pub get_value_no_default : Parser → Str → Option Str
unfolding find_value
get_value_no_default self name = find_value self.values name

unfoldable pub default_of : Option WvOption → Option Str
default_of none = none
default_of (some opt) = opt.default_

-- The part of `option_parser_get_value` for an option without a value.
unfoldable pub get_default : List WvOption → Str → Option Str
get_default opts name =
    if is_short name
    then default_of (find_short_option opts (first name))
    else elim (find_long_option opts name) [
      | some opt ↦ opt.default_
      | none ↦ default_of (find_positional_option_by_name opts name)
    ]

unfoldable pub get_value : Parser → Str → Option Str
get_value self name = elim (get_value_no_default self name) [
  | some value ↦ some value
  | none ↦ get_default (active self) name
]

-- `option_parser_get_value_with_offset`: the loop counts `index` down.
unfoldable pub find_value_with_offset : List OptionValue → Str → ℕ → Option Str
find_value_with_offset [] name index = none
find_value_with_offset (v ∷ vs) name index =
    if named v.option.positional name && v.option.is_repeating
    then if index == 0 then some v.value else find_value_with_offset vs name (index - 1)
    else find_value_with_offset vs name index

unfoldable pub get_value_with_offset : Parser → Str → ℕ → Option Str
unfolding find_value_with_offset
get_value_with_offset self name index = find_value_with_offset self.values name index
