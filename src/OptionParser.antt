-- ===== src/OptionParser.antt =====
-- src/option-parser.c: command line options. Printing the usage is left out. An option is
-- looked at through a record, `argv` is the list of its strings, and `argc` its length.
pub mod Parse
pub mod Values
pub mod Totality
pub mod Invariant
pub mod Outcomes
pub mod Forms
pub mod RoundTrip
mod Tests
use wayvnc.Prelude.{
  ℕ, zero, suc, ◌+◌, ◌-◌, Bool, true, false, ◌&&◌, ◌||◌, not, List, [], ◌∷◌, Option, none, some,
  ◌==◌, ltb, leb, ◌++◌, if◌then◌else◌, take, length,
}
use wayvnc.Text.{Str, str_eq, truncated}

-- `struct wv_option`; NULL is `none`, and a `short_opt` of 0 is no letter.
pub record WvOption : Type 0 where
  pub short_opt : ℕ
  pub long_opt : Option Str
  pub schema : Option Str
  pub help : Option Str
  pub default_ : Option Str
  pub positional : Option Str
  pub is_subcommand : Bool
  pub is_repeating : Bool

-- `struct wv_option_value`
pub record OptionValue : Type 0 where
  pub option : WvOption
  pub value : Str

-- `struct option_parser`. The name only serves the usage text; `n_values` is the length of `values`.
pub record Parser : Type 0 where
  pub options : List WvOption
  pub n_opts : ℕ
  pub values : List OptionValue
  pub position : ℕ
  pub remaining_argc : ℕ
  pub remaining_argv : Option (List Str)

abbrev pub is_some {ℓ} : {A : Type ℓ} → Option A → Bool
is_some none = false
is_some (some a) = true

-- The number of options before the one with no name of any kind.
unfoldable pub count_options : List WvOption → ℕ
count_options [] = 0
count_options (opt ∷ opts) =
    if not (opt.short_opt == 0) || is_some opt.long_opt || is_some opt.positional
    then suc (count_options opts)
    else 0

unfoldable pub init : List WvOption → Parser
init options = record {
  options = options;
  n_opts = count_options options;
  values = [];
  position = 0;
  remaining_argc = 0;
  remaining_argv = none;
}

-- The options that the loops `for (i = 0; i < self->n_opts; ++i)` run over.
abbrev pub active : Parser → List WvOption
active self = take self.n_opts self.options

-- The test `name && strcmp(name, wanted) == 0`.
abbrev pub named : Option Str → Str → Bool
named none wanted = false
named (some name) wanted = str_eq name wanted

unfoldable pub find_long_option : List WvOption → Str → Option WvOption
find_long_option [] name = none
find_long_option (opt ∷ opts) name =
    if named opt.long_opt name then some opt else find_long_option opts name

unfoldable pub find_short_option : List WvOption → ℕ → Option WvOption
find_short_option [] name = none
find_short_option (opt ∷ opts) name =
    if opt.short_opt == name then some opt else find_short_option opts name

-- The argument counts `position - current_pos` down.
unfoldable pub find_positional_option : List WvOption → ℕ → Option WvOption
find_positional_option [] position = none
find_positional_option (opt ∷ opts) position = elim opt.positional [
  | none ↦ find_positional_option opts position
  | some _ ↦ if position == 0 then some opt else find_positional_option opts (position - 1)
]

unfoldable pub find_positional_option_by_name : List WvOption → Str → Option WvOption
find_positional_option_by_name [] name = none
find_positional_option_by_name (opt ∷ opts) name =
    if named opt.positional name then some opt else find_positional_option_by_name opts name

-- `ARRAY_SIZE(self->values)` and the size of a value's buffer.
abbrev pub max_values : ℕ
max_values = 128

abbrev pub value_size : ℕ
value_size = 256

-- `append_value`; `none` is -1.
unfoldable pub append_value : Parser → WvOption → Str → Option Parser
append_value self option value =
    if leb max_values (length self.values)
    then none
    else some (record self {
      values = self.values ++ record { option = option; value = truncated value_size value } ∷ [];
    })
