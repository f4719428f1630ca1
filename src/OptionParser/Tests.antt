-- ===== src/OptionParser/Tests.antt =====
-- The option parser of src/option-parser.c on concrete inputs.
use wayvnc.Prelude.{◌≡◌, refl, false, List, [], ◌∷◌, ◌++◌, none, some, arith}
use wayvnc.Text.{Str, str_eq}
use wayvnc.OptionParser.{
  WvOption, Parser, active, init, count_options, append_value, find_long_option, find_short_option,
}
use wayvnc.OptionParser.Parse.{
  parsed, kind, append_and_count, parse_letter_value, parse_letters, parse_short_args, round,
  finish, parse_from, parse,
}
use wayvnc.OptionParser.Values.{is_short, get_value}
use wayvnc.OptionParser.Totality.{Ended, parse-Ended}
use wayvnc.OptionParser.Forms.{dashes}
use wayvnc.OptionParser.RoundTrip.{get_value-parse}

-- `-a`, a flag.
abbrev flag_a : WvOption
flag_a = record {
  short_opt = b'a';
  long_opt = none;
  schema = none;
  help = none;
  default_ = none;
  positional = none;
  is_subcommand = false;
  is_repeating = false;
}

-- `-o`, `--opt=<x>`.
abbrev option_o : WvOption
option_o = record flag_a {
  short_opt = b'o';
  long_opt = some (b'o' ∷ b'p' ∷ b't' ∷ []);
  schema = some (b'x' ∷ []);
}

abbrev nothing : WvOption
nothing = record flag_a { short_opt = 0 }

abbrev table : List WvOption
table = flag_a ∷ option_o ∷ nothing ∷ []

abbrev prog : Str
prog = b'p' ∷ []

abbrev opt_name : Str
opt_name = b'o' ∷ b'p' ∷ b't' ∷ []

abbrev seven : Str
seven = b'7' ∷ []

-- `p -ao7 -- x`
abbrev cluster : List Str
cluster = prog ∷ (b'-' ∷ b'a' ∷ b'o' ∷ b'7' ∷ []) ∷ (b'-' ∷ b'-' ∷ []) ∷ (b'x' ∷ []) ∷ []

cluster_values :
    parse (init table) cluster
    ≡ parsed (record (init table) {
      values =
          record { option = flag_a; value = b'1' ∷ [] }
          ∷ record { option = option_o; value = seven }
          ∷ [];
      remaining_argc = 1;
      remaining_argv = some ((b'x' ∷ []) ∷ []);
    })
unfolding parse parse_from round kind parse_short_args parse_letters parse_letter_value
    append_and_count append_value find_short_option init count_options finish
cluster_values = refl

parse-Ended_example : Ended (active (init table)) cluster (parse (init table) cluster)
unfolding init count_options
parse-Ended_example = parse-Ended table cluster (omega arith) (omega arith)

get_value-parse_example :
    (p : Parser) × (parse (init table) (prog ∷ dashes (opt_name ++ b'=' ∷ seven) ∷ []) ≡ parsed p)
    × (get_value p opt_name ≡ some seven)
    × (p.remaining_argc ≡ 0)
unfolding find_long_option str_eq init count_options is_short
get_value-parse_example =
    get_value-parse table prog opt_name seven option_o (omega arith) (omega arith) refl refl refl
