-- ===== src/Cfg/Tests.antt =====
-- The configuration lines of src/cfg.c on concrete inputs.
use wayvnc.Prelude.{ℕ, refl, Bool, false, List, [], ◌∷◌, none, ◌==◌, ◌||◌, arith}
use wayvnc.Text.{Str}
use wayvnc.JsonIpc.{text}
use wayvnc.Cfg.{Cfg, load_lines}
use wayvnc.Cfg.Lines.{Name}
use wayvnc.Cfg.Files.{Outcome, load_lines-Outcome}

abbrev isspace : ℕ → Bool
isspace c = (c == 32) || (c == 10)

-- One decimal digit.
abbrev strtoul : Str → ℕ
strtoul [] = 0
strtoul (c ∷ s) = c

abbrev empty : Cfg
empty = record {
  enable_auth = false;
  relax_encryption = false;
  allow_broken_crypto = false;
  private_key_file = none;
  certificate_file = none;
  rsa_private_key_file = none;
  username = none;
  password = none;
  address = none;
  port = 0;
  enable_pam = false;
  xkb_rules = none;
  xkb_model = none;
  xkb_layout = none;
  xkb_variant = none;
  xkb_options = none;
  use_relative_paths = false;
}

port-Name : Name isspace strtoul b'p' (text "ort")
port-Name = record {
  first_no_space = refl;
  first_no_hash = λ e. omega (arith, e);
  no_equals = (
    (λ e. omega (arith, e)),
    ((λ e. omega (arith, e)), ((λ e. omega (arith, e)), ((λ e. omega (arith, e)), tt))),
  );
  no_end = refl;
}

abbrev file : List Str
file = text "# comment" ∷ text "port=5" ∷ text "prot=5" ∷ []

load_lines-Outcome_example :
    Outcome isspace strtoul 0 empty file (load_lines isspace strtoul 0 empty file)
load_lines-Outcome_example = load_lines-Outcome isspace strtoul 0 empty file
