-- ===== src/Cfg.antt =====
-- src/cfg.c: the lines of the configuration file. `isspace` and `strtoul` are parameters.
pub mod Lines
pub mod Files
mod Tests
use wayvnc.Prelude.{
  ℕ, zero, suc, ◌+◌, ◌%◌, ◌^◌, Bool, true, false, not, ◌&&◌, List, [], ◌∷◌, Option, none, some,
  ◌==◌, if◌then◌else◌,
}
use wayvnc.Text.{Str, str_eq, cut_at}
use wayvnc.JsonIpc.{text}

-- `struct cfg` without the directory; `none` is NULL.
pub record Cfg : Type 0 where
  pub enable_auth : Bool
  pub relax_encryption : Bool
  pub allow_broken_crypto : Bool
  pub private_key_file : Option Str
  pub certificate_file : Option Str
  pub rsa_private_key_file : Option Str
  pub username : Option Str
  pub password : Option Str
  pub address : Option Str
  pub port : ℕ
  pub enable_pam : Bool
  pub xkb_rules : Option Str
  pub xkb_model : Option Str
  pub xkb_layout : Option Str
  pub xkb_variant : Option Str
  pub xkb_options : Option Str
  pub use_relative_paths : Bool

-- What `cfg_load` returns: 0 and the configuration, or the number of a line.
pub data Load : Type 0 where
  loaded : Cfg → Load
  failed : ℕ → Load

abbrev pub equals_sign : ℕ
equals_sign = 61

abbrev pub hash_sign : ℕ
hash_sign = 35

module _ (isspace : ℕ → Bool) (strtoul : Str → ℕ) where
  unfoldable pub trim_left : Str → Str
  trim_left [] = []
  trim_left (c ∷ s) = let rest = trim_left s in if isspace c then rest else c ∷ s

  abbrev pub trim_end : Str → Str
  trim_end [] = []
  trim_end (c ∷ s) = elim (trim_end s) [
    | [] ↦ if isspace c then [] else c ∷ []
    | d ∷ rest ↦ c ∷ d ∷ rest
  ]

  -- `str < end` keeps the first byte.
  unfoldable pub trim_right : Str → Str
  trim_right [] = []
  trim_right (c ∷ s) = c ∷ trim_end s

  unfoldable pub trim : Str → Str
  trim s = trim_right (trim_left s)

  abbrev load_bool : Str → Bool
  load_bool value = not (str_eq value (text "false"))

  abbrev load_uint : Str → ℕ
  load_uint value = strtoul value % 2 ^ 32

  unfoldable pub load_key_value : Cfg → Str → Str → Option Cfg
  load_key_value self key value =
      if str_eq (text "enable_auth") key
      then some (record self { enable_auth = load_bool value })
      else if str_eq (text "relax_encryption") key
      then some (record self { relax_encryption = load_bool value })
      else if str_eq (text "allow_broken_crypto") key
      then some (record self { allow_broken_crypto = load_bool value })
      else if str_eq (text "private_key_file") key
      then some (record self { private_key_file = some value })
      else if str_eq (text "certificate_file") key
      then some (record self { certificate_file = some value })
      else if str_eq (text "rsa_private_key_file") key
      then some (record self { rsa_private_key_file = some value })
      else if str_eq (text "username") key
      then some (record self { username = some value })
      else if str_eq (text "password") key
      then some (record self { password = some value })
      else if str_eq (text "address") key
      then some (record self { address = some value })
      else if str_eq (text "port") key
      then some (record self { port = load_uint value })
      else if str_eq (text "enable_pam") key
      then some (record self { enable_pam = load_bool value })
      else if str_eq (text "xkb_rules") key
      then some (record self { xkb_rules = some value })
      else if str_eq (text "xkb_model") key
      then some (record self { xkb_model = some value })
      else if str_eq (text "xkb_layout") key
      then some (record self { xkb_layout = some value })
      else if str_eq (text "xkb_variant") key
      then some (record self { xkb_variant = some value })
      else if str_eq (text "xkb_options") key
      then some (record self { xkb_options = some value })
      else if str_eq (text "use_relative_paths") key
      then some (record self { use_relative_paths = load_bool value })
      else none

  unfoldable pub load_line : Cfg → Str → Option Cfg
  load_line self line = elim (trim line) [
    | [] ↦ some self
    | c ∷ s ↦
        if c == hash_sign
        then some self
        else let (before, behind) = cut_at equals_sign (c ∷ s) in
          elim behind [
            | none ↦ none
            | some value ↦ load_key_value self (trim_right before) (trim_left value)
          ]
  ]

  -- The loop of `cfg_load` over the lines that `getline` yields.
  unfoldable pub load_lines : ℕ → Cfg → List Str → Load
  load_lines lineno self [] = loaded self
  load_lines lineno self (line ∷ lines) = elim (load_line self line) [
    | none ↦ failed (lineno + 1)
    | some self' ↦ load_lines (lineno + 1) self' lines
  ]
