-- ===== src/OptionParser/Forms.antt =====
-- The ways to write an option for src/option-parser.c, and what asking for it gives.
use wayvnc.Prelude.{
  ℕ, ◌+◌, ◌≤◌, ◌<◌, ◌≡◌, refl, ap, ◌∙◌, inl, inr, true, false, List, [], ◌∷◌, ◌++◌, Option, none,
  some, arith, length, length-append, drop, get_or, Option-cases, subst,
}
use wayvnc.Text.{Str, Without, cut_at, cut_at-append, cut_at-none, take_all, truncated}
use wayvnc.OptionParser.{
  WvOption, Parser, active, is_some, append_value, find_long_option, find_short_option,
}
use wayvnc.OptionParser.Parse.{
  one, append_and_count, parse_long_value, parse_long_parts, parse_long_arg, parse_letters,
}

-- Every letter is that of an option without a value.
abbrev pub AllFlags : List WvOption → Str → Type 0
AllFlags opts [] = Unit {0}
AllFlags opts (c ∷ s) =
    ((o : WvOption) × (find_short_option opts c ≡ some o) × (is_some o.schema ≡ false))
    × AllFlags opts s

abbrev pub dashes : Str → Str
dashes s = b'-' ∷ b'-' ∷ s

parse_long_arg-found :
    (p : Parser) (argv : List Str) (i : ℕ) (arg name : Str) (eq : Option Str) (opt : WvOption)
    → get_or argv i [] ≡ dashes arg
    → length arg ≤ 255
    → cut_at b'=' arg ≡ (name, eq)
    → find_long_option (active p) name ≡ some opt
    → parse_long_arg p argv i ≡ parse_long_value p argv i opt eq
unfolding parse_long_arg parse_long_parts
parse_long_arg-found p argv i arg name eq opt at fits cut found =
    ap (parse_long_parts p argv i) same ∙ rw (found, parse_long_parts)
  where
    same : cut_at b'=' (truncated 256 (drop 2 (get_or argv i []))) ≡ (name, eq)
    same = rw (at, take_all 255 arg fits) cut

-- `--name=value` and `--name value` store the same value, where the whole argument fits the buffer
-- that the name goes through; the second takes two arguments.
pub parse_long_arg-forms :
    (p : Parser) (name value : Str) (opt : WvOption) (argv argv' : List Str) (i : ℕ)
    → Without b'=' name
    → length name + 1 + length value ≤ 255
    → find_long_option (active p) name ≡ some opt
    → is_some opt.schema ≡ true
    → get_or argv i [] ≡ dashes (name ++ b'=' ∷ value)
    → get_or argv' i [] ≡ dashes name
    → get_or argv' (i + 1) [] ≡ value
    → i + 1 < length argv'
    → (parse_long_arg p argv i ≡ append_and_count p opt value 1)
      × (parse_long_arg p argv' i ≡ append_and_count p opt value 2)
unfolding parse_long_value
parse_long_arg-forms p name value opt argv argv' i bare fits found schema at at' next inside = (
  parse_long_arg-found p argv i (name ++ b'=' ∷ value) name (some value) opt at
        (omega (arith, length-append name (b'=' ∷ value))) (cut_at-append b'=' name value bare)
        found
      ∙ rw schema refl,
  parse_long_arg-found p argv' i name name none opt at' (omega arith) (cut_at-none b'=' name bare)
        found
      ∙ rw schema (ground arith),
)

append_value-active :
    (p : Parser) (o : WvOption) (v : Str) (q : Parser)
    → append_value p o v ≡ some q
    → active p ≡ active q
unfolding append_value
append_value-active p o v q e = ground arith

-- The letters of one argument that take no value are parsed one after the other: a cluster of
-- letters gives what its parts give.
pub parse_letters-append :
    (p : Parser) (argv : List Str) (i : ℕ) (flags letters : Str) (q : Parser)
    → AllFlags (active p) flags
    → parse_letters p argv i flags ≡ (q, some 1)
    → parse_letters p argv i (flags ++ letters) ≡ parse_letters q argv i letters
unfolding parse_letters
parse_letters-append p argv i [] letters q all e =
    ap (λ r. parse_letters r argv i letters) (ground arith)
parse_letters-append p argv i (c ∷ flags) letters q ((o, found, flag), all) e =
    elim (Option-cases (append_value p o one)) [
      | inl f ↦ absurd (ground arith)
      | inr (r, f) ↦
          rw (found, parse_letters)
            (rw flag (
              rw (f, parse_letters)
                (parse_letters-append r argv i flags letters q
                  (subst (λ l. AllFlags l flags) (append_value-active p o one r f) all)
                  (ground arith))))
    ]
