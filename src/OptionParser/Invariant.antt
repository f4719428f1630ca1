-- ===== src/OptionParser/Invariant.antt =====
-- What every parser of src/option-parser.c has stored.
use wayvnc.Prelude.{
  ℕ, ◌-◌, ◌≤◌, ◌<◌, ◌≡◌, ◌⊎◌, inl, inr, List, [], ◌∷◌, ◌++◌, some, arith, leb, length,
  length-append, ◌==◌, Bool-cases, subst, false,
}
use wayvnc.Text.{Str, truncated, length-take-le}
use wayvnc.OptionParser.{
  WvOption, OptionValue, Parser, active, append_value, max_values, value_size, find_long_option,
  find_short_option, find_positional_option, named,
}

-- The option is in the list.
abbrev pub Among : List WvOption → WvOption → Type 0
Among [] o = ⊥
Among (opt ∷ opts) o = (opt ≡ o) ⊎ Among opts o

-- A stored value is of a known option and leaves room for its terminating zero.
pub record Good (opts : List WvOption) (v : OptionValue) : Type 0 where
  pub known : Among opts v.option
  pub fits : length v.value < value_size

abbrev pub AllGood : List WvOption → List OptionValue → Type 0
AllGood opts [] = Unit {0}
AllGood opts (v ∷ vs) = Good opts v × AllGood opts vs

pub record Inv (opts : List WvOption) (p : Parser) : Type 0 where
  pub options : active p ≡ opts
  pub few : length p.values ≤ max_values
  pub good : AllGood opts p.values

AllGood-append :
    (opts : List WvOption) (vs : List OptionValue) (v : OptionValue)
    → AllGood opts vs
    → Good opts v
    → AllGood opts (vs ++ v ∷ [])
AllGood-append opts [] v h g = (g, tt)
AllGood-append opts (w ∷ vs) v h g = (h.0, AllGood-append opts vs v h.1 g)

pub append_value-Inv :
    (opts : List WvOption) (p : Parser) (o : WvOption) (v : Str) (q : Parser)
    → Inv opts p
    → Among opts o
    → append_value p o v ≡ some q
    → Inv opts q
unfolding append_value
append_value-Inv opts p o v q inv a e = elim (Bool-cases (leb max_values (length p.values))) [
  | inl full ↦ absurd (ground arith)
  | inr room ↦ subst (Inv opts) (same room) (record {
    options = inv.options;
    few = ground (arith, length-append p.values (stored ∷ []));
    good =
        AllGood-append opts p.values stored inv.good
          (record { known = a; fits = omega (arith, length-take-le 255 v) });
  })
]
  where
    stored : OptionValue
    stored = record { option = o; value = truncated value_size v }

    same :
        leb max_values (length p.values) ≡ false → record p { values = p.values ++ stored ∷ [] } ≡ q
    same room = ground arith

pub find_long_option-Among :
    (opts : List WvOption) (name : Str) (o : WvOption)
    → find_long_option opts name ≡ some o
    → Among opts o
unfolding find_long_option
find_long_option-Among [] name o e = cc
find_long_option-Among (opt ∷ opts) name o e = elim (Bool-cases (named opt.long_opt name)) [
  | inl hit ↦ inl (ground arith)
  | inr miss ↦ inr (find_long_option-Among opts name o (ground arith))
]

pub find_short_option-Among :
    (opts : List WvOption) (name : ℕ) (o : WvOption)
    → find_short_option opts name ≡ some o
    → Among opts o
unfolding find_short_option
find_short_option-Among [] name o e = cc
find_short_option-Among (opt ∷ opts) name o e = elim (Bool-cases (opt.short_opt == name)) [
  | inl hit ↦ inl (ground arith)
  | inr miss ↦ inr (find_short_option-Among opts name o (ground arith))
]

pub find_positional_option-Among :
    (opts : List WvOption) (n : ℕ) (o : WvOption)
    → find_positional_option opts n ≡ some o
    → Among opts o
unfolding find_positional_option
find_positional_option-Among [] n o e = cc
find_positional_option-Among (opt ∷ opts) n o e =
    ground
      (arith, find_positional_option-Among opts n o, find_positional_option-Among opts (n - 1) o)
