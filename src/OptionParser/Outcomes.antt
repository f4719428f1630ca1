-- ===== src/OptionParser/Outcomes.antt =====
-- What each parsing function of src/option-parser.c leaves: a parser that keeps the invariant, and
-- a count of arguments that are there.
use wayvnc.Prelude.{
  ℕ, ◌+◌, ◌≤◌, ◌<◌, ◌≡◌, inl, inr, false, List, [], ◌∷◌, Option, none, some, arith, leb, length,
  Option-cases, Bool-cases, subst,
}
use wayvnc.Text.{Str}
use wayvnc.OptionParser.{
  WvOption, Parser, active, is_some, append_value, find_long_option, find_short_option,
}
use wayvnc.OptionParser.Parse.{
  Outcome, one, append_and_count, parse_long_value, parse_long_parts, parse_long_arg, no_next_arg,
  parse_letter_value, parse_letters, parse_short_args,
}
use wayvnc.OptionParser.Invariant.{
  Among, Inv, append_value-Inv, find_long_option-Among, find_short_option-Among,
}

module _ (opts : List WvOption) (argc index : ℕ) where
  pub record Fine (o : Outcome) : Type 0 where
    pub inv : Inv opts o.0
    pub takes : (n : ℕ) → o.1 ≡ some n → (1 ≤ n) × (index + n ≤ argc)

  Fine-fail : (p : Parser) → Inv opts p → Fine (p, none)
  Fine-fail p h = record { inv = h; takes = λ n e. cc }

  Fine-append :
      (p : Parser) (o : WvOption) (v : Str) (n : ℕ)
      → Inv opts p
      → Among opts o
      → 1 ≤ n
      → index + n ≤ argc
      → Fine (append_and_count p o v n)
  unfolding append_and_count
  Fine-append p o v n h a k l = elim (Option-cases (append_value p o v)) [
    | inl e ↦ rw (e, append_and_count) (Fine-fail p h)
    | inr (q, e) ↦
        rw (e, append_and_count)
          (record { inv = append_value-Inv opts p o v q h a e; takes = λ m r. ground arith })
  ]

module _ (opts : List WvOption) (argv : List Str) (index : ℕ) (inside : index < length argv) where
  abbrev Ok : Outcome → Type 0
  Ok = Fine opts (length argv) index

  append_one :
      (p : Parser) (o : WvOption) (v : Str)
      → Inv opts p
      → Among opts o
      → Ok (append_and_count p o v 1)
  append_one p o v h a =
      Fine-append opts (length argv) index p o v 1 h a (omega arith) (omega arith)

  parse_long_value-Fine :
      (p : Parser) (o : WvOption) (eq : Option Str)
      → Inv opts p
      → Among opts o
      → Ok (parse_long_value p argv index o eq)
  unfolding parse_long_value
  parse_long_value-Fine p o (some v) h a = elim (Bool-cases (is_some o.schema)) [
    | inl e ↦ rw e (append_one p o v h a)
    | inr e ↦ rw e (append_one p o one h a)
  ]
  parse_long_value-Fine p o none h a = elim (Bool-cases (is_some o.schema)) [
    | inl e ↦ rw e (elim (Bool-cases (leb (length argv) (index + 1))) [
      | inl f ↦ rw f (Fine-fail opts (length argv) index p h)
      | inr f ↦ rw f (Fine-append opts (length argv) index p o _ 2 h a (omega arith) (ground arith))
    ])
    | inr e ↦ rw e (append_one p o one h a)
  ]

  parse_long_parts-Fine :
      (p : Parser) (parts : Str × Option Str)
      → Inv opts p
      → Ok (parse_long_parts p argv index parts)
  unfolding parse_long_parts
  parse_long_parts-Fine p (name, eq) h = elim (Option-cases (find_long_option (active p) name)) [
    | inl e ↦ rw (e, parse_long_parts) (Fine-fail opts (length argv) index p h)
    | inr (o, e) ↦
        rw (e, parse_long_parts)
          (parse_long_value-Fine p o eq h (
            find_long_option-Among opts name o
              (subst (λ l. find_long_option l name ≡ some o) h.options e)))
  ]

  pub parse_long_arg-Fine : (p : Parser) → Inv opts p → Ok (parse_long_arg p argv index)
  unfolding parse_long_arg
  parse_long_arg-Fine p h = parse_long_parts-Fine p _ h

  no_next_arg-false : no_next_arg index (length argv) ≡ false → index + 2 ≤ length argv
  unfolding no_next_arg
  no_next_arg-false e = ground arith

  parse_letter_value-Fine :
      (p : Parser) (o : WvOption) (tail : Str)
      → Inv opts p
      → Among opts o
      → Ok (parse_letter_value p argv index o tail)
  unfolding parse_letter_value
  parse_letter_value-Fine p o [] h a = elim (Bool-cases (no_next_arg index (length argv))) [
    | inl e ↦ rw e (Fine-fail opts (length argv) index p h)
    | inr e ↦
        rw e (Fine-append opts (length argv) index p o _ 2 h a (omega arith) (no_next_arg-false e))
  ]
  parse_letter_value-Fine p o (c ∷ rest) h a = append_one p o _ h a

  parse_letters-Fine :
      (p : Parser) (letters : Str) → Inv opts p → Ok (parse_letters p argv index letters)
  unfolding parse_letters
  parse_letters-Fine p [] h = record { inv = h; takes = λ n e. ground arith }
  parse_letters-Fine p (c ∷ tail) h = elim (Option-cases (find_short_option (active p) c)) [
    | inl e ↦ rw (e, parse_letters) (Fine-fail opts (length argv) index p h)
    | inr (o, e) ↦
        rw (e, parse_letters)
          (elim (Bool-cases (is_some o.schema)) [
            | inl s ↦ rw s (parse_letter_value-Fine p o tail h (known o e))
            | inr s ↦ rw s (elim (Option-cases (append_value p o one)) [
              | inl f ↦ rw (f, parse_letters) (Fine-fail opts (length argv) index p h)
              | inr (q, f) ↦
                  rw (f, parse_letters)
                    (parse_letters-Fine q tail (append_value-Inv opts p o one q h (known o e) f))
            ])
          ])
  ]
    where
      known : (o : WvOption) → find_short_option (active p) c ≡ some o → Among opts o
      known o e =
          find_short_option-Among opts c o (subst (λ l. find_short_option l c ≡ some o) h.options e)

  pub parse_short_args-Fine : (p : Parser) → Inv opts p → Ok (parse_short_args p argv index)
  unfolding parse_short_args
  parse_short_args-Fine p h = parse_letters-Fine p _ h
