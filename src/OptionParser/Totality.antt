-- ===== src/OptionParser/Totality.antt =====
-- The loop of `option_parser_parse` ends, inside `argv`, with a parser that keeps the invariant.
use wayvnc.Prelude.{
  ℕ, zero, suc, ◌+◌, ◌-◌, ◌^◌, ◌≤◌, ◌<◌, ◌≡◌, ◌≢◌, refl, inl, inr, Bool, true, false, List, [],
  none, some, arith, ltb, if◌then◌else◌, length, drop, get_or, Option-cases, Bool-cases, subst,
}
use wayvnc.Text.{Str}
use wayvnc.OptionParser.{WvOption, Parser, active, init, append_value, find_positional_option}
use wayvnc.OptionParser.Parse.{
  Outcome, parse_positional_arg, Round, stop, fail, next, advance, advance_positional, Kind, kind,
  end_of_options, long, short, positional, round, Parsed, parsed, failed, out_of_fuel, finish,
  parse_from, parse,
}
use wayvnc.OptionParser.Invariant.{Inv, append_value-Inv, find_positional_option-Among}
use wayvnc.OptionParser.Outcomes.{Fine, parse_long_arg-Fine, parse_short_args-Fine}

module _ (opts : List WvOption) (argv : List Str) where
  -- A round goes forward and stays within `argv`.
  abbrev RoundOk : ℕ → Round → Type 0
  RoundOk i (stop p j) = Inv opts p × (j ≤ length argv)
  RoundOk i (fail p) = Inv opts p
  RoundOk i (next p j) = Inv opts p × (i < j) × (j ≤ length argv)

  advance-Ok : (i : ℕ) (o : Outcome) → Fine opts (length argv) i o → RoundOk i (advance i o)
  advance-Ok i (p, none) f = f.inv
  advance-Ok i (p, some n) f = (f.inv, omega (arith, f.takes n refl), omega (arith, f.takes n refl))

  move-Inv :
      (p : Parser) (b : Bool)
      → Inv opts p
      → Inv opts (if b then p else record p { position = p.position + 1 })
  move-Inv p true h = h
  move-Inv p false h = record { options = h.options; few = h.few; good = h.good }

  positional-Ok :
      (i : ℕ) (p : Parser)
      → i < length argv
      → Inv opts p
      → RoundOk i (advance_positional i (parse_positional_arg p argv i))
  unfolding parse_positional_arg
  positional-Ok i p inside h = elim (Option-cases (find_positional_option (active p) p.position)) [
    | inl e ↦ rw (e, parse_positional_arg) (h, omega arith, omega arith)
    | inr (o, e) ↦
        rw (e, parse_positional_arg)
          (elim (Option-cases (append_value p o (get_or argv i []))) [
            | inl f ↦ rw (f, parse_positional_arg) h
            | inr (q, f) ↦
                rw (f, parse_positional_arg)
                  (ends q o (
                    append_value-Inv opts p o _ q h
                      (find_positional_option-Among opts p.position o
                        (subst (λ l. find_positional_option l p.position ≡ some o) h.options e))
                      f))
          ])
  ]
    where
      ends :
          (q : Parser) (o : WvOption)
          → Inv opts q
          → RoundOk i (
              advance_positional i (
                (if o.is_repeating then q else record q { position = q.position + 1 }),
                some (if o.is_subcommand then 0 else 1),
              ))
      ends q o g = elim (Bool-cases o.is_subcommand) [
        | inl s ↦ rw s (move-Inv q o.is_repeating g, omega arith)
        | inr s ↦ rw s (move-Inv q o.is_repeating g, omega arith, omega arith)
      ]

  round-Ok : (i : ℕ) (p : Parser) → i < length argv → Inv opts p → RoundOk i (round p argv i)
  unfolding round
  round-Ok i p inside h = go (kind (get_or argv i [])) refl
    where
      go : (k : Kind) → kind (get_or argv i []) ≡ k → RoundOk i (round p argv i)
      go end_of_options e = rw (e, round) (h, omega arith)
      go long e = rw (e, round) (advance-Ok i _ (parse_long_arg-Fine opts argv i inside p h))
      go short e = rw (e, round) (advance-Ok i _ (parse_short_args-Fine opts argv i inside p h))
      go positional e = rw (e, round) (positional-Ok i p inside h)

  -- What is left over is the end of `argv`, with its length.
  pub record Leftover (p : Parser) : Type 0 where
    pub index : ℕ
    pub inside : index ≤ length argv
    pub argc : p.remaining_argc ≡ length argv - index
    pub strings : p.remaining_argc ≢ 0 → p.remaining_argv ≡ some (drop index argv)

  -- The loop has not run out of fuel.
  abbrev pub Ended : Parsed → Type 0
  Ended (parsed p) = Inv opts p × Leftover p
  Ended (failed p) = Inv opts p
  Ended out_of_fuel = ⊥

  finish-Ended :
      (p : Parser) (i : ℕ)
      → length argv < 2 ^ 64
      → i ≤ length argv
      → Inv opts p
      → Ended (parsed (finish p argv i))
  unfolding finish
  finish-Ended p i small inside h = (
    record { options = h.options; few = h.few; good = h.good },
    record { index = i; inside = inside; argc = omega arith; strings = λ ne. ground arith },
  )

  parse_from-Ended :
      (fuel : ℕ) (p : Parser) (i : ℕ)
      → length argv < 2 ^ 64
      → i ≤ length argv
      → length argv < i + fuel
      → Inv opts p
      → Ended (parse_from fuel p argv i)
  unfolding parse_from
  parse_from-Ended zero p i small le h inv = absurd (omega arith)
  parse_from-Ended (suc fuel) p i small le h inv = elim (Bool-cases (ltb i (length argv))) [
    | inr e ↦ rw (e, parse_from) (finish-Ended p i small le inv)
    | inl e ↦
        rw (e, parse_from)
          ((elim (round p argv i)
              as (λ r.
                RoundOk i r
                → Ended (elim r [
                  | stop q j ↦ parsed (finish q argv j)
                  | fail q ↦ failed q
                  | next q j ↦ parse_from fuel q argv j
                ])) [
                  | stop q j ↦ λ ok. finish-Ended q j small ok.1 ok.0
                  | fail q ↦ λ ok. ok
                  | next q j ↦ λ ok. parse_from-Ended fuel q j small ok.2 (omega arith) ok.0
                ])
            (round-Ok i p (ground arith) inv))
  ]

-- Parsing ends for every non-empty argument list. Whatever it returns, at most 128 values are
-- stored, each of an option of the table and shorter than its buffer; on success the leftover
-- arguments are the end of the list.
pub parse-Ended :
    (options : List WvOption) (argv : List Str)
    → 0 < length argv
    → length argv < 2 ^ 64
    → Ended (active (init options)) argv (parse (init options) argv)
unfolding parse init
parse-Ended options argv h small =
    parse_from-Ended (active (init options)) argv (suc (length argv)) (init options) 1 small
      (omega arith) (omega arith) (record { options = refl; few = omega arith; good = tt })
