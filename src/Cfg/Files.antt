-- ===== src/Cfg/Files.antt =====
-- The loop of `cfg_load` in src/cfg.c over the lines of a file.
use wayvnc.Prelude.{
  ℕ, ◌+◌, ◌≡◌, refl, ap, Bool, List, [], ◌∷◌, ◌++◌, Option, none, some, Option-cases, inl, inr,
  length, arith,
}
use wayvnc.Text.{Str}
use wayvnc.Cfg.{Cfg, Load, loaded, failed, load_line, load_lines}

module _ (isspace : ℕ → Bool) (strtoul : Str → ℕ) where
  -- Lines that load one after the other.
  abbrev pub all_lines : Cfg → List Str → Option Cfg
  all_lines self [] = some self
  all_lines self (line ∷ lines) = elim (load_line isspace strtoul self line) [
    | none ↦ none
    | some self' ↦ all_lines self' lines
  ]

  -- What a number that `cfg_load` returns says of the file, with `lineno` lines before it.
  abbrev pub Outcome : ℕ → Cfg → List Str → Load → Type 0
  Outcome lineno self lines (loaded result) = all_lines self lines ≡ some result
  Outcome lineno self lines (failed number) =
      (good : List Str) × (bad : Str) × (rest : List Str) × (self' : Cfg) × (lines
        ≡ good ++ bad ∷ rest)
      × (number ≡ lineno + length good + 1)
      × (all_lines self good ≡ some self')
      × (load_line isspace strtoul self' bad ≡ none)

  Outcome-after :
      (lineno : ℕ) (self self' : Cfg) (line : Str) (lines : List Str) (l : Load)
      → load_line isspace strtoul self line ≡ some self'
      → Outcome (lineno + 1) self' lines l
      → Outcome lineno self (line ∷ lines) l
  Outcome-after lineno self self' line lines (loaded result) e h = rw (e, all_lines) h
  Outcome-after lineno self self' line lines (failed number) e
        (good, bad, rest, last, split, n, before, stop) =
      (
        line ∷ good,
        bad,
        rest,
        last,
        ap (◌∷◌ line) split,
        omega (arith, n),
        rw (e, all_lines) before,
        stop,
      )

  -- `cfg_load` takes every line of the file or returns the number of the first one that it cannot
  -- load, counted from 1, all lines before it being taken.
  pub load_lines-Outcome :
      (lineno : ℕ) (self : Cfg) (lines : List Str)
      → Outcome lineno self lines (load_lines isspace strtoul lineno self lines)
  unfolding load_lines
  load_lines-Outcome lineno self [] = refl
  load_lines-Outcome lineno self (line ∷ lines) =
      elim (Option-cases (load_line isspace strtoul self line)) [
        | inl e ↦ rw (e, load_lines) ([], line, lines, self, refl, omega arith, refl, e)
        | inr (self', e) ↦
            rw (e, load_lines)
              (Outcome-after lineno self self' line lines _ e
                (load_lines-Outcome (lineno + 1) self' lines))
      ]
