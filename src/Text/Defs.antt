-- ===== src/Text/Defs.antt =====
-- Comparison, search and truncation of C strings.
use wayvnc.Prelude.{
  ℕ, Bool, true, false, ◌&&◌, List, [], ◌∷◌, ◌==◌, if◌then◌else◌, take, ◌-◌, Option, none, some,
}

abbrev pub Str : Type 0
Str = List ℕ

-- `strcmp(a, b) == 0`
unfoldable pub str_eq : Str → Str → Bool
str_eq [] [] = true
str_eq [] (d ∷ b) = false
str_eq (c ∷ a) [] = false
str_eq (c ∷ a) (d ∷ b) = c == d && str_eq a b

-- What precedes the first `sep`, and what follows it if there is one: `strchr`, and a zero written
-- over what it finds.
unfoldable pub cut_at : ℕ → Str → Str × Option Str
cut_at sep [] = ([], none)
cut_at sep (c ∷ s) = let r = cut_at sep s in if c == sep then ([], some s) else (c ∷ r.0, r.1)

-- What `strlcpy` leaves in a buffer of `size` bytes, `0 < size`.
abbrev pub truncated : ℕ → Str → Str
truncated size s = take (size - 1) s
