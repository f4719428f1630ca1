-- ===== src/Text/Laws.antt =====
-- What comparing, cutting and truncating do.
use wayvnc.Prelude.{
  ℕ, zero, suc, ◌≤◌, ◌≡◌, refl, ◌≢◌, ◌↔◌, ap, true, List, [], ◌∷◌, ◌++◌, take, length, none, some,
  arith, subst,
}
use wayvnc.Text.Defs.{Str, str_eq, cut_at}

pub str_eq_refl : (s : Str) → str_eq s s ≡ true
unfolding str_eq
str_eq_refl [] = refl
str_eq_refl (c ∷ s) = ground (arith, str_eq_refl s)

pub str_eq_sound : (a b : Str) → str_eq a b ≡ true → a ≡ b
unfolding str_eq
str_eq_sound [] [] h = refl
str_eq_sound [] (d ∷ b) h = cc
str_eq_sound (c ∷ a) [] h = cc
str_eq_sound (c ∷ a) (d ∷ b) h = ground (arith, str_eq_sound a b)

pub str_eq_iff : (a b : Str) → (str_eq a b ≡ true) ↔ (a ≡ b)
str_eq_iff a b = (str_eq_sound a b, λ e. subst (λ t. str_eq a t ≡ true) e (str_eq_refl a))

-- A text that fits is kept.
pub take_all {ℓ} : {A : Type ℓ} (n : ℕ) (xs : List A) → length xs ≤ n → take n xs ≡ xs
take_all zero [] h = refl
take_all (suc n) [] h = refl
take_all zero (x ∷ xs) h = absurd (omega arith)
take_all (suc n) (x ∷ xs) h = ap (◌∷◌ x) (take_all n xs (omega arith))

pub length-take-le {ℓ} : {A : Type ℓ} (n : ℕ) (xs : List A) → length (take n xs) ≤ n
length-take-le zero xs = omega arith
length-take-le (suc n) [] = omega arith
length-take-le (suc n) (x ∷ xs) = omega (arith, length-take-le n xs)

-- No byte of the text is `sep`.
abbrev pub Without : ℕ → Str → Type 0
Without sep [] = Unit {0}
Without sep (c ∷ s) = (c ≢ sep) × Without sep s

-- The first part ends at the first `sep`.
pub cut_at-append : (sep : ℕ) (a b : Str) → Without sep a → cut_at sep (a ++ sep ∷ b) ≡ (a, some b)
unfolding cut_at
cut_at-append sep [] b h = ground arith
cut_at-append sep (c ∷ a) b h = ground (arith, cut_at-append sep a b h.1, h.0)

pub cut_at-none : (sep : ℕ) (a : Str) → Without sep a → cut_at sep a ≡ (a, none)
unfolding cut_at
cut_at-none sep [] h = refl
cut_at-none sep (c ∷ a) h = ground (arith, cut_at-none sep a h.1, h.0)
