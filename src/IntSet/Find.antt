-- ===== src/IntSet/Find.antt =====
-- What the linear search of src/intset.c finds.
use wayvnc.Prelude.{
  ℕ, zero, suc, ◌+◌, ◌<◌, ◌≤◌, ◌≡◌, ◌≢◌, ◌↔◌, true, none, some, List, arith, get_or, Option-cases,
  inl, inr,
}
use wayvnc.IntSet.{IntSet, find_from, find_index, is_set}

-- The value stands at an index below the length.
abbrev pub Present : IntSet → ℕ → Type 0
Present s v = (j : ℕ) × (j < s.len) × (get_or s.storage j 0 ≡ v)

pub find_from-some :
    (st : List ℕ) (v i n j : ℕ)
    → find_from st v i n ≡ some j
    → (i ≤ j) × (j < i + n) × (get_or st j 0 ≡ v)
unfolding find_from
find_from-some st v i zero j e = ground arith
find_from-some st v i (suc n) j e = ground (arith, find_from-some st v (i + 1) n j)

pub find_from-none :
    (st : List ℕ) (v i n j : ℕ) → find_from st v i n ≡ none → i ≤ j → j < i + n → get_or st j 0 ≢ v
unfolding find_from
find_from-none st v i zero j e h k p = omega arith
find_from-none st v i (suc n) j e h k p = ground (arith, find_from-none st v (i + 1) n j)

-- The lookup decides presence.
pub is_set_iff : (s : IntSet) (v : ℕ) → (is_set s v ≡ true) ↔ Present s v
unfolding is_set find_index
is_set_iff s v = elim (Option-cases (find_from s.storage v 0 s.len)) [
  | inl e ↦ (
    λ h. ground arith,
    λ p. absurd (find_from-none s.storage v 0 s.len p.0 e (omega arith) (omega arith) p.2),
  )
  | inr (j, e) ↦ (λ h. found j e, λ p. ground arith)
]
  where
    found : (j : ℕ) → find_from s.storage v 0 s.len ≡ some j → Present s v
    found j e = let f = find_from-some s.storage v 0 s.len j e in (j, omega arith, f.2)
