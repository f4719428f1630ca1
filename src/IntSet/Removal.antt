-- ===== src/IntSet/Removal.antt =====
-- Clearing a value of a set of src/intset.c: the last value takes its place.
use wayvnc.Prelude.{
  ℕ, ◌-◌, ◌<◌, ◌≡◌, ◌≢◌, ◌↔◌, true, false, not, ◌&&◌, none, some, arith, ◌==◌, get_or, set,
  Option-cases, Bool-ext, ◌⊎◌, inl, inr, ℕ_discrete, length-set, get_or-set_self, get_or-set_ne,
  ◌∙◌, ap, sym,
}
use wayvnc.IntSet.{IntSet, find_index, is_set, clear}
use wayvnc.IntSet.Find.{Present, is_set_iff, find_from-some}
use wayvnc.IntSet.Laws.{IsValid, get_or-set}

-- The set with the last element moved over index `i`.
abbrev removed : IntSet → ℕ → IntSet
removed s i = record s {
  len = s.len - 1;
  storage = set s.storage i (get_or s.storage (s.len - 1) 0);
}

removed-Present :
    (s : IntSet) (i v w : ℕ)
    → IsValid s
    → i < s.len
    → get_or s.storage i 0 ≡ v
    → Present (removed s i) w ↔ ((v ≢ w) × Present s w)
removed-Present s i v w valid h e = (there, back)
  where
    last : ℕ
    last = get_or s.storage (s.len - 1) 0

    at :
        (j : ℕ)
        → ((i ≡ j) × (get_or (set s.storage i last) j 0 ≡ last))
          ⊎ ((i ≢ j) × (get_or (set s.storage i last) j 0 ≡ get_or s.storage j 0))
    at j = get_or-set s.storage i j last (omega (arith, valid.room, valid.within))

    there : Present (removed s i) w → (v ≢ w) × Present s w
    there (j, k, p) = elim (at j) [
      | inl q ↦ (
        λ r. omega (arith, valid.distinct i (s.len - 1) h (omega arith) (omega arith)),
        (s.len - 1, omega arith, omega arith),
      )
      | inr q ↦ (
        λ r. q.0 (valid.distinct i j h (omega arith) (omega arith)),
        (j, omega arith, omega arith),
      )
    ]

    back : (v ≢ w) × Present s w → Present (removed s i) w
    back (ne, (j, k, p)) = elim (ℕ_discrete j (s.len - 1)) [
      | yes q ↦ (
        i,
        omega (arith, moved j q p ne),
        get_or-set_self s.storage i last 0 (omega (arith, valid.room, valid.within))
            ∙ ap (λ t. get_or s.storage t 0) (sym q)
            ∙ p,
      )
      | no q ↦ (
        j,
        omega arith,
        get_or-set_ne s.storage i j last 0 (λ r. ne (sym e ∙ ap (λ t. get_or s.storage t 0) r ∙ p))
            ∙ p,
      )
    ]
      where
        moved : (j : ℕ) → j ≡ s.len - 1 → get_or s.storage j 0 ≡ w → v ≢ w → i ≢ j
        moved j q p ne r = ne (sym e ∙ ap (λ t. get_or s.storage t 0) r ∙ p)

is_set-removed :
    (s : IntSet) (i v w : ℕ)
    → IsValid s
    → i < s.len
    → get_or s.storage i 0 ≡ v
    → is_set (removed s i) w ≡ (not (v == w) && is_set s w)
is_set-removed s i v w valid h e = Bool-ext _ _ there back
  where
    same : Present (removed s i) w ↔ ((v ≢ w) × Present s w)
    same = removed-Present s i v w valid h e

    there : is_set (removed s i) w ≡ true → (not (v == w) && is_set s w) ≡ true
    there q =
        let p = same.0 ((is_set_iff (removed s i) w).0 q) in
        ground (arith, p.0, (is_set_iff s w).1 p.1)

    back : (not (v == w) && is_set s w) ≡ true → is_set (removed s i) w ≡ true
    back q =
        (is_set_iff (removed s i) w).1
          (same.1 (λ r. ground arith, (is_set_iff s w).0 (ground arith)))

removed-IsValid : (s : IntSet) (i : ℕ) → IsValid s → i < s.len → IsValid (removed s i)
removed-IsValid s i valid h = record {
  within = omega (arith, valid.within);
  room = omega (arith, valid.room, length-set s.storage i last);
  small = valid.small;
  distinct = λ j k hj hk q. elim (at j) [
    | inl a ↦ elim (at k) [
      | inl b ↦ sym a.0 ∙ b.0
      | inr b ↦
          absurd
            (omega (arith, valid.distinct (s.len - 1) k (omega arith) (omega arith) (omega arith)))
    ]
    | inr a ↦ elim (at k) [
      | inl b ↦
          absurd
            (omega (arith, valid.distinct (s.len - 1) j (omega arith) (omega arith) (omega arith)))
      | inr b ↦ valid.distinct j k (omega arith) (omega arith) (omega arith)
    ]
  ];
}
  where
    last : ℕ
    last = get_or s.storage (s.len - 1) 0

    at :
        (j : ℕ)
        → ((i ≡ j) × (get_or (set s.storage i last) j 0 ≡ last))
          ⊎ ((i ≢ j) × (get_or (set s.storage i last) j 0 ≡ get_or s.storage j 0))
    at j = get_or-set s.storage i j last (omega (arith, valid.room, valid.within))

is_set_of_none : (s : IntSet) (v : ℕ) → find_index s v ≡ none → is_set s v ≡ false
unfolding is_set
is_set_of_none s v p = rw (p, is_set)

-- Clearing a value keeps the set well formed and removes exactly that value.
pub clear_lem :
    (s : IntSet) (v : ℕ)
    → IsValid s
    → IsValid (clear s v) × ((w : ℕ) → is_set (clear s v) w ≡ (not (v == w) && is_set s w))
unfolding clear
clear_lem s v valid = elim (Option-cases (find_index s v)) [
  | inl e ↦ rw (e, clear) (valid, missing e)
  | inr (i, e) ↦
      rw (e, clear)
        (let f = found i e in
          (removed-IsValid s i valid f.0, λ w. is_set-removed s i v w valid f.0 f.1))
]
  where
    missing : find_index s v ≡ none → (w : ℕ) → is_set s w ≡ (not (v == w) && is_set s w)
    missing e w = elim (ℕ_discrete v w) [
      | yes q ↦ ground (arith, not_set e, ap (is_set s) q)
      | no q ↦ ground arith
    ]
      where
        not_set : find_index s v ≡ none → is_set s v ≡ false
        not_set p = is_set_of_none s v p

    found : (i : ℕ) → find_index s v ≡ some i → (i < s.len) × (get_or s.storage i 0 ≡ v)
    found i e =
        let f = find_from-some s.storage v 0 s.len i (unfold find_index in e) in (omega arith, f.2)
