-- ===== src/IntSet/Laws.antt =====
-- The well-formedness of a set of src/intset.c, and its operations as set operations.
use wayvnc.Prelude.{
  ℕ, zero, suc, ◌+◌, ◌*◌, ◌/◌, ◌%◌, ◌<◌, ◌≤◌, ◌≡◌, refl, ◌≢◌, ◌↔◌, Bool, true, false, ◌||◌, some,
  List, arith, ◌==◌, length, get_or, set, Bool-cases, Bool-ext, ◌⊎◌, inl, inr, ℕ_discrete,
  length-replicate, length-set, get_or-set_self, get_or-set_ne, replicate, ◌∙◌, ap, sym, subst,
}
use wayvnc.IntSet.{IntSet, size_mod, init, find_from, find_index, is_set, push, insert}
use wayvnc.IntSet.Find.{Present, is_set_iff}

pub record IsValid (s : IntSet) : Type 0 where
  pub within : s.len ≤ s.cap
  pub room : s.cap ≤ length s.storage
  pub small : s.cap < size_mod
  pub distinct :
      (i j : ℕ) → i < s.len → j < s.len → get_or s.storage i 0 ≡ get_or s.storage j 0 → i ≡ j

-- A push into a block with room.
push-some :
    (s : IntSet) (v : ℕ)
    → s.len < length s.storage
    → s.len + 1 < size_mod
    → push s v ≡ some (record s { len = s.len + 1; storage = set s.storage s.len v })
unfolding push
push-some s v h k = ground arith

abbrev appended : IntSet → ℕ → IntSet
appended s v = record s { len = s.len + 1; storage = set s.storage s.len v }

pub insert-new :
    (junk : ℕ) (ok : Bool) (s : IntSet) (v : ℕ)
    → IsValid s
    → s.len < s.cap
    → is_set s v ≡ false
    → insert junk ok s v ≡ some (true, appended s v)
unfolding insert
insert-new junk ok s v valid h e = ground (arith, push-some s v)

-- What an array holds after a write, by the index that is read.
pub get_or-set :
    (xs : List ℕ) (i j v : ℕ)
    → i < length xs
    → ((i ≡ j) × (get_or (set xs i v) j 0 ≡ v))
      ⊎ ((i ≢ j) × (get_or (set xs i v) j 0 ≡ get_or xs j 0))
get_or-set xs i j v h = elim (ℕ_discrete i j) [
  | yes e ↦ inl (e, subst (λ k. get_or (set xs i v) k 0 ≡ v) e (get_or-set_self xs i v 0 h))
  | no ne ↦ inr (ne, get_or-set_ne xs i j v 0 ne)
]

appended-Present :
    (s : IntSet) (v w : ℕ)
    → s.len < length s.storage
    → Present (appended s v) w ↔ ((v ≡ w) ⊎ Present s w)
appended-Present s v w h = (there, back)
  where
    there : Present (appended s v) w → (v ≡ w) ⊎ Present s w
    there (j, k, e) = elim (get_or-set s.storage s.len j v h) [
      | inl p ↦ inl (omega arith)
      | inr p ↦ inr (j, omega arith, omega arith)
    ]

    back : (v ≡ w) ⊎ Present s w → Present (appended s v) w
    back (inl e) = (s.len, omega arith, get_or-set_self s.storage s.len v 0 h ∙ e)
    back (inr (j, k, e)) =
        (j, omega arith, get_or-set_ne s.storage s.len j v 0 (λ p. omega arith) ∙ e)

is_set-appended :
    (s : IntSet) (v w : ℕ)
    → s.len < length s.storage
    → is_set (appended s v) w ≡ ((v == w) || is_set s w)
is_set-appended s v w h = Bool-ext _ _ there back
  where
    there : is_set (appended s v) w ≡ true → ((v == w) || is_set s w) ≡ true
    there e = elim ((appended-Present s v w h).0 ((is_set_iff (appended s v) w).0 e)) [
      | inl q ↦ ground arith
      | inr q ↦ ground (arith, (is_set_iff s w).1 q)
    ]

    back : ((v == w) || is_set s w) ≡ true → is_set (appended s v) w ≡ true
    back e = (is_set_iff (appended s v) w).1 (
        (appended-Present s v w h).1 (elim (ℕ_discrete v w) [
          | yes q ↦ inl q
          | no q ↦ inr ((is_set_iff s w).0 (ground arith))
        ]))

appended-IsValid :
    (s : IntSet) (v : ℕ) → IsValid s → s.len < s.cap → is_set s v ≡ false → IsValid (appended s v)
appended-IsValid s v valid h e = record {
  within = omega arith;
  room = omega (arith, valid.room, length-set s.storage s.len v);
  small = valid.small;
  distinct = λ i j hi hj q. elim (at i) [
    | inl a ↦ elim (at j) [
      | inl b ↦ sym a.0 ∙ b.0
      | inr b ↦ absurd (fresh j (omega arith) (omega arith))
    ]
    | inr a ↦ elim (at j) [
      | inl b ↦ absurd (fresh i (omega arith) (omega arith))
      | inr b ↦ valid.distinct i j (omega arith) (omega arith) (omega arith)
    ]
  ];
}
  where
    at :
        (j : ℕ)
        → ((s.len ≡ j) × (get_or (set s.storage s.len v) j 0 ≡ v))
          ⊎ ((s.len ≢ j) × (get_or (set s.storage s.len v) j 0 ≡ get_or s.storage j 0))
    at j = get_or-set s.storage s.len j v (omega (arith, valid.room))

    fresh : (j : ℕ) → j < s.len → get_or s.storage j 0 ≢ v
    fresh j k q = cc (e, (is_set_iff s v).1 (j, k, q))

-- While the block has room, inserting a value succeeds, keeps the set well formed, and makes
-- exactly that value a member beside the old members.
pub insert_lem :
    (junk : ℕ) (ok : Bool) (s : IntSet) (v : ℕ)
    → IsValid s
    → s.len < s.cap
    → (t : IntSet) × (insert junk ok s v ≡ some (true, t))
      × IsValid t
      × ((w : ℕ) → is_set t w ≡ ((v == w) || is_set s w))
unfolding insert
insert_lem junk ok s v valid h = elim (Bool-cases (is_set s v)) [
  | inl old ↦ (s, ground arith, valid, λ w. member old w)
  | inr new ↦ (
    appended s v,
    insert-new junk ok s v valid h new,
    appended-IsValid s v valid h new,
    λ w. is_set-appended s v w (omega (arith, valid.room)),
  )
]
  where
    member : is_set s v ≡ true → (w : ℕ) → is_set s w ≡ ((v == w) || is_set s w)
    member old w = elim (ℕ_discrete v w) [
      | yes q ↦ ground (arith, ap (is_set s) q)
      | no q ↦ ground arith
    ]

-- A set without elements in a block of `n` slots.
fresh-IsValid :
    (junk n : ℕ)
    → n * 4 < size_mod
    → IsValid (record { cap = n; len = 0; storage = replicate (n * 4 % size_mod / 4) junk })
fresh-IsValid junk n h = record {
  within = omega arith;
  room = omega (arith, length-replicate (n * 4 % size_mod / 4) junk);
  small = omega arith;
  distinct = λ i j hi hj e. absurd (omega arith);
}

-- Once its block is allocated a new set is well formed and has no member, with the default
-- capacity if none is asked for.
pub init_lem :
    (junk cap : ℕ)
    → cap * 4 < size_mod
    → (s : IntSet) × (init junk true cap ≡ some s)
      × IsValid s
      × (0 < s.cap)
      × ((v : ℕ) → is_set s v ≡ false)
unfolding init is_set find_index find_from
init_lem junk zero h = (_, refl, fresh-IsValid junk 256 (omega arith), omega arith, λ v. refl)
init_lem junk (suc n) h = (
  record { cap = suc n; len = 0; storage = replicate (suc n * 4 % size_mod / 4) junk },
  ground arith,
  fresh-IsValid junk (suc n) h,
  omega arith,
  λ v. refl,
)
