-- ===== src/Vec/Laws.antt =====
-- The arrays of src/vec.c as lists of bytes.
use wayvnc.Prelude.{
  ℕ, zero, suc, ◌+◌, ◌*◌, ◌%◌, ◌<◌, ◌≤◌, ◌≡◌, refl, sym, ap, ◌∙◌, inl, inr, Bool, true, false, [],
  ◌∷◌, ◌++◌, Option, none, some, ltb, leb, if◌then◌else◌, length, take, drop, Bool-cases, leb→le,
  ltb→lt, subst, resize, length-resize, arith, length-append, length-take, length-drop,
  append_assoc,
}
use wayvnc.Text.{Str}
use wayvnc.Vec.{Vec, size_mod, write, reserve, grow, write_at, assign, append}

pub record IsValid (vec : Vec) : Type 0 where
  pub block : length vec.block ≡ vec.cap
  pub within : vec.len ≤ vec.cap

abbrev pub contents : Vec → Str
contents vec = take vec.len vec.block

take-resize :
    (junk : ℕ) (xs : Str) (i n : ℕ) → i ≤ n → i ≤ length xs → take i (resize junk xs n) ≡ take i xs
take-resize junk xs zero n h k = refl
take-resize junk [] (suc i) n h k = absurd (omega arith)
take-resize junk (x ∷ xs) (suc i) zero h k = absurd (omega arith)
take-resize junk (x ∷ xs) (suc i) (suc n) h k =
    ap (◌∷◌ x) (take-resize junk xs i n (omega arith) (omega arith))

take-append : (xs ys : Str) (n : ℕ) → length xs ≡ n → take n (xs ++ ys) ≡ xs
take-append [] ys zero h = refl
take-append [] ys (suc n) h = absurd (omega arith)
take-append (x ∷ xs) ys zero h = absurd (omega arith)
take-append (x ∷ xs) ys (suc n) h = ap (◌∷◌ x) (take-append xs ys n (omega arith))

-- What an operation that puts `wanted` into the array leaves: the status is true if memory could be
-- had, and says whether the contents are as wanted or as before.
abbrev pub Result : Bool → Vec → Str → Option (Bool × Vec) → Type 0
Result alloc_ok vec wanted none = ⊥
Result alloc_ok vec wanted (some (ok, vec')) =
    IsValid vec'
    × (contents vec' ≡ (if ok then wanted else contents vec))
    × (alloc_ok ≡ true → ok ≡ true)

abbrev written : Str → ℕ → Str → Str
written block offset bytes = take offset block ++ (bytes ++ drop (offset + length bytes) block)

write-some :
    (block : Str) (offset : ℕ) (bytes : Str)
    → offset + length bytes ≤ length block
    → write block offset bytes ≡ some (written block offset bytes)
unfolding write
write-some block offset bytes h = ground arith

length-written :
    (block : Str) (offset : ℕ) (bytes : Str)
    → offset + length bytes ≤ length block
    → length (written block offset bytes) ≡ length block
length-written block offset bytes h = omega (
  arith,
  length-append (take offset block) (bytes ++ drop (offset + length bytes) block),
  length-append bytes (drop (offset + length bytes) block),
  length-take offset block,
  length-drop (offset + length bytes) block,
)

take-written :
    (block : Str) (offset : ℕ) (bytes : Str)
    → offset + length bytes ≤ length block
    → take (offset + length bytes) (written block offset bytes) ≡ take offset block ++ bytes
take-written block offset bytes h =
    ap (take (offset + length bytes)) (sym (append_assoc (take offset block) bytes _))
    ∙ take-append (take offset block ++ bytes) _ (offset + length bytes)
        (omega (arith, length-append (take offset block) bytes, length-take offset block))

mod_small : (n : ℕ) → n < size_mod → n % size_mod ≡ n
mod_small n h = omega arith

-- Writing behind the first `offset` bytes.
write_at_lem :
    (vec : Vec) (offset : ℕ) (bytes : Str)
    → IsValid vec
    → offset + length bytes ≤ vec.cap
    → offset + length bytes < size_mod
    → (vec' : Vec) × (write_at vec offset bytes ≡ some (true, vec'))
      × IsValid vec'
      × (contents vec' ≡ take offset vec.block ++ bytes)
unfolding write_at
write_at_lem vec offset bytes valid room small = (
  record vec { block = written vec.block offset bytes; len = (offset + length bytes) % size_mod },
  rw (write-some vec.block offset bytes (omega (arith, valid.block)), write_at) refl,
  record {
    block = length-written vec.block offset bytes (omega (arith, valid.block)) ∙ valid.block;
    within = omega (arith, mod_small (offset + length bytes) small);
  },
  ap (λ n. take n (written vec.block offset bytes)) (mod_small (offset + length bytes) small)
      ∙ take-written vec.block offset bytes (omega (arith, valid.block)),
)

module _ (junk : ℕ) (alloc_ok : Bool) where
  -- What `reserve` and `grow` give: enough room, or the array as it was.
  abbrev Reserved : Vec → ℕ → Bool × Vec → Type 0
  Reserved vec size (true, vec') =
      IsValid vec'
      × (vec'.len ≡ vec.len)
      × (contents vec' ≡ contents vec)
      × (vec.len + size ≤ vec'.cap)
  Reserved vec size (false, vec') = (vec' ≡ vec) × (alloc_ok ≡ false)

  enlarged-Reserved :
      (vec : Vec) (size n : ℕ)
      → IsValid vec
      → vec.len + n ≤ size
      → Reserved vec n (true, record vec { cap = size; block = resize junk vec.block size })
  enlarged-Reserved vec size n valid h = (
    record { block = length-resize junk vec.block size; within = omega arith },
    refl,
    take-resize junk vec.block vec.len size (omega arith)
        (omega (arith, valid.block, valid.within)),
    h,
  )

  reserve-Reserved :
      (vec : Vec) (size n : ℕ)
      → IsValid vec
      → vec.len + n ≤ size
      → Reserved vec n (reserve junk alloc_ok vec size)
  unfolding reserve
  reserve-Reserved vec size n valid h = elim (Bool-cases (leb size vec.cap)) [
    | inl e ↦ rw (e, reserve) (valid, refl, refl, omega (arith, leb→le size vec.cap e))
    | inr e ↦ elim (Bool-cases alloc_ok) [
      | inl ok ↦ rw (e, ok, reserve) (enlarged-Reserved vec size n valid h)
      | inr no_memory ↦ rw (e, no_memory, reserve) (refl, refl)
    ]
  ]

  grow-Reserved :
      (vec : Vec) (n : ℕ)
      → IsValid vec
      → 2 * (vec.len + n) < size_mod
      → Reserved vec n (grow junk alloc_ok vec n)
  unfolding grow
  grow-Reserved vec n valid small = elim (Bool-cases (ltb ((vec.len + n) % size_mod) vec.cap)) [
    | inl e ↦
        rw (e, grow)
          (
            valid,
            refl,
            refl,
            omega (
              arith,
              ltb→lt ((vec.len + n) % size_mod) vec.cap e,
              mod_small (vec.len + n) (omega arith),
            ),
          )
    | inr e ↦
        rw (e, grow)
          (reserve-Reserved vec (2 * (vec.len + n) % size_mod) n valid
            (omega (arith, mod_small (2 * (vec.len + n)) small)))
  ]

  append_from :
      (vec : Vec) (bytes : Str) (r : Bool × Vec)
      → IsValid vec
      → vec.len + length bytes < size_mod
      → Reserved vec (length bytes) r
      → Result alloc_ok vec
          (contents vec ++ bytes)
          (if r.0 then write_at r.1 r.1.len bytes else some (false, r.1))
  append_from vec bytes (true, vec') valid small (v, l, c, room) =
      let (w, e, v', c') =
        write_at_lem vec' vec'.len bytes v (omega (arith, l, room)) (omega (arith, l, small)) in
      rw e (v', c' ∙ ap (λ s. s ++ bytes) c, λ h. refl)
  append_from vec bytes (false, vec') valid small (same, no_memory) =
      (subst IsValid (sym same) valid, ap contents same, λ h. sym no_memory ∙ h)

  -- As long as twice the new length is a `size_t`, appending leaves a valid array with the bytes
  -- behind the old contents, or, which happens only without memory, with the old contents.
  pub append_lem :
      (vec : Vec) (bytes : Str)
      → IsValid vec
      → 2 * (vec.len + length bytes) < size_mod
      → Result alloc_ok vec (contents vec ++ bytes) (append junk alloc_ok vec bytes)
  unfolding append
  append_lem vec bytes valid small =
      append_from vec bytes (grow junk alloc_ok vec (length bytes)) valid (omega arith)
        (grow-Reserved vec (length bytes) valid small)

  assign_from :
      (vec : Vec) (bytes : Str) (r : Bool × Vec)
      → IsValid vec
      → length bytes < size_mod
      → Reserved (record vec { len = 0 }) (length bytes) r
      → Result alloc_ok
          (record vec { len = 0 })
          bytes
          (if r.0 then write_at r.1 0 bytes else some (false, r.1))
  assign_from vec bytes (true, vec') valid small (v, l, c, room) =
      let (w, e, v', c') =
        write_at_lem vec' 0 bytes v (omega (arith, room)) (omega (arith, small)) in
      rw e (v', c', λ h. refl)
  assign_from vec bytes (false, vec') valid small (same, no_memory) = (
    subst IsValid (sym same) (record { block = valid.block; within = omega arith }),
    ap contents same,
    λ h. sym no_memory ∙ h,
  )

  -- Assigning leaves a valid array with the bytes for its contents, or, which happens only without
  -- memory, an empty one.
  pub assign_lem :
      (vec : Vec) (bytes : Str)
      → IsValid vec
      → length bytes < size_mod
      → Result alloc_ok (record vec { len = 0 }) bytes (assign junk alloc_ok vec bytes)
  unfolding assign
  assign_lem vec bytes valid small =
      assign_from vec bytes (reserve junk alloc_ok (record vec { len = 0 }) (length bytes)) valid
        small
        (reserve-Reserved (record vec { len = 0 }) (length bytes) (length bytes)
          (record { block = valid.block; within = omega arith }) (omega arith))
