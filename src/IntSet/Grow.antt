-- ===== src/IntSet/Grow.antt =====
-- Growing the array of src/intset.c: `realloc` is given a number of elements for a number of bytes.
use wayvnc.Prelude.{
  ℕ, ◌*◌, ◌/◌, ◌%◌, ◌<◌, ◌≡◌, refl, true, false, Option, none, some, arith, length, resize,
  length-resize,
}
use wayvnc.IntSet.{IntSet, size_mod, grow, push, insert, is_set}
use wayvnc.IntSet.Laws.{IsValid}

abbrev pub block_of : Option IntSet → Option (ℕ × ℕ)
block_of none = none
block_of (some s) = some (s.cap, length s.storage)

-- On a full set, `intset__grow` leaves a block with a quarter of the slots that `cap` then claims,
-- and no room for the element that is inserted next: the write that follows is outside the block.
pub insert-full :
    (junk v : ℕ) (s : IntSet)
    → IsValid s
    → 0 < s.cap
    → s.cap * 2 < size_mod
    → s.len ≡ s.cap
    → is_set s v ≡ false
    → (block_of (grow junk true s) ≡ some (s.cap * 2, s.cap * 2 / 4))
      × (insert junk true s v ≡ none)
unfolding insert grow push
insert-full junk v s valid h k full e =
    (claimed, ground (arith, length-resize junk s.storage (s.cap * 2 % size_mod / 4)))
  where
    exact : s.cap * 2 % size_mod ≡ s.cap * 2
    exact = omega arith

    claimed :
        ◌≡◌ {A = Option (ℕ × ℕ)}
          (some (s.cap * 2 % size_mod, length (resize junk s.storage (s.cap * 2 % size_mod / 4))))
          (some (s.cap * 2, s.cap * 2 / 4))
    claimed = rw (length-resize junk s.storage (s.cap * 2 % size_mod / 4), exact) refl
