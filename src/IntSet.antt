-- ===== src/IntSet.antt =====
-- src/intset.c: a set of int32_t in a growing array, which the keyboard keeps its pressed keys in.
-- A value is its bit pattern: the code only compares values. The storage is the list of the
-- four-byte slots of the heap block; a write outside the block has no result (`none`).
-- The outcome of `malloc` and `realloc` is an argument, `false` when they return NULL.
pub mod Find
pub mod Laws
pub mod Removal
pub mod Grow
mod Tests
use wayvnc.Prelude.{
  ℕ, zero, suc, ◌+◌, ◌-◌, ◌*◌, ◌/◌, ◌%◌, ◌^◌, Bool, true, false, ◌&&◌, Option, none, some, List, [],
  ◌==◌, ltb, leb, if◌then◌else◌, length, get_or, set, replicate, resize,
}

pub record IntSet : Type 0 where
  pub cap : ℕ
  pub len : ℕ
  pub storage : List ℕ

abbrev pub default_capacity : ℕ
default_capacity = 256

-- `size_t` arithmetic.
abbrev pub size_mod : ℕ
size_mod = 2 ^ 64

-- `malloc(bytes)` yields `bytes / 4` whole slots of any content.
unfoldable pub init : (junk : ℕ) → Bool → ℕ → Option IntSet
init junk alloc_ok cap =
    let cap' = if cap == 0 then default_capacity else cap in
    if alloc_ok
    then some (record { cap = cap'; len = 0; storage = replicate (cap' * 4 % size_mod / 4) junk })
    else none

unfoldable pub destroy : IntSet → IntSet
destroy s = record { cap = 0; len = 0; storage = [] }

-- `realloc(self->storage, new_cap)`: the size is counted in bytes.
unfoldable pub grow : (junk : ℕ) → Bool → IntSet → Option IntSet
grow junk alloc_ok s =
    let new_cap = s.cap * 2 % size_mod in
    if alloc_ok
    then some (record { cap = new_cap; len = s.len; storage = resize junk s.storage (new_cap / 4) })
    else none

-- The loop of `intset__find_index`, at index `i` with `n` rounds left; `none` is -1.
unfoldable pub find_from : List ℕ → ℕ → ℕ → ℕ → Option ℕ
find_from storage value i zero = none
find_from storage value i (suc n) =
    if get_or storage i 0 == value then some i else find_from storage value (i + 1) n

unfoldable pub find_index : IntSet → ℕ → Option ℕ
find_index s value = find_from s.storage value 0 s.len

unfoldable pub is_set : IntSet → ℕ → Bool
is_set s value = elim (find_index s value) [ some i ↦ true | none ↦ false ]

-- `self->storage[self->len++] = value`
unfoldable pub push : IntSet → ℕ → Option IntSet
push s value =
    if ltb s.len (length s.storage)
    then some (record s { len = (s.len + 1) % size_mod; storage = set s.storage s.len value })
    else none

-- The status, 0 as `true` and -1 as `false`, and the set; `none` is a write outside the block.
unfoldable pub insert : (junk : ℕ) → Bool → IntSet → ℕ → Option (Bool × IntSet)
insert junk alloc_ok s value =
    if is_set s value
    then some (true, s)
    else if leb s.cap s.len
    then elim (grow junk alloc_ok s) [
      | none ↦ some (false, s)
      | some s' ↦ elim (push s' value) [ none ↦ none | some t ↦ some (true, t) ]
    ]
    else elim (push s value) [ none ↦ none | some t ↦ some (true, t) ]

unfoldable pub clear : IntSet → ℕ → IntSet
clear s value = elim (find_index s value) [
  | none ↦ s
  | some i ↦ record s {
    len = s.len - 1;
    storage = set s.storage i (get_or s.storage (s.len - 1) 0);
  }
]
