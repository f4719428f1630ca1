-- ===== src/IntSet/Tests.antt =====
-- The sets of src/intset.c on concrete inputs.
use wayvnc.Prelude.{
  ◌*◌, ◌/◌, ℕ, ◌<◌, ◌≡◌, refl, true, false, not, ◌&&◌, ◌||◌, none, some, [], ◌∷◌, arith, ◌==◌,
}
use wayvnc.IntSet.{grow, IntSet, init, insert, clear, is_set, find_index, find_from}
use wayvnc.IntSet.Laws.{IsValid, init_lem, insert_lem}
use wayvnc.IntSet.Removal.{clear_lem}
use wayvnc.IntSet.Grow.{block_of, insert-full}

-- One element in a block of three slots.
abbrev one_key : IntSet
one_key = record { cap = 3; len = 1; storage = 57 ∷ 0 ∷ 0 ∷ [] }

one_key-IsValid : IsValid one_key
one_key-IsValid = record {
  within = omega arith;
  room = omega arith;
  small = omega arith;
  distinct = λ i j hi hj e. omega arith;
}

-- The block of one slot is full.
abbrev full : IntSet
full = record { cap = 1; len = 1; storage = 57 ∷ [] }

full-IsValid : IsValid full
full-IsValid = record {
  within = omega arith;
  room = omega arith;
  small = omega arith;
  distinct = λ i j hi hj e. omega arith;
}

clear_moves_last :
    clear (record { cap = 3; len = 3; storage = 5 ∷ 6 ∷ 7 ∷ [] }) 5
    ≡ record { cap = 3; len = 2; storage = 7 ∷ 6 ∷ 7 ∷ [] }
unfolding clear find_index find_from
clear_moves_last = refl

init_lem_example :
    (s : IntSet) × (init 3 true 0 ≡ some s)
    × IsValid s
    × (0 < s.cap)
    × ((v : ℕ) → is_set s v ≡ false)
init_lem_example = init_lem 3 0 (omega arith)

insert_lem_example :
    (t : IntSet) × (insert 0 true one_key 58 ≡ some (true, t))
    × IsValid t
    × ((w : ℕ) → is_set t w ≡ ((58 == w) || is_set one_key w))
insert_lem_example = insert_lem 0 true one_key 58 one_key-IsValid (omega arith)

clear_lem_example :
    IsValid (clear one_key 57)
    × ((w : ℕ) → is_set (clear one_key 57) w ≡ (not (57 == w) && is_set one_key w))
clear_lem_example = clear_lem one_key 57 one_key-IsValid

insert-full_example :
    (block_of (grow 0 true full) ≡ some (full.cap * 2, full.cap * 2 / 4))
    × (insert 0 true full 58 ≡ none)
unfolding is_set find_index find_from
insert-full_example = insert-full 0 58 full full-IsValid (omega arith) (omega arith) refl refl
