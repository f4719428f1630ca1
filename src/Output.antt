-- ===== src/Output.antt =====
-- src/output.c: cycling through the list of outputs. The list is a ring of `wl_list` nodes: the
-- nodes of the `count` outputs have the numbers from 0 on, and the head of the list comes last.
pub mod Cycle
pub mod State
mod Tests
use wayvnc.Prelude.{ℕ, ◌+◌, ◌-◌, Bool, Option, none, some, ◌==◌, if◌then◌else◌}

-- `enum output_cycle_direction`
pub data Direction : Type 0 where
  forward reverse : Direction

-- `iter->next` or `iter->prev`
unfoldable pub follow : (count : ℕ) → Direction → ℕ → ℕ
follow count forward node = if node == count then 0 else node + 1
follow count reverse node = if node == 0 then count else node - 1

abbrev pub node_of : ℕ → Option ℕ → ℕ
node_of count none = count
node_of count (some i) = i

-- The number of the next output, from the current one if there is one.
unfoldable pub output_cycle : (count : ℕ) → Option ℕ → Direction → Option ℕ
output_cycle count current direction =
    let iter = follow count direction (node_of count current) in
    if iter == count
    then if count == 0 then none else some (follow count direction iter)
    else some iter
