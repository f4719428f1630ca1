-- ===== src/Output/Cycle.antt =====
-- Where cycling through the outputs of src/output.c leads.
use wayvnc.Prelude.{
  ℕ, zero, suc, ◌+◌, ◌-◌, ◌<◌, ◌≤◌, ◌≡◌, ap, ◌∙◌, Option, some, ltb, ◌==◌, if◌then◌else◌, arith,
}
use wayvnc.Output.{Direction, forward, reverse, follow, output_cycle}

-- The output after some calls of `output_cycle`.
abbrev pub cycles : ℕ → Direction → ℕ → Option ℕ → Option ℕ
cycles count direction zero current = current
cycles count direction (suc k) current =
    output_cycle count (cycles count direction k current) direction

-- The output `k` places on, in a list where the first follows the last.
abbrev pub places_on : ℕ → ℕ → ℕ → ℕ
places_on count k i = if ltb (i + k) count then i + k else i + k - count

step_forward :
    (count i : ℕ)
    → i < count
    → output_cycle count (some i) forward ≡ some (if i + 1 == count then 0 else i + 1)
unfolding output_cycle follow
step_forward count i h = ground arith

step_reverse :
    (count i : ℕ)
    → i < count
    → output_cycle count (some i) reverse ≡ some (if i == 0 then count - 1 else i - 1)
unfolding output_cycle follow
step_reverse count i h = ground arith

next_in : (count i : ℕ) → i < count → (if i + 1 == count then 0 else i + 1) < count
next_in count i h = ground arith

previous_in : (count i : ℕ) → i < count → (if i == 0 then count - 1 else i - 1) < count
previous_in count i h = ground arith

there_and_back :
    (count i : ℕ)
    → i < count
    → (if (if i + 1 == count then 0 else i + 1) == 0
        then count - 1
        else (if i + 1 == count then 0 else i + 1) - 1)
      ≡ i
there_and_back count i h = ground arith

back_and_there :
    (count i : ℕ)
    → i < count
    → (if (if i == 0 then count - 1 else i - 1) + 1 == count
        then 0
        else (if i == 0 then count - 1 else i - 1) + 1)
      ≡ i
back_and_there count i h = ground arith

places_on_in : (count i k : ℕ) → i < count → k ≤ count → places_on count k i < count
places_on_in count i k h bound = ground arith

places_on-suc :
    (count i k : ℕ)
    → i < count
    → k < count
    → (if places_on count k i + 1 == count then 0 else places_on count k i + 1)
      ≡ places_on count (suc k) i
places_on-suc count i k h bound = ground arith

-- Cycling to the next output and back leads to the same one.
pub output_cycle-reverse :
    (count i : ℕ)
    → i < count
    → (output_cycle count (output_cycle count (some i) forward) reverse ≡ some i)
      × (output_cycle count (output_cycle count (some i) reverse) forward ≡ some i)
output_cycle-reverse count i h = (
  rw (step_forward count i h)
      (step_reverse count _ (next_in count i h) ∙ ap some (there_and_back count i h)),
  rw (step_reverse count i h)
      (step_forward count _ (previous_in count i h) ∙ ap some (back_and_there count i h)),
)

-- Cycling forward, at most as many times as there are outputs, leads as many places on in the list,
-- where the first output follows the last.
pub cycles-places_on :
    (count i k : ℕ)
    → i < count
    → k ≤ count
    → cycles count forward k (some i) ≡ some (places_on count k i)
cycles-places_on count i zero h bound = ground arith
cycles-places_on count i (suc k) h bound =
    ap (λ c. output_cycle count c forward) (cycles-places_on count i k h (omega arith))
    ∙ step_forward count (places_on count k i) (places_on_in count i k h (omega arith))
    ∙ ap some (places_on-suc count i k h (omega arith))
