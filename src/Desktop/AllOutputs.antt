-- ===== src/Desktop/AllOutputs.antt =====
-- What the power of the desktop says of each of its outputs in src/desktop.c.
use wayvnc.Prelude.{
  suc, ◌≤◌, ◌≡◌, refl, Bool, true, false, ◌&&◌, ◌||◌, List, [], ◌∷◌, map, length, ◌==◌,
  if◌then◌else◌, Bool-cases, inl, inr, arith,
}
use wayvnc.Server.{
  Power, unknown, off, on, power_eq, Source, Acquired, pending, already, refused,
  output_acquire_power_on, output_release_power_on,
}
use wayvnc.Desktop.{
  get_power_state, same_power, acquire_each, acquire_power_on, acquired_then, released_if_refused,
  count_power, output_power_change,
}

abbrev pub all_acquired : List Source → Bool
all_acquired [] = true
all_acquired (o ∷ os) = o.acquired && all_acquired os

abbrev pub none_acquired : List Source → Bool
none_acquired [] = true
none_acquired (o ∷ os) = (if o.acquired then false else true) && none_acquired os

-- All outputs, or none.
abbrev pub all_or_none : Acquired × List Source → Bool
all_or_none (refused, os) = none_acquired os
all_or_none (pending, os) = all_acquired os
all_or_none (already, os) = all_acquired os

abbrev all_unless_refused : Acquired × List Source → Bool
all_unless_refused (refused, os) = true
all_unless_refused (pending, os) = all_acquired os
all_unless_refused (already, os) = all_acquired os

acquired_one : Acquired × Source → Bool
acquired_one (refused, o) = true
acquired_one (pending, o) = o.acquired
acquired_one (already, o) = o.acquired

output_acquired : (o : Source) → acquired_one (output_acquire_power_on o) ≡ true
unfolding output_acquire_power_on acquired_one
output_acquired o = ground arith

then_acquired :
    (r : Acquired × Source) (rest : Acquired × List Source) (os : List Source)
    → acquired_one r ≡ true
    → all_unless_refused rest ≡ true
    → all_unless_refused (acquired_then r rest os) ≡ true
unfolding acquired_one
then_acquired (refused, o) rest os h k = refl
then_acquired (pending, o) (refused, s) os h k = refl
then_acquired (pending, o) (pending, s) os h k = ground arith
then_acquired (pending, o) (already, s) os h k = ground arith
then_acquired (already, o) (refused, s) os h k = refl
then_acquired (already, o) (pending, s) os h k = ground arith
then_acquired (already, o) (already, s) os h k = ground arith

each_acquired : (os : List Source) → all_unless_refused (acquire_each os) ≡ true
unfolding acquire_each
each_acquired [] = refl
each_acquired (o ∷ os) =
    then_acquired (output_acquire_power_on o) (acquire_each os) os (output_acquired o)
      (each_acquired os)

all_released : (os : List Source) → none_acquired (map output_release_power_on os) ≡ true
unfolding output_release_power_on
all_released [] = refl
all_released (o ∷ os) = ground (arith, all_released os)

settled :
    (r : Acquired × List Source)
    → all_unless_refused r ≡ true
    → all_or_none (released_if_refused r) ≡ true
settled (refused, os) h = all_released os
settled (pending, os) h = h
settled (already, os) h = h

-- After the power of the desktop has been asked for, it is acquired for all outputs or, if one of
-- them refuses, for none.
pub all_or_none-acquire_power_on : (os : List Source) → all_or_none (acquire_power_on os) ≡ true
unfolding acquire_power_on
all_or_none-acquire_power_on os = settled (acquire_each os) (each_acquired os)

abbrev pub is_known : Power → Bool
is_known unknown = false
is_known off = true
is_known on = true

count-length : (p : Power) (os : List Source) → count_power p os ≤ length os
count-length p [] = omega arith
count-length p (o ∷ os) = ground (arith, count-length p os)

same_if_all :
    (p : Power) (os : List Source)
    → is_known p ≡ true
    → (count_power p os == length os) ≡ is_known (same_power p os)
same_if_all p [] h = ground (arith, h)
same_if_all p (o ∷ os) h = elim (Bool-cases (power_eq o.power p)) [
  | inl e ↦ rw e (ground (arith, same_if_all p os h))
  | inr e ↦ rw e (ground (arith, count-length p os))
]

unknown_stays : (os : List Source) → is_known (same_power unknown os) ≡ false
unknown_stays [] = refl
unknown_stays (o ∷ os) = ground (arith, unknown_stays os)

with_first :
    (p : Power) (os : List Source)
    → ((if power_eq p on then suc (count_power on os) else count_power on os) == suc (length os)
        || (if power_eq p off then suc (count_power off os) else count_power off os)
          == suc (length os))
      ≡ is_known (same_power p os)
with_first on os = ground (arith, same_if_all on os refl, count-length off os)
with_first off os = ground (arith, same_if_all off os refl, count-length on os)
with_first unknown os = ground (arith, unknown_stays os, count-length on os, count-length off os)

-- The observers of the desktop's power are told of a change of an output's exactly if the desktop's
-- power is then on or off, where there is an output.
pub output_power_change-get_power_state :
    (o : Source) (os : List Source)
    → output_power_change (o ∷ os) ≡ is_known (get_power_state (o ∷ os))
unfolding output_power_change get_power_state
output_power_change-get_power_state o os = with_first o.power os
