-- ===== src/Desktop.antt =====
-- src/desktop.c: the power of a desktop, which is that of all its outputs.
pub mod AllOutputs
pub mod Screens
pub mod Outputs
mod Tests
use wayvnc.Prelude.{
  ℕ, suc, Bool, true, false, ◌&&◌, ◌||◌, List, [], ◌∷◌, map, length, ◌==◌, if◌then◌else◌,
}
use wayvnc.Server.{
  Power, unknown, off, on, power_eq, Source, Acquired, pending, already, refused,
  output_acquire_power_on, output_release_power_on,
}

-- The state of the first output, if the others have the same.
abbrev pub same_power : Power → List Source → Power
same_power state [] = state
same_power state (o ∷ os) =
    let rest = same_power state os in if power_eq o.power state then rest else unknown

-- `desktop_image_source_get_power_state`
unfoldable pub get_power_state : List Source → Power
get_power_state [] = unknown
get_power_state (o ∷ os) = same_power o.power os

-- The loop over the outputs: a refusal leaves those behind it as they are.
abbrev pub acquired_then :
    Acquired × Source → Acquired × List Source → List Source → Acquired × List Source
acquired_then (refused, o) rest os = (refused, o ∷ os)
acquired_then (pending, o) rest os = (rest.0, o ∷ rest.1)
acquired_then (already, o) (refused, os') os = (refused, o ∷ os')
acquired_then (already, o) (pending, os') os = (already, o ∷ os')
acquired_then (already, o) (already, os') os = (already, o ∷ os')

unfoldable pub acquire_each : List Source → Acquired × List Source
unfolding output_acquire_power_on
acquire_each [] = (pending, [])
acquire_each (o ∷ os) = acquired_then (output_acquire_power_on o) (acquire_each os) os

-- `desktop_image_source_release_power_on`
unfoldable pub release_power_on : List Source → List Source
unfolding output_release_power_on
release_power_on os = map output_release_power_on os

abbrev pub released_if_refused : Acquired × List Source → Acquired × List Source
released_if_refused (refused, os) = (refused, map output_release_power_on os)
released_if_refused (pending, os) = (pending, os)
released_if_refused (already, os) = (already, os)

-- `desktop_image_source_acquire_power_on`
unfoldable pub acquire_power_on : List Source → Acquired × List Source
unfolding acquire_each
acquire_power_on os = released_if_refused (acquire_each os)

abbrev pub count_power : Power → List Source → ℕ
count_power state [] = 0
count_power state (o ∷ os) =
    let n = count_power state os in if power_eq o.power state then suc n else n

-- `desktop_image_source_output_power_change`: whether the observers are told.
unfoldable pub output_power_change : List Source → Bool
output_power_change os = count_power on os == length os || count_power off os == length os
