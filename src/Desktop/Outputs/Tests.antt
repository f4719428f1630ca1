-- ===== src/Desktop/Outputs/Tests.antt =====
-- Captures of the outputs of a desktop on a concrete history.
use wayvnc.Prelude.{◌≡◌, refl, true, false, List, [], ◌∷◌, some, ◌==◌}
use wayvnc.Desktop.Outputs.{screen, cursor, desktop_new, desktop_capture_create}
use wayvnc.Desktop.Outputs.Starting.{desktop_capture_start}
use wayvnc.Desktop.Screens.{Managers, ◌>>=◌}
use wayvnc.Desktop.Outputs.Sound.{ReturnsSound}
use wayvnc.Desktop.Outputs.History.{
  Event, added, removed, create, create_cursor, started, stopped, destroyed, desktop_destroyed, run,
  no_screens, run-IsSound,
}

abbrev all_managers : Managers
all_managers = record { ext = true; wlr = true }

abbrev history : List Event
history =
    create
    ∷ added 8
    ∷ create_cursor
    ∷ started (λ i. true) cursor
    ∷ removed 7
    ∷ destroyed screen
    ∷ create
    ∷ added 9
    ∷ stopped screen
    ∷ destroyed cursor
    ∷ desktop_destroyed
    ∷ destroyed screen
    ∷ []

run-IsSound_example :
    ReturnsSound all_managers (run all_managers history (desktop_new (7 ∷ 6 ∷ []) no_screens))
run-IsSound_example = run-IsSound all_managers (7 ∷ 6 ∷ []) history refl

-- A start stops at the first capture that does not start.
started_partly :
    (do
      d ← desktop_capture_create all_managers (desktop_new (7 ∷ 6 ∷ []) no_screens)
      desktop_capture_start (λ i. i == 0) screen d)
    ≡ some (false, 0 ∷ 1 ∷ [])
unfolding desktop_capture_create desktop_new desktop_capture_start
started_partly = refl
