-- ===== src/Pointer/Tests.antt =====
-- The theorems on the pointer at a click and a turn of the wheel.
use wayvnc.Prelude.{ℕ, ◌≡◌, Bool, true, false, List, [], ◌∷◌}
use wayvnc.Pointer.{Button, left, Scroll, scroll_up, Mask, Pointer}
use wayvnc.Pointer.Follows.{is_down, steps}
use wayvnc.Pointer.History.{run, last_button, falls, run-last_button}

abbrev released : Mask
released = record { button = λ b. false; scroll = λ s. false }

abbrev is_left : Button → Bool
is_left left = true
is_left _ = false

abbrev is_up : Scroll → Bool
is_up scroll_up = true
is_up _ = false

abbrev dragging : Mask
dragging = record { button = is_left; scroll = is_up }

abbrev centred : Pointer
centred = record { current_mask = released; current_x = 0; current_y = 0 }

abbrev moves : List (ℕ × ℕ × Mask)
moves =
    (2147483648, 2147483648, dragging)
    ∷ (2147483648, 0, record dragging { scroll = λ s. false })
    ∷ []

run-last_button_example :
    ((b : Button) → is_down b false (run centred moves) ≡ last_button b false moves)
    × ((n : Scroll) → steps n (run centred moves) ≡ falls n false moves)
run-last_button_example = run-last_button centred moves
