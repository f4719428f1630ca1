-- ===== src/Output/Tests.antt =====
-- Cycling through the outputs of src/output.c on concrete inputs.
use wayvnc.Prelude.{◌≡◌, refl, true, List, [], ◌∷◌, none, some, arith}
use wayvnc.Prelude.Int.{pos, negsuc}
use wayvnc.Output.{reverse, follow, output_cycle}
use wayvnc.Output.State.{zeroed, headless, output_get_pos, output_is_headless}
use wayvnc.Output.State.History.{
  Event, geometry, mode, done, logical_position, logical_size, name, run, IsCurrent, run-IsCurrent,
}
use wayvnc.Output.State.Reads.{output_get_pos-run}

output_cycle-none : output_cycle 3 none reverse ≡ some 2
unfolding output_cycle follow
output_cycle-none = refl

-- A description that is changed in parts and completed twice; the last part is not complete.
abbrev history : List Event
history =
    mode (pos 1920) (pos 1080)
    ∷ done
    ∷ name (b'A' ∷ [])
    ∷ done
    ∷ logical_position (negsuc 9) (pos 0)
    ∷ logical_size (pos 800) (pos 600)
    ∷ mode (pos 800) (pos 600)
    ∷ geometry (b'M' ∷ []) [] (pos 1)
    ∷ []

run-IsCurrent_example : IsCurrent history (run 4 history)
run-IsCurrent_example = run-IsCurrent 4 history

shown_position : output_get_pos (run 4 history) ≡ (negsuc 9, pos 0)
shown_position = output_get_pos-run 4 history (negsuc 9) (pos 0) refl (omega arith) (omega arith)

headless_name :
    output_is_headless (record (run 4 history) { state = record zeroed { name = headless } }) ≡ true
unfolding output_is_headless
headless_name = refl
