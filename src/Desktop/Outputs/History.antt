-- ===== src/Desktop/Outputs/History.antt =====
-- Histories of a desktop of src/desktop.c: outputs, captures and their ends.
use wayvnc.Prelude.{
  ℕ, ◌≡◌, refl, ◌∙◌, Bool, true, false, not, ◌&&◌, ◌||◌, List, [], ◌∷◌, Option, none, some, arith,
  Bool-cases, inl, inr, if◌then◌else◌,
}
use wayvnc.Desktop.Outputs.{
  Desktop, Kind, screen, cursor, output_added, output_removed, desktop_capture_create,
  desktop_capture_create_cursor, desktop_capture_destroy, desktop_new, desktop_destroy, insert_each,
}
use wayvnc.Desktop.Outputs.Starting.{
  desktop_capture_start, desktop_capture_stop, start_each, stop_each,
}
use wayvnc.Desktop.Screens.{Managers, Screens, DesktopOutput, ◌>>=◌}
use wayvnc.Desktop.Outputs.Owned.{held, AllSet, has_output}
use wayvnc.Desktop.Outputs.Sound.{
  IsSound, ReturnsSound, has_object, there_for, kept, has_none, added-IsSound, removed-IsSound,
  create-IsSound, create_cursor-IsSound,
}
use wayvnc.Desktop.Outputs.Ends.{create_cursor_failing-IsSound, desktop_destroyed-IsSound}
use wayvnc.Desktop.Outputs.Uses.{looped-IsSound, start_each-some, destroyed-IsSound}

-- What the compositor does, and the calls of src/main.c.
pub data Event : Type 0 where
  added removed : ℕ → Event
  create create_cursor : Event
  started : (ℕ → Bool) → Kind → Event
  stopped destroyed : Kind → Event
  desktop_destroyed : Event

unfoldable pub step : Managers → Event → Desktop → Option Desktop
step m (added output) self = output_added m output self
step m (removed output) self = output_removed output self
step m create self = desktop_capture_create m self
step m create_cursor self = desktop_capture_create_cursor m self
step m (started starts k) self = kept (desktop_capture_start starts k self) self
step m (stopped k) self = kept (desktop_capture_stop k self) self
step m (destroyed k) self = desktop_capture_destroy k self
step m desktop_destroyed self = desktop_destroy self

-- When an event can come: an output goes away that is there, a capture is made where there is none
-- of its kind and used where there is one, that of the cursor while the desktop is there, and it is
-- not made for no outputs at all where the compositor has no captures of cursors.
unfoldable pub can_come : Managers → Event → Desktop → Bool
can_come m (added output) self = self.there
can_come m (removed output) self = self.there && has_output output self.outputs
can_come m create self = self.there && not self.capture
can_come m create_cursor self =
    self.there && (not self.cursor_capture && (m.ext || not (has_none self.outputs)))
can_come m (started starts k) self = has_object k self && there_for k self
can_come m (stopped k) self = has_object k self && there_for k self
can_come m (destroyed k) self = has_object k self && there_for k self
can_come m desktop_destroyed self = self.there

-- The events that can come, one after the other.
unfoldable pub run : Managers → List Event → Desktop → Option Desktop
unfolding step can_come
run m [] self = some self
run m (e ∷ es) self =
    let next = step m e self >>= run m es in
    let rest = run m es self in if can_come m e self then next else rest

both : (a b : Bool) → (a && b) ≡ true → (a ≡ true) × (b ≡ true)
both a b h = ground arith

module _ (m : Managers) (some_manager : (m.ext || m.wlr) ≡ true) where
  step-IsSound :
      (e : Event) (self : Desktop)
      → IsSound m self
      → can_come m e self ≡ true
      → ReturnsSound m (step m e self)
  unfolding can_come step
  step-IsSound (added output) self w c = added-IsSound m some_manager output self w c
  step-IsSound (removed output) self w c =
      let (t, h) = both self.there _ c in removed-IsSound m some_manager output self w t h
  step-IsSound create self w c =
      let (t, h) = both self.there _ c in create-IsSound m some_manager self w t (ground (arith, h))
  step-IsSound create_cursor self w c =
      let (t, h) = both self.there _ c in
      let (free, possible) = both (not self.cursor_capture) _ h in
      elim (Bool-cases m.ext) [
        | inl e ↦ create_cursor-IsSound m some_manager self w t (ground (arith, free)) e
        | inr e ↦
            create_cursor_failing-IsSound m some_manager self w t (ground (arith, free)) e
              (ground (arith, possible, e))
      ]
  step-IsSound (started starts k) self w c =
      let (h, t) = both (has_object k self) _ c in
      unfold desktop_capture_start in
      looped-IsSound m some_manager k self (false, []) (start_each starts) w h t
        (start_each-some starts k)
  step-IsSound (stopped k) self w c =
      let (h, t) = both (has_object k self) _ c in
      unfold desktop_capture_stop in
      looped-IsSound m some_manager k self [] (λ scs. some (stop_each scs)) w h t
        (λ os a. (_, refl))
  step-IsSound (destroyed k) self w c =
      let (h, t) = both (has_object k self) _ c in destroyed-IsSound m some_manager k self w h t
  step-IsSound desktop_destroyed self w c = desktop_destroyed-IsSound m some_manager self w c

  then_sound :
      (es : List Event) (x : Option Desktop)
      → ((self : Desktop) → IsSound m self → ReturnsSound m (run m es self))
      → ReturnsSound m x
      → ReturnsSound m (x >>= run m es)
  then_sound es none rest h = absurd h
  then_sound es (some self) rest h = rest self h

  run_from : (es : List Event) (self : Desktop) → IsSound m self → ReturnsSound m (run m es self)
  unfolding run
  run_from [] self w = w
  run_from (e ∷ es) self w = elim (Bool-cases (can_come m e self)) [
    | inl c ↦ rw c (then_sound es (step m e self) (run_from es) (step-IsSound e self w c))
    | inr c ↦ rw c (run_from es self w)
  ]

abbrev pub no_screens : Screens
no_screens = record { live = []; next = 0 }

new_set :
    (k : Kind) (is : List ℕ) (os : List DesktopOutput)
    → AllSet k false os
    → AllSet k false (insert_each is os)
new_set k [] os a = a
new_set screen (i ∷ is) os a = new_set screen is _ (refl, a)
new_set cursor (i ∷ is) os a = new_set cursor is _ (refl, a)

new_held : (is : List ℕ) (os : List DesktopOutput) (i : ℕ) → held i (insert_each is os) ≡ held i os
new_held [] os i = refl
new_held (j ∷ is) os i = new_held is _ i ∙ (omega arith)

desktop_new-IsSound : (m : Managers) (is : List ℕ) → IsSound m (desktop_new is no_screens)
unfolding desktop_new
desktop_new-IsSound m is = record {
  owns = record { owned = λ i. new_held is [] i; once = λ i. omega arith; fresh = λ i p. refl };
  screens_set = new_set screen is [] tt;
  cursors_set = new_set cursor is [] tt;
  while_there = λ g. (refl, refl, λ c. cc);
  when_gone = λ g. cc;
}

-- Over any history of a new desktop, with outputs that come and go, captures that are made, started,
-- stopped and destroyed, and the end of the desktop, where the compositor has a manager for captures
-- of outputs, there is no fault, as long as events come when they can: an output goes away that is
-- there; a capture is made where there is none of its kind, that of the cursor only if the
-- compositor captures cursors or there are outputs; and a capture is used while it is there, that
-- of the cursor while the desktop is. Each output has a capture of its own, for the screen and for
-- the cursor, exactly while the desktop is captured so. The captures that are there are those of
-- the outputs, each once, so that none is lost or destroyed twice. A capture of the screen that
-- outlives the desktop has no pointer to it.
pub run-IsSound :
    (m : Managers) (output_list : List ℕ) (es : List Event)
    → (m.ext || m.wlr) ≡ true
    → ReturnsSound m (run m es (desktop_new output_list no_screens))
run-IsSound m output_list es h = run_from m h es _ (desktop_new-IsSound m output_list)
