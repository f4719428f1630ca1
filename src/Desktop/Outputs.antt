-- ===== src/Desktop/Outputs.antt =====
-- src/desktop.c: the outputs of a desktop, and the captures of the desktop.
pub mod Starting
pub mod Owned
pub mod Created
pub mod Sound
pub mod Ends
pub mod Uses
pub mod History
pub mod Faults
mod Tests
use wayvnc.Prelude.{
  ℕ, suc, Bool, true, false, ◌&&◌, ◌||◌, not, List, [], ◌∷◌, map, Option, none, some, ◌==◌,
  if◌then◌else◌,
}
use wayvnc.Desktop.Screens.{
  Managers, Screens, DesktopOutput, ◌>>=◌, created, screencopy_create, screencopy_create_cursor,
  without, screencopy_destroy, with_sc, with_cursor, desktop_output_create, desktop_output_destroy,
}

-- A `struct desktop`, and the `struct desktop_capture` objects for the screen and for the cursor.
-- `there` is false when the desktop is freed; `capture` and `cursor_capture` say whether those
-- fields are set. `capture_object` is none where there is no object; its value says whether the
-- object's `desktop` is set. So is `cursor_object`.
pub record Desktop : Type 0 where
  pub there : Bool
  pub outputs : List DesktopOutput
  pub capture : Bool
  pub cursor_capture : Bool
  pub capture_object : Option Bool
  pub cursor_object : Option Bool
  pub screens : Screens

-- The loop of `desktop_new`, where there is no capture yet.
abbrev pub insert_each : List ℕ → List DesktopOutput → List DesktopOutput
insert_each [] os = os
insert_each (i ∷ is) os = insert_each is (record { output = i; sc = none; cursor_sc = none } ∷ os)

unfoldable pub desktop_new : List ℕ → Screens → Desktop
desktop_new output_list s = record {
  there = true;
  outputs = insert_each output_list [];
  capture = false;
  cursor_capture = false;
  capture_object = none;
  cursor_object = none;
  screens = s;
}

-- `desktop_image_source_output_added`
unfoldable pub output_added : Managers → ℕ → Desktop → Option Desktop
unfolding desktop_output_create
output_added m output self = do
  (o, s) ← desktop_output_create m self.capture self.cursor_capture output self.screens
  some (record self { outputs = o ∷ self.outputs; screens = s })

-- The entry for an output, and the others.
abbrev pub taken_out : ℕ → List DesktopOutput → Option (DesktopOutput × List DesktopOutput)
taken_out output [] = none
taken_out output (o ∷ os) =
    let rest = taken_out output os >>= λ r. some (r.0, o ∷ r.1) in
    if o.output == output then some (o, os) else rest

-- `desktop_image_source_output_removed`
unfoldable pub output_removed : ℕ → Desktop → Option Desktop
unfolding desktop_output_destroy
output_removed output self = do
  (o, os) ← taken_out output self.outputs
  s ← desktop_output_destroy o self.screens
  some (record self { outputs = os; screens = s })

-- The loop of `desktop_capture_create`.
unfoldable pub create_each :
    Managers → List DesktopOutput → Screens → Option (List DesktopOutput × Screens)
unfolding screencopy_create
create_each m [] s = some ([], s)
create_each m (o ∷ os) s = do
  (o', s') ← with_sc (screencopy_create m s) o
  (os', s'') ← create_each m os s'
  some (o' ∷ os', s'')

unfoldable pub desktop_capture_create : Managers → Desktop → Option Desktop
unfolding create_each
desktop_capture_create m self = if self.capture then none else do
  (os, s) ← create_each m self.outputs self.screens
  some (record self { capture = true; capture_object = some true; outputs = os; screens = s })

-- The loop of `desktop_capture_create_cursor`, and whether it gets to its end.
abbrev pub cursor_then :
    Option ℕ × Screens
    → DesktopOutput
    → List DesktopOutput
    → (Screens → Bool × List DesktopOutput × Screens)
    → Bool × List DesktopOutput × Screens
cursor_then (none, s) o os rest = (false, o ∷ os, s)
cursor_then (some i, s) o os rest =
    let (good, os', s') = rest s in (good, record o { cursor_sc = some i } ∷ os', s')

unfoldable pub create_each_cursor :
    Managers → List DesktopOutput → Screens → Bool × List DesktopOutput × Screens
unfolding screencopy_create_cursor
create_each_cursor m [] s = (true, [], s)
create_each_cursor m (o ∷ os) s =
    cursor_then (screencopy_create_cursor m s) o os (create_each_cursor m os)

-- The two captures of a desktop.
pub data Kind : Type 0 where
  screen cursor : Kind

abbrev pub sc_of : Kind → DesktopOutput → Option ℕ
sc_of screen o = o.sc
sc_of cursor o = o.cursor_sc

abbrev pub cleared : Kind → DesktopOutput → DesktopOutput
cleared screen o = record o { sc = none }
cleared cursor o = record o { cursor_sc = none }

-- Whether the desktop points to the object of a kind.
abbrev pub is_captured : Kind → Desktop → Bool
is_captured screen self = self.capture
is_captured cursor self = self.cursor_capture

abbrev pub object_of : Kind → Desktop → Option Bool
object_of screen self = self.capture_object
object_of cursor self = self.cursor_object

abbrev pub uncaptured : Kind → Desktop → Desktop
uncaptured screen self = record self { capture = false }
uncaptured cursor self = record self { cursor_capture = false }

abbrev pub freed : Kind → Desktop → Desktop
freed screen self = record self { capture_object = none }
freed cursor self = record self { cursor_object = none }

-- The loops that destroy the captures of the outputs, of one kind.
unfoldable pub destroy_each :
    Kind → List DesktopOutput → Screens → Option (List DesktopOutput × Screens)
unfolding screencopy_destroy
destroy_each k [] s = some ([], s)
destroy_each k (o ∷ os) s = do
  s' ← screencopy_destroy (sc_of k o) s
  (os', s'') ← destroy_each k os s'
  some (cleared k o ∷ os', s'')

abbrev pub all_destroyed : Kind → Desktop → Option Desktop
unfolding destroy_each
all_destroyed k self = do
  (os, s) ← destroy_each k self.outputs self.screens
  some (record self { outputs = os; screens = s })

abbrev pub cursor_created : Desktop → Bool × List DesktopOutput × Screens → Option Desktop
cursor_created self (true, os, s) =
    some
      (record self { cursor_capture = true; cursor_object = some true; outputs = os; screens = s })
cursor_created self (false, os, s) =
    all_destroyed cursor (record self { cursor_capture = false; outputs = os; screens = s })

-- What is returned is NULL if there is no object afterwards.
unfoldable pub desktop_capture_create_cursor : Managers → Desktop → Option Desktop
unfolding create_each_cursor destroy_each
desktop_capture_create_cursor m self =
    if self.cursor_capture
    then none
    else cursor_created self (create_each_cursor m self.outputs self.screens)

unfoldable pub desktop_capture_destroy : Kind → Desktop → Option Desktop
unfolding destroy_each
desktop_capture_destroy k self = elim (object_of k self) [
  | none ↦ none
  | some false ↦ some (freed k self)
  | some true ↦
      if not self.there
      then none
      else if is_captured k self
      then all_destroyed k (freed k (uncaptured k self))
      else some (freed k self)
]

-- The loop of `desktop_image_source_deinit`.
unfoldable pub empty_outputs : List DesktopOutput → Screens → Option Screens
unfolding desktop_output_destroy
empty_outputs [] s = some s
empty_outputs (o ∷ os) s = do s' ← desktop_output_destroy o s; empty_outputs os s'

abbrev pub unlinked : Bool → Option Bool → Option Bool
unlinked captured none = none
unlinked captured (some b) = some (not captured && b)

-- `desktop_destroy`: `desktop_image_source_deinit`, and the desktop is freed.
unfoldable pub desktop_destroy : Desktop → Option Desktop
unfolding empty_outputs
desktop_destroy self = do
  s ← empty_outputs self.outputs self.screens
  some (record self {
    there = false;
    outputs = [];
    capture_object = unlinked self.capture self.capture_object;
    screens = s;
  })
