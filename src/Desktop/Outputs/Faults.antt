-- ===== src/Desktop/Outputs/Faults.antt =====
-- Orders of events in which the captures of src/desktop.c go wrong.
use wayvnc.Prelude.{ℕ, ◌≡◌, refl, Bool, true, false, List, [], ◌∷◌, none, some}
use wayvnc.Desktop.Outputs.{
  Desktop, cursor, desktop_new, output_added, desktop_capture_create_cursor,
  desktop_capture_destroy, desktop_destroy,
}
use wayvnc.Desktop.Outputs.Starting.{desktop_capture_start, desktop_capture_get_caps}
use wayvnc.Desktop.Screens.{
  Managers, Screens, DesktopOutput, ◌>>=◌, desktop_output_create, screencopy_create_cursor,
}

-- Where the compositor has no captures of cursors, one is made for a desktop without outputs all the
-- same; it has no capture of an output that is added then, which starting it follows.
pub create_cursor-added :
    (m : Managers) (s : Screens) (output : ℕ) (starts : ℕ → Bool)
    → m.ext ≡ false
    → (do
      d ← desktop_capture_create_cursor m (desktop_new [] s)
      d' ← output_added m output d
      desktop_capture_start starts cursor d')
      ≡ none
unfolding desktop_new desktop_capture_create_cursor output_added desktop_output_create
    screencopy_create_cursor desktop_capture_start
create_cursor-added m s output starts e = rw e refl

-- The capture of the cursor is not told that the desktop is freed, and looks at it when it is
-- destroyed.
pub desktop_destroy-cursor :
    (m : Managers) (s : Screens)
    → (do
      d ← desktop_capture_create_cursor m (desktop_new [] s)
      d' ← desktop_destroy d
      desktop_capture_destroy cursor d')
      ≡ none
unfolding desktop_new desktop_capture_create_cursor desktop_destroy desktop_capture_destroy
desktop_destroy-cursor m s = refl

-- The capabilities of the capture of the cursor are asked of the capture of the screen.
pub get_caps-cursor :
    (caps : ℕ → ℕ) (d : Desktop) (o : DesktopOutput) (os : List DesktopOutput)
    → d.there ≡ true
    → d.cursor_object ≡ some true
    → d.outputs ≡ o ∷ os
    → o.sc ≡ none
    → desktop_capture_get_caps caps cursor d ≡ none
unfolding desktop_capture_get_caps
get_caps-cursor caps d o os t c e n = rw (c, t, e, n) refl
