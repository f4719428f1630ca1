-- ===== src/Desktop/Screens.antt =====
-- src/screencopy-interface.c, and the captures of one output in src/desktop.c. A screen capture is known
-- by its number.
use wayvnc.Prelude.{ℕ, suc, Bool, List, [], ◌∷◌, Option, none, some, ◌==◌, if◌then◌else◌}

-- What the compositor offers: both managers of ext-image-copy-capture, and that of wlr-screencopy.
pub record Managers : Type 0 where
  pub ext : Bool
  pub wlr : Bool

-- The screen captures of outputs that are there, and the number of the next.
pub record Screens : Type 0 where
  pub live : List ℕ
  pub next : ℕ

-- `struct desktop_output`
pub record DesktopOutput : Type 0 where
  pub output : ℕ
  pub sc : Option ℕ
  pub cursor_sc : Option ℕ

-- `none` is a failed assertion, or the use of NULL or of what is freed.
infixl 5 ◌>>=◌
abbrev pub ◌>>=◌ : {A B : Type 0} → Option A → (A → Option B) → Option B
none >>= f = none
some a >>= f = f a

abbrev pub created : Screens → Option ℕ × Screens
created s = (some s.next, record { live = s.next ∷ s.live; next = suc s.next })

-- `screencopy_create` for an output. Memory is never short.
unfoldable pub screencopy_create : Managers → Screens → Option ℕ × Screens
screencopy_create m s = if m.ext then created s else if m.wlr then created s else (none, s)

unfoldable pub screencopy_create_cursor : Managers → Screens → Option ℕ × Screens
screencopy_create_cursor m s = if m.ext then created s else (none, s)

abbrev pub without : ℕ → List ℕ → Option (List ℕ)
without i [] = none
without i (j ∷ js) =
    let rest = without i js >>= λ ks. some (j ∷ ks) in if i == j then some js else rest

unfoldable pub screencopy_destroy : Option ℕ → Screens → Option Screens
screencopy_destroy none s = some s
screencopy_destroy (some i) s = without i s.live >>= λ live. some (record s { live = live })

-- With the pointers to the captures of the desktop: `sc` is assigned through, a NULL is not.
abbrev pub with_sc : Option ℕ × Screens → DesktopOutput → Option (DesktopOutput × Screens)
with_sc (none, s) o = none
with_sc (some i, s) o = some (record o { sc = some i }, s)

abbrev pub with_cursor : Option ℕ × Screens → DesktopOutput → DesktopOutput × Screens
with_cursor (none, s) o = (o, s)
with_cursor (some i, s) o = (record o { cursor_sc = some i }, s)

unfoldable pub desktop_output_create :
    Managers → (capture cursor_capture : Bool) → ℕ → Screens → Option (DesktopOutput × Screens)
unfolding screencopy_create screencopy_create_cursor
desktop_output_create m capture cursor_capture output s = do
  let self : DesktopOutput = record { output = output; sc = none; cursor_sc = none }
  (o, s') ← if capture then with_sc (screencopy_create m s) self else some (self, s)
  some (if cursor_capture then with_cursor (screencopy_create_cursor m s') o else (o, s'))

unfoldable pub desktop_output_destroy : DesktopOutput → Screens → Option Screens
unfolding screencopy_destroy
desktop_output_destroy self s = do
  s' ← screencopy_destroy self.sc s
  screencopy_destroy self.cursor_sc s'
