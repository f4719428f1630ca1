-- ===== src/Desktop/Outputs/Created.antt =====
-- The captures that src/desktop.c makes: none is made where there is one already.
use wayvnc.Prelude.{
  ℕ, suc, ◌+◌, ◌≡◌, refl, Bool, true, false, ◌||◌, List, [], ◌∷◌, Option, none, some, arith,
}
use wayvnc.Desktop.Outputs.{screen, cursor, create_each, create_each_cursor}
use wayvnc.Desktop.Screens.{
  Managers, Screens, DesktopOutput, created, screencopy_create, screencopy_create_cursor,
  desktop_output_create,
}
use wayvnc.Desktop.Outputs.Owned.{
  points, held_by, held, Owns, Owns-eq, created-Owns, is_set, AllSet,
}

-- With one of the managers a capture of an output is made, and with that of ext one of the cursor.
screencopy_create-created :
    (m : Managers) (s : Screens) → (m.ext || m.wlr) ≡ true → screencopy_create m s ≡ created s
unfolding screencopy_create
screencopy_create-created m s e = ground arith

screencopy_create_cursor-created :
    (m : Managers) (s : Screens) → m.ext ≡ true → screencopy_create_cursor m s ≡ created s
unfolding screencopy_create_cursor
screencopy_create_cursor-created m s e = ground arith

points-unset : (x : Option ℕ) (i : ℕ) → is_set x ≡ false → points i x ≡ 0
points-unset none i e = refl
points-unset (some j) i e = cc

-- Captures are only made where there are none yet, so that none is lost.
pub create_each-Owns :
    (m : Managers) (os : List DesktopOutput) (b : Bool) (h : ℕ → ℕ) (s : Screens)
    → (m.ext || m.wlr) ≡ true
    → AllSet screen false os
    → AllSet cursor b os
    → Owns (λ i. held i os + h i) s
    → (os' : List DesktopOutput) × (s' : Screens) × (create_each m os s ≡ some (os', s'))
      × AllSet screen true os'
      × AllSet cursor b os'
      × Owns (λ i. held i os' + h i) s'
unfolding create_each
create_each-Owns m [] b h s e free keep w = ([], s, refl, tt, tt, w)
create_each-Owns m (o ∷ os) b h s e free keep w =
    let o' : DesktopOutput = record o { sc = some s.next } in
    let (os', s', rest, set, kept, w') =
      create_each-Owns m os b (λ i. held_by i o' + h i) (created s).1 e free.1 keep.1
        (Owns-eq (λ i. omega (arith, points-unset o.sc i free.0)) (created-Owns w)) in
    (
      o' ∷ os',
      s',
      rw (screencopy_create-created m s e, rest) refl,
      (refl, set),
      (keep.0, kept),
      Owns-eq (λ i. omega arith) w',
    )

pub create_each_cursor-Owns :
    (m : Managers) (os : List DesktopOutput) (b : Bool) (h : ℕ → ℕ) (s : Screens)
    → m.ext ≡ true
    → AllSet screen b os
    → AllSet cursor false os
    → Owns (λ i. held i os + h i) s
    → (os' : List DesktopOutput) × (s' : Screens) × (create_each_cursor m os s ≡ (true, os', s'))
      × AllSet screen b os'
      × AllSet cursor true os'
      × Owns (λ i. held i os' + h i) s'
unfolding create_each_cursor
create_each_cursor-Owns m [] b h s e keep free w = ([], s, refl, tt, tt, w)
create_each_cursor-Owns m (o ∷ os) b h s e keep free w =
    let o' : DesktopOutput = record o { cursor_sc = some s.next } in
    let (os', s', rest, kept, set, w') =
      create_each_cursor-Owns m os b (λ i. held_by i o' + h i) (created s).1 e keep.1 free.1
        (Owns-eq (λ i. omega (arith, points-unset o.cursor_sc i free.0)) (created-Owns w)) in
    (
      o' ∷ os',
      s',
      rw (screencopy_create_cursor-created m s e, rest) refl,
      (keep.0, kept),
      (refl, set),
      Owns-eq (λ i. omega arith) w',
    )

-- Without the managers of ext there is no capture of the cursor of an output.
pub create_each_cursor-fails :
    (m : Managers) (o : DesktopOutput) (os : List DesktopOutput) (s : Screens)
    → m.ext ≡ false
    → create_each_cursor m (o ∷ os) s ≡ (false, o ∷ os, s)
unfolding create_each_cursor screencopy_create_cursor
create_each_cursor-fails m o os s e = rw e refl

-- A new output has a capture of each kind that the desktop is captured by.
pub desktop_output_create-Owns :
    (m : Managers) (capture cursor_capture : Bool) (output : ℕ) (h : ℕ → ℕ) (s : Screens)
    → (m.ext || m.wlr) ≡ true
    → (cursor_capture ≡ true → m.ext ≡ true)
    → Owns h s
    → (o : DesktopOutput) × (s' : Screens) × (desktop_output_create m capture cursor_capture output
          s
        ≡ some (o, s'))
      × (is_set o.sc ≡ capture)
      × (is_set o.cursor_sc ≡ cursor_capture)
      × Owns (λ i. held_by i o + h i) s'
unfolding desktop_output_create
desktop_output_create-Owns m false false output h s e c w =
    (_, s, refl, refl, refl, Owns-eq (λ i. omega arith) w)
desktop_output_create-Owns m true false output h s e c w = (
  record { output = output; sc = some s.next; cursor_sc = none },
  (created s).1,
  rw (screencopy_create-created m s e) refl,
  refl,
  refl,
  Owns-eq (λ i. omega arith) (created-Owns w),
)
desktop_output_create-Owns m false true output h s e c w = (
  record { output = output; sc = none; cursor_sc = some s.next },
  (created s).1,
  rw (screencopy_create_cursor-created m s (c refl)) refl,
  refl,
  refl,
  Owns-eq (λ i. omega arith) (created-Owns w),
)
desktop_output_create-Owns m true true output h s e c w = (
  record { output = output; sc = some s.next; cursor_sc = some (suc s.next) },
  (created (created s).1).1,
  rw (screencopy_create-created m s e, screencopy_create_cursor-created m (created s).1 (c refl))
      refl,
  refl,
  refl,
  Owns-eq (λ i. omega arith) (created-Owns (created-Owns w)),
)
