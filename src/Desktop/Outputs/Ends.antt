-- ===== src/Desktop/Outputs/Ends.antt =====
-- The captures of src/desktop.c that are destroyed, by themselves or with the desktop.
use wayvnc.Prelude.{
  ◌≡◌, refl, ap, ◌∙◌, Bool, true, false, ◌||◌, List, [], ◌∷◌, map, Option, none, some, arith,
}
use wayvnc.Desktop.Outputs.{
  Desktop, Kind, screen, cursor, cleared, desktop_capture_create_cursor, desktop_capture_destroy,
  desktop_destroy, unlinked, create_each_cursor, destroy_each,
}
use wayvnc.Desktop.Screens.{Managers, Screens, DesktopOutput}
use wayvnc.Desktop.Outputs.Owned.{
  held, Owns, Owns-eq, AllSet, destroy_each-Owns, empty_outputs-Owns,
}
use wayvnc.Desktop.Outputs.Created.{create_each_cursor-fails}
use wayvnc.Desktop.Outputs.Sound.{linked, is_linked, IsSound, ReturnsSound, has_object, has_none}

cleared_unset : (k : Kind) (os : List DesktopOutput) → AllSet k false (map (cleared k) os)
cleared_unset k [] = tt
cleared_unset screen (o ∷ os) = (refl, cleared_unset screen os)
cleared_unset cursor (o ∷ os) = (refl, cleared_unset cursor os)

cleared_screen :
    (b : Bool) (os : List DesktopOutput)
    → AllSet cursor b os
    → AllSet cursor b (map (cleared screen) os)
cleared_screen b [] a = tt
cleared_screen b (o ∷ os) a = (a.0, cleared_screen b os a.1)

cleared_cursor :
    (b : Bool) (os : List DesktopOutput)
    → AllSet screen b os
    → AllSet screen b (map (cleared cursor) os)
cleared_cursor b [] a = tt
cleared_cursor b (o ∷ os) a = (a.0, cleared_cursor b os a.1)

module _ (m : Managers) (some_manager : (m.ext || m.wlr) ≡ true) where
  destroy_all :
      (k : Kind) (self : Desktop)
      → Owns (λ i. held i self.outputs) self.screens
      → (s : Screens) × (destroy_each k self.outputs self.screens
          ≡ some (map (cleared k) self.outputs, s))
        × Owns (λ i. held i (map (cleared k) self.outputs)) s
  destroy_all k self w =
      let (s, gone, owns) =
        destroy_each-Owns k self.outputs (λ i. 0) self.screens (Owns-eq (λ i. omega arith) w) in
      (s, gone, Owns-eq (λ i. omega arith) owns)

  -- The loop stops at the first output, and what was made is destroyed: nothing.
  pub create_cursor_failing-IsSound :
      (self : Desktop)
      → IsSound m self
      → self.there ≡ true
      → self.cursor_capture ≡ false
      → m.ext ≡ false
      → has_none self.outputs ≡ false
      → ReturnsSound m (desktop_capture_create_cursor m self)
  unfolding desktop_capture_create_cursor
  create_cursor_failing-IsSound self w t c e n =
      let (s, gone, owns) = destroy_all cursor self w.owns in
      rw (c, all_fail self.outputs n, gone)
        (record {
          owns = owns;
          screens_set = cleared_cursor self.capture self.outputs w.screens_set;
          cursors_set = cleared_unset cursor self.outputs;
          while_there = λ g. ((w.while_there t).0, (w.while_there t).1 ∙ ap linked c, λ x. cc);
          when_gone = λ g. cc;
        })
    where
      all_fail :
          (os : List DesktopOutput)
          → has_none os ≡ false
          → create_each_cursor m os self.screens ≡ (false, os, self.screens)
      all_fail [] h = cc
      all_fail (o ∷ os) h = create_each_cursor-fails m o os self.screens e

  pub destroyed_screen-IsSound :
      (self : Desktop)
      → IsSound m self
      → self.there ≡ true
      → self.capture ≡ true
      → ReturnsSound m (desktop_capture_destroy screen self)
  unfolding desktop_capture_destroy
  destroyed_screen-IsSound self w t c =
      let (s, gone, owns) = destroy_all screen self w.owns in
      rw ((w.while_there t).0 ∙ ap linked c, t, c, gone)
        (record {
          owns = owns;
          screens_set = cleared_unset screen self.outputs;
          cursors_set = cleared_screen self.cursor_capture self.outputs w.cursors_set;
          while_there = λ g. (refl, (w.while_there t).1, (w.while_there t).2);
          when_gone = λ g. cc;
        })

  pub destroyed_cursor-IsSound :
      (self : Desktop)
      → IsSound m self
      → self.there ≡ true
      → self.cursor_capture ≡ true
      → ReturnsSound m (desktop_capture_destroy cursor self)
  unfolding desktop_capture_destroy
  destroyed_cursor-IsSound self w t c =
      let (s, gone, owns) = destroy_all cursor self w.owns in
      rw ((w.while_there t).1 ∙ ap linked c, t, c, gone)
        (record {
          owns = owns;
          screens_set = cleared_cursor self.capture self.outputs w.screens_set;
          cursors_set = cleared_unset cursor self.outputs;
          while_there = λ g. ((w.while_there t).0, refl, λ x. cc);
          when_gone = λ g. cc;
        })

  -- The capture of a desktop that is gone.
  pub destroyed_alone-IsSound :
      (self : Desktop) (x : Option Bool)
      → self.capture_object ≡ x
      → IsSound m self
      → self.there ≡ false
      → has_object screen self ≡ true
      → ReturnsSound m (desktop_capture_destroy screen self)
  unfolding desktop_capture_destroy
  destroyed_alone-IsSound self none e w t h = absurd (cc (rw e at h))
  destroyed_alone-IsSound self (some true) e w t h = absurd (cc (rw e at (w.when_gone t).1))
  destroyed_alone-IsSound self (some false) e w t h = rw e (record {
    owns = w.owns;
    screens_set = w.screens_set;
    cursors_set = w.cursors_set;
    while_there = λ g. cc;
    when_gone = λ g. ((w.when_gone t).0, refl);
  })

  pub desktop_destroyed-IsSound :
      (self : Desktop) → IsSound m self → self.there ≡ true → ReturnsSound m (desktop_destroy self)
  unfolding desktop_destroy
  desktop_destroyed-IsSound self w t =
      let (s, gone, owns) =
        empty_outputs-Owns self.outputs (λ i. 0) self.screens (Owns-eq (λ i. omega arith) w.owns) in
      rw gone (record {
        owns = owns;
        screens_set = tt;
        cursors_set = tt;
        while_there = λ g. cc;
        when_gone = λ g. (refl, unlinked_lem self.capture self.capture_object (w.while_there t).0);
      })
    where
      unlinked_lem : (b : Bool) (x : Option Bool) → x ≡ linked b → is_linked (unlinked b x) ≡ false
      unlinked_lem true none e = refl
      unlinked_lem true (some b) e = refl
      unlinked_lem false none e = refl
      unlinked_lem false (some b) e = cc
