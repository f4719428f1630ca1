-- ===== src/Desktop/Outputs/Sound.antt =====
-- What holds of a desktop of src/desktop.c between two calls, and that what adds to it keeps this.
use wayvnc.Prelude.{
  ℕ, ◌≡◌, refl, Bool, true, false, ◌||◌, List, [], ◌∷◌, Option, none, some, arith, if◌then◌else◌,
}
use wayvnc.Desktop.Outputs.{
  Desktop, Kind, screen, cursor, object_of, output_added, output_removed, desktop_capture_create,
  desktop_capture_create_cursor,
}
use wayvnc.Desktop.Screens.{Managers, DesktopOutput}
use wayvnc.Desktop.Outputs.Owned.{
  held, Owns, Owns-eq, AllSet, has_output, taken_out_lem, desktop_output_destroy-Owns,
}
use wayvnc.Desktop.Outputs.Created.{
  create_each-Owns, create_each_cursor-Owns, desktop_output_create-Owns,
}

abbrev pub linked : Bool → Option Bool
linked b = if b then some true else none

abbrev pub is_linked : Option Bool → Bool
is_linked none = false
is_linked (some b) = b

-- A desktop and the captures of its outputs.
pub record IsSound (m : Managers) (self : Desktop) : Type 0 where
  pub owns : Owns (λ i. held i self.outputs) self.screens
  pub screens_set : AllSet screen self.capture self.outputs
  pub cursors_set : AllSet cursor self.cursor_capture self.outputs
  pub while_there :
      self.there ≡ true
      → (self.capture_object ≡ linked self.capture)
        × (self.cursor_object ≡ linked self.cursor_capture)
        × (self.cursor_capture ≡ true → m.ext ≡ true)
  pub when_gone : self.there ≡ false → (self.outputs ≡ []) × (is_linked self.capture_object ≡ false)

-- There is no fault.
abbrev pub ReturnsSound : Managers → Option Desktop → Type 0
ReturnsSound m none = ⊥
ReturnsSound m (some self) = IsSound m self

abbrev pub has_object : Kind → Desktop → Bool
has_object k self = elim (object_of k self) [ none ↦ false | some b ↦ true ]

abbrev pub there_for : Kind → Desktop → Bool
there_for screen self = true
there_for cursor self = self.there

abbrev pub kept {ℓ} : {A : Type ℓ} → Option A → Desktop → Option Desktop
kept none self = none
kept (some a) self = some self

abbrev pub has_none : List DesktopOutput → Bool
has_none [] = true
has_none (o ∷ os) = false

module _ (m : Managers) (some_manager : (m.ext || m.wlr) ≡ true) where
  pub added-IsSound :
      (output : ℕ) (self : Desktop)
      → IsSound m self
      → self.there ≡ true
      → ReturnsSound m (output_added m output self)
  unfolding output_added
  added-IsSound output self w t =
      let (o, s, made, set, cursor_set, owns) =
        desktop_output_create-Owns m self.capture self.cursor_capture output
          (λ i. held i self.outputs) self.screens some_manager (w.while_there t).2 w.owns in
      rw made (record {
        owns = owns;
        screens_set = (set, w.screens_set);
        cursors_set = (cursor_set, w.cursors_set);
        while_there = w.while_there;
        when_gone = λ g. cc;
      })

  pub removed-IsSound :
      (output : ℕ) (self : Desktop)
      → IsSound m self
      → self.there ≡ true
      → has_output output self.outputs ≡ true
      → ReturnsSound m (output_removed output self)
  unfolding output_removed
  removed-IsSound output self w t h =
      let (o, rest, found, counts, keep) = taken_out_lem output self.outputs h in
      let (s, gone, owns) =
        desktop_output_destroy-Owns o (λ i. held i rest) self.screens (Owns-eq counts w.owns) in
      rw (found, gone)
        (record {
          owns = owns;
          screens_set = keep screen self.capture w.screens_set;
          cursors_set = keep cursor self.cursor_capture w.cursors_set;
          while_there = w.while_there;
          when_gone = λ g. cc;
        })

  pub create-IsSound :
      (self : Desktop)
      → IsSound m self
      → self.there ≡ true
      → self.capture ≡ false
      → ReturnsSound m (desktop_capture_create m self)
  unfolding desktop_capture_create
  create-IsSound self w t c =
      let (os, s, made, set, kept, owns) =
        create_each-Owns m self.outputs self.cursor_capture (λ i. 0) self.screens some_manager
          (rw c at w.screens_set) w.cursors_set (Owns-eq (λ i. omega arith) w.owns) in
      rw (c, made)
        (record {
          owns = Owns-eq (λ i. omega arith) owns;
          screens_set = set;
          cursors_set = kept;
          while_there = λ g. (refl, (w.while_there t).1, (w.while_there t).2);
          when_gone = λ g. cc;
        })

  pub create_cursor-IsSound :
      (self : Desktop)
      → IsSound m self
      → self.there ≡ true
      → self.cursor_capture ≡ false
      → m.ext ≡ true
      → ReturnsSound m (desktop_capture_create_cursor m self)
  unfolding desktop_capture_create_cursor
  create_cursor-IsSound self w t c e =
      let (os, s, made, kept, set, owns) =
        create_each_cursor-Owns m self.outputs self.capture (λ i. 0) self.screens e w.screens_set
          (rw c at w.cursors_set) (Owns-eq (λ i. omega arith) w.owns) in
      rw (c, made)
        (record {
          owns = Owns-eq (λ i. omega arith) owns;
          screens_set = kept;
          cursors_set = set;
          while_there = λ g. ((w.while_there t).0, refl, λ x. e);
          when_gone = λ g. cc;
        })
