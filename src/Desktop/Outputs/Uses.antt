-- ===== src/Desktop/Outputs/Uses.antt =====
-- The captures of src/desktop.c are used only where they are the desktop's, or know that it is gone.
use wayvnc.Prelude.{
  ℕ, ◌≡◌, refl, Bool, true, false, ◌||◌, List, [], ◌∷◌, map, Option, none, some, ◌⊎◌, arith,
  Bool-cases, inl, inr,
}
use wayvnc.Desktop.Outputs.{
  Desktop, Kind, screen, cursor, sc_of, is_captured, object_of, desktop_capture_destroy,
}
use wayvnc.Desktop.Outputs.Starting.{looped, loops_over, start_each}
use wayvnc.Desktop.Screens.{Managers, DesktopOutput}
use wayvnc.Desktop.Outputs.Owned.{AllSet, is_set}
use wayvnc.Desktop.Outputs.Sound.{
  linked, is_linked, IsSound, ReturnsSound, has_object, there_for, kept,
}
use wayvnc.Desktop.Outputs.Ends.{
  destroyed_screen-IsSound, destroyed_cursor-IsSound, destroyed_alone-IsSound,
}

object_cases :
    (b : Bool) (x : Option Bool)
    → x ≡ linked b
    → elim x as (λ y. Bool) [ none ↦ false | some c ↦ true ] ≡ true
    → (b ≡ true) × (x ≡ some true)
object_cases true x e h = (refl, e)
object_cases false x e h = absurd (cc (rw e at h))

gone_object :
    (x : Option Bool)
    → is_linked x ≡ false
    → elim x as (λ y. Bool) [ none ↦ false | some c ↦ true ] ≡ true
    → x ≡ some false
gone_object none e h = cc
gone_object (some true) e h = cc
gone_object (some false) e h = refl

looped_through :
    (k : Kind) (self : Desktop) {A : Type 0} (unset : A) (loop : List (Option ℕ) → Option A) {a : A}
    → object_of k self ≡ some true
    → loops_over k self ≡ some (map (sc_of k) self.outputs)
    → loop (map (sc_of k) self.outputs) ≡ some a
    → looped k self unset loop ≡ some a
looped_through k self unset loop o over done = rw (looped, o, over) done

over_all :
    (k : Kind) (self : Desktop)
    → self.there ≡ true
    → is_captured k self ≡ true
    → loops_over k self ≡ some (map (sc_of k) self.outputs)
over_all k self t c = ground (arith, t, c)

pub start_each-some :
    (starts : ℕ → Bool) (k : Kind) (os : List DesktopOutput)
    → AllSet k true os
    → (r : Bool × List ℕ) × (start_each starts (map (sc_of k) os) ≡ some r)
start_each-some starts k [] a = ((true, []), refl)
start_each-some starts k (o ∷ os) a =
    started_first (sc_of k o) _ a.0 (start_each-some starts k os a.1)
  where
    started_first :
        (x : Option ℕ) (scs : List (Option ℕ))
        → is_set x ≡ true
        → (r : Bool × List ℕ) × (start_each starts scs ≡ some r)
        → (r : Bool × List ℕ) × (start_each starts (x ∷ scs) ≡ some r)
    started_first none scs s rest = cc
    started_first (some i) scs s (r, rest) = elim (Bool-cases (starts i)) [
      | inl e ↦ ((r.0, i ∷ r.1), rw (e, rest) refl)
      | inr e ↦ ((false, i ∷ []), rw e refl)
    ]

module _ (m : Managers) (some_manager : (m.ext || m.wlr) ≡ true) where
  -- A capture that is used is the desktop's, or its desktop is gone and it knows.
  ready :
      (k : Kind) (self : Desktop)
      → IsSound m self
      → has_object k self ≡ true
      → there_for k self ≡ true
      → (object_of k self ≡ some false)
        ⊎ ((self.there ≡ true) × (is_captured k self ≡ true) × (object_of k self ≡ some true))
  ready screen self w h t = elim (Bool-cases self.there) [
    | inl e ↦
        let (c, o) = object_cases self.capture self.capture_object (w.while_there e).0 h in
        inr (e, c, o)
    | inr e ↦ inl (gone_object self.capture_object (w.when_gone e).1 h)
  ]
  ready cursor self w h t =
      let (c, o) = object_cases self.cursor_capture self.cursor_object (w.while_there t).1 h in
      inr (t, c, o)

  all_set :
      (k : Kind) (self : Desktop) → IsSound m self → AllSet k (is_captured k self) self.outputs
  all_set screen self w = w.screens_set
  all_set cursor self w = w.cursors_set

  pub looped-IsSound :
      (k : Kind) (self : Desktop) {A : Type 0} (unset : A) (loop : List (Option ℕ) → Option A)
      → IsSound m self
      → has_object k self ≡ true
      → there_for k self ≡ true
      → ((os : List DesktopOutput)
          → AllSet k true os
          → (a : A) × (loop (map (sc_of k) os) ≡ some a))
      → ReturnsSound m (kept (looped k self unset loop) self)
  looped-IsSound k self unset loop w h t runs = elim (ready k self w h t) [
    | inl e ↦ rw (looped, e) w
    | inr (th, c, e) ↦
        let (a, done) = runs self.outputs (rw c at (all_set k self w)) in
        rw (looped_through k self unset loop e (over_all k self th c) done) w
  ]

  pub destroyed-IsSound :
      (k : Kind) (self : Desktop)
      → IsSound m self
      → has_object k self ≡ true
      → there_for k self ≡ true
      → ReturnsSound m (desktop_capture_destroy k self)
  destroyed-IsSound screen self w h t = elim (Bool-cases self.there) [
    | inl e ↦
        destroyed_screen-IsSound m some_manager self w e
          (object_cases self.capture self.capture_object (w.while_there e).0 h).0
    | inr e ↦ destroyed_alone-IsSound m some_manager self self.capture_object refl w e h
  ]
  destroyed-IsSound cursor self w h t =
      destroyed_cursor-IsSound m some_manager self w t
        (object_cases self.cursor_capture self.cursor_object (w.while_there t).1 h).0
