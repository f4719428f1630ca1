-- ===== src/Screencopy/Held.antt =====
-- What holds between the fields of a capture of src/screencopy.c, and the order of its calls.
use wayvnc.Prelude.{
  ℕ, ◌≡◌, refl, subst, Bool, true, false, not, ◌&&◌, ◌||◌, Option, none, some, List, [], ◌∷◌, ◌++◌,
  ◌∙◌, ap, ◌==◌, if◌then◌else◌, Option-cases, inl, inr, arith,
}
use wayvnc.Screencopy.{
  Screencopy, failed, done, Call, reconfigured, acquired, damaged_whole, released, reported, Result,
  Reaction, restart, halt, react, release, is_in_progress, wlr_screencopy_stop,
  wlr_screencopy_start, stop, start_capture, screencopy_ready, screencopy_failed, delivered, damage,
}

abbrev pub is_set : Option ℕ → Bool
is_set none = false
is_set (some b) = true

abbrev same : Bool → Bool → Bool
same true b = b
same false b = not b

-- A capture is in progress exactly while the timer runs or there is a frame, never both; a buffer in
-- front goes with a frame.
unfoldable pub is_going : Screencopy → Bool
is_going self =
    same (is_in_progress self.status) (self.timer || self.frame)
    && not (self.timer && self.frame)
    && (not (is_set self.front) || self.frame)

-- Between calls there is no buffer in back.
unfoldable pub is_sound : Screencopy → Bool
unfolding is_going
is_sound self = is_going self && not (is_set self.back)

-- What the calls must be like: one buffer is held at a time, and it is released or delivered before
-- the next one is acquired or a failure is reported. The result is the buffer that is held in the
-- end.
abbrev pub gives_up : ℕ → Option ℕ → Option (Option ℕ) → Option (Option ℕ)
gives_up b none rest = none
gives_up b (some c) rest = if c == b then rest else none

unfoldable pub follows : Option ℕ → List Call → Option (Option ℕ)
follows held [] = some held
follows held (reconfigured config ∷ cs) = follows held cs
follows none (acquired b ∷ cs) = follows (some b) cs
follows (some c) (acquired b ∷ cs) = none
follows held (damaged_whole b ∷ cs) = let rest = follows held cs in gives_up b held rest
follows held (released b ∷ cs) = let rest = follows none cs in gives_up b held rest
follows held (reported status (some b) ∷ cs) = let rest = follows none cs in gives_up b held rest
follows none (reported status none ∷ cs) = follows none cs
follows (some c) (reported status none ∷ cs) = none

abbrev pub holds : Option (Option ℕ) → Option ℕ → Bool
holds none front = false
holds (some none) none = true
holds (some (some b)) (some c) = b == c
holds _ _ = false

unfoldable pub returns_sound : Option ℕ → Result → Bool
unfolding is_sound follows
returns_sound held none = false
returns_sound held (some (calls, self)) = is_sound self && holds (follows held calls) self.front

abbrev pub all_created : List Reaction → Bool
all_created [] = true
all_created (restart created immediate now ∷ rs) = created && all_created rs
all_created (halt ∷ rs) = all_created rs

start_going :
    (immediate : Bool) (now : ℕ) (self : Screencopy)
    → is_going self ≡ true
    → is_going (wlr_screencopy_start true immediate now self) ≡ true
unfolding is_going wlr_screencopy_start start_capture
start_going immediate now self h = ground arith

start_front :
    (created immediate : Bool) (now : ℕ) (self : Screencopy)
    → (wlr_screencopy_start created immediate now self).front ≡ self.front
unfolding wlr_screencopy_start start_capture
start_front created immediate now self = ground arith

start_back :
    (created immediate : Bool) (now : ℕ) (self : Screencopy)
    → (wlr_screencopy_start created immediate now self).back ≡ self.back
unfolding wlr_screencopy_start start_capture
start_back created immediate now self = ground arith

halted : (self : Screencopy) → is_going (wlr_screencopy_stop self).1 ≡ true
unfolding is_going wlr_screencopy_stop stop
halted self = refl

-- Nothing that src/main.c does in `on_done` touches a buffer.
react_lem :
    (rs : List Reaction) (self : Screencopy)
    → all_created rs ≡ true
    → is_going self ≡ true
    → self.front ≡ none
    → ((react rs self).0 ≡ [])
      × (is_going (react rs self).1 ≡ true)
      × ((react rs self).1.front ≡ none)
      × ((react rs self).1.back ≡ self.back)
unfolding react
react_lem [] self a h f = (refl, h, f, refl)
react_lem (restart false immediate now ∷ rs) self a h f = ground (arith, a)
react_lem (restart true immediate now ∷ rs) self a h f =
    let ih =
      react_lem rs (wlr_screencopy_start true immediate now self) a
        (start_going immediate now self h) (start_front true immediate now self ∙ f) in
    (ih.0, ih.1, ih.2, ih.3 ∙ start_back true immediate now self)
react_lem (halt ∷ rs) self a h f =
    let s = (wlr_screencopy_stop self).1 in
    let ih = react_lem rs s a (halted self) refl in
    (ap (λ o. release o ++ (react rs s).0) f ∙ ih.0, ih.1, ih.2, ih.3)

no_back : (self : Screencopy) → is_sound self ≡ true → self.back ≡ none
unfolding is_sound
no_back self h = elim (Option-cases self.back) [ inl e ↦ e | inr (b, e) ↦ ground (arith, e, h) ]

going_sound : (self : Screencopy) → is_going self ≡ true → self.back ≡ none → is_sound self ≡ true
unfolding is_sound
going_sound self h e = rw e (ground (arith, h))

-- The calls that deliver the buffer in front ...
delivers :
    (whole : Bool) (b : ℕ) (back : Option ℕ) (calls : List Call) (self : Screencopy)
    → not (is_set back) ≡ true
    → calls ≡ []
    → is_going self ≡ true
    → self.front ≡ none
    → returns_sound (some b) (
        some (
          damage whole b ++ (release back ++ (reported done (some b) ∷ calls)),
          record self { back = none },
        ))
      ≡ true
unfolding returns_sound is_sound is_going follows
delivers whole b (some c) calls self n e h f = ground (arith, n)
delivers false b none calls self n e h f = rw (e, f) (ground arith)
delivers true b none calls self n e h f = rw (e, f) (ground arith)

-- ... and those that give it up when a frame has failed.
gives_back :
    (front : Option ℕ) (calls : List Call) (self : Screencopy)
    → calls ≡ []
    → is_sound self ≡ true
    → self.front ≡ none
    → returns_sound front (some (release front ++ (reported failed none ∷ calls), self)) ≡ true
unfolding returns_sound is_sound is_going follows
gives_back none calls self e h f = rw (e, f) (ground arith)
gives_back (some b) calls self e h f = rw (e, f) (ground arith)

delivered_sound :
    (rs : List Reaction) (b : ℕ) (self : Screencopy)
    → is_sound self ≡ true
    → self.frame ≡ true
    → all_created rs ≡ true
    → returns_sound (some b) (delivered rs b self) ≡ true
unfolding delivered returns_sound is_sound is_going stop
delivered_sound rs b self h f a =
    let s = record (stop self) { back = some b; front = none; status = done } in
    let t = react rs s in
    let k = react_lem rs s a refl refl in
    delivers self.is_immediate_copy b self.back t.0 t.1 (ground (arith, h)) k.0 k.1 k.2

pub failed_sound :
    (rs : List Reaction) (self : Screencopy)
    → is_sound self ≡ true
    → all_created rs ≡ true
    → returns_sound self.front (screencopy_failed rs self) ≡ true
unfolding screencopy_failed returns_sound is_sound is_going stop
failed_sound rs self h a =
    let s = record (stop self) { front = none; status = failed } in
    let t = react rs s in
    let k = react_lem rs s a refl refl in
    gives_back self.front t.0 t.1 k.0 (going_sound t.1 k.1 (k.3 ∙ no_back self h)) k.2

pub ready_sound :
    (rs : List Reaction) (b : ℕ) (self : Screencopy)
    → is_sound self ≡ true
    → self.front ≡ some b
    → self.frame ≡ true
    → all_created rs ≡ true
    → returns_sound self.front (screencopy_ready rs self) ≡ true
unfolding screencopy_ready
ready_sound rs b self h e f a = rw e (
    delivered_sound rs b (record self { front = some b })
      (subst (λ o. is_sound (record self { front = o }) ≡ true) e h) f a)
