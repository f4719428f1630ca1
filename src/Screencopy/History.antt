-- ===== src/Screencopy/History.antt =====
-- Histories of src/screencopy.c: what becomes of a capture in progress and of the buffers.
use wayvnc.Prelude.{
  ℕ, ◌≡◌, refl, Bool, true, not, ◌&&◌, Option, none, some, List, [], ◌∷◌, ◌++◌, ◌∙◌, ap, ◌==◌,
  Bool-cases, Option-cases, inl, inr, arith,
}
use wayvnc.Pixels.{Formats}
use wayvnc.Screencopy.{
  Screencopy, Call, reconfigured, acquired, damaged_whole, released, reported, Result, Reaction,
  wlr_screencopy_stop, wlr_screencopy_start, stop, start_capture, screencopy_linux_dmabuf,
  screencopy_buffer, screencopy_buffer_done, screencopy_ready, screencopy_failed, poll,
}
use wayvnc.Screencopy.Held.{
  is_set, is_going, is_sound, follows, holds, gives_up, returns_sound, all_created, ready_sound,
  failed_sound,
}

-- The events of the protocol, the timer, and the calls of src/main.c, with what the calls that they
-- make come to.
pub data Event : Type 0 where
  linux_dmabuf : (available : Bool) → (format width height : ℕ) → Event
  buffer : (version : ℕ) → Option ℕ → (format width height stride : ℕ) → Event
  buffer_done : Option ℕ → Event
  ready : List Reaction → Event
  failing : List Reaction → Event
  timer_fires : ℕ → Event
  started : (immediate : Bool) → ℕ → Event
  halted_by_main : Event

-- Requests for a frame succeed.
unfoldable pub step : Formats → Screencopy → Event → Result
step fs self (linux_dmabuf available format width height) =
    some ([], screencopy_linux_dmabuf available format width height self)
step fs self (buffer version got format width height stride) =
    screencopy_buffer fs version got format width height stride self
step fs self (buffer_done got) = screencopy_buffer_done fs got self
step fs self (ready rs) = screencopy_ready rs self
step fs self (failing rs) = screencopy_failed rs self
step fs self (timer_fires now) = some ([], poll true now self)
step fs self (started immediate now) = some ([], wlr_screencopy_start true immediate now self)
step fs self halted_by_main = some (wlr_screencopy_stop self)

-- When an event can come: those of a frame while it is there, in the protocol's order (a frame is
-- ready only after a buffer has been attached, and one buffer is), and the timer's while it runs.
unfoldable pub can_come : Screencopy → Event → Bool
can_come self (linux_dmabuf available format width height) = self.frame && not (is_set self.front)
can_come self (buffer version got format width height stride) =
    self.frame && not (is_set self.front)
can_come self (buffer_done got) = self.frame && not (is_set self.front)
can_come self (ready rs) = self.frame && is_set self.front && all_created rs
can_come self (failing rs) = self.frame && all_created rs
can_come self (timer_fires now) = self.timer
can_come self (started immediate now) = true
can_come self halted_by_main = true

step_sound :
    (fs : Formats) (self : Screencopy) (e : Event)
    → is_sound self ≡ true
    → can_come self e ≡ true
    → returns_sound self.front (step fs self e) ≡ true
unfolding step can_come is_sound is_going returns_sound follows stop wlr_screencopy_stop
    screencopy_linux_dmabuf screencopy_buffer screencopy_buffer_done poll start_capture
    wlr_screencopy_start
step_sound fs self (linux_dmabuf available format width height) h c = ground arith
step_sound fs self (buffer version none format width height stride) h c = ground arith
step_sound fs self (buffer version (some b) format width height stride) h c = ground arith
step_sound fs self (buffer_done none) h c = ground arith
step_sound fs self (buffer_done (some b)) h c = ground arith
step_sound fs self (ready rs) h c = elim (Option-cases self.front) [
  | inl e ↦ ground (arith, e, c)
  | inr (b, e) ↦ ready_sound rs b self h e (ground (arith, c)) (ground (arith, c))
]
step_sound fs self (failing rs) h c = failed_sound rs self h (ground (arith, c))
step_sound fs self (timer_fires now) h c = ground arith
step_sound fs self (started immediate now) h c = ground arith
step_sound fs self halted_by_main h c = ground arith

-- Two runs of calls, one after the other.
abbrev then_follows : Option (Option ℕ) → List Call → Option (Option ℕ)
then_follows none cs = none
then_follows (some held) cs = follows held cs

gives_up_then :
    (b : ℕ) (held : Option ℕ) (r : Option (Option ℕ)) (cs : List Call)
    → gives_up b held (then_follows r cs) ≡ then_follows (gives_up b held r) cs
gives_up_then b none r cs = refl
gives_up_then b (some c) r cs = elim (Bool-cases (c == b)) [ inl e ↦ rw e refl | inr e ↦ rw e refl ]

follows-append :
    (held : Option ℕ) (cs ds : List Call)
    → follows held (cs ++ ds) ≡ then_follows (follows held cs) ds
unfolding follows
follows-append held [] ds = refl
follows-append held (reconfigured config ∷ cs) ds = follows-append held cs ds
follows-append none (acquired b ∷ cs) ds = follows-append (some b) cs ds
follows-append (some c) (acquired b ∷ cs) ds = refl
follows-append held (damaged_whole b ∷ cs) ds =
    ap (gives_up b held) (follows-append held cs ds) ∙ gives_up_then b held (follows held cs) ds
follows-append held (released b ∷ cs) ds =
    ap (gives_up b held) (follows-append none cs ds) ∙ gives_up_then b held (follows none cs) ds
follows-append held (reported status (some b) ∷ cs) ds =
    ap (gives_up b held) (follows-append none cs ds) ∙ gives_up_then b held (follows none cs) ds
follows-append none (reported status none ∷ cs) ds = follows-append none cs ds
follows-append (some c) (reported status none ∷ cs) ds = refl

holds_eq : (r : Option (Option ℕ)) (front : Option ℕ) → holds r front ≡ true → r ≡ some front
holds_eq none front h = ground (arith, h)
holds_eq (some none) none h = refl
holds_eq (some none) (some c) h = ground (arith, h)
holds_eq (some (some b)) none h = ground (arith, h)
holds_eq (some (some b)) (some c) h = let e : b ≡ c = ground (arith, h) in rw e refl

holds_self : (front : Option ℕ) → holds (some front) front ≡ true
holds_self none = refl
holds_self (some b) = ground arith

-- The calls of a history, and what it leaves.
abbrev pub prepend : List Call → Result → Result
prepend calls none = none
prepend calls (some (more, self)) = some (calls ++ more, self)

abbrev pub and_then : Result → (Screencopy → Result) → Result
and_then none f = none
and_then (some (calls, self)) f = prepend calls (f self)

unfoldable pub run : Formats → Screencopy → List Event → Result
unfolding step
run fs self [] = some ([], self)
run fs self (e ∷ es) = and_then (step fs self e) (λ t. run fs t es)

abbrev pub then_come : Result → (Screencopy → Bool) → Bool
then_come none f = true
then_come (some (calls, self)) f = f self

unfoldable pub all_come : Formats → Screencopy → List Event → Bool
unfolding step can_come
all_come fs self [] = true
all_come fs self (e ∷ es) = can_come self e && then_come (step fs self e) (λ t. all_come fs t es)

prepend_sound :
    (held front : Option ℕ) (calls : List Call) (r : Result)
    → follows held calls ≡ some front
    → returns_sound front r ≡ true
    → returns_sound held (prepend calls r) ≡ true
unfolding returns_sound
prepend_sound held front calls none e h = h
prepend_sound held front calls (some (more, t)) e h = rw (follows-append held calls more, e) h

after_sound :
    (fs : Formats) (held : Option ℕ) (r : Result) (es : List Event)
    → ((t : Screencopy)
        → is_sound t ≡ true
        → all_come fs t es ≡ true
        → returns_sound t.front (run fs t es) ≡ true)
    → returns_sound held r ≡ true
    → then_come r (λ t. all_come fs t es) ≡ true
    → returns_sound held (and_then r (λ t. run fs t es)) ≡ true
unfolding returns_sound
after_sound fs held none es k h c = h
after_sound fs held (some (calls, t)) es k h c =
    prepend_sound held t.front calls (run fs t es)
      (holds_eq (follows held calls) t.front (ground (arith, h))) (k t (ground (arith, h)) c)

-- Over any history in which requests for a frame succeed and events come in the protocol's order,
-- whatever src/main.c starts or stops while it is told of a frame, no assertion fails and no NULL is
-- read; a capture is in progress exactly while the timer runs or there is a frame; and each buffer
-- that is acquired is released or delivered, once, before the next is acquired or a failure is
-- reported, but for the one in front in the end.
pub run-returns_sound :
    (fs : Formats) (self : Screencopy) (es : List Event)
    → is_sound self ≡ true
    → all_come fs self es ≡ true
    → returns_sound self.front (run fs self es) ≡ true
unfolding run all_come returns_sound follows
run-returns_sound fs self [] h c = rw (h, holds_self self.front) refl
run-returns_sound fs self (e ∷ es) h c =
    after_sound fs self.front (step fs self e) es (λ t. run-returns_sound fs t es)
      (step_sound fs self e h (ground arith)) (ground arith)
