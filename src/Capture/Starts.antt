-- ===== src/Capture/Starts.antt =====
-- Histories of a session of src/ext-image-copy-capture.c, and what a start must not overlap with.
use wayvnc.Prelude.{ℕ, ◌≡◌, ◌∙◌, Bool, true, not, ◌&&◌, Option, none, some, List, [], ◌∷◌, arith}
use wayvnc.Pixels.{Formats}
use wayvnc.Capture.{PoolOps, Capture, Result, quietly}
use wayvnc.Capture.Formats.{
  Rating, clear_constraints, session_handle_format_shm, session_handle_format_drm,
  session_handle_dmabuf_device, session_handle_dimensions,
}
use wayvnc.Capture.Session.{
  schedule_from_timer, session_handle_constraints_done, start, stop, frame_handle_ready,
  frame_handle_failed, deinit_session,
}
use wayvnc.Capture.Formats.Choice.{SortLaws}
use wayvnc.Capture.Sizes.{RatesKnown, configures_shm}
use wayvnc.Capture.Sound.{
  is_sound, returns_sound, same_sound, config-Configured, ConfiguresShm, split_if,
  constraints_sound, start_sound, timer_sound, dropped_sound, ready_sound,
}

-- The events of the protocol, the timer, and the calls of src/main.c, with the time and the
-- outcomes of what they call.
pub data Event : Type 0 where
  format_shm : ℕ → Event
  format_drm : ℕ → List ℕ → Event
  dmabuf_device : Option ℕ → Event
  dimensions : (width height : ℕ) → Event
  constraints : ℕ → Event
  ready : Event
  failed : (fits created : Bool) → ℕ → Event
  timer_fires : ℕ → Event
  started : (created immediate : Bool) → ℕ → Event
  stopped : Event

-- When an event can come: a session's while it is there, a frame's while it is there, the timer's
-- while it runs, and a start, as the theorem demands it, while the timer does not run.
unfoldable pub can_come : {P : Type 0} → Capture P → Event → Bool
can_come self (format_shm format) = self.session
can_come self (format_drm format modifiers) = self.session
can_come self (dmabuf_device device) = self.session
can_come self (dimensions width height) = self.session
can_come self (constraints now) = self.session
can_come self ready = self.frame
can_come self (failed fits created now) = self.frame
can_come self (timer_fires now) = self.timer
can_come self (started created immediate now) = not self.timer
can_come self stopped = true

module _ {P : Type 0} (ops : PoolOps P) (fs : Formats) (r : Rating) where
  unfoldable pub step : Capture P → Event → Result P
  step self (format_shm format) = quietly (session_handle_format_shm format self)
  step self (format_drm format modifiers) =
      quietly (session_handle_format_drm format modifiers self)
  step self (dmabuf_device device) = quietly (session_handle_dmabuf_device device self)
  step self (dimensions width height) = quietly (session_handle_dimensions width height self)
  step self (constraints now) = session_handle_constraints_done ops fs r now self
  step self ready = frame_handle_ready ops fs r self
  step self (failed fits created now) = frame_handle_failed ops fs r (not fits) created now self
  step self (timer_fires now) = schedule_from_timer ops fs r now self
  step self (started created immediate now) = start ops fs r created immediate now self
  step self stopped = quietly (stop ops fs r self)

  step_sound :
      ConfiguresShm ops fs r
      → (self : Capture P) (e : Event) → is_sound self ≡ true
      → can_come self e ≡ true
      → returns_sound (step self e) ≡ true
  unfolding step can_come is_sound returns_sound frame_handle_ready frame_handle_failed
      session_handle_format_shm session_handle_format_drm session_handle_dmabuf_device
      session_handle_dimensions clear_constraints stop deinit_session
      session_handle_constraints_done
  step_sound safe self (format_shm format) h c = ground arith
  step_sound safe self (format_drm format modifiers) h c = ground arith
  step_sound safe self (dmabuf_device none) h c = ground arith
  step_sound safe self (dmabuf_device (some d)) h c = ground arith
  step_sound safe self (dimensions width height) h c = ground arith
  step_sound safe self (constraints now) h c =
      let (b, u, e, k) = config-Configured ops fs r safe self in
      rw (e, session_handle_constraints_done)
        (constraints_sound ops fs r safe now b u (same_sound ops fs r self u k h) (k.2 ∙ c))
  step_sound safe self ready h c =
      split_if ops fs r self.frame _ none (λ f. ready_sound ops fs r self self.buffer h f)
        (λ f. ground (arith, f, c))
  step_sound safe self (failed fits created now) h c =
      split_if ops fs r self.frame _ none
        (λ f. dropped_sound ops fs r safe (not fits) created now self self.buffer h f)
        (λ f. ground (arith, f, c))
  step_sound safe self (timer_fires now) h c = timer_sound ops fs r safe now self h c
  step_sound safe self (started created immediate now) h c =
      start_sound ops fs r safe created immediate now self h (ground arith)
  step_sound safe self stopped h c = ground arith

  abbrev pub and_then : Result P → (Capture P → Result P) → Result P
  and_then none f = none
  and_then (some (reports, self)) f = f self

  -- What a history leaves, without the reports.
  unfoldable pub run : Capture P → List Event → Result P
  unfolding step
  run self [] = quietly self
  run self (e ∷ es) = and_then (step self e) (λ t. run t es)

  abbrev pub then_come : Result P → (Capture P → Bool) → Bool
  then_come none f = true
  then_come (some (reports, self)) f = f self

  unfoldable pub all_come : Capture P → List Event → Bool
  unfolding step can_come
  all_come self [] = true
  all_come self (e ∷ es) = can_come self e && then_come (step self e) (λ t. all_come t es)

  after_sound :
      (x : Result P) (es : List Event)
      → ((t : Capture P)
          → is_sound t ≡ true
          → all_come t es ≡ true
          → returns_sound (run t es) ≡ true)
      → returns_sound x ≡ true
      → then_come x (λ t. all_come t es) ≡ true
      → returns_sound (and_then x (λ t. run t es)) ≡ true
  unfolding returns_sound
  after_sound none es k h c = h
  after_sound (some (reports, t)) es k h c = k t h c

  run_sound :
      ConfiguresShm ops fs r
      → (self : Capture P) (es : List Event) → is_sound self ≡ true
      → all_come self es ≡ true
      → returns_sound (run self es) ≡ true
  unfolding run all_come returns_sound
  run_sound safe self [] h c = h
  run_sound safe self (e ∷ es) h c =
      after_sound (step self e) es (λ t. run_sound safe t es)
        (step_sound safe self e h (ground arith)) (ground arith)

  -- Over any history in which capturing is started only while the timer does not run, no assertion
  -- of the session fails and no request goes to a NULL object, a frame is there exactly while its
  -- buffer is, and there is none while the timer runs or a start is due, whatever the pool and the
  -- compositor answer. `qsort` sorts; formats for shared memory with pixels of an unknown size are
  -- rated zero; and the pool's own assertions, and those on memory, are not part of this.
  pub run-is_sound :
      SortLaws r
      → RatesKnown fs r
      → (self : Capture P) (es : List Event) → is_sound self ≡ true
      → all_come self es ≡ true
      → returns_sound (run self es) ≡ true
  run-is_sound laws known = run_sound (configures_shm fs r ops laws known)
