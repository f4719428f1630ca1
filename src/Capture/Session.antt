-- ===== src/Capture/Session.antt =====
-- The session, its frames and its timer in src/ext-image-copy-capture.c.
use wayvnc.Prelude.{
  ℕ, ◌+◌, ◌-◌, ◌/◌, ◌%◌, ◌^◌, Bool, true, false, not, ◌||◌, Option, none, some, [], ◌∷◌, ◌==◌,
  if◌then◌else◌,
}
use wayvnc.Pixels.{Formats}
use wayvnc.Capture.{PoolOps, Capture, done, fatal, Result, quietly}
use wayvnc.Capture.Formats.{Rating, clear_constraints, config_buffers}

module _ {P : Type 0} (ops : PoolOps P) where
  -- `wv_buffer_release`, which does nothing for NULL.
  abbrev pub release_buffer : Option ℕ → P → P
  release_buffer none pool = pool
  release_buffer (some b) pool = ops.release b pool

  unfoldable pub deinit_session : Capture P → Capture P
  unfolding clear_constraints
  deinit_session self =
      let s = clear_constraints self in
      record s {
        frame = false;
        session = false;
        cursor = false;
        buffer = none;
        pool = release_buffer s.buffer s.pool;
      }

  -- The two initialisations, with `created` for the capture source and the session that they create.
  unfoldable pub init_session : (created : Bool) → Capture P → Capture P
  init_session created self = record self { session = created || self.session }

  unfoldable pub init_cursor_session : (created : Bool) → Capture P → Capture P
  init_cursor_session created self =
      if created then record self { cursor = true; session = true } else self

  unfoldable pub restart_session : (created : Bool) → Capture P → Capture P
  unfolding deinit_session init_session init_cursor_session
  restart_session created self =
      let s = deinit_session self in
      if self.is_cursor_session then init_cursor_session created s else init_session created s

  module _ (fs : Formats) (r : Rating) where
    -- After a buffer has been asked for: without one the capture has failed, with one a frame is
    -- requested from the session.
    abbrev pub with_buffer : ℕ → Capture P → Option ℕ → Result P
    with_buffer now self none = some (fatal ∷ [], record self { buffer = none })
    with_buffer now self (some b) =
        if self.session
        then quietly (record self { buffer = some b; frame = true; last_time = now })
        else none

    abbrev pub configured : ℕ → Option (Bool × Capture P) → Result P
    configured now none = none
    configured now (some (ok, s)) =
        let got = ops.acquire s.pool in with_buffer now (record s { pool = got.1 }) got.0

    unfoldable pub schedule_capture : ℕ → Capture P → Result P
    unfolding config_buffers
    schedule_capture now self =
        if self.frame then none else configured now (config_buffers ops fs r self)

    -- `ext_image_copy_capture_schedule_from_timer`
    unfoldable pub schedule_from_timer : ℕ → Capture P → Result P
    unfolding schedule_capture
    schedule_from_timer now self = schedule_capture now (record self { timer = false })

    abbrev pub have_all : Result P → Result P
    have_all none = none
    have_all (some (reports, self)) =
        some (reports, record self { should_start = false; have_constraints = true })

    unfoldable pub constraints_done : ℕ → Bool × Capture P → Result P
    unfolding schedule_capture
    constraints_done now (false, self) = quietly self
    constraints_done now (true, self) =
        if self.should_start
        then have_all (schedule_capture now self)
        else quietly (record self { have_constraints = true })

    unfoldable pub session_handle_constraints_done : ℕ → Capture P → Result P
    unfolding config_buffers constraints_done
    session_handle_constraints_done now self = elim (config_buffers ops fs r self) [
      | none ↦ none
      | some config ↦ constraints_done now config
    ]

    -- `1.0 / rate_limit` less the time since the last capture, in microseconds.
    unfoldable pub time_left : ℕ → Capture P → ℕ
    time_left now self = 1000000 / self.rate_limit - (now - self.last_time)

    -- `ext_image_copy_capture_start`
    unfoldable pub start : (created immediate : Bool) → ℕ → Capture P → Result P
    unfolding restart_session time_left schedule_capture
    start created immediate now self =
        if self.frame
        then quietly self
        else if immediate || self.frame_count == 0
        then quietly (record (restart_session created self) { should_start = true })
        else if not self.have_constraints
        then quietly (record self { should_start = true })
        else if not (time_left now self == 0)
        then quietly (record self { timer = true })
        else schedule_capture now (record self { timer = false })

    -- `ext_image_copy_capture_stop`
    unfoldable pub stop : Capture P → Capture P
    unfolding deinit_session
    stop self = record (deinit_session (record self { timer = false })) { frame_count = 0 }

    abbrev pub delivered : Capture P → Option ℕ → Result P
    delivered self none = none
    delivered self (some b) = some (
      done b ∷ [],
      record self {
        frame = false;
        buffer = none;
        pool = ops.filled b self.pool;
        frame_count = (self.frame_count + 1) % 2 ^ 32;
      },
    )

    unfoldable pub frame_handle_ready : Capture P → Result P
    frame_handle_ready self = if self.frame then delivered self self.buffer else none

    unfoldable pub dropped : (constraints created : Bool) → ℕ → Capture P → Option ℕ → Result P
    unfolding start
    dropped constraints created now self none = none
    dropped constraints created now self (some b) =
        let s = record self { frame = false; buffer = none; pool = ops.release b self.pool } in
        if constraints then start created false now s else some (fatal ∷ [], s)

    -- `constraints` says whether the frame failed because the buffer no longer fits.
    unfoldable pub frame_handle_failed : (constraints created : Bool) → ℕ → Capture P → Result P
    unfolding start dropped
    frame_handle_failed constraints created now self =
        if self.frame then dropped constraints created now self self.buffer else none
