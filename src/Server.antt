-- ===== src/Server.antt =====
-- src/main.c: when the server captures. VNC clients come and go, frames are captured, sent or
-- dropped, the captured output is switched on or off, and Wayland is attached or detached. The
-- captured source is an output (src/image-source.c and src/output.c), not the whole desktop.
pub mod Attach
pub mod Live
pub mod Faults
mod Tests
use wayvnc.Prelude.{
  ℕ, suc, ◌+◌, ◌-◌, Bool, true, false, not, ◌&&◌, ◌||◌, Option, none, some, ◌==◌, if◌then◌else◌,
}

-- `enum image_source_power_state`
pub data Power : Type 0 where
  unknown off on : Power

-- An output as an image source. `acquired` says whether `wlr_output_power` is set, `managed`
-- whether the compositor has a power manager.
pub record Source : Type 0 where
  pub id : ℕ
  pub power : Power
  pub acquired : Bool
  pub managed : Bool

-- What `output_acquire_power_on` returns: 0, 1 or -1.
pub data Acquired : Type 0 where
  pending already refused : Acquired

-- `struct wayvnc`, as far as capturing needs it, with the one display of `wayvnc_displays`.
-- `attached` says whether `wayland` is set. `screencopy` is none for NULL; its value says whether a
-- capture is under way, that is, started and neither stopped nor done. `next_frame` says whether
-- the display holds a frame, `rate_limiter` and `retry_timer` whether the timers are running.
pub record Server : Type 0 where
  pub nr_clients : ℕ
  pub attached : Bool
  pub source : Option Source
  pub screencopy : Option Bool
  pub display_source : Option ℕ
  pub next_frame : Bool
  pub rate_limiter : Bool
  pub retry_timer : Bool
  pub n_frames_captured : ℕ
  pub n_frames_sent : ℕ
  pub start_detached : Bool
  pub exit_on_disconnect : Bool
  pub do_exit : Bool

-- A function of the server; `none` is a dereference of NULL or a failed assertion.
abbrev pub Result : Type 0
Result = Option Server

infixl 5 ◌>>=◌
abbrev pub ◌>>=◌ : Result → (Server → Result) → Result
none >>= f = none
some s >>= f = f s

unfoldable pub output_acquire_power_on : Source → Acquired × Source
output_acquire_power_on src =
    if src.acquired
    then (already, src)
    else if src.managed
    then (pending, record src { acquired = true })
    else (refused, src)

unfoldable pub output_release_power_on : Source → Source
output_release_power_on src =
    if src.acquired then record src { acquired = false; power = unknown } else src

unfoldable pub wayvnc_exit : Server → Server
wayvnc_exit s = record s { do_exit = true }

abbrev pub is_on : Power → Bool
is_on on = true
is_on off = false
is_on unknown = false

-- `screencopy_start`, whose outcome is an argument, with the test of it in `wayvnc_start_capture`.
unfoldable pub wayvnc_start_capture : Bool → Server → Result
unfolding wayvnc_exit
wayvnc_start_capture start_ok s = elim s.screencopy [
  | none ↦ none
  | some b ↦ some (if start_ok then record s { screencopy = some true } else wayvnc_exit s)
]

abbrev pub stopped : Option Bool → Option Bool
stopped none = none
stopped (some b) = some false

unfoldable pub screencopy_stop : Server → Server
screencopy_stop s = record s { screencopy = stopped s.screencopy }

abbrev pub start_acquired : Bool → Server → Acquired × Source → Result
start_acquired start_ok s (pending, src) = some (record s { source = some src })
start_acquired start_ok s (already, src) =
    if is_on src.power then wayvnc_start_capture start_ok s else some s
start_acquired start_ok s (refused, src) = wayvnc_start_capture start_ok s

unfoldable pub wayvnc_start_capture_immediate : Bool → Server → Result
unfolding wayvnc_start_capture output_acquire_power_on
wayvnc_start_capture_immediate start_ok s = if s.retry_timer then some s else elim s.source [
  | none ↦ none
  | some src ↦ start_acquired start_ok s (output_acquire_power_on src)
]

unfoldable pub wayvnc_restart_capture : Server → Server
wayvnc_restart_capture s = record s { retry_timer = true }

unfoldable pub on_capture_restart_timer : Bool → Server → Result
unfolding wayvnc_start_capture_immediate
on_capture_restart_timer start_ok s =
    wayvnc_start_capture_immediate start_ok (record s { retry_timer = false })

unfoldable pub wayvnc_send_next_frame : Bool → Server → Result
unfolding wayvnc_start_capture
wayvnc_send_next_frame start_ok s =
    if s.next_frame
    then wayvnc_start_capture start_ok
        (record s { next_frame = false; n_frames_sent = s.n_frames_sent + 1 })
    else some s

unfoldable pub wayvnc_handle_rate_limit_timeout : Bool → Server → Result
unfolding wayvnc_send_next_frame
wayvnc_handle_rate_limit_timeout start_ok s =
    wayvnc_send_next_frame start_ok (record s { rate_limiter = false })

-- The test `display->image_source == source` of `wayvnc_display_find_by_source`.
abbrev pub shows : Option ℕ → ℕ → Bool
shows none source = false
shows (some id) source = id == source

-- `time_left` says whether the rate limit keeps the frame back.
unfoldable pub wayvnc_process_frame : (time_left start_ok : Bool) → ℕ → Server → Result
unfolding wayvnc_send_next_frame
wayvnc_process_frame time_left start_ok source s =
    let t = record s { n_frames_captured = s.n_frames_captured + 1 } in
    if shows s.display_source source
    then if s.next_frame
      then some t
      else if time_left
      then some (record t { next_frame = true; rate_limiter = true })
      else wayvnc_send_next_frame start_ok (record t { next_frame = true })
    else none

-- `enum screencopy_result`
pub data Captured : Type 0 where
  done failed fatal : Captured

-- `on_capture_done`; a capture that is done is no longer under way.
unfoldable pub on_capture_done : Captured → (time_left start_ok : Bool) → ℕ → Server → Result
unfolding wayvnc_process_frame wayvnc_restart_capture screencopy_stop
on_capture_done done time_left start_ok source s =
    wayvnc_process_frame time_left start_ok source (screencopy_stop s)
on_capture_done failed time_left start_ok source s =
    some (wayvnc_restart_capture (screencopy_stop s))
on_capture_done fatal time_left start_ok source s = some (screencopy_stop s)

unfoldable pub on_nvnc_client_new : Bool → Server → Result
unfolding wayvnc_start_capture_immediate
on_nvnc_client_new start_ok s =
    let t = record s { nr_clients = s.nr_clients + 1 } in
    if s.nr_clients == 0 && s.attached then wayvnc_start_capture_immediate start_ok t else some t

abbrev pub release_source : Server → Result
release_source s = elim s.source [
  | none ↦ none
  | some src ↦ some (record s { source = some (output_release_power_on src) })
]

unfoldable pub client_destroy : Server → Result
unfolding screencopy_stop output_release_power_on
client_destroy s =
    let n = s.nr_clients - 1 in
    let t = record s { nr_clients = n; do_exit = s.do_exit || (s.exit_on_disconnect && n == 0) } in
    if n == 0 && s.attached then release_source (screencopy_stop t) else some t

abbrev pub with_power : Source → Power → Source
with_power src p = record src { power = p }

-- `on_image_source_power_change`
unfoldable pub on_power_change : Bool → Power → Server → Result
unfolding wayvnc_start_capture_immediate screencopy_stop
on_power_change start_ok on s =
    if s.nr_clients == 0 then some s else wayvnc_start_capture_immediate start_ok s
on_power_change start_ok off s = some (if s.nr_clients == 0 then s else screencopy_stop s)
on_power_change start_ok unknown s = some s

abbrev pub power_eq : Power → Power → Bool
power_eq unknown unknown = true
power_eq off off = true
power_eq on on = true
power_eq _ _ = false

-- `output_power_mode`, with the observer that the server has on its source.
unfoldable pub output_power_mode : Bool → Power → Server → Result
unfolding on_power_change
output_power_mode start_ok mode s = elim s.source [
  | none ↦ some s
  | some src ↦
      let t = record s { source = some (with_power src mode) } in
      if power_eq src.power mode then some t else on_power_change start_ok mode t
]

unfoldable pub output_power_failed : Server → Server
output_power_failed s = elim s.source [
  | none ↦ s
  | some src ↦ record s { source = some (record src { power = unknown; acquired = false }) }
]

-- `switch_to_output`, with the outcome of `configure_screencopy`.
unfoldable pub switch_to_output : (configured start_ok : Bool) → Source → Server → Result
unfolding wayvnc_start_capture_immediate
switch_to_output configured start_ok output s =
    let t = record s {
      source = some output;
      screencopy = if configured then some false else none;
    } in
    let u = if s.nr_clients == 0 then some t else wayvnc_start_capture_immediate start_ok t in
    elim s.source [ none ↦ u | some src ↦ if src.id == output.id then some s else u ]
