-- ===== src/Server/Live.antt =====
-- While clients are connected, src/main.c always has something under way that leads to a frame.
use wayvnc.Prelude.{
  ◌==◌, not, ◌&&◌, ◌||◌, ℕ, ◌≡◌, Bool, true, false, Option, none, some, List, [], ◌∷◌, arith,
}
use wayvnc.Server.{
  Power, unknown, Source, Server, Result, Captured, done, failed, fatal, ◌>>=◌, is_on, power_eq,
  on_capture_done, on_capture_restart_timer, wayvnc_handle_rate_limit_timeout, on_nvnc_client_new,
  client_destroy, output_power_mode, output_power_failed, switch_to_output,
  wayvnc_start_capture_immediate, wayvnc_start_capture, output_acquire_power_on,
  output_release_power_on, screencopy_stop, wayvnc_process_frame, wayvnc_restart_capture,
  wayvnc_send_next_frame, on_power_change,
}
use wayvnc.Server.Attach.{
  Attach, attached_to, no_connection, no_source, on_detach, on_attach, on_wayland_destroyed,
  wayland_attach,
}

-- The events that the server handles, with what the calls to libraries come to.
pub data Event : Type 0 where
  client_new client_gone : Event
  captured : Captured → (time_left : Bool) → Event
  limiter_fires retry_fires : Event
  power_mode : Power → Event
  power_failed : Event
  switched : Source → Event
  detach : Event
  attach : Attach → Event

-- Handlers whose calls of `screencopy_start` always succeed.
unfoldable pub step : Server → Event → Result
step s client_new = on_nvnc_client_new true s
step s client_gone = client_destroy s
step s (captured r time_left) = elim s.source [
  | none ↦ none
  | some src ↦ on_capture_done r time_left true src.id s
]
step s limiter_fires = wayvnc_handle_rate_limit_timeout true s
step s retry_fires = on_capture_restart_timer true s
step s (power_mode p) = output_power_mode true p s
step s power_failed = some (output_power_failed s)
step s (switched output) = switch_to_output true true output s
step s detach = some (on_detach s)
step s (attach outcome) = on_attach true outcome s

-- The display's source is the server's, a frame is held back only while the rate limit runs, and
-- the power of a source that is not acquired is unknown. With clients connected, a capture is under
-- way, or the retry timer runs, or a frame is held back, or the output is to be switched on. While
-- detached no frame is held and no capture is to be tried again.
abbrev pub live_at : Bool → Option Source → Option Bool → Option ℕ → Server → Bool
live_at true (some src) (some b) (some d) s =
    d == src.id
    && (not s.next_frame || s.rate_limiter)
    && (src.acquired || power_eq src.power unknown)
    && (s.nr_clients == 0
        || b
        || s.retry_timer
        || s.next_frame
        || src.acquired && not (is_on src.power))
live_at false none none none s = not s.next_frame && not s.retry_timer
live_at _ _ _ _ _ = false

unfoldable pub is_live : Server → Bool
is_live s = live_at s.attached s.source s.screencopy s.display_source s

abbrev pub returns_live : Result → Bool
unfolding is_live
returns_live none = false
returns_live (some s) = is_live s

-- When an event can come, and is none of those that this leaves out: a capture ends only if one is
-- under way, a timer fires only if it runs, a client that leaves was there, and the compositor
-- reports on an output whose power is acquired. Left out are a capture that fails for good, an output
-- that cannot be switched, a change of the output, and an attachment that fails under a client.
abbrev pub is_acquired : Option Source → Bool
is_acquired none = false
is_acquired (some src) = src.acquired

abbrev pub is_capturing : Option Bool → Bool
is_capturing none = false
is_capturing (some b) = b

abbrev pub is_failure : Captured → Bool
is_failure fatal = true
is_failure _ = false

unfoldable pub can_come : Server → Event → Bool
can_come s client_new = true
can_come s client_gone = not (s.nr_clients == 0)
can_come s (captured r time_left) = is_capturing s.screencopy && not (is_failure r)
can_come s limiter_fires = s.rate_limiter
can_come s retry_fires = s.retry_timer
can_come s (power_mode p) = is_acquired s.source
can_come s power_failed = false
can_come s (switched output) = false
can_come s detach = true
can_come s (attach (attached_to src)) = not src.acquired && power_eq src.power unknown
can_come s (attach no_connection) = s.nr_clients == 0
can_come s (attach no_source) = s.nr_clients == 0

-- All events of a history, one after the other.
unfoldable pub run : Server → List Event → Result
unfolding step
run s [] = some s
run s (e ∷ es) = step s e >>= (λ t. run t es)

abbrev pub then_all : Result → (Server → Bool) → Bool
then_all none f = true
then_all (some t) f = f t

unfoldable pub all_come : Server → List Event → Bool
unfolding step can_come
all_come s [] = true
all_come s (e ∷ es) = can_come s e && then_all (step s e) (λ t. all_come t es)

abbrev with_source : Server → Source → Bool → ℕ → Server
with_source s src b d = record s {
  attached = true;
  source = some src;
  screencopy = some b;
  display_source = some d;
}

abbrev without_source : Server → Server
without_source s = record s {
  attached = false;
  source = none;
  screencopy = none;
  display_source = none;
}

start_live :
    (s : Server) (src : Source) (b : Bool)
    → not s.next_frame || s.rate_limiter ≡ true
    → src.acquired || power_eq src.power unknown ≡ true
    → returns_live (wayvnc_start_capture_immediate true (with_source s src b src.id)) ≡ true
unfolding wayvnc_start_capture_immediate wayvnc_start_capture output_acquire_power_on is_live
start_live s src b f p = ground arith

step_up :
    (s : Server) (src : Source) (b : Bool) (d : ℕ) (e : Event)
    → is_live (with_source s src b d) ≡ true
    → can_come (with_source s src b d) e ≡ true
    → returns_live (step (with_source s src b d) e) ≡ true
unfolding step can_come is_live on_nvnc_client_new client_destroy output_release_power_on
    screencopy_stop on_capture_done wayvnc_process_frame wayvnc_restart_capture
    wayvnc_send_next_frame wayvnc_handle_rate_limit_timeout on_capture_restart_timer
    output_power_mode on_power_change on_detach on_wayland_destroyed on_attach wayland_attach
    wayvnc_start_capture_immediate wayvnc_start_capture output_acquire_power_on
step_up s src b d client_new l c = ground arith
step_up s src b d client_gone l c = ground arith
step_up s src b d (captured done time_left) l c = ground arith
step_up s src b d (captured failed time_left) l c = ground arith
step_up s src b d (captured fatal time_left) l c = ground arith
step_up s src b d limiter_fires l c = ground arith
step_up s src b d retry_fires l c = ground arith
step_up s src b d (power_mode p) l c = ground arith
step_up s src b d power_failed l c = ground arith
step_up s src b d (switched output) l c = ground arith
step_up s src b d detach l c = ground arith
step_up s src b d (attach (attached_to o)) l c = ground arith
step_up s src b d (attach no_connection) l c = ground arith
step_up s src b d (attach no_source) l c = ground arith

step_down :
    (s : Server) (e : Event)
    → is_live (without_source s) ≡ true
    → can_come (without_source s) e ≡ true
    → returns_live (step (without_source s) e) ≡ true
unfolding step can_come is_live on_nvnc_client_new client_destroy output_release_power_on
    screencopy_stop on_capture_done wayvnc_process_frame wayvnc_restart_capture
    wayvnc_send_next_frame wayvnc_handle_rate_limit_timeout on_capture_restart_timer
    output_power_mode on_power_change on_detach on_wayland_destroyed on_attach wayland_attach
    wayvnc_start_capture_immediate wayvnc_start_capture output_acquire_power_on
step_down s client_new l c = ground arith
step_down s client_gone l c = ground arith
step_down s (captured r time_left) l c = ground arith
step_down s limiter_fires l c = ground arith
step_down s retry_fires l c = ground arith
step_down s (power_mode p) l c = ground arith
step_down s power_failed l c = ground arith
step_down s (switched output) l c = ground arith
step_down s detach l c = ground arith
step_down s (attach (attached_to o)) l c = ground arith
step_down s (attach no_connection) l c = ground arith
step_down s (attach no_source) l c = ground arith

step_at :
    (s : Server) (up : Bool) (source : Option Source) (c : Option Bool) (d : Option ℕ) (e : Event)
    → is_live (record s { attached = up; source = source; screencopy = c; display_source = d })
      ≡ true
    → can_come (record s { attached = up; source = source; screencopy = c; display_source = d }) e
      ≡ true
    → returns_live
        (step (record s { attached = up; source = source; screencopy = c; display_source = d }) e)
      ≡ true
unfolding is_live
step_at s true (some src) (some b) (some d) e l h = step_up s src b d e l h
step_at s false none none none e l h = step_down s e l h
step_at s true none c d e l h = ground arith
step_at s true (some src) none d e l h = ground arith
step_at s true (some src) (some b) none e l h = ground arith
step_at s false (some src) c d e l h = ground arith
step_at s false none (some b) d e l h = ground arith
step_at s false none none (some d) e l h = ground arith

step_live :
    (s : Server) (e : Event)
    → is_live s ≡ true
    → can_come s e ≡ true
    → returns_live (step s e) ≡ true
step_live s e l h = step_at s s.attached s.source s.screencopy s.display_source e l h

then_live :
    (r : Result) (es : List Event)
    → ((t : Server) → is_live t ≡ true → all_come t es ≡ true → returns_live (run t es) ≡ true)
    → returns_live r ≡ true
    → then_all r (λ t. all_come t es) ≡ true
    → returns_live (r >>= (λ t. run t es)) ≡ true
unfolding returns_live is_live
then_live none es k l h = l
then_live (some t) es k l h = k t l h

-- Where every call of `screencopy_start` succeeds, over any history of events that come when they can
-- (a capture ends only while it is under way, a timer fires only while it runs, the compositor
-- reports on the power of an acquired output), without captures that fail for good, without reports
-- that an output cannot be switched on, without switching to another output, and without
-- attachments that fail under a client: no assertion fails and no NULL is read, and whenever clients
-- are connected to an attached server a capture is under way, a retry is due, a frame is held back
-- by the rate limit, or the output is to be switched on.
pub run-is_live :
    (s : Server) (es : List Event)
    → is_live s ≡ true
    → all_come s es ≡ true
    → returns_live (run s es) ≡ true
unfolding run all_come returns_live
run-is_live s [] l h = l
run-is_live s (e ∷ es) l h =
    then_live (step s e) es (λ t. run-is_live t es) (step_live s e l (ground arith)) (ground arith)
