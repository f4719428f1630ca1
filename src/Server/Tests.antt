-- ===== src/Server/Tests.antt =====
-- Tests of the capture control, and the histories at which its theorems are applied.
use wayvnc.Prelude.{ℕ, ◌≡◌, ◌≢◌, refl, true, false, Option, none, some, List, [], ◌∷◌, arith}
use wayvnc.Server.{
  Source, Server, unknown, off, on, done, failed, on_capture_done, wayvnc_handle_rate_limit_timeout,
  client_destroy, wayvnc_start_capture_immediate, wayvnc_start_capture, output_acquire_power_on,
  output_release_power_on, screencopy_stop, wayvnc_process_frame, wayvnc_send_next_frame,
  on_nvnc_client_new, output_power_mode, wayvnc_restart_capture, on_power_change,
}
use wayvnc.Server.Attach.{attached_to, on_detach, on_attach, on_wayland_destroyed, wayland_attach}
use wayvnc.Server.Live.{
  Event, client_new, client_gone, captured, limiter_fires, power_mode, detach, attach, switched,
  step, run, is_live, can_come, all_come, returns_live, run-is_live,
}
use wayvnc.Server.Faults.{captures_for_nobody, client_gone-limiter_fires, switched-captured}

abbrev screen : Source
screen = record { id = 7; power = unknown; acquired = false; managed = true }

abbrev other : Source
other = record screen { id = 8 }

abbrev idle : Server
idle = record {
  nr_clients = 0;
  attached = true;
  source = some screen;
  screencopy = some false;
  display_source = some 7;
  next_frame = false;
  rate_limiter = false;
  retry_timer = false;
  n_frames_captured = 0;
  n_frames_sent = 0;
  start_detached = true;
  exit_on_disconnect = false;
  do_exit = false;
}

abbrev session : List Event
session =
    client_new
    ∷ power_mode on
    ∷ captured done false
    ∷ captured done true
    ∷ limiter_fires
    ∷ captured failed false
    ∷ detach
    ∷ attach (attached_to other)
    ∷ power_mode off
    ∷ power_mode on
    ∷ captured done false
    ∷ client_gone
    ∷ []

abbrev frames_sent : Option Server → ℕ
frames_sent none = 0
frames_sent (some s) = s.n_frames_sent

session_sent : frames_sent (run idle session) ≡ 3
unfolding run step on_nvnc_client_new client_destroy output_release_power_on screencopy_stop
    on_capture_done wayvnc_process_frame wayvnc_restart_capture wayvnc_send_next_frame
    wayvnc_handle_rate_limit_timeout output_power_mode on_power_change on_detach
    on_wayland_destroyed on_attach wayland_attach wayvnc_start_capture_immediate
    wayvnc_start_capture output_acquire_power_on
session_sent = refl

session_comes : all_come idle session ≡ true
unfolding all_come can_come step on_nvnc_client_new client_destroy output_release_power_on
    screencopy_stop on_capture_done wayvnc_process_frame wayvnc_restart_capture
    wayvnc_send_next_frame wayvnc_handle_rate_limit_timeout output_power_mode on_power_change
    on_detach on_wayland_destroyed on_attach wayland_attach wayvnc_start_capture_immediate
    wayvnc_start_capture output_acquire_power_on
session_comes = refl

idle-is_live : is_live idle ≡ true
unfolding is_live
idle-is_live = refl

run-is_live_example : returns_live (run idle session) ≡ true
run-is_live_example = run-is_live idle session idle-is_live session_comes

abbrev waiting : Server
waiting = record idle { nr_clients = 1; next_frame = true; rate_limiter = true }

client_gone-limiter_fires_example :
    captures_for_nobody (run waiting (client_gone ∷ limiter_fires ∷ [])) ≡ true
client_gone-limiter_fires_example =
    client_gone-limiter_fires waiting screen false refl refl refl refl refl

ids_differ : screen.id ≢ other.id
ids_differ e = omega arith

switched-captured_example : run waiting (switched other ∷ captured done true ∷ []) ≡ none
switched-captured_example = switched-captured waiting screen other true refl refl ids_differ
