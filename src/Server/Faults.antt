-- ===== src/Server/Faults.antt =====
-- Histories of src/main.c that end in a failed assertion or in a capture that nobody watches.
use wayvnc.Prelude.{◌≡◌, ◌≢◌, ◌==◌, Bool, true, false, ◌&&◌, none, some, [], ◌∷◌, arith}
use wayvnc.Server.{
  Source, Server, Result, done, on_capture_done, wayvnc_handle_rate_limit_timeout, client_destroy,
  switch_to_output, wayvnc_start_capture_immediate, wayvnc_start_capture, output_acquire_power_on,
  output_release_power_on, screencopy_stop, wayvnc_process_frame, wayvnc_send_next_frame,
}
use wayvnc.Server.Live.{client_gone, captured, limiter_fires, switched, step, run, is_capturing}

-- The server captures although no client is left.
unfoldable pub captures_for_nobody : Result → Bool
captures_for_nobody none = false
captures_for_nobody (some s) = s.nr_clients == 0 && is_capturing s.screencopy

-- If the last client leaves while a frame is held back, the rate limit's timer starts a capture,
-- with no client connected.
pub client_gone-limiter_fires :
    (s : Server) (src : Source) (b : Bool)
    → s.nr_clients ≡ 1
    → s.attached ≡ true
    → s.source ≡ some src
    → s.screencopy ≡ some b
    → s.next_frame ≡ true
    → captures_for_nobody (run s (client_gone ∷ limiter_fires ∷ [])) ≡ true
unfolding captures_for_nobody run step client_destroy wayvnc_handle_rate_limit_timeout
    wayvnc_send_next_frame wayvnc_start_capture screencopy_stop output_release_power_on
client_gone-limiter_fires s src b n a e c f = ground arith

-- After a switch to another output, the first frame that is captured fails the assertion that a
-- display shows its source, since the display still names the output before.
pub switched-captured :
    (s : Server) (src output : Source) (time_left : Bool)
    → s.source ≡ some src
    → s.display_source ≡ some src.id
    → src.id ≢ output.id
    → run s (switched output ∷ captured done time_left ∷ []) ≡ none
unfolding run step switch_to_output on_capture_done wayvnc_process_frame screencopy_stop
    wayvnc_start_capture_immediate wayvnc_start_capture output_acquire_power_on
switched-captured s src output time_left e d n = ground arith
