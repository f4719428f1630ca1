-- ===== src/Screencopy/Tests.antt =====
-- Tests of captures by screencopy, and the history at which their theorem is applied.
use wayvnc.Prelude.{◌≡◌, refl, true, false, none, some, List, [], ◌∷◌}
use wayvnc.Pixels.{Formats}
use wayvnc.Screencopy.{
  Screencopy, stopped, in_progress, restart, halt, react, wlr_screencopy_stop, wlr_screencopy_start,
  stop, start_capture, time_left, screencopy_linux_dmabuf, screencopy_buffer,
  screencopy_buffer_done, screencopy_ready, screencopy_failed, delivered, poll, buffer_config,
}
use wayvnc.Screencopy.Held.{is_going, is_sound, returns_sound}
use wayvnc.Screencopy.History.{
  Event, buffer, buffer_done, linux_dmabuf, ready, failing, timer_fires, started, halted_by_main,
  step, can_come, run, all_come, run-returns_sound,
}

-- Invented values for the constants.
abbrev formats : Formats
formats = record {
  big_endian = 2147483648;
  drm_argb8888 = 100;
  drm_xrgb8888 = 101;
  shm_argb8888 = 0;
  shm_xrgb8888 = 1;
  four_bytes = 100 ∷ 101 ∷ [];
  three_bytes = [];
  two_bytes = [];
}

abbrev idle : Screencopy
idle = record {
  status = stopped;
  front = none;
  back = none;
  frame = false;
  last_time = 0;
  timer = false;
  is_immediate_copy = false;
  wl_shm_width = 0;
  wl_shm_height = 0;
  wl_shm_stride = 0;
  wl_shm_format = 0;
  have_linux_dmabuf = false;
  dmabuf_width = 0;
  dmabuf_height = 0;
  fourcc = 0;
  enable_linux_dmabuf = true;
  rate_limit = 30;
}

abbrev session : List Event
session =
    started true 50000
    ∷ buffer 3 none 0 4 2 16
    ∷ linux_dmabuf true 101 4 2
    ∷ buffer_done (some 5)
    ∷ ready (restart true false 60000 ∷ [])
    ∷ started true 70000
    ∷ timer_fires 90000
    ∷ buffer 2 (some 6) 1 4 2 16
    ∷ failing (halt ∷ restart true true 95000 ∷ [])
    ∷ timer_fires 200000
    ∷ buffer 2 (some 6) 1 4 2 16
    ∷ halted_by_main
    ∷ []

session_comes : all_come formats idle session ≡ true
unfolding all_come can_come step stop react wlr_screencopy_stop wlr_screencopy_start start_capture
    time_left screencopy_linux_dmabuf screencopy_buffer screencopy_buffer_done screencopy_ready
    screencopy_failed delivered poll buffer_config
session_comes = refl

idle-is_sound : is_sound idle ≡ true
unfolding is_sound is_going
idle-is_sound = refl

run-returns_sound_example : returns_sound none (run formats idle session) ≡ true
run-returns_sound_example = run-returns_sound formats idle session idle-is_sound session_comes

-- A request for a frame that fails leaves the capture in progress, and the next start does nothing.
start_after_failure :
    wlr_screencopy_start true true 90000 (wlr_screencopy_start false true 50000 idle)
    ≡ record idle { status = in_progress; is_immediate_copy = true }
unfolding wlr_screencopy_start start_capture time_left
start_after_failure = refl
