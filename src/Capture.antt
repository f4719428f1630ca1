-- ===== src/Capture.antt =====
-- src/ext-image-copy-capture.c: a capture session, its constraints, its frame and its timer. The
-- buffer pool is an interface, `PoolOps`; what Wayland and the clock answer are arguments.
pub mod Formats
pub mod Session
mod Sound
pub mod Sizes
pub mod Starts
mod Tests
use wayvnc.Prelude.{ℕ, Bool, true, false, Option, none, some, List, [], ◌∷◌, ◌++◌}
use wayvnc.Prelude.Int.{ℤ}
use wayvnc.Buffer.{BufferConfig}

-- `struct format_entry`; of the score, a double, only the order and zero matter.
pub record FormatEntry : Type 0 where
  pub score : ℕ
  pub format : ℕ
  pub modifier : ℕ

-- What a session calls of the buffer pool. A buffer is named by its address.
pub record PoolOps (P : Type 0) : Type 0 where
  pub reconfig : BufferConfig → P → Bool × P
  pub acquire : P → Option ℕ × P
  pub release : ℕ → P → P
  pub filled : ℕ → P → P

-- `struct ext_image_copy_capture`. The flags `session`, `cursor` and `frame` say whether the
-- pointers are set, `timer` whether it is running. The device is set if `have_dmabuf_dev` is.
pub record Capture (P : Type 0) : Type 0 where
  pub session : Bool
  pub cursor : Bool
  pub frame : Bool
  pub buffer : Option ℕ
  pub pool : P
  pub have_constraints : Bool
  pub should_start : Bool
  pub is_cursor_session : Bool
  pub frame_count : ℕ
  pub width : ℕ
  pub height : ℕ
  pub wl_shm_formats : List FormatEntry
  pub dmabuf_formats : List FormatEntry
  pub dmabuf_dev : Option ℕ
  pub hotspot : ℤ × ℤ
  pub last_time : ℕ
  pub timer : Bool
  pub rate_limit : ℕ

-- What `on_done` is called with.
pub data Report : Type 0 where
  done : ℕ → Report
  fatal : Report

-- A handler's calls of `on_done` and what it leaves; `none` is a failed assertion or a request on a
-- NULL object.
abbrev pub Result : Type 0 → Type 0
Result P = Option (List Report × Capture P)

abbrev pub quietly : {P : Type 0} → Capture P → Result P
quietly self = some ([], self)
