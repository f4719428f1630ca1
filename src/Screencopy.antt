-- ===== src/Screencopy.antt =====
-- src/screencopy.c: capturing an output by the screencopy protocol of wlroots. What Wayland, the
-- clock and the buffer pool answer are arguments; calls of the pool and of `on_done` are listed.
mod Held
pub mod History
mod Tests
use wayvnc.Prelude.{
  ℕ, ◌-◌, ◌/◌, ◌&&◌, Bool, true, false, Option, none, some, List, [], ◌∷◌, ◌++◌, ◌==◌, ltb,
  if◌then◌else◌,
}
use wayvnc.Pixels.{Formats, fourcc_from_wl_shm}
use wayvnc.Buffer.{BufferType, shm, dmabuf, BufferConfig}

-- `enum wlr_screencopy_status`
pub data Status : Type 0 where
  stopped in_progress failed fatal done : Status

-- `struct wlr_screencopy`. A buffer is named by its address, `frame` says whether the pointer is set
-- and `timer` whether it is running.
pub record Screencopy : Type 0 where
  pub status : Status
  pub front : Option ℕ
  pub back : Option ℕ
  pub frame : Bool
  pub last_time : ℕ
  pub timer : Bool
  pub is_immediate_copy : Bool
  pub wl_shm_width : ℕ
  pub wl_shm_height : ℕ
  pub wl_shm_stride : ℕ
  pub wl_shm_format : ℕ
  pub have_linux_dmabuf : Bool
  pub dmabuf_width : ℕ
  pub dmabuf_height : ℕ
  pub fourcc : ℕ
  pub enable_linux_dmabuf : Bool
  pub rate_limit : ℕ

-- What is called of the pool, of the frame and of src/main.c.
pub data Call : Type 0 where
  reconfigured : BufferConfig → Call
  acquired : ℕ → Call
  damaged_whole : ℕ → Call
  released : ℕ → Call
  reported : Status → Option ℕ → Call

-- The calls of a function and what it leaves; `none` is a failed assertion or a dereference of NULL.
abbrev pub Result : Type 0
Result = Option (List Call × Screencopy)

-- `screencopy__stop`
unfoldable pub stop : Screencopy → Screencopy
stop self = record self { timer = false; status = stopped; frame = false }

abbrev pub release : Option ℕ → List Call
release none = []
release (some b) = released b ∷ []

unfoldable pub wlr_screencopy_stop : Screencopy → List Call × Screencopy
unfolding stop
wlr_screencopy_stop self = (release self.front, stop (record self { front = none }))

-- `available` says whether the compositor takes dmabufs.
unfoldable pub screencopy_linux_dmabuf :
    (available : Bool) → (format width height : ℕ) → Screencopy → Screencopy
screencopy_linux_dmabuf available format width height self =
    if available
    then record self {
      have_linux_dmabuf = true;
      dmabuf_width = width;
      dmabuf_height = height;
      fourcc = format;
    }
    else self

unfoldable pub buffer_config : Formats → Screencopy → BufferConfig
buffer_config fs self =
    if self.have_linux_dmabuf && self.enable_linux_dmabuf
    then record {
      kind = dmabuf;
      width = self.dmabuf_width;
      height = self.dmabuf_height;
      stride = 0;
      format = self.fourcc;
      node = 0;
      modifiers = [];
    }
    else record {
      kind = shm;
      width = self.wl_shm_width;
      height = self.wl_shm_height;
      stride = self.wl_shm_stride;
      format = fourcc_from_wl_shm fs self.wl_shm_format;
      node = 0;
      modifiers = [];
    }

abbrev pub attached : BufferConfig → ℕ → Screencopy → Option ℕ → Result
attached config b self none =
    some (reconfigured config ∷ acquired b ∷ [], record self { front = some b })
attached config b self (some c) = none

-- `got` is what `wv_buffer_pool_acquire` gives.
unfoldable pub screencopy_buffer_done : Formats → Option ℕ → Screencopy → Result
unfolding stop buffer_config
screencopy_buffer_done fs none self = some (
  reconfigured (buffer_config fs self) ∷ reported fatal none ∷ [],
  record (stop self) { status = fatal },
)
screencopy_buffer_done fs (some b) self = attached (buffer_config fs self) b self self.front

unfoldable pub screencopy_buffer :
    Formats → (version : ℕ) → Option ℕ → (format width height stride : ℕ) → Screencopy → Result
unfolding screencopy_buffer_done
screencopy_buffer fs version got format width height stride self =
    let s = record self {
      wl_shm_format = format;
      wl_shm_width = width;
      wl_shm_height = height;
      wl_shm_stride = stride;
    } in
    if ltb version 3
    then screencopy_buffer_done fs got (record s { have_linux_dmabuf = false })
    else some ([], s)

-- `screencopy__start_capture`; `created` says whether there is a frame, and so what it returns.
unfoldable pub start_capture : (created : Bool) → ℕ → Screencopy → Screencopy
start_capture created now self =
    if created then record self { frame = true; last_time = now } else record self { frame = false }

-- `screencopy__poll`
unfoldable pub poll : (created : Bool) → ℕ → Screencopy → Screencopy
unfolding start_capture
poll created now self = start_capture created now (record self { timer = false })

abbrev pub is_in_progress : Status → Bool
is_in_progress in_progress = true
is_in_progress _ = false

-- `1.0 / rate_limit` less the time since the last capture, in microseconds.
unfoldable pub time_left : ℕ → Screencopy → ℕ
time_left now self = 1000000 / self.rate_limit - (now - self.last_time)

unfoldable pub wlr_screencopy_start : (created immediate : Bool) → ℕ → Screencopy → Screencopy
unfolding time_left start_capture
wlr_screencopy_start created immediate now self =
    if is_in_progress self.status
    then self
    else let s = record self { is_immediate_copy = immediate; status = in_progress } in
      if ltb 0 (time_left now self) then record s { timer = true } else start_capture created now s

-- What src/main.c calls while `on_done` runs.
pub data Reaction : Type 0 where
  restart : (created immediate : Bool) → ℕ → Reaction
  halt : Reaction

unfoldable pub react : List Reaction → Screencopy → List Call × Screencopy
unfolding wlr_screencopy_start wlr_screencopy_stop
react [] self = ([], self)
react (restart created immediate now ∷ rs) self =
    react rs (wlr_screencopy_start created immediate now self)
react (halt ∷ rs) self =
    let s = wlr_screencopy_stop self in let t = react rs s.1 in (s.0 ++ t.0, t.1)

abbrev pub damage : Bool → ℕ → List Call
damage true b = damaged_whole b ∷ []
damage false b = []

-- `screencopy_ready` for its buffer in front: it becomes the one in back while it is reported.
unfoldable pub delivered : List Reaction → ℕ → Screencopy → Result
unfolding stop react
delivered rs b self =
    let s = record (stop self) { back = some b; front = none; status = done } in
    let t = react rs s in
    some (
      damage self.is_immediate_copy b ++ (release self.back ++ (reported done (some b) ∷ t.0)),
      record t.1 { back = none },
    )

unfoldable pub screencopy_ready : List Reaction → Screencopy → Result
unfolding delivered
screencopy_ready rs self = elim self.front [ none ↦ none | some b ↦ delivered rs b self ]

unfoldable pub screencopy_failed : List Reaction → Screencopy → Result
unfolding stop react
screencopy_failed rs self =
    let s = record (stop self) { front = none; status = failed } in
    let t = react rs s in some (release self.front ++ (reported failed none ∷ t.0), t.1)
