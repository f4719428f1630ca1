-- ===== src/Output/State.antt =====
-- The pending and the current state of an output of src/output.c, over the events of `wl_output`
-- and `zxdg_output_v1`.
pub mod History
pub mod Reads
use wayvnc.Prelude.{
  ℕ, ◌-◌, ◌%◌, ◌^◌, Bool, true, false, ◌&&◌, ◌||◌, not, List, [], ◌∷◌, Option, none, some, ◌==◌,
  if◌then◌else◌, leb, take,
}
use wayvnc.Prelude.Int.{ℤ, pos, negsuc}
use wayvnc.Text.{Str, str_eq, truncated}

-- An `int32_t` as `uint32_t`, and back as `int`.
abbrev pub to_uint32 : ℤ → ℕ
to_uint32 (pos n) = n % 2 ^ 32
to_uint32 (negsuc n) = 2 ^ 32 - 1 - n % 2 ^ 32

abbrev pub to_int32 : ℕ → ℤ
to_int32 n = if leb (2 ^ 31) n then negsuc (2 ^ 32 - 1 - n) else pos n

-- `struct output_state`
pub record OutputState : Type 0 where
  pub logical_width : ℕ
  pub logical_height : ℕ
  pub buffer_width : ℕ
  pub buffer_height : ℕ
  pub x : ℕ
  pub y : ℕ
  pub transform : ℕ
  pub make : Str
  pub model : Str
  pub name : Str
  pub description : Str

-- `struct output`, without what stands for its objects. `notified` has the states that the
-- observers of `geometry_change` were told of, the newest first.
pub record Output : Type 0 where
  pub id : ℕ
  pub state : OutputState
  pub pending : OutputState
  pub notified : List OutputState

-- What `calloc` leaves.
abbrev pub zeroed : OutputState
zeroed = record {
  logical_width = 0;
  logical_height = 0;
  buffer_width = 0;
  buffer_height = 0;
  x = 0;
  y = 0;
  transform = 0;
  make = [];
  model = [];
  name = [];
  description = [];
}

unfoldable pub output_new : ℕ → Output
output_new id = record { id = id; state = zeroed; pending = zeroed; notified = [] }

unfoldable pub output_handle_geometry : Str → Str → ℤ → Output → Output
output_handle_geometry make model transform o = record o {
  pending = record o.pending {
    transform = to_uint32 transform;
    make = truncated 256 make;
    model = truncated 256 model;
  };
}

unfoldable pub output_handle_mode : ℤ → ℤ → Output → Output
output_handle_mode width height o = record o {
  pending = record o.pending { buffer_width = to_uint32 width; buffer_height = to_uint32 height };
}

-- The test of `output_handle_done`.
unfoldable pub geometry_changed : OutputState → OutputState → Bool
geometry_changed s p =
    not (s.transform == p.transform)
    || not (s.logical_width == p.logical_width)
    || not (s.logical_height == p.logical_height)
    || not (s.buffer_width == p.buffer_width)
    || not (s.buffer_height == p.buffer_height)
    || not (s.x == p.x)
    || not (s.y == p.y)

unfoldable pub output_handle_done : Output → Output
unfolding geometry_changed
output_handle_done o = record o {
  state = o.pending;
  notified = if geometry_changed o.state o.pending then o.pending ∷ o.notified else o.notified;
}

unfoldable pub output_logical_position : ℤ → ℤ → Output → Output
output_logical_position x y o = record o {
  pending = record o.pending { x = to_uint32 x; y = to_uint32 y };
}

unfoldable pub output_logical_size : ℤ → ℤ → Output → Output
output_logical_size width height o = record o {
  pending = record o.pending { logical_width = to_uint32 width; logical_height = to_uint32 height };
}

unfoldable pub output_name : Str → Output → Output
output_name name o = record o { pending = record o.pending { name = truncated 256 name } }

unfoldable pub output_description : Str → Output → Output
output_description description o = record o {
  pending = record o.pending { description = truncated 256 description };
}

-- What the functions that read an output answer.
unfoldable pub output_get_logical_size : Output → ℤ × ℤ
output_get_logical_size o = (to_int32 o.state.logical_width, to_int32 o.state.logical_height)

unfoldable pub is_transform_90_degrees : ℕ → Bool
is_transform_90_degrees transform =
    transform == 1 || transform == 3 || transform == 5 || transform == 7

unfoldable pub output_get_buffer_size : Output → ℤ × ℤ
unfolding is_transform_90_degrees
output_get_buffer_size o =
    if is_transform_90_degrees o.state.transform
    then (to_int32 o.state.buffer_height, to_int32 o.state.buffer_width)
    else (to_int32 o.state.buffer_width, to_int32 o.state.buffer_height)

unfoldable pub output_get_pos : Output → ℤ × ℤ
output_get_pos o = (to_int32 o.state.x, to_int32 o.state.y)

-- HEADLESS- and NOOP-
abbrev pub headless : Str
headless = b'H' ∷ b'E' ∷ b'A' ∷ b'D' ∷ b'L' ∷ b'E' ∷ b'S' ∷ b'S' ∷ b'-' ∷ []

abbrev pub noop : Str
noop = b'N' ∷ b'O' ∷ b'O' ∷ b'P' ∷ b'-' ∷ []

-- `strncmp(s, p, strlen(p)) == 0`
abbrev pub starts_with : Str → Str → Bool
starts_with [] s = true
starts_with (c ∷ p) [] = false
starts_with (c ∷ p) (d ∷ s) = c == d && starts_with p s

unfoldable pub output_is_headless : Output → Bool
output_is_headless o = starts_with headless o.state.name || starts_with noop o.state.name

unfoldable pub output_find_by_id : List Output → ℕ → Option Output
output_find_by_id [] id = none
output_find_by_id (o ∷ os) id =
    let rest = output_find_by_id os id in if o.id == id then some o else rest

unfoldable pub output_find_by_name : List Output → Str → Option Output
output_find_by_name [] name = none
output_find_by_name (o ∷ os) name =
    let rest = output_find_by_name os name in if str_eq o.state.name name then some o else rest

unfoldable pub output_first : List Output → Option Output
output_first [] = none
output_first (o ∷ os) = some o

unfoldable pub output_last : List Output → Option Output
output_last [] = none
output_last (o ∷ []) = some o
output_last (o ∷ p ∷ os) = output_last (p ∷ os)
