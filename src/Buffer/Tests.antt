-- ===== src/Buffer/Tests.antt =====
-- Tests of the pool, with regions as lists of rectangles, and the pools at which its theorems are
-- applied.
use wayvnc.Prelude.{
  ◌≡◌, refl, Bool, true, false, ◌||◌, none, some, List, [], ◌∷◌, ◌++◌, if◌then◌else◌, arith,
}
use wayvnc.Prelude.Int.{ℤ, pos, ◌+ℤ◌}
use wayvnc.Pixels.{Formats, pixel_size_from_fourcc}
use wayvnc.Buffer.{
  shm, dmabuf, BufferConfig, Regions, Buffer, Pool, new_buffer, pool_alloc, wv_buffer_create,
  wv_buffer_create_shm, wv_buffer_create_dmabuf, buffer_configs_match, modifiers_match,
  wv_gbm_device_ref, wv_gbm_device_unref,
}
use wayvnc.Buffer.Ops.{
  allocated, pool_acquire, pool_reconfig, damage_rect, framed, rect_damaged, reconfig_render_node,
  open_render_node, open_if_missing, pool_create, wv_buffer_destroy,
}
use wayvnc.Buffer.Damage.{RegionLaws, Picture, inside, Capture}
use wayvnc.Buffer.Captures.{World, Steps, reconfigured, acquired, rect, here, after, Steps-filled}
use wayvnc.Buffer.Counts.{Counted}
use wayvnc.Buffer.Devices.{Event, reconfig, acquire, destroyed, apply, apply_all, apply_all-Counted}
use wayvnc.Buffer.Configs.{reconfig-one_modifier}

record Rect : Type 0 where
  x : ℤ
  y : ℤ
  width : ℤ
  height : ℤ

covers : List Rect → ℤ → ℤ → Bool
covers [] x y = false
covers (r ∷ rs) x y = covers rs x y || inside r.x r.y r.width r.height x y

abbrev rects : Regions (List Rect)
rects = record {
  empty = [];
  union = λ a b. a ++ b;
  union_rect = λ r x y w h. record { x = x; y = y; width = w; height = h } ∷ r;
  has = covers;
}

covers-append : (a b : List Rect) (x y : ℤ) → covers (a ++ b) x y ≡ covers a x y || covers b x y
unfolding covers
covers-append [] b x y = refl
covers-append (r ∷ a) b x y = ground (arith, covers-append a b x y)

abbrev rect_laws : RegionLaws rects
unfolding covers
rect_laws = record {
  has_empty = λ x y. refl;
  has_union = covers-append;
  has_union_rect = λ r a b w h x y. refl;
}

-- Invented values for the constants.
abbrev formats : Formats
formats = record {
  big_endian = 2147483648;
  drm_argb8888 = 100;
  drm_xrgb8888 = 101;
  shm_argb8888 = 0;
  shm_xrgb8888 = 1;
  four_bytes = 100 ∷ 101 ∷ [];
  three_bytes = [];
  two_bytes = [];
}

abbrev small : BufferConfig
small = record {
  kind = shm;
  width = 4;
  height = 2;
  stride = 16;
  format = 100;
  node = 0;
  modifiers = [];
}

abbrev black : Picture
black x y = 0

abbrev lit : Picture
lit x y = if inside (pos 0) (pos 0) (pos 4) (pos 2) x y then 1 else 0

abbrev stained : Picture
stained x y = 7

abbrev painted : Picture
painted x y = if inside (pos 0) (pos 0) (pos 4) (pos 2) x y then 1 else 7

abbrev world : World (List Rect)
world = record { pool = pool_create; screen = black; contents = λ id. stained }

abbrev buffer : Buffer (List Rect)
buffer = framed (new_buffer rects 5 small none)

abbrev configured : Pool (List Rect)
configured = record pool_create { has_nvnc_pool = true; config = small }

abbrev with_buffer : Pool (List Rect)
with_buffer = record configured { list = buffer ∷ [] }

abbrev drawn : Buffer (List Rect)
drawn = rect_damaged rects (pos 0) (pos 0) (pos 4) (pos 2) buffer

abbrev ready : World (List Rect)
ready = record world { pool = record with_buffer { list = drawn ∷ [] } }

history : Steps rect_laws formats world ready
unfolding pool_create pool_reconfig buffer_configs_match modifiers_match reconfig_render_node
    wv_gbm_device_unref pool_acquire pool_alloc wv_buffer_create wv_buffer_create_shm
    pixel_size_from_fourcc damage_rect
history =
    after
      (after (after here (reconfigured false false small))
        (acquired (allocated true 5) (some buffer) with_buffer tt refl))
      (rect 5 (pos 0) (pos 0) (pos 4) (pos 2))

twice : (b : Bool) {v : Bool} → (false || b) || (false || b) ≡ v → b ≡ v
twice true h = h
twice false h = h

capture : Capture rect_laws black lit stained painted drawn
unfolding covers
capture = record {
  unchanged = λ x y h. rw h refl;
  written = λ x y h. rw (twice (inside (pos 0) (pos 0) (pos 4) (pos 2) x y) h) refl;
  kept = λ x y h. rw (twice (inside (pos 0) (pos 0) (pos 4) (pos 2) x y) h) refl;
}

Steps-filled_example : painted (pos 3) (pos 1) ≡ lit (pos 3) (pos 1)
unfolding ◌+ℤ◌
Steps-filled_example =
    Steps-filled rect_laws formats 5 drawn lit painted refl history refl capture (pos 3) (pos 1)
      refl

-- Two devices, one after the other: the first is destroyed with its last buffer.
abbrev linear : BufferConfig
linear = record small { kind = dmabuf; node = 1; modifiers = 256 ∷ [] }

abbrev other_node : BufferConfig
other_node = record linear { node = 2 }

abbrev two_devices : List (Event rects formats)
two_devices =
    reconfig true false linear
    ∷ acquire (allocated true 5)
    ∷ reconfig true false other_node
    ∷ acquire (allocated true 6)
    ∷ destroyed 5
    ∷ []

abbrev on_second : Pool (List Rect)
on_second = record {
  has_nvnc_pool = true;
  list = framed (new_buffer rects 6 other_node (some 1)) ∷ [];
  config = other_node;
  gbm = some 1;
  refs = 0 ∷ 2 ∷ [];
}

two_devices_lem : apply_all rects formats two_devices pool_create ≡ some on_second
unfolding apply_all apply pool_create pool_reconfig buffer_configs_match modifiers_match
    reconfig_render_node open_render_node open_if_missing wv_gbm_device_ref wv_gbm_device_unref
    pool_acquire pool_alloc wv_buffer_create wv_buffer_create_dmabuf pixel_size_from_fourcc
    wv_buffer_destroy
two_devices_lem = refl

created-Counted : Counted {R = List Rect} pool_create
unfolding Counted pool_create
created-Counted d = refl

apply_all-Counted_example : Counted on_second
apply_all-Counted_example =
    apply_all-Counted rects formats two_devices pool_create on_second created-Counted
      two_devices_lem

reconfig-one_modifier_example :
    pool_reconfig true true
      (record linear { modifiers = 512 ∷ [] })
      (record configured { config = linear })
    ≡ (true, record configured { config = linear })
unfolding pool_create
reconfig-one_modifier_example =
    reconfig-one_modifier true true (record configured { config = linear }) 256 512 refl refl
