-- ===== src/Buffer/Ops.antt =====
-- The operations on the pool of src/buffer.c and on its buffers.
use wayvnc.Prelude.{
  ℕ, Bool, true, false, not, ◌&&◌, ◌||◌, Option, none, some, List, [], ◌∷◌, ◌++◌, length, ◌==◌,
  if◌then◌else◌,
}
use wayvnc.Prelude.Int.{ℤ, pos}
use wayvnc.Pixels.{Formats, pixel_size_from_fourcc}
use wayvnc.Buffer.{
  BufferType, unspec, dmabuf, BufferConfig, Regions, Buffer, Pool, Outcome, buffer_configs_match,
  wv_gbm_device_unref, pool_alloc, with_id, update, remove,
}

abbrev pub is_dmabuf : BufferType → Bool
is_dmabuf dmabuf = true
is_dmabuf _ = false

abbrev pub is_none : Option ℕ → Bool
is_none none = true
is_none (some d) = false

module _ {R : Type 0} where
  abbrev pub without_device : Pool R → Pool R
  without_device pool = record pool { refs = wv_gbm_device_unref pool.gbm pool.refs; gbm = none }

  -- `opened` says whether a render node and its device are found; a device starts with one
  -- reference.
  unfoldable pub open_render_node : (opened : Bool) → Pool R → Pool R
  open_render_node opened pool =
      if opened
      then record pool { gbm = some (length pool.refs); refs = pool.refs ++ 1 ∷ [] }
      else record pool { gbm = none }

  unfoldable pub open_if_missing : (opened : Bool) → Pool R → Pool R
  unfolding open_render_node
  open_if_missing opened pool =
      if pool.config.node == 0 && is_none pool.gbm then open_render_node opened pool else pool

  abbrev pub with_device : Pool R → Bool × Pool R
  with_device pool = (not (is_none pool.gbm), pool)

  unfoldable pub reconfig_render_node :
      (opened opened_again : Bool) → BufferConfig → ℕ → Pool R → Bool × Pool R
  unfolding open_render_node open_if_missing wv_gbm_device_unref
  reconfig_render_node opened opened_again config old_node pool =
      if is_dmabuf config.kind
      then with_device (
          open_if_missing opened_again (
            if old_node == config.node
            then pool
            else open_render_node opened (without_device pool)))
      else (true, without_device pool)

  -- `wv_buffer_destroy`, for the buffer with that address.
  abbrev pub gbm_of : Option (Buffer R) → Option ℕ
  gbm_of none = none
  gbm_of (some b) = b.gbm

  unfoldable pub wv_buffer_destroy : ℕ → Pool R → Pool R
  unfolding wv_gbm_device_unref
  wv_buffer_destroy id pool = record pool {
    list = remove id pool.list;
    refs = wv_gbm_device_unref (gbm_of (with_id id pool.list)) pool.refs;
  }

  -- The buffers that the old pool of neatvnc gives up are destroyed one by one, by
  -- `wv_buffer_destroy`.
  unfoldable pub pool_reconfig :
      (opened opened_again : Bool) → BufferConfig → Pool R → Bool × Pool R
  unfolding reconfig_render_node buffer_configs_match
  pool_reconfig opened opened_again config pool =
      if buffer_configs_match pool.config config
      then (true, pool)
      else reconfig_render_node opened opened_again config pool.config.node
          (record pool { has_nvnc_pool = true; config = config })

  abbrev pub framed : Buffer R → Buffer R
  framed b = record b { is_framed = true }

-- What `nvnc_buffer_pool_acquire` does: it gives a buffer that is no longer referenced, or calls
-- `wv_buffer_pool__alloc` for one at a new address.
pub data Choice : Type 0 where
  recycled : ℕ → Choice
  allocated : (created : Bool) → ℕ → Choice

module _ {R : Type 0} (fs : Formats) where
  abbrev pub frame : Option (Buffer R) → Pool R → Outcome R (Option (Buffer R))
  frame none pool = some (none, pool)
  frame (some b) pool =
      if pixel_size_from_fourcc fs pool.config.format == 0 || b.is_framed
      then none
      else some (some (framed b), record pool { list = update b.id framed pool.list })

  abbrev pub frame_new : Outcome R (Option (Buffer R)) → Outcome R (Option (Buffer R))
  frame_new none = none
  frame_new (some (b, pool)) = frame b pool

module _ {R : Type 0} (rs : Regions R) (fs : Formats) where
  unfoldable pub pool_acquire : Choice → Pool R → Outcome R (Option (Buffer R))
  unfolding pool_alloc
  pool_acquire (recycled id) pool =
      if pool.has_nvnc_pool then frame fs (with_id id pool.list) pool else none
  pool_acquire (allocated created id) pool =
      if pool.has_nvnc_pool then frame_new fs (pool_alloc rs fs created id pool) else none

module _ {R : Type 0} (rs : Regions R) where
  abbrev pub damaged : R → Buffer R → Buffer R
  damaged region b = record b { buffer_damage = rs.union b.buffer_damage region }

  abbrev pub damage_each : R → List (Buffer R) → List (Buffer R)
  damage_each region [] = []
  damage_each region (b ∷ bs) = damaged region b ∷ damage_each region bs

  unfoldable pub pool_damage_all : R → Pool R → Pool R
  pool_damage_all region pool = record pool { list = damage_each region pool.list }

  abbrev pub rect_damaged : (x y width height : ℤ) → Buffer R → Buffer R
  rect_damaged x y width height b = record b {
    frame_damage = rs.union_rect b.frame_damage x y width height;
  }

  unfoldable pub damage_rect : ℕ → (x y width height : ℤ) → Pool R → Pool R
  damage_rect id x y width height pool = record pool {
    list = update id (rect_damaged x y width height) pool.list;
  }

  abbrev pub whole_damaged : Buffer R → Buffer R
  whole_damaged b = rect_damaged (pos 0) (pos 0) (pos b.config.width) (pos b.config.height) b

  unfoldable pub damage_whole : ℕ → Pool R → Pool R
  damage_whole id pool = record pool { list = update id whole_damaged pool.list }

  abbrev pub released : Buffer R → Buffer R
  released b = record b { frame_damage = rs.empty; is_framed = false }

  unfoldable pub wv_buffer_release : ℕ → Pool R → Pool R
  wv_buffer_release id pool = record pool { list = update id released pool.list }

  abbrev pub cleared : Buffer R → Buffer R
  cleared b = record b { buffer_damage = rs.empty }

  abbrev pub frame_damage_of : Option (Buffer R) → R
  frame_damage_of none = rs.empty
  frame_damage_of (some b) = b.frame_damage

  -- What `frame_handle_ready` of src/ext-image-copy-capture.c does to the pool.
  unfoldable pub buffer_filled : ℕ → Pool R → Pool R
  unfolding pool_damage_all
  buffer_filled id pool =
      let p = pool_damage_all (frame_damage_of (with_id id pool.list)) pool in
      record p { list = update id cleared p.list }

module _ {R : Type 0} where
  -- `wv_buffer_pool_create(NULL)`
  unfoldable pub pool_create : Pool R
  pool_create = record {
    has_nvnc_pool = false;
    list = [];
    config = record {
      kind = unspec;
      width = 0;
      height = 0;
      stride = 0;
      format = 0;
      node = 0;
      modifiers = [];
    };
    gbm = none;
    refs = [];
  }
