-- ===== src/Buffer.antt =====
-- src/buffer.c: the pool of capture buffers. Regions are pixman's, the buffer pool underneath is
-- neatvnc's, the devices are gbm's: what they answer is an argument.
pub mod Ops
pub mod Damage
pub mod Captures
mod Counts
pub mod Devices
pub mod Configs
mod Tests
use wayvnc.Prelude.{
  ℕ, ◌+◌, ◌-◌, ◌*◌, ◌/◌, ◌%◌, ◌<◌, Bool, true, false, not, ◌&&◌, ◌||◌, Option, none, some, List, [],
  ◌∷◌, ◌++◌, length, take, set, get_or, ltb, ◌==◌, if◌then◌else◌, zero, suc, ◌≡◌,
}
use wayvnc.Prelude.Int.{ℤ, pos}
use wayvnc.Pixels.{Formats, pixel_size_from_fourcc}

-- `enum wv_buffer_type`
pub data BufferType : Type 0 where
  unspec shm dmabuf : BufferType

abbrev pub type_eq : BufferType → BufferType → Bool
type_eq unspec unspec = true
type_eq shm shm = true
type_eq dmabuf dmabuf = true
type_eq _ _ = false

-- `struct wv_buffer_config`; `n_modifiers` is the length of the list.
pub record BufferConfig : Type 0 where
  pub kind : BufferType
  pub width : ℕ
  pub height : ℕ
  pub stride : ℕ
  pub format : ℕ
  pub node : ℕ
  pub modifiers : List ℕ

-- The n bytes of a number, the lowest first, as they stand in memory.
abbrev pub bytes : ℕ → ℕ → List ℕ
bytes zero m = []
bytes (suc n) m = m % 256 ∷ bytes n (m / 256)

-- An array of `uint64_t` in memory.
abbrev pub in_memory : List ℕ → List ℕ
in_memory [] = []
in_memory (m ∷ ms) = bytes 8 m ++ in_memory ms

-- `memcmp(a, b, n) == 0`
abbrev pub same_bytes : ℕ → List ℕ → List ℕ → Bool
same_bytes zero a b = true
same_bytes (suc n) (x ∷ a) (y ∷ b) = x == y && same_bytes n a b
same_bytes (suc n) _ _ = false

unfoldable pub modifiers_match : List ℕ → List ℕ → Bool
modifiers_match a b =
    length a == length b && (length a == 0 || same_bytes (length a) (in_memory a) (in_memory b))

unfoldable pub buffer_configs_match : BufferConfig → BufferConfig → Bool
unfolding modifiers_match
buffer_configs_match a b =
    type_eq a.kind b.kind
    && a.width == b.width
    && a.height == b.height
    && a.stride == b.stride
    && a.format == b.format
    && a.node == b.node
    && length a.modifiers == length b.modifiers
    && modifiers_match a.modifiers b.modifiers

-- What the code uses of pixman's regions, with the points that a region has.
pub record Regions (R : Type 0) : Type 0 where
  pub empty : R
  pub union : R → R → R
  pub union_rect : R → (x y width height : ℤ) → R
  pub has : R → ℤ → ℤ → Bool

-- `struct wv_buffer`. `id` stands for its address, `is_framed` says whether `nvnc_frame` is set and
-- `gbm` is the device of a dmabuf.
pub record Buffer (R : Type 0) : Type 0 where
  pub id : ℕ
  pub config : BufferConfig
  pub is_framed : Bool
  pub frame_damage : R
  pub buffer_damage : R
  pub gbm : Option ℕ

-- `struct wv_buffer_pool`, with the reference counts of the devices: a device is its place in them
-- and is destroyed at zero. `has_nvnc_pool` says whether `nvnc_pool` is set.
pub record Pool (R : Type 0) : Type 0 where
  pub has_nvnc_pool : Bool
  pub list : List (Buffer R)
  pub config : BufferConfig
  pub gbm : Option ℕ
  pub refs : List ℕ

unfoldable pub wv_gbm_device_ref : ℕ → List ℕ → List ℕ
wv_gbm_device_ref d refs = set refs d (get_or refs d 0 + 1)

unfoldable pub wv_gbm_device_unref : Option ℕ → List ℕ → List ℕ
wv_gbm_device_unref none refs = refs
wv_gbm_device_unref (some d) refs = set refs d (get_or refs d 0 - 1)

-- What a call comes to: the pool with a value, or none for a failed assertion, `abort` or a
-- dereference of NULL.
abbrev pub Outcome : Type 0 → Type 0 → Type 0
Outcome R A = Option (A × Pool R)

module _ {R : Type 0} (rs : Regions R) where
  abbrev pub new_buffer : ℕ → BufferConfig → Option ℕ → Buffer R
  new_buffer id config gbm = record {
    id = id;
    config = config;
    is_framed = false;
    frame_damage = rs.empty;
    buffer_damage = rs.union_rect rs.empty (pos 0) (pos 0) (pos config.width) (pos config.height);
    gbm = gbm;
  }

module _ {R : Type 0} where
  abbrev pub insert_head : Option (Buffer R) × Pool R → Option (Buffer R) × Pool R
  insert_head (none, pool) = (none, pool)
  insert_head (some b, pool) = (some b, record pool { list = b ∷ pool.list })

module _ {R : Type 0} (rs : Regions R) (fs : Formats) where
  -- `wv_buffer_create_shm`, with `created` for the outcome of the calls to the system.
  unfoldable pub wv_buffer_create_shm :
      (created : Bool) → ℕ → BufferConfig → Pool R → Outcome R (Option (Buffer R))
  wv_buffer_create_shm created id config pool =
      if created
      then if pixel_size_from_fourcc fs config.format == 0
        then none
        else some (some (new_buffer rs id config none), pool)
      else some (none, pool)

  -- `wv_buffer_create_dmabuf`, without a CMA heap: the device is read at once.
  unfoldable pub wv_buffer_create_dmabuf :
      (created : Bool) → ℕ → BufferConfig → Pool R → Outcome R (Option (Buffer R))
  unfolding wv_gbm_device_ref
  wv_buffer_create_dmabuf created id config pool = elim pool.gbm [
    | none ↦ none
    | some d ↦
        if created
        then some (
          some (new_buffer rs id config (some d)),
          record pool { refs = wv_gbm_device_ref d pool.refs },
        )
        else some (none, pool)
  ]

  unfoldable pub wv_buffer_create :
      BufferType → (created : Bool) → ℕ → BufferConfig → Pool R → Outcome R (Option (Buffer R))
  wv_buffer_create unspec created id config pool = none
  wv_buffer_create shm created id config pool = wv_buffer_create_shm created id config pool
  wv_buffer_create dmabuf created id config pool = wv_buffer_create_dmabuf created id config pool

  -- `wv_buffer_pool__alloc`
  unfoldable pub pool_alloc : (created : Bool) → ℕ → Pool R → Outcome R (Option (Buffer R))
  unfolding wv_buffer_create
  pool_alloc created id pool =
      elim (wv_buffer_create pool.config.kind created id pool.config pool) [
        | none ↦ none
        | some r ↦ some (insert_head r)
      ]

module _ {R : Type 0} where
  abbrev pub with_id : ℕ → List (Buffer R) → Option (Buffer R)
  with_id id [] = none
  with_id id (b ∷ bs) = let rest = with_id id bs in if b.id == id then some b else rest

  abbrev pub update : ℕ → (Buffer R → Buffer R) → List (Buffer R) → List (Buffer R)
  update id f [] = []
  update id f (b ∷ bs) = let rest = update id f bs in if b.id == id then f b ∷ bs else b ∷ rest

  abbrev pub remove : ℕ → List (Buffer R) → List (Buffer R)
  remove id [] = []
  remove id (b ∷ bs) = let rest = remove id bs in if b.id == id then bs else b ∷ rest
