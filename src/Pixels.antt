-- ===== src/Pixels.antt =====
-- src/pixels.c: pixel formats and the area of a region. The values of DRM's and Wayland's format
-- constants are a parameter, the record `Formats`.
mod Laws
mod Tests
use Prim.Native.Nat.{bit_and}
use wayvnc.Prelude.{
  ℕ, ◌+◌, ◌-◌, ◌%◌, ◌^◌, Bool, true, false, ◌||◌, List, [], ◌∷◌, ◌==◌, if◌then◌else◌,
}
use wayvnc.Prelude.Int.{ℤ, pos, negsuc, ◌-ℤ◌, ◌*ℤ◌}
use wayvnc.Transform.{Box}

-- Each list holds the constants of one group of `case` labels of `pixel_size_from_fourcc`.
pub record Formats : Type 0 where
  pub big_endian : ℕ
  pub drm_argb8888 : ℕ
  pub drm_xrgb8888 : ℕ
  pub shm_argb8888 : ℕ
  pub shm_xrgb8888 : ℕ
  pub four_bytes : List ℕ
  pub three_bytes : List ℕ
  pub two_bytes : List ℕ

unfoldable pub contains : List ℕ → ℕ → Bool
contains [] c = false
contains (x ∷ xs) c = x == c || contains xs c

module _ (f : Formats) where
  unfoldable pub fourcc_to_wl_shm : ℕ → ℕ
  fourcc_to_wl_shm c =
      if c == f.drm_argb8888
      then f.shm_argb8888
      else if c == f.drm_xrgb8888
      then f.shm_xrgb8888
      else c

  unfoldable pub fourcc_from_wl_shm : ℕ → ℕ
  fourcc_from_wl_shm c =
      if c == f.shm_argb8888
      then f.drm_argb8888
      else if c == f.shm_xrgb8888
      then f.drm_xrgb8888
      else c

  -- `fourcc & ~DRM_FORMAT_BIG_ENDIAN` on `uint32_t`.
  unfoldable pub pixel_size_from_fourcc : ℕ → ℕ
  unfolding contains
  pixel_size_from_fourcc fourcc =
      let c = bit_and fourcc (2 ^ 32 - 1 - f.big_endian) in
      if contains f.four_bytes c
      then 4
      else if contains f.three_bytes c
      then 3
      else if contains f.two_bytes c
      then 2
      else 0

-- The conversion of an `int` to `uint32_t`.
unfoldable pub to_uint32 : ℤ → ℕ
to_uint32 (pos n) = n % 2 ^ 32
to_uint32 (negsuc n) = 2 ^ 32 - 1 - n % 2 ^ 32

-- One round of the loop of `calculate_region_area`, over the region's rectangles.
unfoldable pub add_area : ℕ → Box → ℕ
add_area area b = (area + to_uint32 ((b.x2 -ℤ b.x1) *ℤ (b.y2 -ℤ b.y1))) % 2 ^ 32

area_from : ℕ → List Box → ℕ
area_from area [] = area
area_from area (b ∷ bs) = area_from (add_area area b) bs

unfoldable pub calculate_region_area : List Box → ℕ
unfolding area_from
calculate_region_area rects = area_from 0 rects
