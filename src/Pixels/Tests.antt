-- ===== src/Pixels/Tests.antt =====
-- The functions of src/pixels.c on concrete inputs.
use wayvnc.Prelude.{◌≡◌, refl, List, [], ◌∷◌, ◌+◌}
use wayvnc.Prelude.Int.{pos, ◌-ℤ◌, ◌*ℤ◌}
use wayvnc.Transform.{Box}
use wayvnc.Pixels.{Formats, pixel_size_from_fourcc, calculate_region_area, add_area, to_uint32}

-- Invented values for the constants.
abbrev formats : Formats
formats = record {
  big_endian = 2147483648;
  drm_argb8888 = 100;
  drm_xrgb8888 = 101;
  shm_argb8888 = 0;
  shm_xrgb8888 = 1;
  four_bytes = 100 ∷ 101 ∷ [];
  three_bytes = 102 ∷ [];
  two_bytes = 103 ∷ [];
}

big_endian_ignored : pixel_size_from_fourcc formats (2147483648 + 102) ≡ 3
unfolding pixel_size_from_fourcc
big_endian_ignored = refl

abbrev strips : List Box
strips =
    record { x1 = pos 2; y1 = pos 3; x2 = pos 10; y2 = pos 5 }
    ∷ record { x1 = pos 0; y1 = pos 9; x2 = pos 10; y2 = pos 10 }
    ∷ []

area_of_strips : calculate_region_area strips ≡ 26
unfolding calculate_region_area add_area to_uint32 ◌-ℤ◌ ◌*ℤ◌
area_of_strips = refl
