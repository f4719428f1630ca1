-- ===== src/Pixels/Laws.antt =====
-- What the functions of src/pixels.c keep.
use wayvnc.Prelude.{ℕ, ◌≡◌, refl, ◌≢◌, inl, inr, ap, ◌∙◌, arith, List, [], ◌∷◌, map}
use wayvnc.Prelude.Int.{ℤ, ◌-ℤ◌, ◌*ℤ◌}
use wayvnc.Transform.{Transform, Box, transform_box}
use wayvnc.Transform.Boxes.{IsWithin, transform_box-sides}
use wayvnc.Pixels.{
  Formats, fourcc_to_wl_shm, fourcc_from_wl_shm, add_area, area_from, calculate_region_area,
}

-- A DRM format that is not spelled like one of the two special codes of wl_shm comes back from its
-- wl_shm code.
pub fourcc_from_wl_shm-fourcc_to_wl_shm :
    (f : Formats) (c : ℕ)
    → f.shm_argb8888 ≢ f.shm_xrgb8888
    → c ≢ f.shm_argb8888
    → c ≢ f.shm_xrgb8888
    → fourcc_from_wl_shm f (fourcc_to_wl_shm f c) ≡ c
unfolding fourcc_to_wl_shm fourcc_from_wl_shm
fourcc_from_wl_shm-fourcc_to_wl_shm f c d h k = ground arith

abbrev pub AllWithin : ℤ → ℤ → List Box → Type 0
AllWithin width height [] = Unit {0}
AllWithin width height (b ∷ bs) = IsWithin width height b × AllWithin width height bs

*ℤ_comm : (a b : ℤ) → a *ℤ b ≡ b *ℤ a
unfolding ◌*ℤ◌
*ℤ_comm a b = ground arith

add_area-transform_box :
    (t : Transform) (width height : ℤ) (area : ℕ) (b : Box)
    → IsWithin width height b
    → add_area area (transform_box t width height b) ≡ add_area area b
unfolding add_area
add_area-transform_box t w h area b v = elim (transform_box-sides t w h b v) [
  | inl e ↦ rw (e.0, e.1) refl
  | inr e ↦ rw (e.0, e.1, *ℤ_comm (b.y2 -ℤ b.y1) (b.x2 -ℤ b.x1)) refl
]

area_from-transform :
    (t : Transform) (width height : ℤ) (area : ℕ) (bs : List Box)
    → AllWithin width height bs
    → area_from area (map (transform_box t width height) bs) ≡ area_from area bs
unfolding area_from
area_from-transform t w h area [] v = refl
area_from-transform t w h area (b ∷ bs) v =
    ap (λ a. area_from a (map (transform_box t w h) bs)) (add_area-transform_box t w h area b v.0)
    ∙ area_from-transform t w h (add_area area b) bs v.1

-- Transforming the boxes of a frame keeps the area that `calculate_region_area` counts.
pub calculate_region_area-transform :
    (t : Transform) (width height : ℤ) (bs : List Box)
    → AllWithin width height bs
    → calculate_region_area (map (transform_box t width height) bs) ≡ calculate_region_area bs
unfolding calculate_region_area
calculate_region_area-transform t w h bs v = area_from-transform t w h 0 bs v
