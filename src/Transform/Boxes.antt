-- ===== src/Transform/Boxes.antt =====
-- The boxes of src/transform-util.c: they stay in the transformed frame, and the matrix that
-- `wv_pixman_transform_from_wl_output_transform` gives leads back from it.
use wayvnc.Prelude.{◌+◌, ◌*◌, ◌≡◌, ◌⊎◌, inl, inr, ap, arith}
use wayvnc.Prelude.Int.{ℤ, pos, negsuc, pos_part, neg_part, ◌+ℤ◌, ◌-ℤ◌, ◌*ℤ◌, ◌≤ℤ◌, int_laws}
use wayvnc.Transform.{
  Transform, normal, rotated_90, rotated_180, rotated_270, flipped, flipped_90, flipped_180,
  flipped_270, Box, to_int16, transform_box, Matrix, pixman_transform, f1,
}

to_int16_id : (z : ℤ) → pos 0 ≤ℤ z → z ≤ℤ pos 32767 → to_int16 z ≡ z
unfolding to_int16
to_int16_id (pos n) h k = ground arith
to_int16_id (negsuc n) h k = absurd (omega arith)

to_int16_parts :
    (z : ℤ)
    → pos 0 ≤ℤ z
    → z ≤ℤ pos 32767
    → (pos_part (to_int16 z) ≡ pos_part z) × (neg_part (to_int16 z) ≡ neg_part z)
to_int16_parts z h k = (ap pos_part (to_int16_id z h k), ap neg_part (to_int16_id z h k))

-- A box of a frame whose sides an `int16_t` holds.
pub record IsWithin (width height : ℤ) (b : Box) : Type 0 where
  pub left : pos 0 ≤ℤ b.x1
  pub wide : b.x1 ≤ℤ b.x2
  pub right : b.x2 ≤ℤ width
  pub top : pos 0 ≤ℤ b.y1
  pub tall : b.y1 ≤ℤ b.y2
  pub bottom : b.y2 ≤ℤ height
  pub small_width : width ≤ℤ pos 32767
  pub small_height : height ≤ℤ pos 32767

-- The sides of the transformed frame.
unfoldable pub out_width : Transform → ℤ → ℤ → ℤ
out_width rotated_90 width height = height
out_width rotated_270 width height = height
out_width flipped_90 width height = height
out_width flipped_270 width height = height
out_width _ width height = width

unfoldable pub out_height : Transform → ℤ → ℤ → ℤ
out_height rotated_90 width height = width
out_height rotated_270 width height = width
out_height flipped_90 width height = width
out_height flipped_270 width height = width
out_height _ width height = height

-- A transformed box lies in the transformed frame.
pub transform_box-IsWithin :
    (t : Transform) (width height : ℤ) (b : Box)
    → IsWithin width height b
    → IsWithin
        (out_width t width height)
        (out_height t width height)
        (transform_box t width height b)
unfolding transform_box out_width out_height
transform_box-IsWithin normal w h b v = omega (int_laws, to_int16_parts)
transform_box-IsWithin rotated_90 w h b v = omega (int_laws, to_int16_parts)
transform_box-IsWithin _ w h b v = omega (int_laws, to_int16_parts)

-- Where a matrix takes a point, in units of 1 / 65536.
unfoldable pub apply_x : Matrix → ℤ → ℤ → ℤ
apply_x m x y = m.top.a *ℤ x +ℤ m.top.b *ℤ y +ℤ m.top.c

unfoldable pub apply_y : Matrix → ℤ → ℤ → ℤ
apply_y m x y = m.middle.a *ℤ x +ℤ m.middle.b *ℤ y +ℤ m.middle.c

scale_parts :
    (x : ℤ) → pos_part (x *ℤ f1) + 65536 * neg_part x ≡ neg_part (x *ℤ f1) + 65536 * pos_part x
unfolding ◌*ℤ◌
scale_parts x = ground arith

one_parts :
    (x : ℤ) → pos_part (f1 *ℤ x) + 65536 * neg_part x ≡ neg_part (f1 *ℤ x) + 65536 * pos_part x
unfolding ◌*ℤ◌
one_parts x = ground arith

minus_parts :
    (x : ℤ)
    → pos_part (negsuc 65535 *ℤ x) + 65536 * pos_part x
      ≡ neg_part (negsuc 65535 *ℤ x) + 65536 * neg_part x
unfolding ◌*ℤ◌
minus_parts x = ground arith

zero_parts : (x : ℤ) → pos_part (pos 0 *ℤ x) ≡ neg_part (pos 0 *ℤ x)
unfolding ◌*ℤ◌
zero_parts x = ground arith

ruleset matrix_laws = (int_laws, to_int16_parts, scale_parts, one_parts, minus_parts, zero_parts)

abbrev pub Ends : ℤ → ℤ → ℤ → ℤ → Type 0
Ends a b x y = ((a ≡ x *ℤ f1) × (b ≡ y *ℤ f1)) ⊎ ((a ≡ y *ℤ f1) × (b ≡ x *ℤ f1))

-- The matrix takes the corners of a transformed box to opposite corners of the box itself.
pub pixman_transform-box :
    (t : Transform) (width height : ℤ) (b : Box)
    → IsWithin width height b
    → let d = transform_box t width height b in
      let m = pixman_transform t width height in
      Ends (apply_x m d.x1 d.y1) (apply_x m d.x2 d.y2) b.x1 b.x2
      × Ends (apply_y m d.x1 d.y1) (apply_y m d.x2 d.y2) b.y1 b.y2
unfolding transform_box pixman_transform apply_x apply_y
pixman_transform-box normal w h b v = (inl (omega matrix_laws), inl (omega matrix_laws))
pixman_transform-box rotated_90 w h b v = (inl (omega matrix_laws), inr (omega matrix_laws))
pixman_transform-box rotated_180 w h b v = (inr (omega matrix_laws), inr (omega matrix_laws))
pixman_transform-box rotated_270 w h b v = (inr (omega matrix_laws), inl (omega matrix_laws))
pixman_transform-box flipped w h b v = (inr (omega matrix_laws), inl (omega matrix_laws))
pixman_transform-box flipped_90 w h b v = (inl (omega matrix_laws), inl (omega matrix_laws))
pixman_transform-box flipped_180 w h b v = (inl (omega matrix_laws), inr (omega matrix_laws))
pixman_transform-box flipped_270 w h b v = (inr (omega matrix_laws), inr (omega matrix_laws))

-- The sides of a transformed box are those of the box, in one order or the other.
pub transform_box-sides :
    (t : Transform) (width height : ℤ) (b : Box)
    → IsWithin width height b
    → let d = transform_box t width height b in
      (((d.x2 -ℤ d.x1 ≡ b.x2 -ℤ b.x1) × (d.y2 -ℤ d.y1 ≡ b.y2 -ℤ b.y1))
        ⊎ ((d.x2 -ℤ d.x1 ≡ b.y2 -ℤ b.y1) × (d.y2 -ℤ d.y1 ≡ b.x2 -ℤ b.x1)))
unfolding transform_box
transform_box-sides normal w h b v = inl (omega matrix_laws)
transform_box-sides rotated_90 w h b v = inr (omega matrix_laws)
transform_box-sides rotated_180 w h b v = inl (omega matrix_laws)
transform_box-sides rotated_270 w h b v = inr (omega matrix_laws)
transform_box-sides flipped w h b v = inl (omega matrix_laws)
transform_box-sides flipped_90 w h b v = inr (omega matrix_laws)
transform_box-sides flipped_180 w h b v = inl (omega matrix_laws)
transform_box-sides flipped_270 w h b v = inr (omega matrix_laws)
