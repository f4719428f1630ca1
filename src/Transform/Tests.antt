-- ===== src/Transform/Tests.antt =====
-- The transforms of src/transform-util.c on concrete inputs.
use wayvnc.Prelude.{◌≡◌, refl, arith}
use wayvnc.Prelude.Int.{pos, ◌-ℤ◌}
use wayvnc.Transform.{
  rotated_90, flipped, flipped_270, code, of_code, compose, Point, canvas_point, Box, transform_box,
  to_int16, pixman_transform,
}
use wayvnc.Transform.Canvas.{canvas_point-compose}
use wayvnc.Transform.Boxes.{
  IsWithin, out_width, out_height, transform_box-IsWithin, Ends, apply_x, apply_y,
  pixman_transform-box,
}

abbrev corner : Point
corner = record { x = pos 10; y = pos 30 }

abbrev strip : Box
strip = record { x1 = pos 2; y1 = pos 3; x2 = pos 10; y2 = pos 5 }

strip-IsWithin : IsWithin (pos 100) (pos 50) strip
strip-IsWithin = omega arith

rotate_strip :
    transform_box rotated_90 (pos 100) (pos 50) strip
    ≡ record { x1 = pos 45; y1 = pos 2; x2 = pos 47; y2 = pos 10 }
unfolding transform_box to_int16 ◌-ℤ◌
rotate_strip = refl

canvas_point-compose_example :
    canvas_point 100 (of_code (compose 1 4)) corner
    ≡ canvas_point 100 flipped (canvas_point 100 rotated_90 corner)
unfolding code
canvas_point-compose_example = canvas_point-compose 100 rotated_90 flipped corner

transform_box-IsWithin_example :
    IsWithin
      (out_width rotated_90 (pos 100) (pos 50))
      (out_height rotated_90 (pos 100) (pos 50))
      (transform_box rotated_90 (pos 100) (pos 50) strip)
transform_box-IsWithin_example =
    transform_box-IsWithin rotated_90 (pos 100) (pos 50) strip strip-IsWithin

pixman_transform-box_example :
    let d = transform_box flipped_270 (pos 100) (pos 50) strip in
    let m = pixman_transform flipped_270 (pos 100) (pos 50) in
    Ends (apply_x m d.x1 d.y1) (apply_x m d.x2 d.y2) (pos 2) (pos 10)
    × Ends (apply_y m d.x1 d.y1) (apply_y m d.x2 d.y2) (pos 3) (pos 5)
pixman_transform-box_example =
    pixman_transform-box flipped_270 (pos 100) (pos 50) strip strip-IsWithin
