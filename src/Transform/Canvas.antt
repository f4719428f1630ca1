-- ===== src/Transform/Canvas.antt =====
-- The transforms of src/transform-util.c act on the points of the canvas.
use wayvnc.Prelude.{ℕ, ◌≡◌, refl, arith}
use wayvnc.Prelude.Int.{ℤ, pos, ◌-ℤ◌, int_laws}
use wayvnc.Transform.{Transform, normal, code, of_code, invert, compose, Point, canvas_point}

of_code-code : (t : Transform) → of_code (code t) ≡ t
unfolding of_code code
of_code-code normal = refl
of_code-code _ = refl

pub minus_twice : (n : ℕ) (x : ℤ) → pos n -ℤ (pos n -ℤ x) ≡ x
minus_twice n x = omega int_laws

-- The inverse transform takes every point back.
pub canvas_point-invert :
    (one : ℕ) (t : Transform) (p : Point)
    → canvas_point one (of_code (invert (code t))) (canvas_point one t p) ≡ p
unfolding canvas_point of_code invert code
canvas_point-invert one normal p = ground (arith, minus_twice one p.x, minus_twice one p.y)
canvas_point-invert one _ p = ground (arith, minus_twice one p.x, minus_twice one p.y)

-- A composition acts as its parts, one after the other.
pub canvas_point-compose :
    (one : ℕ) (s t : Transform) (p : Point)
    → canvas_point one (of_code (compose (code s) (code t))) p
      ≡ canvas_point one t (canvas_point one s p)
unfolding canvas_point of_code compose code
canvas_point-compose one normal normal p = ground (arith, minus_twice one p.x, minus_twice one p.y)
canvas_point-compose one _ _ p = ground (arith, minus_twice one p.x, minus_twice one p.y)
