-- ===== src/Transform.antt =====
-- src/transform-util.c: the eight output transforms, on boxes, on points and as a group.
pub mod Boxes
pub mod Canvas
mod Tests
use Prim.Native.Nat.{bit_and, bit_xor, bit_or}
use wayvnc.Prelude.{
  ℕ, ◌+◌, ◌-◌, ◌%◌, ◌^◌, Bool, true, false, ◌&&◌, not, List, map, Option, none, some, ◌==◌,
  if◌then◌else◌, ltb,
}
use wayvnc.Prelude.Int.{ℤ, pos, negsuc, ◌+ℤ◌, ◌-ℤ◌, ◌*ℤ◌}

-- `enum wl_output_transform`, in the order of its values 0 to 7.
pub data Transform : Type 0 where
  normal rotated_90 rotated_180 rotated_270 : Transform
  flipped flipped_90 flipped_180 flipped_270 : Transform

unfoldable pub code : Transform → ℕ
code normal = 0
code rotated_90 = 1
code rotated_180 = 2
code rotated_270 = 3
code flipped = 4
code flipped_90 = 5
code flipped_180 = 6
code flipped_270 = 7

-- The functions that compute with the enumeration's value stay within the eight values.
unfoldable pub of_code : ℕ → Transform
of_code c =
    if c == 0
    then normal
    else if c == 1
    then rotated_90
    else if c == 2
    then rotated_180
    else if c == 3
    then rotated_270
    else if c == 4
    then flipped
    else if c == 5
    then flipped_90
    else if c == 6
    then flipped_180
    else flipped_270

-- `wv_output_transform_invert`, on the values.
unfoldable pub invert : ℕ → ℕ
invert tr = if not (bit_and tr 1 == 0) && (bit_and tr 4 == 0) then bit_xor tr 2 else tr

-- `wv_output_transform_compose`, on the values: `uint32_t` arithmetic.
unfoldable pub compose : ℕ → ℕ → ℕ
compose tr_a tr_b =
    let flips = bit_and (bit_xor tr_a tr_b) 4 in
    let rotation_mask = bit_or 1 2 in
    let rotated =
      if not (bit_and tr_b 4 == 0)
      then bit_and ((tr_b + 2 ^ 32 - tr_a) % 2 ^ 32) rotation_mask
      else bit_and ((tr_a + tr_b) % 2 ^ 32) rotation_mask in
    bit_or flips rotated

-- A point of the canvas. The code has doubles between 0.0 and 1.0; here a coordinate counts
-- fractions of 1 / `one`.
pub record Point : Type 0 where
  pub x : ℤ
  pub y : ℤ

unfoldable pub canvas_point : ℕ → Transform → Point → Point
canvas_point one normal p = record { x = p.x; y = p.y }
canvas_point one rotated_90 p = record { x = p.y; y = pos one -ℤ p.x }
canvas_point one rotated_180 p = record { x = pos one -ℤ p.x; y = pos one -ℤ p.y }
canvas_point one rotated_270 p = record { x = pos one -ℤ p.y; y = p.x }
canvas_point one flipped p = record { x = pos one -ℤ p.x; y = p.y }
canvas_point one flipped_90 p = record { x = p.y; y = p.x }
canvas_point one flipped_180 p = record { x = p.x; y = pos one -ℤ p.y }
canvas_point one flipped_270 p = record { x = pos one -ℤ p.y; y = pos one -ℤ p.x }

-- `pixman_box16_t`: its coordinates are `int16_t`.
pub record Box : Type 0 where
  pub x1 : ℤ
  pub y1 : ℤ
  pub x2 : ℤ
  pub y2 : ℤ

-- The conversion of an `int` to `int16_t`.
unfoldable pub to_int16 : ℤ → ℤ
to_int16 (pos n) = let r = n % 2 ^ 16 in if ltb r (2 ^ 15) then pos r else negsuc (2 ^ 16 - r - 1)
to_int16 (negsuc n) =
    let r = n % 2 ^ 16 in if ltb r (2 ^ 15) then negsuc r else pos (2 ^ 16 - r - 1)

abbrev pub box : ℤ → ℤ → ℤ → ℤ → Box
box a b c d = record { x1 = to_int16 a; y1 = to_int16 b; x2 = to_int16 c; y2 = to_int16 d }

-- One round of the loop of `wv_region_transform`.
unfoldable pub transform_box : Transform → (width height : ℤ) → Box → Box
transform_box normal width height b = box b.x1 b.y1 b.x2 b.y2
transform_box rotated_90 width height b = box (height -ℤ b.y2) b.x1 (height -ℤ b.y1) b.x2
transform_box rotated_180 width height b =
    box (width -ℤ b.x2) (height -ℤ b.y2) (width -ℤ b.x1) (height -ℤ b.y1)
transform_box rotated_270 width height b = box b.y1 (width -ℤ b.x2) b.y2 (width -ℤ b.x1)
transform_box flipped width height b = box (width -ℤ b.x2) b.y1 (width -ℤ b.x1) b.y2
transform_box flipped_90 width height b = box b.y1 b.x1 b.y2 b.x2
transform_box flipped_180 width height b = box b.x1 (height -ℤ b.y2) b.x2 (height -ℤ b.y1)
transform_box flipped_270 width height b =
    box (height -ℤ b.y2) (width -ℤ b.x2) (height -ℤ b.y1) (width -ℤ b.x1)

-- `wv_region_transform` over pixman's regions: the region that `dst` is left with. `alloc_ok` is
-- the outcome of its `malloc`.
module _ {Region : Type 0} (rectangles : Region → List Box) (init_rects : List Box → Region) where
  unfoldable pub region_transform : Bool → Region → Region → Transform → (width height : ℤ) → Region
  region_transform alloc_ok dst src normal width height = src
  region_transform alloc_ok dst src t width height =
      if alloc_ok then init_rects (map (transform_box t width height) (rectangles src)) else dst

-- `pixman_transform_t`: three rows of three 16.16 fixed-point numbers.
pub record Row : Type 0 where
  pub a : ℤ
  pub b : ℤ
  pub c : ℤ

pub record Matrix : Type 0 where
  pub top : Row
  pub middle : Row
  pub bottom : Row

-- `pixman_fixed_1`
abbrev pub f1 : ℤ
f1 = pos 65536

abbrev neg_f1 : ℤ
neg_f1 = negsuc 65535

abbrev zero_ℤ : ℤ
zero_ℤ = pos 0

abbrev row : ℤ → ℤ → ℤ → Row
row a b c = record { a = a; b = b; c = c }

abbrev matrix : Row → Row → Matrix
matrix r s = record { top = r; middle = s; bottom = row zero_ℤ zero_ℤ f1 }

unfoldable pub pixman_transform : Transform → (width height : ℤ) → Matrix
pixman_transform normal width height = matrix (row f1 zero_ℤ zero_ℤ) (row zero_ℤ f1 zero_ℤ)
pixman_transform rotated_90 width height =
    matrix (row zero_ℤ f1 zero_ℤ) (row neg_f1 zero_ℤ (height *ℤ f1))
pixman_transform rotated_180 width height =
    matrix (row neg_f1 zero_ℤ (width *ℤ f1)) (row zero_ℤ neg_f1 (height *ℤ f1))
pixman_transform rotated_270 width height =
    matrix (row zero_ℤ neg_f1 (width *ℤ f1)) (row f1 zero_ℤ zero_ℤ)
pixman_transform flipped width height =
    matrix (row neg_f1 zero_ℤ (width *ℤ f1)) (row zero_ℤ f1 zero_ℤ)
pixman_transform flipped_90 width height = matrix (row zero_ℤ f1 zero_ℤ) (row f1 zero_ℤ zero_ℤ)
pixman_transform flipped_180 width height =
    matrix (row f1 zero_ℤ zero_ℤ) (row zero_ℤ neg_f1 (height *ℤ f1))
pixman_transform flipped_270 width height =
    matrix (row zero_ℤ neg_f1 (width *ℤ f1)) (row neg_f1 zero_ℤ (height *ℤ f1))
