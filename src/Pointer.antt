-- ===== src/Pointer.antt =====
-- src/pointer.c: the button mask of a client as requests to the virtual pointer. Positions,
-- which are doubles, are multiples of 2 ^ -32 here.
pub mod Follows
pub mod History
mod Tests
use wayvnc.Prelude.{
  ℕ, ◌*◌, ◌/◌, Bool, true, false, not, ◌&&◌, ◌||◌, List, [], ◌∷◌, ◌++◌, ◌==◌, if◌then◌else◌,
}

pub data Button : Type 0 where
  left middle right back forward : Button

pub data Scroll : Type 0 where
  scroll_up scroll_down scroll_left scroll_right : Scroll

-- neatvnc's `enum nvnc_button_mask`: one bit for each button and for each direction of scrolling.
pub record Mask : Type 0 where
  pub button : Button → Bool
  pub scroll : Scroll → Bool

-- The requests of the virtual pointer; a scroll of 15 units and one step, in its direction.
pub data Request : Type 0 where
  motion_absolute : ℕ → ℕ → Request
  button_is : Button → (pressed : Bool) → Request
  axis_discrete : Scroll → Request
  frame : Request

-- The position 1.0, at the right or the lower edge.
abbrev pub one : ℕ
one = 4294967296

-- `struct pointer`; the position is kept as an integer.
pub record Pointer : Type 0 where
  pub current_mask : Mask
  pub current_x : ℕ
  pub current_y : ℕ

abbrev pub differ : Bool → Bool → Bool
differ true b = not b
differ false b = b

-- A button whose bit is in `diff` ...
abbrev pub button_request : Button → (current mask : Bool) → List Request
button_request b current mask = if differ current mask then button_is b mask ∷ [] else []

-- ... and a direction whose bit is, and is not in `mask`.
abbrev pub scroll_request : Scroll → (current mask : Bool) → List Request
scroll_request s current mask = if differ current mask && not mask then axis_discrete s ∷ [] else []

unfoldable pub pointer_set_button_mask : Pointer → Mask → List Request × Pointer
pointer_set_button_mask self mask =
    let b : Button → List Request =
      λ n. button_request n (self.current_mask.button n) (mask.button n) in
    let s : Scroll → List Request =
      λ n. scroll_request n (self.current_mask.scroll n) (mask.scroll n) in
    (
      b left
          ++ (b middle
              ++ (b right
                  ++ (b back
                      ++ (b forward
                          ++ (s scroll_up
                              ++ (s scroll_down ++ (s scroll_left ++ s scroll_right))))))),
      record self { current_mask = mask },
    )

abbrev pub mask_eq : Mask → Mask → Bool
mask_eq a b =
    let same : Button → Bool = λ n. not (differ (a.button n) (b.button n)) in
    let steady : Scroll → Bool = λ n. not (differ (a.scroll n) (b.scroll n)) in
    same left
    && same middle
    && same right
    && same back
    && same forward
    && steady scroll_up
    && steady scroll_down
    && steady scroll_left
    && steady scroll_right

unfoldable pub pointer_set : Pointer → ℕ → ℕ → Mask → List Request × Pointer
unfolding pointer_set_button_mask
pointer_set self x y button_mask =
    let motion =
      (if x == self.current_x * one && y == self.current_y * one
        then []
        else motion_absolute x y ∷ []) in
    let s = record self { current_x = x / one; current_y = y / one } in
    let t =
      (if mask_eq button_mask self.current_mask
        then ([], s)
        else pointer_set_button_mask s button_mask) in
    (motion ++ (t.0 ++ frame ∷ []), t.1)
