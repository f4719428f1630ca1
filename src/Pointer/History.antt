-- ===== src/Pointer/History.antt =====
-- Histories of calls of `pointer_set` of src/pointer.c.
use wayvnc.Prelude.{
  ℕ, ◌+◌, ◌*◌, ◌/◌, ◌<◌, ◌≡◌, refl, ◌∙◌, sym, ap, Bool, true, false, not, ◌&&◌, List, [], ◌∷◌, ◌++◌,
  ◌==◌, if◌then◌else◌, Bool-cases, inl, inr, arith,
}
use wayvnc.Pointer.{
  Button, left, middle, right, back, forward, Scroll, scroll_up, scroll_down, scroll_left,
  scroll_right, Mask, Request, motion_absolute, frame, Pointer, differ, pointer_set_button_mask,
  pointer_set, mask_eq, one,
}
use wayvnc.Pointer.Follows.{is_down, steps, is_down-append, steps-append, mask_down, mask_steps}

unfoldable pub run : Pointer → List (ℕ × ℕ × Mask) → List Request
unfolding pointer_set
run self [] = []
run self ((x, y, mask) ∷ ps) = let r = pointer_set self x y mask in r.0 ++ run r.1 ps

-- The bit of a button in the last mask.
abbrev pub last_button : Button → Bool → List (ℕ × ℕ × Mask) → Bool
last_button b down [] = down
last_button b down ((x, y, mask) ∷ ps) = last_button b (mask.button b) ps

-- How often the bit of a direction is set in one mask and not in the next.
abbrev pub falls : Scroll → Bool → List (ℕ × ℕ × Mask) → ℕ
falls s was [] = 0
falls s was ((x, y, mask) ∷ ps) =
    (if was && not (mask.scroll s) then 1 else 0) + falls s (mask.scroll s) ps

eq_buttons : (a c : Mask) (b : Button) → mask_eq a c ≡ true → a.button b ≡ c.button b
eq_buttons a c left h = ground arith
eq_buttons a c middle h = ground arith
eq_buttons a c right h = ground arith
eq_buttons a c back h = ground arith
eq_buttons a c forward h = ground arith

eq_scrolls : (a c : Mask) (s : Scroll) → mask_eq a c ≡ true → a.scroll s ≡ c.scroll s
eq_scrolls a c scroll_up h = ground arith
eq_scrolls a c scroll_down h = ground arith
eq_scrolls a c scroll_left h = ground arith
eq_scrolls a c scroll_right h = ground arith

-- The requests between the motion and the end of the frame.
abbrev between : Bool → (x y : ℕ) → List Request → List Request
between still x y rs = (if still then [] else motion_absolute x y ∷ []) ++ (rs ++ frame ∷ [])

down_between :
    (b : Button) (down still : Bool) (x y : ℕ) (rs : List Request)
    → is_down b down (between still x y rs) ≡ is_down b down rs
unfolding is_down
down_between b down true x y rs = is_down-append b down rs (frame ∷ [])
down_between b down false x y rs = is_down-append b down rs (frame ∷ [])

steps-between :
    (s : Scroll) (still : Bool) (x y : ℕ) (rs : List Request)
    → steps s (between still x y rs) ≡ steps s rs
unfolding steps
steps-between s true x y rs = omega (arith, steps-append s rs (frame ∷ []))
steps-between s false x y rs = omega (arith, steps-append s rs (frame ∷ []))

-- The requests for the mask, if it has changed.
abbrev for_mask : Pointer → Mask → List Request × Pointer
for_mask s mask = if mask_eq mask s.current_mask then ([], s) else pointer_set_button_mask s mask

for_mask_down :
    (s : Pointer) (mask : Mask) (b : Button)
    → is_down b (s.current_mask.button b) (for_mask s mask).0 ≡ mask.button b
unfolding is_down
for_mask_down s mask b = elim (Bool-cases (mask_eq mask s.current_mask)) [
  | inl e ↦ rw e (sym (eq_buttons mask s.current_mask b e))
  | inr e ↦ rw e (mask_down s mask b)
]

steady : (b : Bool) → ◌≡◌ {A = ℕ} 0 (if b && not b then 1 else 0)
steady true = refl
steady false = refl

steps-for_mask :
    (s : Pointer) (mask : Mask) (n : Scroll)
    → steps n (for_mask s mask).0
      ≡ (if s.current_mask.scroll n && not (mask.scroll n) then 1 else 0)
unfolding steps
steps-for_mask s mask n = elim (Bool-cases (mask_eq mask s.current_mask)) [
  | inl e ↦ rw (e, eq_scrolls mask s.current_mask n e) (steady (s.current_mask.scroll n))
  | inr e ↦ rw e (mask_steps s mask n)
]

set_down :
    (self : Pointer) (x y : ℕ) (mask : Mask) (b : Button)
    → is_down b (self.current_mask.button b) (pointer_set self x y mask).0 ≡ mask.button b
unfolding pointer_set
set_down self x y mask b =
    let s = record self { current_x = x / one; current_y = y / one } in
    down_between b (self.current_mask.button b)
      (x == self.current_x * one && y == self.current_y * one) x y (for_mask s mask).0
    ∙ for_mask_down s mask b

steps-set :
    (self : Pointer) (x y : ℕ) (mask : Mask) (n : Scroll)
    → steps n (pointer_set self x y mask).0
      ≡ (if self.current_mask.scroll n && not (mask.scroll n) then 1 else 0)
unfolding pointer_set
steps-set self x y mask n =
    let s = record self { current_x = x / one; current_y = y / one } in
    steps-between n (x == self.current_x * one && y == self.current_y * one) x y (for_mask s mask).0
    ∙ steps-for_mask s mask n

set_mask :
    (self : Pointer) (x y : ℕ) (mask : Mask) (b : Button)
    → (pointer_set self x y mask).1.current_mask.button b ≡ mask.button b
unfolding pointer_set pointer_set_button_mask
set_mask self x y mask b = elim (Bool-cases (mask_eq mask self.current_mask)) [
  | inl e ↦ rw e (sym (eq_buttons mask self.current_mask b e))
  | inr e ↦ rw e refl
]

set_scroll :
    (self : Pointer) (x y : ℕ) (mask : Mask) (n : Scroll)
    → (pointer_set self x y mask).1.current_mask.scroll n ≡ mask.scroll n
unfolding pointer_set pointer_set_button_mask
set_scroll self x y mask n = elim (Bool-cases (mask_eq mask self.current_mask)) [
  | inl e ↦ rw e (sym (eq_scrolls mask self.current_mask n e))
  | inr e ↦ rw e refl
]

run_down :
    (self : Pointer) (ps : List (ℕ × ℕ × Mask)) (b : Button)
    → is_down b (self.current_mask.button b) (run self ps)
      ≡ last_button b (self.current_mask.button b) ps
unfolding run is_down
run_down self [] b = refl
run_down self ((x, y, mask) ∷ ps) b =
    let r = pointer_set self x y mask in
    is_down-append b (self.current_mask.button b) r.0 (run r.1 ps)
    ∙ ap (λ d. is_down b d (run r.1 ps)) (set_down self x y mask b ∙ sym (set_mask self x y mask b))
    ∙ run_down r.1 ps b
    ∙ ap (λ d. last_button b d ps) (set_mask self x y mask b)

steps-run :
    (self : Pointer) (ps : List (ℕ × ℕ × Mask)) (n : Scroll)
    → steps n (run self ps) ≡ falls n (self.current_mask.scroll n) ps
unfolding run steps
steps-run self [] n = refl
steps-run self ((x, y, mask) ∷ ps) n =
    let r = pointer_set self x y mask in
    let later : steps n (run r.1 ps) ≡ falls n (mask.scroll n) ps =
      steps-run r.1 ps n ∙ ap (λ d. falls n d ps) (set_scroll self x y mask n) in
    omega (arith, steps-append n r.0 (run r.1 ps), steps-set self x y mask n, later)

-- Over any history of positions and masks, the compositor holds down exactly the buttons of the last
-- mask, if it held those of the mask before the first, and it has scrolled one step in each direction
-- for each time that the direction's bit was set in one mask and not in the next.
pub run-last_button :
    (self : Pointer) (ps : List (ℕ × ℕ × Mask))
    → ((b : Button)
        → is_down b (self.current_mask.button b) (run self ps)
          ≡ last_button b (self.current_mask.button b) ps)
      × ((n : Scroll) → steps n (run self ps) ≡ falls n (self.current_mask.scroll n) ps)
run-last_button self ps = (run_down self ps, steps-run self ps)

steady_bit : (b : Bool) → not (differ b b) ≡ true
steady_bit true = refl
steady_bit false = refl

mask_eq_refl : (m : Mask) → mask_eq m m ≡ true
mask_eq_refl m = simp steady_bit refl

truncates : (x : ℕ) → x < one → x / one ≡ 0
truncates x h = omega arith

-- From any position that is not on the right or the lower edge, a move to the upper left corner with
-- the same buttons requests nothing but the end of a frame, so that the pointer stays where it was.
pub pointer_set-corner :
    (self : Pointer) (x y : ℕ)
    → x < one
    → y < one
    → (pointer_set (pointer_set self x y self.current_mask).1 0 0 self.current_mask).0 ≡ frame ∷ []
unfolding pointer_set
pointer_set-corner self x y h k =
    rw
      (mask_eq_refl self.current_mask, truncates x h, truncates y k, mask_eq_refl self.current_mask)
      refl
