-- ===== src/Pointer/Follows.antt =====
-- What the requests of src/pointer.c make of the buttons and the scroll wheel.
use wayvnc.Prelude.{
  ℕ, suc, ◌+◌, ◌≡◌, refl, ◌∙◌, ap, Bool, true, false, not, ◌&&◌, List, [], ◌∷◌, ◌++◌, if◌then◌else◌,
  arith,
}
use wayvnc.Pointer.{
  Button, left, middle, right, back, forward, Scroll, scroll_up, scroll_down, scroll_left,
  scroll_right, Mask, Request, motion_absolute, button_is, axis_discrete, frame, Pointer, differ,
  button_request, scroll_request, pointer_set_button_mask,
}

abbrev pub same_button : Button → Button → Bool
same_button left left = true
same_button middle middle = true
same_button right right = true
same_button back back = true
same_button forward forward = true
same_button _ _ = false

abbrev pub same_scroll : Scroll → Scroll → Bool
same_scroll scroll_up scroll_up = true
same_scroll scroll_down scroll_down = true
same_scroll scroll_left scroll_left = true
same_scroll scroll_right scroll_right = true
same_scroll _ _ = false

-- Whether the compositor holds a button down after some requests.
unfoldable pub is_down : Button → Bool → List Request → Bool
is_down b down [] = down
is_down b down (button_is c pressed ∷ rs) = is_down b (if same_button c b then pressed else down) rs
is_down b down (motion_absolute x y ∷ rs) = is_down b down rs
is_down b down (axis_discrete s ∷ rs) = is_down b down rs
is_down b down (frame ∷ rs) = is_down b down rs

-- How often it has scrolled in a direction.
unfoldable pub steps : Scroll → List Request → ℕ
steps s [] = 0
steps s (axis_discrete t ∷ rs) = let n = steps s rs in if same_scroll t s then suc n else n
steps s (button_is c pressed ∷ rs) = steps s rs
steps s (motion_absolute x y ∷ rs) = steps s rs
steps s (frame ∷ rs) = steps s rs

pub is_down-append :
    (b : Button) (down : Bool) (rs qs : List Request)
    → is_down b down (rs ++ qs) ≡ is_down b (is_down b down rs) qs
unfolding is_down
is_down-append b down [] qs = refl
is_down-append b down (button_is c pressed ∷ rs) qs =
    is_down-append b (if same_button c b then pressed else down) rs qs
is_down-append b down (motion_absolute x y ∷ rs) qs = is_down-append b down rs qs
is_down-append b down (axis_discrete s ∷ rs) qs = is_down-append b down rs qs
is_down-append b down (frame ∷ rs) qs = is_down-append b down rs qs

pub steps-append :
    (s : Scroll) (rs qs : List Request) → steps s (rs ++ qs) ≡ steps s rs + steps s qs
unfolding steps
steps-append s [] qs = omega arith
steps-append s (button_is c pressed ∷ rs) qs = steps-append s rs qs
steps-append s (motion_absolute x y ∷ rs) qs = steps-append s rs qs
steps-append s (axis_discrete t ∷ rs) qs = ground (arith, steps-append s rs qs)
steps-append s (frame ∷ rs) qs = steps-append s rs qs

-- One bit's requests.
button_lem :
    (b c : Button) (down current mask : Bool)
    → is_down b down (button_request c current mask)
      ≡ (if same_button c b && differ current mask then mask else down)
unfolding is_down
button_lem b c down current mask = ground arith

scroll_lem :
    (b : Button) (s : Scroll) (down current mask : Bool)
    → is_down b down (scroll_request s current mask) ≡ down
unfolding is_down
scroll_lem b s down current mask = ground arith

no_steps :
    (s : Scroll) (c : Button) (current mask : Bool) → steps s (button_request c current mask) ≡ 0
unfolding steps
no_steps s c current mask = ground arith

one_step :
    (s t : Scroll) (current mask : Bool)
    → steps s (scroll_request t current mask)
      ≡ (if same_scroll t s && (current && not mask) then 1 else 0)
unfolding steps
one_step s t current mask = ground arith

button_then :
    (b c : Button) (down current mask : Bool) (qs : List Request)
    → is_down b down (button_request c current mask ++ qs)
      ≡ is_down b (if same_button c b && differ current mask then mask else down) qs
button_then b c down current mask qs =
    is_down-append b down (button_request c current mask) qs
    ∙ ap (λ d. is_down b d qs) (button_lem b c down current mask)

scroll_then :
    (b : Button) (s : Scroll) (down current mask : Bool) (qs : List Request)
    → is_down b down (scroll_request s current mask ++ qs) ≡ is_down b down qs
scroll_then b s down current mask qs =
    is_down-append b down (scroll_request s current mask) qs
    ∙ ap (λ d. is_down b d qs) (scroll_lem b s down current mask)

no_steps_then :
    (s : Scroll) (c : Button) (current mask : Bool) (qs : List Request)
    → steps s (button_request c current mask ++ qs) ≡ steps s qs
no_steps_then s c current mask qs =
    omega (arith, steps-append s (button_request c current mask) qs, no_steps s c current mask)

one_step_then :
    (s t : Scroll) (current mask : Bool) (qs : List Request)
    → steps s (scroll_request t current mask ++ qs)
      ≡ (if same_scroll t s && (current && not mask) then 1 else 0) + steps s qs
one_step_then s t current mask qs =
    steps-append s (scroll_request t current mask) qs
    ∙ ap (λ n. n + steps s qs) (one_step s t current mask)

-- After the bits of two masks have been compared, each button is as in the second, and each
-- direction has been scrolled in once if its bit was set and is not any more.
pub mask_down :
    (self : Pointer) (mask : Mask) (b : Button)
    → is_down b (self.current_mask.button b) (pointer_set_button_mask self mask).0 ≡ mask.button b
unfolding pointer_set_button_mask
mask_down self mask b = simp (button_then, scroll_then, scroll_lem) (ground arith)

pub mask_steps :
    (self : Pointer) (mask : Mask) (s : Scroll)
    → steps s (pointer_set_button_mask self mask).0
      ≡ (if self.current_mask.scroll s && not (mask.scroll s) then 1 else 0)
unfolding pointer_set_button_mask
mask_steps self mask s = simp (no_steps_then, one_step_then, one_step) (ground arith)
