-- ===== src/Keyboard/History.antt =====
-- Histories of keys of src/keyboard.c, as a VNC client sends them.
use wayvnc.Prelude.{ℕ, ◌<◌, ◌≡◌, refl, ◌∙◌, Bool, List, [], ◌∷◌, ◌++◌, Option, none, some}
use wayvnc.IntSet.{IntSet, is_set}
use wayvnc.IntSet.Laws.{IsValid}
use wayvnc.Keyboard.{Xkb, Entry, Keyboard, KeyRequest, keyboard_feed, keyboard_feed_code}
use wayvnc.Keyboard.Events.{replay, replay-later, Follows, keyboard_feed-Follows, feed_key-Follows}

-- A call of `keyboard_feed` or of `keyboard_feed_code`.
pub data Input : Type 0 where
  symbol : ℕ → Bool → Input
  code : ℕ → Bool → Input

module _ {S : Type 0} (xkb : Xkb S) (bsearch : List Entry → (symbol group : ℕ) → Option ℕ)
    (junk : ℕ) (alloc_ok : Bool) where
  abbrev pub feed : Keyboard S → Input → Option (Keyboard S × List KeyRequest)
  feed self (symbol s b) = keyboard_feed xkb bsearch junk alloc_ok self s b
  feed self (code c b) = keyboard_feed_code xkb bsearch junk alloc_ok self c b

  -- The keyboard after a history, and all requests; `none` is a fault in the set.
  abbrev pub run : Keyboard S → List Input → Option (Keyboard S × List KeyRequest)
  run self [] = some (self, [])
  run self (i ∷ is) = elim (feed self i) [
    | none ↦ none
    | some (self', rs) ↦ elim (run self' is) [
      | none ↦ none
      | some (self'', qs) ↦ some (self'', rs ++ qs)
    ]
  ]

  abbrev pub Onward : (Keyboard S → Type 0) → Option (Keyboard S × List KeyRequest) → Type 0
  Onward P none = Unit {0}
  Onward P (some (self, rs)) = P self

  -- At no time are as many keys down as the set has slots.
  abbrev pub HasRoom : Keyboard S → List Input → Type 0
  HasRoom self [] = Unit {0}
  HasRoom self (i ∷ is) =
      (self.key_state.len < self.key_state.cap) × Onward (λ self'. HasRoom self' is) (feed self i)

  feed-Follows :
      (self : Keyboard S) (i : Input)
      → IsValid self.key_state
      → self.key_state.len < self.key_state.cap
      → Follows xkb bsearch junk alloc_ok self.key_state (feed self i)
  unfolding keyboard_feed_code
  feed-Follows self (symbol s b) valid room =
      keyboard_feed-Follows xkb bsearch junk alloc_ok self s b valid room
  feed-Follows self (code c b) valid room =
      feed_key-Follows xkb bsearch junk alloc_ok self c b none valid room

  abbrev Later : List Input → Type 0
  Later is =
      (self : Keyboard S)
      → IsValid self.key_state
      → HasRoom self is
      → Follows xkb bsearch junk alloc_ok self.key_state (run self is)

  join :
      (s t : IntSet) (rs : List KeyRequest) (o : Option (Keyboard S × List KeyRequest))
      → ((d : ℕ) → replay d (is_set s d) rs ≡ some (is_set t d))
      → Follows xkb bsearch junk alloc_ok t o
      → Follows xkb bsearch junk alloc_ok s
          (elim o [ none ↦ none | some (self, qs) ↦ some (self, rs ++ qs) ])
  join s t rs none h f = f
  join s t rs (some (self, qs)) h f =
      (f.0, λ d. replay-later d (is_set s d) (is_set t d) rs qs (h d) ∙ f.1 d)

  run_step :
      (s : IntSet) (is : List Input) (o : Option (Keyboard S × List KeyRequest))
      → Later is
      → Follows xkb bsearch junk alloc_ok s o
      → Onward (λ self'. HasRoom self' is) o
      → Follows xkb bsearch junk alloc_ok s (elim o [
        | none ↦ none
        | some (self', rs) ↦ elim (run self' is) [
          | none ↦ none
          | some (self'', qs) ↦ some (self'', rs ++ qs)
        ]
      ])
  run_step s is none later f room = f
  run_step s is (some (self, rs)) later f room =
      join s self.key_state rs (run self is) f.1 (later self f.0 room)

  -- As long as fewer keys are down at once than the set has slots, any history of symbols and codes
  -- is handled without a fault, the compositor sees each key pressed and released in turn, and in
  -- the end has exactly those keys down that are in the set.
  pub run-Follows :
      (self : Keyboard S) (is : List Input)
      → IsValid self.key_state
      → HasRoom self is
      → Follows xkb bsearch junk alloc_ok self.key_state (run self is)
  run-Follows self [] valid room = (valid, λ d. refl)
  run-Follows self (i ∷ is) valid room =
      run_step self.key_state is (feed self i) (λ s v h. run-Follows s is v h)
        (feed-Follows self i valid room.0) room.1
