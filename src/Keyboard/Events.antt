-- ===== src/Keyboard/Events.antt =====
-- What a compositor sees of src/keyboard.c over a history of keys.
use wayvnc.Prelude.{
  ℕ, ◌<◌, ◌≡◌, ◌≢◌, refl, sym, ap, ◌∙◌, subst, inl, inr, Bool, true, false, not, ◌&&◌, ◌||◌, List,
  [], ◌∷◌, ◌++◌, Option, none, some, ◌==◌, if◌then◌else◌, Bool-cases, arith,
}
use mathlib.Core.Option.{some-injective}
use wayvnc.IntSet.{IntSet, is_set, clear}
use wayvnc.IntSet.Laws.{IsValid, insert_lem}
use wayvnc.IntSet.Removal.{clear_lem}
use wayvnc.Keyboard.{
  Group, group_eq, Xkb, Entry, Keyboard, KeyRequest, modifiers, key, get_current_layout_group,
  keyboard_send_mods, keyboard_apply_mods, restore_mods, send_key_with_level, search_groups,
  keyboard_find_symbol, update_key_state, send, apply_and_send, feed_key, use_group, feed_entries,
  keyboard_feed,
}

abbrev same : Bool → Bool → Bool
same true b = b
same false b = not b

-- Whether the key of a code is down after a request; `none` where it presses the key while it is
-- down or releases it while it is up.
abbrev after : ℕ → Bool → KeyRequest → Option Bool
after d down (modifiers m g) = some down
after d down (key code is_pressed) =
    if code == d then if same down is_pressed then none else some is_pressed else some down

abbrev pub replay : ℕ → Bool → List KeyRequest → Option Bool
replay d down [] = some down
replay d down (r ∷ rs) = elim (after d down r) [ none ↦ none | some b ↦ replay d b rs ]

-- Requests that press and release no key.
abbrev Silent : List KeyRequest → Type 0
Silent [] = Unit {0}
Silent (modifiers m g ∷ rs) = Silent rs
Silent (key c b ∷ rs) = ⊥

replay-append :
    (d : ℕ) (down : Bool) (rs qs : List KeyRequest)
    → Silent rs
    → replay d down (rs ++ qs) ≡ replay d down qs
replay-append d down [] qs h = refl
replay-append d down (modifiers m g ∷ rs) qs h = replay-append d down rs qs h
replay-append d down (key c b ∷ rs) qs h = elim h [ ]

none_is_not_some : (b : Bool) → none ≢ some b
none_is_not_some b e = cc

-- A history after a replayed one.
pub replay-later :
    (d : ℕ) (down middle : Bool) (rs qs : List KeyRequest)
    → replay d down rs ≡ some middle
    → replay d down (rs ++ qs) ≡ replay d middle qs
replay-later d down middle [] qs e = ap (λ b. replay d b qs) (some-injective _ _ e)
replay-later d down middle (r ∷ rs) qs e =
    go (λ b. replay-later d b middle rs qs) (after d down r) e
  where
    go :
        ((b : Bool) → replay d b rs ≡ some middle → replay d b (rs ++ qs) ≡ replay d middle qs)
        → (o : Option Bool) → elim o [ none ↦ none | some b ↦ replay d b rs ] ≡ some middle
        → elim o [ none ↦ none | some b ↦ replay d b (rs ++ qs) ] ≡ replay d middle qs
    go ih none e' = absurd (none_is_not_some middle e')
    go ih (some b) e' = ih b e'

or_as_if : (b c : Bool) → (b || c) ≡ (if b then true else c)
or_as_if true c = refl
or_as_if false c = refl

and_as_if : (b c : Bool) → (not b && c) ≡ (if b then false else c)
and_as_if true c = refl
and_as_if false c = refl

-- One key among changes of modifiers.
abbrev OneKey : ℕ → Bool → List KeyRequest → Type 0
OneKey code is_pressed rs =
    (d : ℕ) (down : Bool) → replay d down rs ≡ replay d down (key code is_pressed ∷ [])

module _ {S : Type 0} (xkb : Xkb S) (bsearch : List Entry → (symbol group : ℕ) → Option ℕ)
    (junk : ℕ) (alloc_ok : Bool) where
  keyboard_send_mods-Silent : (self : Keyboard S) → Silent (keyboard_send_mods xkb self).1
  unfolding keyboard_send_mods
  keyboard_send_mods-Silent self = tt

  keyboard_send_mods-key_state :
      (self : Keyboard S) → (keyboard_send_mods xkb self).0.key_state ≡ self.key_state
  unfolding keyboard_send_mods
  keyboard_send_mods-key_state self = refl

  keyboard_apply_mods-Silent :
      (self : Keyboard S) (code : ℕ) (b : Bool)
      → ((keyboard_apply_mods xkb self code b).0.key_state ≡ self.key_state)
        × Silent (keyboard_apply_mods xkb self code b).1
  unfolding keyboard_apply_mods keyboard_send_mods
  keyboard_apply_mods-Silent self code b =
      elim (Bool-cases (
        not (xkb.update_key self.state code b).1
        && group_eq self.last_sent_group
            (get_current_layout_group xkb (xkb.update_key self.state code b).0))) [
              | inl e ↦ rw (e, keyboard_apply_mods) (refl, tt)
              | inr e ↦ rw (e, keyboard_apply_mods) (refl, tt)
            ]

  send_lem :
      (self : Keyboard S) (code : ℕ) (b : Bool) (level : Option ℕ)
      → ((send xkb bsearch junk alloc_ok self code b level).0.key_state ≡ self.key_state)
        × OneKey code b (send xkb bsearch junk alloc_ok self code b level).1
  unfolding send_key_with_level keyboard_send_mods restore_mods
  send_lem self code b none = (refl, λ d down. refl)
  send_lem self code b (some level) = (refl, λ d down. refl)

  apply_and_send_lem :
      (self : Keyboard S) (code : ℕ) (b : Bool) (level : Option ℕ)
      → ((apply_and_send xkb bsearch junk alloc_ok self code b level).0.key_state ≡ self.key_state)
        × OneKey code b (apply_and_send xkb bsearch junk alloc_ok self code b level).1
  unfolding apply_and_send
  apply_and_send_lem self code b level =
      let a = keyboard_apply_mods-Silent self code b in
      let s = send_lem (keyboard_apply_mods xkb self code b).0 code b level in
      (
        s.0 ∙ a.0,
        λ d down.
            replay-append d down (keyboard_apply_mods xkb self code b).1
              (send xkb bsearch junk alloc_ok (keyboard_apply_mods xkb self code b).0 code b
                level).1
              a.1
            ∙ s.1 d down,
      )

  -- The set of keys stays valid, and the keyboard that the compositor sees has the keys down that
  -- are in the set, before and after the requests.
  abbrev pub Follows : IntSet → Option (Keyboard S × List KeyRequest) → Type 0
  Follows s none = ⊥
  Follows s (some (self, rs)) =
      IsValid self.key_state × ((d : ℕ) → replay d (is_set s d) rs ≡ some (is_set self.key_state d))

  replay-key :
      (code d : ℕ) (b down : Bool)
      → (code ≡ d → down ≡ not b)
      → replay d down (key code b ∷ []) ≡ some (if code == d then b else down)
  replay-key code d true true h = ground arith
  replay-key code d true false h = ground arith
  replay-key code d false true h = ground arith
  replay-key code d false false h = ground arith

  sent-Follows :
      (s : IntSet) (self : Keyboard S) (code : ℕ) (b : Bool) (level : Option ℕ)
      → IsValid self.key_state
      → is_set s code ≡ not b
      → ((d : ℕ) → is_set self.key_state d ≡ (if code == d then b else is_set s d))
      → Follows s (some (apply_and_send xkb bsearch junk alloc_ok self code b level))
  sent-Follows s self code b level valid e h =
      let l = apply_and_send_lem self code b level in
      (
        subst IsValid (sym l.0) valid,
        λ d.
            l.1 d (is_set s d)
            ∙ replay-key code d b (is_set s d) (λ q. ap (is_set s) (sym q) ∙ e)
            ∙ ap some (sym (h d))
            ∙ ap (λ t. some (is_set t d)) (sym l.0),
      )

  pub feed_key-Follows :
      (self : Keyboard S) (code : ℕ) (b : Bool) (level : Option ℕ)
      → IsValid self.key_state
      → self.key_state.len < self.key_state.cap
      → Follows self.key_state (feed_key xkb bsearch junk alloc_ok self code b level)
  unfolding feed_key update_key_state
  feed_key-Follows self code true level valid room =
      elim (Bool-cases (is_set self.key_state code)) [
        | inl e ↦ rw (e, feed_key, update_key_state) (valid, λ d. refl)
        | inr e ↦
            (let (t, p, v, m) = insert_lem junk alloc_ok self.key_state code valid room in
              rw (e, p, feed_key, update_key_state)
                (sent-Follows self.key_state (record self { key_state = t }) code true level v e
                  (λ d. m d ∙ or_as_if (code == d) _)))
      ]
  feed_key-Follows self code false level valid room =
      elim (Bool-cases (is_set self.key_state code)) [
        | inl e ↦
            (let l = clear_lem self.key_state code valid in
              rw (e, feed_key, update_key_state)
                (sent-Follows self.key_state (record self { key_state = clear self.key_state code })
                  code false level l.0 e (λ d. l.1 d ∙ and_as_if (code == d) _)))
        | inr e ↦ rw (e, feed_key, update_key_state) (valid, λ d. refl)
      ]

  -- Looking a symbol up may change the layout group, but no key.
  keyboard_find_symbol-key_state :
      (self : Keyboard S) (symbol : ℕ)
      → (keyboard_find_symbol xkb bsearch junk alloc_ok self symbol).0.key_state ≡ self.key_state
  unfolding keyboard_find_symbol
  keyboard_find_symbol-key_state self symbol = go (
      search_groups xkb bsearch junk alloc_ok self.lookup_table symbol
        (get_current_layout_group xkb self.state) 0 xkb.num_layouts)
    where
      go :
          (o : Option (List Entry × Group))
          → (use_group xkb bsearch junk alloc_ok self o).0.key_state ≡ self.key_state
      go none = refl
      go (some (es, group)) =
          elim (Bool-cases (group_eq group (get_current_layout_group xkb self.state))) [
            | inl e ↦ rw e refl
            | inr e ↦ rw e refl
          ]

  feed_entries-Follows :
      (self : Keyboard S) (symbol : ℕ) (b : Bool) (es : List Entry)
      → IsValid self.key_state
      → self.key_state.len < self.key_state.cap
      → Follows self.key_state (feed_entries xkb bsearch junk alloc_ok self symbol b es)
  unfolding feed_entries
  feed_entries-Follows self symbol b [] valid room = (valid, λ d. refl)
  feed_entries-Follows self symbol b (entry ∷ es) valid room =
      feed_key-Follows self _ b _ valid room

  pub keyboard_feed-Follows :
      (self : Keyboard S) (symbol : ℕ) (b : Bool)
      → IsValid self.key_state
      → self.key_state.len < self.key_state.cap
      → Follows self.key_state (keyboard_feed xkb bsearch junk alloc_ok self symbol b)
  unfolding keyboard_feed
  keyboard_feed-Follows self symbol b valid room =
      let found = keyboard_find_symbol xkb bsearch junk alloc_ok self symbol in
      let e = keyboard_find_symbol-key_state self symbol in
      subst (λ s. Follows s (feed_entries xkb bsearch junk alloc_ok found.0 symbol b found.1)) e
        (feed_entries-Follows found.0 symbol b found.1 (subst IsValid (sym e) valid)
          (subst (λ s. s.len < s.cap) (sym e) room))
