-- ===== src/Keyboard.antt =====
-- src/keyboard.c: from symbols and codes to the requests of the virtual keyboard. xkbcommon's
-- keymap and state are a record of its operations, and `bsearch` is a parameter.
pub mod Events
pub mod History
mod Tests
use wayvnc.Prelude.{
  ℕ, zero, suc, ◌+◌, ◌-◌, ◌%◌, Bool, true, false, not, ◌&&◌, List, [], ◌∷◌, ◌++◌, Option, none,
  some, ◌==◌, if◌then◌else◌, get_elem?, length, drop,
}
use wayvnc.IntSet.{IntSet, is_set, insert, clear}

-- `struct kb_mods`
pub record Mods : Type 0 where
  pub depressed : ℕ
  pub latched : ℕ
  pub locked : ℕ

abbrev only_depressed : ℕ → Mods
only_depressed mods = record { depressed = mods; latched = 0; locked = 0 }

-- A layout group; `none` is -1.
abbrev pub Group : Type 0
Group = Option ℕ

abbrev pub group_eq : Group → Group → Bool
group_eq none none = true
group_eq none (some h) = false
group_eq (some g) none = false
group_eq (some g) (some h) = g == h

-- xkbcommon on the keymap at hand, over the states `S` of `struct xkb_state`.
pub record Xkb (S : Type 0) : Type 0 where
  -- xkb_keymap_num_layouts, xkb_state_layout_index_is_active for XKB_STATE_LAYOUT_EFFECTIVE
  pub num_layouts : ℕ
  pub layout_index_is_active : S → ℕ → Bool
  -- xkb_state_update_key, with the test of its result for a change of modifiers
  pub update_key : S → ℕ → Bool → S × Bool
  -- xkb_state_update_mask with the layouts `0, 0, group`
  pub update_mask : S → Mods → Group → S
  -- xkb_state_serialize_mods of the three components
  pub serialize_mods : S → Mods
  -- xkb_state_key_get_level
  pub key_get_level : S → ℕ → ℕ → ℕ
  -- the first mask of xkb_keymap_key_get_mods_for_level, 0 if there is none
  pub mods_for_level : ℕ → Group → ℕ → ℕ
  -- the XKB_KEY constants that `keyboard_symbol_is_mod` lists
  pub mod_symbols : List ℕ

-- `struct table_entry`
pub record Entry : Type 0 where
  pub symbol : ℕ
  pub code : ℕ
  pub level : ℕ
  pub group : ℕ

-- `struct keyboard`, without its handles. The table has its `lookup_table_length` entries.
pub record Keyboard (S : Type 0) : Type 0 where
  pub state : S
  pub lookup_table : List Entry
  pub key_state : IntSet
  pub last_sent_group : Group

-- A request to the compositor: zwp_virtual_keyboard_v1_modifiers, or zwp_virtual_keyboard_v1_key,
-- whose argument is the code less 8.
pub data KeyRequest : Type 0 where
  modifiers : Mods → Group → KeyRequest
  key : (code : ℕ) → (is_pressed : Bool) → KeyRequest

abbrev pub contains : List ℕ → ℕ → Bool
contains [] c = false
contains (x ∷ xs) c = if c == x then true else contains xs c

abbrev symbol_at : List Entry → ℕ → ℕ → Bool
symbol_at table i symbol = elim (get_elem? table i) [ none ↦ false | some e ↦ e.symbol == symbol ]

module _ {S : Type 0} (xkb : Xkb S) where
  open xkb use {
    num_layouts, layout_index_is_active, update_key, update_mask, serialize_mods, key_get_level,
    mods_for_level, mod_symbols,
  }

  -- The loop of `get_current_layout_group`, at group `i` with `n` rounds left.
  unfoldable pub active_from : S → ℕ → ℕ → Group
  active_from state i zero = none
  active_from state i (suc n) =
      if layout_index_is_active state i then some i else active_from state (i + 1) n

  unfoldable pub get_current_layout_group : S → Group
  get_current_layout_group state = active_from state 0 num_layouts

  -- The loop of `keyboard_find_symbol_in_group` back over entries with the symbol.
  unfoldable pub rewind : List Entry → ℕ → ℕ → ℕ
  rewind table symbol zero = zero
  rewind table symbol (suc i) =
      let start = rewind table symbol i in if symbol_at table i symbol then start else suc i

  -- `(current_group + g) % n_groups`, in `int`.
  unfoldable pub group_after : Group → ℕ → Group
  group_after (some c) g = some ((c + g) % num_layouts)
  group_after none zero = if num_layouts == 1 then some 0 else none
  group_after none (suc g) = some (g % num_layouts)

  unfoldable pub keyboard_symbol_is_mod : ℕ → Bool
  keyboard_symbol_is_mod symbol = contains mod_symbols symbol

  -- `match_level`, on the entries from the given one on.
  unfoldable pub match_level : S → ℕ → List Entry → Option Entry
  match_level state symbol [] = none
  match_level state symbol (e ∷ es) =
      let later = match_level state symbol es in
      if e.symbol == symbol
      then if e.level == key_get_level state e.code e.group then some e else later
      else none

  unfoldable pub keyboard_send_mods : Keyboard S → Keyboard S × List KeyRequest
  keyboard_send_mods self =
      let group = get_current_layout_group self.state in
      (record self { last_sent_group = group }, modifiers (serialize_mods self.state) group ∷ [])

  unfoldable pub keyboard_apply_mods : Keyboard S → ℕ → Bool → Keyboard S × List KeyRequest
  keyboard_apply_mods self code is_pressed =
      let (state, changed) = update_key self.state code is_pressed in
      let self' = record self { state = state } in
      if not changed && group_eq self.last_sent_group (get_current_layout_group state)
      then (self', [])
      else keyboard_send_mods self'

  unfoldable pub restore_mods : Keyboard S → Mods → Keyboard S
  restore_mods self mods = record self {
    state = update_mask self.state mods (get_current_layout_group self.state);
  }

  unfoldable pub send_key_with_level : Keyboard S → ℕ → Bool → ℕ → Keyboard S × List KeyRequest
  send_key_with_level self code is_pressed level =
      let group = get_current_layout_group self.state in
      let saved = serialize_mods self.state in
      let mods = only_depressed (mods_for_level code group level) in
      let (self1, before) =
        keyboard_send_mods (record self { state = update_mask self.state mods group }) in
      let (self2, after) = keyboard_send_mods (restore_mods self1 saved) in
      (self2, before ++ (key code is_pressed ∷ after))

  module _ (bsearch : List Entry → (symbol group : ℕ) → Option ℕ) (junk : ℕ) (alloc_ok : Bool) where
    -- The entries from the found one on.
    unfoldable pub find_symbol_in_group : List Entry → ℕ → Group → Option (List Entry)
    find_symbol_in_group table symbol none = none
    find_symbol_in_group table symbol (some group) = elim (bsearch table symbol group) [
      | none ↦ none
      | some i ↦ some (drop (rewind table symbol i) table)
    ]

    -- The loop of `keyboard_find_symbol` from round `g` on, with `n` rounds left: the entries and
    -- the group that they were found in.
    unfoldable pub search_groups : List Entry → ℕ → Group → ℕ → ℕ → Option (List Entry × Group)
    search_groups table symbol current g zero = none
    search_groups table symbol current g (suc n) =
        let group = group_after current g in
        let later = search_groups table symbol current (g + 1) n in
        elim (find_symbol_in_group table symbol group) [ some es ↦ some (es, group) | none ↦ later ]

    abbrev pub change_group : Keyboard S → Group → Keyboard S
    change_group self group =
        if group_eq group (get_current_layout_group self.state)
        then self
        else record self { state = update_mask self.state (serialize_mods self.state) group }

    abbrev pub use_group : Keyboard S → Option (List Entry × Group) → Keyboard S × List Entry
    use_group self none = (self, [])
    use_group self (some (es, group)) = (change_group self group, es)

    unfoldable pub keyboard_find_symbol : Keyboard S → ℕ → Keyboard S × List Entry
    keyboard_find_symbol self symbol =
        use_group self (
          search_groups self.lookup_table symbol (get_current_layout_group self.state) 0
            num_layouts)

    -- Whether the state changes, and the keyboard; `none` is a fault in the set.
    unfoldable pub update_key_state : Keyboard S → ℕ → Bool → Option (Bool × Keyboard S)
    update_key_state self code true =
        if is_set self.key_state code
        then some (false, self)
        else elim (insert junk alloc_ok self.key_state code) [
          | none ↦ none
          | some (ok, s) ↦ some (true, record self { key_state = s })
        ]
    update_key_state self code false =
        if is_set self.key_state code
        then some (true, record self { key_state = clear self.key_state code })
        else some (false, self)

    -- Sending a key: with the level that the symbol wants, or as the modifiers stand.
    abbrev pub send : Keyboard S → ℕ → Bool → Option ℕ → Keyboard S × List KeyRequest
    send self code is_pressed none = (self, key code is_pressed ∷ [])
    send self code is_pressed (some level) = send_key_with_level self code is_pressed level

    unfoldable pub apply_and_send : Keyboard S → ℕ → Bool → Option ℕ → Keyboard S × List KeyRequest
    apply_and_send self code is_pressed level =
        let (self1, before) = keyboard_apply_mods self code is_pressed in
        let (self2, after) = send self1 code is_pressed level in (self2, before ++ after)

    -- What `keyboard_feed` and `keyboard_feed_code` do with the code.
    unfoldable pub feed_key :
        Keyboard S → ℕ → Bool → Option ℕ → Option (Keyboard S × List KeyRequest)
    feed_key self code is_pressed level = elim (update_key_state self code is_pressed) [
      | none ↦ none
      | some (changed, self') ↦
          some (if changed then apply_and_send self' code is_pressed level else (self', []))
    ]

    unfoldable pub keyboard_feed_code :
        Keyboard S → ℕ → Bool → Option (Keyboard S × List KeyRequest)
    keyboard_feed_code self code is_pressed = feed_key self code is_pressed none

    -- The code that is sent, and the level where the modifiers do not stand for it.
    unfoldable pub choose : S → ℕ → Entry → List Entry → ℕ × Option ℕ
    choose state symbol entry es =
        if keyboard_symbol_is_mod symbol
        then (entry.code, none)
        else elim (match_level state entry.symbol es) [
          | some e ↦ (e.code, none)
          | none ↦ (entry.code, some entry.level)
        ]

    -- `keyboard_feed` on the entries that `keyboard_find_symbol` has found.
    unfoldable pub feed_entries :
        Keyboard S → ℕ → Bool → List Entry → Option (Keyboard S × List KeyRequest)
    feed_entries self symbol is_pressed [] = some (self, [])
    feed_entries self symbol is_pressed (entry ∷ es) =
        let (code, level) = choose self.state symbol entry (entry ∷ es) in
        feed_key self code is_pressed level

    unfoldable pub keyboard_feed : Keyboard S → ℕ → Bool → Option (Keyboard S × List KeyRequest)
    keyboard_feed self symbol is_pressed =
        let (self', es) = keyboard_find_symbol self symbol in
        feed_entries self' symbol is_pressed es
