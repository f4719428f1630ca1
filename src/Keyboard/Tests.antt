-- ===== src/Keyboard/Tests.antt =====
-- The keyboard of src/keyboard.c on concrete inputs.
use wayvnc.Prelude.{
  ℕ, suc, ◌≡◌, refl, true, false, List, [], ◌∷◌, Option, none, some, ◌==◌, ◌&&◌, if◌then◌else◌,
  arith,
}
use wayvnc.IntSet.{IntSet, is_set, insert, clear, find_index, find_from, push}
use wayvnc.IntSet.Laws.{IsValid}
use wayvnc.Keyboard.{
  Xkb, Entry, Keyboard, modifiers, key, keyboard_feed, feed_key, update_key_state,
  keyboard_find_symbol, find_symbol_in_group, rewind, group_after, get_current_layout_group,
  active_from, search_groups, feed_entries, choose, keyboard_symbol_is_mod, match_level,
  apply_and_send, keyboard_apply_mods, keyboard_send_mods, send_key_with_level, restore_mods,
}
use wayvnc.Keyboard.Events.{Follows}
use wayvnc.Keyboard.History.{Input, symbol, run, HasRoom, run-Follows}

-- A keymap of one layout, whose state is the mask of the modifiers.
abbrev keymap : Xkb ℕ
keymap = record {
  num_layouts = 1;
  layout_index_is_active = λ s i. i == 0;
  update_key = λ s c b. (s, false);
  update_mask = λ s m g. m.depressed;
  serialize_mods = λ s. record { depressed = s; latched = 0; locked = 0 };
  key_get_level = λ s c g. s;
  mods_for_level = λ c g level. level;
  mod_symbols = 65505 ∷ [];
}

abbrev search_from : ℕ → List Entry → (symbol group : ℕ) → Option ℕ
search_from i [] s g = none
search_from i (e ∷ es) s g =
    if (e.symbol == s) && (e.group == g) then some i else search_from (suc i) es s g

abbrev letters : List Entry
letters =
    record { symbol = 65; code = 38; level = 1; group = 0 }
    ∷ record { symbol = 97; code = 38; level = 0; group = 0 }
    ∷ []

abbrev no_keys : IntSet
no_keys = record { cap = 3; len = 0; storage = 0 ∷ 0 ∷ 0 ∷ [] }

no_keys-IsValid : IsValid no_keys
no_keys-IsValid = record {
  within = omega arith;
  room = omega arith;
  small = omega arith;
  distinct = λ i j hi hj e. omega arith;
}

abbrev keyboard : Keyboard ℕ
keyboard = record {
  state = 0;
  lookup_table = letters;
  key_state = no_keys;
  last_sent_group = some 0;
}

-- `A` needs another level than the modifiers give, and is sent between changes of modifiers.
abbrev typed : List Input
typed = symbol 97 true ∷ symbol 97 true ∷ symbol 97 false ∷ symbol 65 true ∷ []

run-typed :
    (self : Keyboard ℕ) × (run keymap (search_from 0) 0 true keyboard typed
      ≡ some (
        self,
        key 38 true
            ∷ key 38 false
            ∷ modifiers (record { depressed = 1; latched = 0; locked = 0 }) (some 0)
            ∷ key 38 true
            ∷ modifiers (record { depressed = 0; latched = 0; locked = 0 }) (some 0)
            ∷ [],
      ))
unfolding keyboard_feed feed_key update_key_state keyboard_find_symbol search_groups
    find_symbol_in_group rewind group_after get_current_layout_group active_from feed_entries choose
    keyboard_symbol_is_mod match_level apply_and_send keyboard_apply_mods keyboard_send_mods
    send_key_with_level restore_mods is_set insert clear find_index find_from push
run-typed = (_, refl)

typed-HasRoom : HasRoom keymap (search_from 0) 0 true keyboard typed
unfolding keyboard_feed feed_key update_key_state keyboard_find_symbol search_groups
    find_symbol_in_group rewind group_after get_current_layout_group active_from feed_entries choose
    keyboard_symbol_is_mod match_level apply_and_send keyboard_apply_mods keyboard_send_mods
    send_key_with_level restore_mods is_set insert clear find_index find_from push
typed-HasRoom = (omega arith, (omega arith, (omega arith, (omega arith, tt))))

run-Follows_example :
    Follows keymap (search_from 0) 0 true no_keys (run keymap (search_from 0) 0 true keyboard typed)
run-Follows_example =
    run-Follows keymap (search_from 0) 0 true keyboard typed no_keys-IsValid typed-HasRoom
