-- ===== src/Seats/Tests.antt =====
-- Seats and clients of src/main.c on concrete inputs.
use wayvnc.Prelude.{ℕ, refl, true, false, List, [], ◌∷◌, none, some, arith}
use wayvnc.JsonIpc.{text}
use wayvnc.Seats.{Announced, Config, State, seat_find_unoccupied}
use wayvnc.Seats.Counts.{Inv}
use wayvnc.Seats.History.{
  Event, seat_added, seat_named, global_removed, client_new, client_gone, disconnect, detached,
  attached, IsFree, seat_find_unoccupied-IsFree,
}

abbrev plain : Config
plain = record {
  disable_input = false;
  selected_seat_name = none;
  use_transient_seat = false;
  keyboard_manager = true;
  pointer_manager = true;
  data_control_manager = false;
}

abbrev seat : ℕ → Announced
seat id = record { id = id; capabilities = 3; name = text "seat0" }

-- Two seats, three clients, one seat goes away, and all attaches elsewhere.
abbrev history : List Event
history =
    attached (λ id. none) (seat 7 ∷ [])
    ∷ seat_added 8
    ∷ seat_named 8 (text "seat1")
    ∷ client_new none
    ∷ client_new none
    ∷ client_new none
    ∷ disconnect (some 2)
    ∷ global_removed 8
    ∷ client_new none
    ∷ detached
    ∷ client_gone 4
    ∷ attached (λ id. none) (seat 3 ∷ seat 5 ∷ [])
    ∷ []

abbrev one_free : State
one_free = record {
  attached = true;
  seats =
      record { id = 7; capabilities = 3; name = []; occupancy = 1 }
      ∷ record { id = 8; capabilities = 3; name = []; occupancy = 0 }
      ∷ [];
  clients = record { id = 1; seat = some 7 } ∷ [];
  next_client_id = 2;
  nr_clients = 1;
}

one_free-Inv : Inv one_free
one_free-Inv = record {
  counted = (refl, (refl, tt));
  have = (refl, tt);
  number = refl;
  numbered = (omega arith, tt);
}

seat_find_unoccupied-IsFree_example :
    IsFree one_free.clients one_free.seats (seat_find_unoccupied one_free.seats)
seat_find_unoccupied-IsFree_example =
    seat_find_unoccupied-IsFree one_free one_free-Inv (omega arith)
