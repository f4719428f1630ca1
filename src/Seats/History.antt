-- ===== src/Seats/History.antt =====
-- Histories of the seats and clients of src/main.c.
use wayvnc.Prelude.{
  ℕ, suc, ◌^◌, ◌≤◌, ◌<◌, ◌≡◌, refl, Bool, true, false, ◌&&◌, not, List, [], ◌∷◌, Option, none, some,
  ◌==◌, if◌then◌else◌, length, arith,
}
use wayvnc.Text.{Str}
use wayvnc.Seats.{
  Seat, SeatClient, Config, State, Outcome, ok, Announced, seat_new, seat_capabilities, seat_name,
  seat_find_unoccupied, seat_new_client, find_client, client_destroy, detach, attach, on_seat,
  seat_removed, on_disconnect_client, bind,
}
use wayvnc.Seats.Counts.{holders, Counted, has_seat, Inv}

-- What happens to seats and clients. `ready` is what the compositor sends for transient seats.
pub data Event : Type 0 where
  seat_added : (id : ℕ) → Event
  seat_named : (id : ℕ) (name : Str) → Event
  seat_capable : (id capabilities : ℕ) → Event
  global_removed : (id : ℕ) → Event
  client_new : (ready : Option ℕ) → Event
  client_gone : (id : ℕ) → Event
  disconnect : (id : Option ℕ) → Event
  detached : Event
  attached : (ready : ℕ → Option ℕ) (seats : List Announced) → Event

-- Before the first client.
unfoldable pub start : State
start = record { attached = false; seats = []; clients = []; next_client_id = 1; nr_clients = 0 }

module _ (cfg : Config) (close : SeatClient → State → Outcome State) where
  -- A global gets a name that is not in use, and events come from a compositor that is attached.
  unfoldable pub step : Event → State → Outcome State
  step (seat_added id) s =
      if s.attached && not (has_seat s.seats (some id))
      then ok (record s { seats = seat_new id ∷ s.seats })
      else ok s
  step (seat_named id name) s = ok (record s { seats = seat_name id name s.seats })
  step (seat_capable id capabilities) s =
      ok (record s { seats = seat_capabilities id capabilities s.seats })
  step (global_removed id) s = seat_removed close id s
  step (client_new ready) s = seat_new_client cfg ready s
  step (client_gone id) s = elim (find_client id s.clients) [
    | none ↦ ok s
    | some c ↦ client_destroy c s
  ]
  step (disconnect id) s = (on_disconnect_client close id s).1
  step detached s = ok (detach s)
  step (attached ready seats) s = attach cfg ready seats s

  unfoldable pub run : State → List Event → Outcome State
  run s [] = ok s
  run s (e ∷ es) = bind (step e s) (λ t. run t es)

-- A free seat is one that no client has; where there is none, each seat has a client.
abbrev EachTaken : List SeatClient → List Seat → Type 0
EachTaken cs [] = Unit {0}
EachTaken cs (s ∷ ss) = (1 ≤ holders cs s.id) × EachTaken cs ss

abbrev pub IsFree : List SeatClient → List Seat → Option ℕ → Type 0
IsFree cs ss none = EachTaken cs ss
IsFree cs ss (some id) = holders cs id ≡ 0

holders-le : (cs : List SeatClient) (id : ℕ) → holders cs id ≤ length cs
holders-le [] id = omega arith
holders-le (c ∷ cs) id = split (on_seat id c) (holders-le cs id)
  where
    split :
        (b : Bool)
        → holders cs id ≤ length cs
        → (if b then suc (holders cs id) else holders cs id) ≤ suc (length cs)
    split true e = omega (arith, e)
    split false e = omega (arith, e)

Counted-IsFree :
    (cs : List SeatClient) (ss : List Seat)
    → length cs < 2 ^ 32
    → Counted cs ss
    → IsFree cs ss (seat_find_unoccupied ss)
unfolding seat_find_unoccupied
Counted-IsFree cs [] few h = tt
Counted-IsFree cs (s ∷ ss) few h =
    split (s.occupancy == 0) refl (seat_find_unoccupied ss) (Counted-IsFree cs ss few h.1)
  where
    split :
        (b : Bool)
        → (s.occupancy == 0) ≡ b
        → (o : Option ℕ) → IsFree cs ss o
        → IsFree cs (s ∷ ss) (if b then some s.id else o)
    split true e o f = ground (arith, e, h.0, few, holders-le cs s.id)
    split false e none f = (ground (arith, e, h.0), f)
    split false e (some i) f = f

-- The seat that a new client gets where none is selected: one that no other client has, unless
-- each has one. There are fewer than 2 ^ 32 clients.
pub seat_find_unoccupied-IsFree :
    (s : State)
    → Inv s
    → length s.clients < 2 ^ 32
    → IsFree s.clients s.seats (seat_find_unoccupied s.seats)
seat_find_unoccupied-IsFree s inv few = Counted-IsFree s.clients s.seats few inv.counted
