-- ===== src/Seats.antt =====
-- src/seat.c and the part of src/main.c and src/wayland.c that gives seats to VNC clients.
mod Counts
pub mod Occupied
pub mod Departure
pub mod Removal
pub mod Attached
pub mod History
mod Tests
use wayvnc.Prelude.{
  ℕ, ◌+◌, ◌-◌, ◌%◌, ◌^◌, Bool, true, false, ◌||◌, ◌&&◌, List, [], ◌∷◌, Option, none, some, ◌==◌,
  if◌then◌else◌, map,
}
use wayvnc.Text.{Str, str_eq, truncated}

-- `struct seat`. A seat is known by its global name, which the compositor gives to one at a time.
pub record Seat : Type 0 where
  pub id : ℕ
  pub capabilities : ℕ
  pub name : Str
  pub occupancy : ℕ

-- `struct wayvnc_client`: its number and its seat.
pub record SeatClient : Type 0 where
  pub id : ℕ
  pub seat : Option ℕ

-- The options of `struct wayvnc` that matter, and which of the globals that
-- `client_init_keyboard`, `client_init_pointer` and `client_init_data_control` look for are there;
-- for the pointer, with an output or the desktop as the image source.
pub record Config : Type 0 where
  pub disable_input : Bool
  pub selected_seat_name : Option Str
  pub use_transient_seat : Bool
  pub keyboard_manager : Bool
  pub pointer_manager : Bool
  pub data_control_manager : Bool

-- The seats of `wayland`, where it is not NULL, and the VNC clients.
pub record State : Type 0 where
  pub attached : Bool
  pub seats : List Seat
  pub clients : List SeatClient
  pub next_client_id : ℕ
  pub nr_clients : ℕ

-- A state; an assertion on a seat that fails; NULL dereferenced for a seat; a seat used after it
-- is freed.
pub data Outcome (A : Type 0) : Type 0 where
  ok : A → Outcome A
  failed_assertion null_seat freed_seat : Outcome A

unfoldable pub seat_new : ℕ → Seat
seat_new id = record { id = id; capabilities = 0; name = []; occupancy = 0 }

-- An update of the seat with this name, in place.
unfoldable pub change : ℕ → (Seat → Seat) → List Seat → List Seat
change id f [] = []
change id f (s ∷ ss) = (if s.id == id then f s else s) ∷ change id f ss

unfoldable pub seat_capabilities : ℕ → ℕ → List Seat → List Seat
unfolding change
seat_capabilities id capabilities ss = change id (λ s. record s { capabilities = capabilities }) ss

unfoldable pub seat_name : ℕ → Str → List Seat → List Seat
unfolding change
seat_name id name ss = change id (λ s. record s { name = truncated 256 name }) ss

unfoldable pub seat_find_by_name : List Seat → Str → Option ℕ
seat_find_by_name [] name = none
seat_find_by_name (s ∷ ss) name =
    if str_eq s.name name then some s.id else seat_find_by_name ss name

unfoldable pub seat_find_by_id : List Seat → ℕ → Option ℕ
seat_find_by_id [] id = none
seat_find_by_id (s ∷ ss) id = if s.id == id then some s.id else seat_find_by_id ss id

unfoldable pub seat_find_unoccupied : List Seat → Option ℕ
seat_find_unoccupied [] = none
seat_find_unoccupied (s ∷ ss) = if s.occupancy == 0 then some s.id else seat_find_unoccupied ss

unfoldable pub seat_first : List Seat → Option ℕ
seat_first [] = none
seat_first (s ∷ ss) = some s.id

-- `occupancy++` and `occupancy--` on a `uint32_t`.
abbrev pub up : Seat → Seat
up s = record s { occupancy = (s.occupancy + 1) % 2 ^ 32 }

abbrev pub down : Seat → Seat
down s = record s { occupancy = (s.occupancy + 2 ^ 32 - 1) % 2 ^ 32 }

abbrev pub asserted : Option ℕ → Outcome (Option ℕ)
asserted none = failed_assertion
asserted (some id) = ok (some id)

abbrev pub or_else : Option ℕ → Option ℕ → Option ℕ
or_else none b = b
or_else (some a) b = some a

-- The seat that `client_init_seat` picks. `ready` is the name that the compositor has sent for a
-- transient seat by the end of the round trip, if it has.
unfoldable pub pick_seat : Config → Option ℕ → List Seat → Outcome (Option ℕ)
pick_seat cfg ready ss = elim cfg.selected_seat_name [
  | some name ↦ asserted (seat_find_by_name ss name)
  | none ↦
      if cfg.use_transient_seat
      then elim ready [ none ↦ failed_assertion | some id ↦ asserted (seat_find_by_id ss id) ]
      else ok (or_else (seat_find_unoccupied ss) (seat_first ss))
]

unfoldable pub occupy : Option ℕ → List Seat → List Seat
unfolding change
occupy none ss = ss
occupy (some id) ss = change id up ss

-- `client_init_seat`: the seat of the client, and the seats. A client without one keeps NULL.
unfoldable pub client_init_seat : Config → Option ℕ → List Seat → Outcome (Option ℕ × List Seat)
unfolding pick_seat occupy
client_init_seat cfg ready ss =
    if cfg.disable_input then ok (none, ss) else elim (pick_seat cfg ready ss) [
      | ok seat ↦ ok (seat, occupy seat ss)
      | failed_assertion ↦ failed_assertion
      | null_seat ↦ null_seat
      | freed_seat ↦ freed_seat
    ]

abbrev pub uses_seat : Config → Bool
uses_seat cfg = cfg.keyboard_manager || (cfg.pointer_manager || cfg.data_control_manager)

-- `client_init_wayland`: what follows `client_init_seat` follows the pointer to the seat.
unfoldable pub client_init_wayland : Config → Option ℕ → List Seat → Outcome (Option ℕ × List Seat)
unfolding client_init_seat
client_init_wayland cfg ready ss = elim (client_init_seat cfg ready ss) [
  | ok (some id, ss') ↦ ok (some id, ss')
  | ok (none, ss') ↦ if uses_seat cfg then null_seat else ok (none, ss')
  | failed_assertion ↦ failed_assertion
  | null_seat ↦ null_seat
  | freed_seat ↦ freed_seat
]

-- `on_nvnc_client_new` with `client_create`.
abbrev pub add_client : State → Outcome (Option ℕ × List Seat) → Outcome State
add_client s (ok (seat, ss)) = ok (record s {
  seats = ss;
  clients = record { id = s.next_client_id; seat = seat } ∷ s.clients;
  next_client_id = s.next_client_id + 1;
  nr_clients = s.nr_clients + 1;
})
add_client s failed_assertion = failed_assertion
add_client s null_seat = null_seat
add_client s freed_seat = freed_seat

unfoldable pub seat_new_client : Config → Option ℕ → State → Outcome State
unfolding client_init_wayland
seat_new_client cfg ready s =
    if s.attached
    then add_client s (client_init_wayland cfg ready s.seats)
    else add_client s (ok (none, s.seats))

unfoldable pub find_client : ℕ → List SeatClient → Option SeatClient
find_client id [] = none
find_client id (c ∷ cs) = if c.id == id then some c else find_client id cs

unfoldable pub without_client : ℕ → List SeatClient → List SeatClient
without_client id [] = []
without_client id (c ∷ cs) = if c.id == id then cs else c ∷ without_client id cs

abbrev pub remove_client : State → ℕ → List Seat → State
remove_client s id ss = record s {
  seats = ss;
  clients = without_client id s.clients;
  nr_clients = s.nr_clients - 1;
}

-- `client_destroy` of a client that is there, with neatvnc's removal of it from its list.
unfoldable pub client_destroy : SeatClient → State → Outcome State
client_destroy c s = elim c.seat [
  | none ↦ ok (remove_client s c.id s.seats)
  | some id ↦ elim (seat_find_by_id s.seats id) [
    | none ↦ freed_seat
    | some _ ↦ ok (remove_client s c.id (change id down s.seats))
  ]
]

abbrev pub bind : {A : Type 0} {B : Type 0} → Outcome A → (A → Outcome B) → Outcome B
bind (ok a) f = f a
bind failed_assertion f = failed_assertion
bind null_seat f = null_seat
bind freed_seat f = freed_seat

-- What `client_detach_wayland` and `wayland_destroy` leave.
unfoldable pub detach : State → State
detach s = record s {
  attached = false;
  seats = [];
  clients = map (λ (c : SeatClient). record c { seat = none }) s.clients;
}

-- The loop of `on_attach` over the clients; `ready` is about the transient seat of each.
unfoldable pub init_each :
    Config → (ℕ → Option ℕ) → List SeatClient → List Seat → Outcome (List SeatClient × List Seat)
unfolding client_init_wayland
init_each cfg ready [] ss = ok ([], ss)
init_each cfg ready (c ∷ cs) ss =
    let rest = init_each cfg ready cs in
    bind (client_init_wayland cfg (ready c.id) ss)
      (λ p. bind (rest p.1) (λ q. ok (record c { seat = p.0 } ∷ q.0, q.1)))

-- A seat with what the compositor has said of it by the end of the round trip of
-- `wayland_connect`.
pub record Announced : Type 0 where
  pub id : ℕ
  pub capabilities : ℕ
  pub name : Str

unfoldable pub announced_seat : Announced → Seat
announced_seat a = record {
  id = a.id;
  capabilities = a.capabilities;
  name = truncated 256 a.name;
  occupancy = 0;
}

abbrev pub is_found : Option Str → List Seat → Bool
is_found none ss = true
is_found (some name) ss = elim (seat_find_by_name ss name) [ none ↦ false | some id ↦ true ]

-- `on_attach` that connects to a compositor with these seats. Without the seat of the option `--seat`
-- it detaches again (`wayland_attach`).
unfoldable pub attach : Config → (ℕ → Option ℕ) → List Announced → State → Outcome State
unfolding init_each detach announced_seat
attach cfg ready seats s =
    if is_found cfg.selected_seat_name (map announced_seat seats)
    then bind (init_each cfg ready (detach s).clients (map announced_seat seats))
        (λ p. ok (record s { attached = true; seats = p.1; clients = p.0 }))
    else ok (detach s)

abbrev pub on_seat : ℕ → SeatClient → Bool
on_seat id c = elim c.seat [ none ↦ false | some i ↦ i == id ]

unfoldable pub without_seat : ℕ → List Seat → List Seat
without_seat id [] = []
without_seat id (s ∷ ss) = if s.id == id then ss else s ∷ without_seat id ss

-- What `nvnc_client_close` does is a parameter.
module _ (nvnc_client_close : SeatClient → State → Outcome State) where
  -- The loop of `on_seat_removed`. neatvnc keeps a client that is closed in its list until the loop
  -- has gone on from it, so that `nvnc_client_next` leads to the client that followed it before.
  unfoldable pub close_each : ℕ → List SeatClient → State → Outcome State
  close_each id [] s = ok s
  close_each id (c ∷ cs) s =
      let rest = close_each id cs in
      bind (if on_seat id c then nvnc_client_close c s else ok s) rest

  -- `registry_remove` of a seat.
  unfoldable pub seat_removed : ℕ → State → Outcome State
  unfolding close_each
  seat_removed id s = elim (seat_find_by_id s.seats id) [
    | none ↦ ok s
    | some _ ↦
        bind (close_each id s.clients s) (λ t. ok (record t { seats = without_seat id t.seats }))
  ]

  -- `on_disconnect_client`, given what `strtoul` makes of the text: the answer is whether there is
  -- such a client.
  unfoldable pub on_disconnect_client : Option ℕ → State → Bool × Outcome State
  on_disconnect_client none s = (false, ok s)
  on_disconnect_client (some id) s = elim (find_client id s.clients) [
    | none ↦ (false, ok s)
    | some c ↦ (true, nvnc_client_close c s)
  ]
