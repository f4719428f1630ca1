-- ===== src/Seats/Occupied.antt =====
-- How often each seat is occupied, over what src/main.c does with seats and clients.
use wayvnc.Prelude.{
  ℕ, suc, ◌+◌, ◌≡◌, refl, sym, ap, ◌∙◌, Bool, true, false, List, [], ◌∷◌, Option, none, some, ◌==◌,
  if◌then◌else◌, arith, subst,
}
use wayvnc.Text.{Str, str_eq}
use wayvnc.Seats.{
  Seat, SeatClient, Config, State, Outcome, ok, failed_assertion, null_seat, freed_seat,
  seat_find_by_name, seat_find_by_id, seat_find_unoccupied, seat_first, up, down, pick_seat, occupy,
  client_init_seat, client_init_wayland, seat_new_client, find_client, without_client, or_else,
  asserted, add_client, remove_client, uses_seat,
}
use wayvnc.Seats.Counts.{
  holders, has_seat, Inv, Counted-occupy, holders-without, vacate, Counted-vacate, has_seat-change,
  HaveSeats-map, without-Numbered, without-HaveSeats, length-without,
}

has-here :
    (b : Bool) (s : Seat) (ss : List Seat) (r : Option ℕ)
    → has_seat ss r ≡ true
    → has_seat (s ∷ ss) (if b then some s.id else r) ≡ true
has-here true s ss r h = ground arith
has-here false s ss none h = refl
has-here false s ss (some i) h = ground (arith, h)

find_by_name-has : (ss : List Seat) (name : Str) → has_seat ss (seat_find_by_name ss name) ≡ true
unfolding seat_find_by_name
find_by_name-has [] name = refl
find_by_name-has (s ∷ ss) name = has-here (str_eq s.name name) s ss _ (find_by_name-has ss name)

find_by_id-has : (ss : List Seat) (id : ℕ) → has_seat ss (seat_find_by_id ss id) ≡ true
unfolding seat_find_by_id
find_by_id-has [] id = refl
find_by_id-has (s ∷ ss) id = has-here (s.id == id) s ss _ (find_by_id-has ss id)

find_unoccupied-has : (ss : List Seat) → has_seat ss (seat_find_unoccupied ss) ≡ true
unfolding seat_find_unoccupied
find_unoccupied-has [] = refl
find_unoccupied-has (s ∷ ss) = has-here (s.occupancy == 0) s ss _ (find_unoccupied-has ss)

first-has : (ss : List Seat) → has_seat ss (seat_first ss) ≡ true
unfolding seat_first
first-has [] = refl
first-has (s ∷ ss) = has-here true s ss none refl

-- A seat that is picked is there, and no seat is used after it is freed.
abbrev Picks : List Seat → Outcome (Option ℕ) → Type 0
Picks ss (ok o) = has_seat ss o ≡ true
Picks ss freed_seat = ⊥
Picks ss _ = Unit {0}

asserted-Picks : (ss : List Seat) (o : Option ℕ) → has_seat ss o ≡ true → Picks ss (asserted o)
asserted-Picks ss none h = tt
asserted-Picks ss (some id) h = h

or_else-has :
    (ss : List Seat) (a b : Option ℕ)
    → has_seat ss a ≡ true
    → has_seat ss b ≡ true
    → has_seat ss (or_else a b) ≡ true
or_else-has ss none b h k = k
or_else-has ss (some i) b h k = h

pick_seat-Picks :
    (cfg : Config) (ready : Option ℕ) (ss : List Seat) → Picks ss (pick_seat cfg ready ss)
unfolding pick_seat
pick_seat-Picks cfg ready ss = go cfg.selected_seat_name cfg.use_transient_seat ready
  where
    go :
        (o : Option Str) (b : Bool) (ready : Option ℕ)
        → Picks ss (elim o [
          | some name ↦ asserted (seat_find_by_name ss name)
          | none ↦
              if b
              then elim ready [
                | none ↦ failed_assertion
                | some id ↦ asserted (seat_find_by_id ss id)
              ]
              else ok (or_else (seat_find_unoccupied ss) (seat_first ss))
        ])
    go (some name) b ready = asserted-Picks ss _ (find_by_name-has ss name)
    go none true none = tt
    go none true (some id) = asserted-Picks ss _ (find_by_id-has ss id)
    go none false ready = or_else-has ss _ _ (find_unoccupied-has ss) (first-has ss)

abbrev pub Sits : List Seat → Outcome (Option ℕ × List Seat) → Type 0
Sits ss (ok (o, ts)) = (has_seat ss o ≡ true) × (ts ≡ occupy o ss)
Sits ss freed_seat = ⊥
Sits ss _ = Unit {0}

client_init_seat-Sits :
    (cfg : Config) (ready : Option ℕ) (ss : List Seat) → Sits ss (client_init_seat cfg ready ss)
unfolding client_init_seat occupy
client_init_seat-Sits cfg ready ss =
    go cfg.disable_input (pick_seat cfg ready ss) (pick_seat-Picks cfg ready ss)
  where
    go :
        (b : Bool) (o : Outcome (Option ℕ))
        → Picks ss o
        → Sits ss (
            if b then ok (none, ss) else elim o [
              | ok seat ↦ ok (seat, occupy seat ss)
              | failed_assertion ↦ failed_assertion
              | null_seat ↦ null_seat
              | freed_seat ↦ freed_seat
            ])
    go true o h = (refl, refl)
    go false (ok seat) h = (h, refl)
    go false failed_assertion h = tt
    go false null_seat h = tt
    go false freed_seat h = h

pub client_init_wayland-Sits :
    (cfg : Config) (ready : Option ℕ) (ss : List Seat) → Sits ss (client_init_wayland cfg ready ss)
unfolding client_init_wayland
client_init_wayland-Sits cfg ready ss =
    go (uses_seat cfg) (client_init_seat cfg ready ss) (client_init_seat-Sits cfg ready ss)
  where
    go :
        (b : Bool) (o : Outcome (Option ℕ × List Seat))
        → Sits ss o
        → Sits ss (elim o [
          | ok (some id, ss') ↦ ok (some id, ss')
          | ok (none, ss') ↦ if b then null_seat else ok (none, ss')
          | failed_assertion ↦ failed_assertion
          | null_seat ↦ null_seat
          | freed_seat ↦ freed_seat
        ])
    go b (ok (some id, ss')) h = h
    go true (ok (none, ss')) h = tt
    go false (ok (none, ss')) h = h
    go b failed_assertion h = tt
    go b null_seat h = tt
    go b freed_seat h = h

-- No seat is used after it is freed, and what is left is in order.
abbrev pub IsFine : Outcome State → Type 0
IsFine (ok s) = Inv s
IsFine freed_seat = ⊥
IsFine _ = Unit {0}

pub has_seat-occupy :
    (o : Option ℕ) (ss : List Seat) (p : Option ℕ) → has_seat (occupy o ss) p ≡ has_seat ss p
unfolding occupy
has_seat-occupy none ss p = refl
has_seat-occupy (some id) ss p = has_seat-change id up ss p (λ s. refl)

add_client-IsFine :
    (s : State) (o : Outcome (Option ℕ × List Seat))
    → Inv s
    → Sits s.seats o
    → IsFine (add_client s o)
add_client-IsFine s (ok (o, ts)) inv h =
    subst
      (λ ss. Inv (record s {
        seats = ss;
        clients = record { id = s.next_client_id; seat = o } ∷ s.clients;
        next_client_id = s.next_client_id + 1;
        nr_clients = s.nr_clients + 1;
      }))
      (sym h.1)
      (record {
        counted = Counted-occupy s.next_client_id o s.clients s.seats inv.counted;
        have = (
          has_seat-occupy o s.seats o ∙ h.0,
          HaveSeats-map s.clients s.seats (occupy o s.seats) (has_seat-occupy o s.seats) inv.have,
        );
        number = omega (arith, inv.number);
        numbered = (omega arith, inv.numbered);
      })
add_client-IsFine s failed_assertion inv h = tt
add_client-IsFine s null_seat inv h = tt
add_client-IsFine s freed_seat inv h = h

pub seat_new_client-IsFine :
    (cfg : Config) (ready : Option ℕ) (s : State) → Inv s → IsFine (seat_new_client cfg ready s)
unfolding seat_new_client occupy
seat_new_client-IsFine cfg ready s inv = go s.attached
  where
    go :
        (b : Bool)
        → IsFine (
            if b
            then add_client s (client_init_wayland cfg ready s.seats)
            else add_client s (ok (none, s.seats)))
    go true = add_client-IsFine s _ inv (client_init_wayland-Sits cfg ready s.seats)
    go false = add_client-IsFine s (ok (none, s.seats)) inv (refl, refl)

-- A client that leaves: the counts after it.
pub vacated :
    (c : SeatClient) (o : Option ℕ) (s : State)
    → c.seat ≡ o
    → find_client c.id s.clients ≡ some c
    → Inv s
    → Inv (remove_client s c.id (vacate o s.seats))
vacated c o s e f inv = record {
  counted =
      Counted-vacate o s.clients (without_client c.id s.clients) s.seats
        (λ id.
          holders-without c.id s.clients c id f
          ∙ ap
              (λ p.
                if elim p [ none ↦ false | some i ↦ i == id ]
                then suc (holders (without_client c.id s.clients) id)
                else holders (without_client c.id s.clients) id)
              e)
        inv.counted;
  have =
      HaveSeats-map (without_client c.id s.clients) s.seats (vacate o s.seats) (kept o)
        (without-HaveSeats c.id s.seats s.clients inv.have);
  number = omega (arith, inv.number, length-without c.id s.clients c f);
  numbered = without-Numbered c.id s.next_client_id s.clients inv.numbered;
}
  where
    kept : (o p : Option ℕ) → has_seat (vacate o s.seats) p ≡ has_seat s.seats p
    kept none p = refl
    kept (some id) p = has_seat-change id down s.seats p (λ s. refl)
