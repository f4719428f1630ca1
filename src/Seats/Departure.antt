-- ===== src/Seats/Departure.antt =====
-- One client of src/main.c that goes away.
use wayvnc.Prelude.{
  ℕ, ◌≢◌, ◌≡◌, refl, sym, ap, ◌∙◌, Bool, true, false, List, [], ◌∷◌, Option, none, some, ◌==◌,
  if◌then◌else◌, arith, Bool-cases, inl, inr,
}
use mathlib.Core.Option.{some-injective}
use wayvnc.Seats.{
  Seat, SeatClient, State, Outcome, ok, failed_assertion, null_seat, freed_seat, change,
  seat_find_by_id, down, find_client, without_client, client_destroy, remove_client,
}
use wayvnc.Seats.Counts.{has_seat, HaveSeats, Inv, has_seat-change}
use wayvnc.Seats.Occupied.{IsFine, vacated}

found-has :
    (n : ℕ) (cs : List SeatClient) (c : SeatClient) (ss : List Seat)
    → find_client n cs ≡ some c
    → HaveSeats ss cs
    → has_seat ss c.seat ≡ true
unfolding find_client
found-has n [] c ss e h = cc
found-has n (d ∷ cs) c ss e h = split (d.id == n) e (found-has n cs c ss)
  where
    split :
        (b : Bool)
        → (if b then some d else find_client n cs) ≡ some c
        → (find_client n cs ≡ some c → HaveSeats ss cs → has_seat ss c.seat ≡ true)
        → has_seat ss c.seat ≡ true
    split true e ih = ap (λ (x : SeatClient). has_seat ss x.seat) (sym (some-injective d c e)) ∙ h.0
    split false e ih = ih e h.1

find_by_id-found :
    (ss : List Seat) (id : ℕ) → has_seat ss (some id) ≡ true → seat_find_by_id ss id ≢ none
unfolding seat_find_by_id
find_by_id-found [] id h e = cc
find_by_id-found (s ∷ ss) id h e = split (s.id == id) h e (find_by_id-found ss id)
  where
    split :
        (b : Bool)
        → (if b then true else has_seat ss (some id)) ≡ true
        → (if b then some s.id else seat_find_by_id ss id) ≡ none
        → (has_seat ss (some id) ≡ true → seat_find_by_id ss id ≢ none)
        → ⊥
    split true h e ih = cc
    split false h e ih = ih h e

-- The client has gone from the list, and all is in order.
abbrev pub IsGone : SeatClient → State → Outcome State → Type 0
IsGone c s (ok t) =
    Inv t
    × (t.clients ≡ without_client c.id s.clients)
    × ((o : Option ℕ) → has_seat t.seats o ≡ has_seat s.seats o)
IsGone c s _ = ⊥

-- A client of the list gives its seat back; the seat is there.
pub client_destroy-IsGone :
    (c : SeatClient) (s : State)
    → Inv s
    → find_client c.id s.clients ≡ some c
    → IsGone c s (client_destroy c s)
unfolding client_destroy
client_destroy-IsGone c s inv f = go c.seat refl
  where
    seats_ok :
        (id : ℕ) (o : Option ℕ)
        → o ≢ none
        → c.seat ≡ some id
        → IsGone c s (elim o [
          | none ↦ freed_seat
          | some _ ↦ ok (remove_client s c.id (change id down s.seats))
        ])
    seats_ok id none n e = absurd (n refl)
    seats_ok id (some i) n e =
        (vacated c (some id) s e f inv, refl, λ o. has_seat-change id down s.seats o (λ s. refl))

    go :
        (o : Option ℕ)
        → c.seat ≡ o
        → IsGone c s (elim o [
          | none ↦ ok (remove_client s c.id s.seats)
          | some id ↦ elim (seat_find_by_id s.seats id) [
            | none ↦ freed_seat
            | some _ ↦ ok (remove_client s c.id (change id down s.seats))
          ]
        ])
    go none e = (vacated c none s e f inv, refl, λ o. refl)
    go (some id) e =
        seats_ok id (seat_find_by_id s.seats id)
          (find_by_id-found s.seats id
            (ap (has_seat s.seats) (sym e) ∙ found-has c.id s.clients c s.seats f inv.have))
          e

gone-IsFine : (c : SeatClient) (s : State) (o : Outcome State) → IsGone c s o → IsFine o
gone-IsFine c s (ok t) g = g.0
gone-IsFine c s failed_assertion g = elim g [ ]
gone-IsFine c s null_seat g = elim g [ ]
gone-IsFine c s freed_seat g = elim g [ ]

found_id : (n : ℕ) (cs : List SeatClient) (c : SeatClient) → find_client n cs ≡ some c → c.id ≡ n
unfolding find_client
found_id n [] c e = cc
found_id n (d ∷ cs) c e = elim (Bool-cases (d.id == n)) [
  | inl h ↦ ground (arith, e, h)
  | inr h ↦ found_id n cs c (ground (arith, e, h))
]

-- The client with this number, if there is one.
pub client_destroy-IsFine :
    (id : ℕ) (c : SeatClient) (s : State)
    → Inv s
    → find_client id s.clients ≡ some c
    → IsFine (client_destroy c s)
client_destroy-IsFine id c s inv e = gone-IsFine c s _ (
    client_destroy-IsGone c s inv
      (ap (λ n. find_client n s.clients) (found_id id s.clients c e) ∙ e))
