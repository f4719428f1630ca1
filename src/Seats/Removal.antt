-- ===== src/Seats/Removal.antt =====
-- Clients and seats of src/main.c that go away.
use wayvnc.Prelude.{
  ℕ, suc, ◌≢◌, ◌<◌, ◌+◌, ◌≤◌, ◌≡◌, refl, sym, ap, ◌∙◌, Bool, true, false, List, [], ◌∷◌, Option,
  none, some, ◌==◌, if◌then◌else◌, arith, subst,
}
use wayvnc.Seats.{
  Seat, SeatClient, State, Outcome, ok, failed_assertion, null_seat, freed_seat, seat_find_by_id,
  find_client, without_client, client_destroy, on_seat, without_seat, close_each, seat_removed,
  on_disconnect_client, bind,
}
use wayvnc.Seats.Counts.{
  holders, Counted, has_seat, HaveSeats, Inv, holders-without, Numbered, find-without,
}
use wayvnc.Seats.Occupied.{IsFine}
use wayvnc.Seats.Departure.{IsGone, client_destroy-IsGone, client_destroy-IsFine}

-- Clients that are found by their numbers.
abbrev AreFound : List SeatClient → List SeatClient → Type 0
AreFound [] cl = Unit {0}
AreFound (c ∷ cs) cl = (find_client c.id cl ≡ some c) × AreFound cs cl

without-AreFound :
    (n m : ℕ) (cs cl : List SeatClient)
    → Numbered m cs
    → m ≤ n
    → AreFound cs cl
    → AreFound cs (without_client n cl)
without-AreFound n m [] cl k h f = tt
without-AreFound n m (c ∷ cs) cl k h f = (
  find-without c.id n cl (λ e. omega (arith, e, h, k.0)) ∙ f.0,
  without-AreFound n c.id cs cl k.1 (omega (arith, h, k.0)) f.1,
)

cons-AreFound :
    (c : SeatClient) (m : ℕ) (cs cl : List SeatClient)
    → Numbered m cs
    → m ≤ c.id
    → AreFound cs cl
    → AreFound cs (c ∷ cl)
unfolding find_client
cons-AreFound c m [] cl k h f = tt
cons-AreFound c m (d ∷ cs) cl k h f = (
  skip (d.id) (omega (arith, h, k.0)) ∙ f.0,
  cons-AreFound c d.id cs cl k.1 (omega (arith, h, k.0)) f.1,
)
  where
    skip : (n : ℕ) → n < c.id → (if c.id == n then some c else find_client n cl) ≡ find_client n cl
    skip n l = ground (arith, l)

all-AreFound : (m : ℕ) (cs : List SeatClient) → Numbered m cs → AreFound cs cs
unfolding find_client
all-AreFound m [] k = tt
all-AreFound m (c ∷ cs) k =
    (ground arith, cons-AreFound c c.id cs cs k.1 (omega arith) (all-AreFound c.id cs k.1))

abbrev IsClosed : ℕ → List SeatClient → State → Outcome State → Type 0
IsClosed id cs s (ok t) =
    Inv t
    × (holders t.clients id + holders cs id ≡ holders s.clients id)
    × ((o : Option ℕ) → has_seat t.seats o ≡ has_seat s.seats o)
IsClosed id cs s _ = ⊥

without_seat-Counted :
    (id : ℕ) (cs : List SeatClient) (ss : List Seat)
    → Counted cs ss
    → Counted cs (without_seat id ss)
unfolding without_seat
without_seat-Counted id cs [] h = tt
without_seat-Counted id cs (s ∷ ss) h = split (s.id == id) (without_seat-Counted id cs ss h.1)
  where
    split :
        (b : Bool)
        → Counted cs (without_seat id ss)
        → Counted cs (if b then ss else s ∷ without_seat id ss)
    split true ih = h.1
    split false ih = (h.0, ih)

has-without_seat :
    (id i : ℕ) (ss : List Seat)
    → i ≢ id
    → has_seat ss (some i) ≡ true
    → has_seat (without_seat id ss) (some i) ≡ true
unfolding without_seat
has-without_seat id i [] n h = h
has-without_seat id i (s ∷ ss) n h = split (s.id == id) refl (has-without_seat id i ss n)
  where
    split :
        (b : Bool)
        → (s.id == id) ≡ b
        → (has_seat ss (some i) ≡ true → has_seat (without_seat id ss) (some i) ≡ true)
        → has_seat (if b then ss else s ∷ without_seat id ss) (some i) ≡ true
    split true e ih = ground (arith, e, n, h)
    split false e ih = ground (arith, ih, h)

without_seat-HaveSeats :
    (id : ℕ) (ss : List Seat) (cs : List SeatClient)
    → holders cs id ≡ 0
    → HaveSeats ss cs
    → HaveSeats (without_seat id ss) cs
without_seat-HaveSeats id ss [] z h = tt
without_seat-HaveSeats id ss (c ∷ cs) z h =
    let (elsewhere, none_later) = split c.seat z h.0 in
    (elsewhere, without_seat-HaveSeats id ss cs none_later h.1)
  where
    split :
        (o : Option ℕ)
        → (if elim o [ none ↦ false | some i ↦ i == id ]
            then suc (holders cs id)
            else holders cs id)
          ≡ 0
        → has_seat ss o ≡ true
        → (has_seat (without_seat id ss) o ≡ true) × (holders cs id ≡ 0)
    split none z k = (refl, z)
    split (some i) z k = (has-without_seat id i ss (λ e. ground (arith, z, e)) k, ground (arith, z))

-- `nvnc_client_close` runs the clean-up function of the client at once, as `on_seat_removed`
-- relies on before the seat is freed.
module _ (close : SeatClient → State → Outcome State)
    (closes : (c : SeatClient) (s : State) → close c s ≡ client_destroy c s) where
  one-IsClosed :
      (id : ℕ) (c : SeatClient) (cs : List SeatClient) (s : State) (b : Bool)
      (rest : State → Outcome State)
      → on_seat id c ≡ b
      → Inv s
      → Numbered (suc c.id) (c ∷ cs)
      → AreFound (c ∷ cs) s.clients
      → ((t : State) → Inv t → AreFound cs t.clients → IsClosed id cs t (rest t))
      → IsClosed id (c ∷ cs) s (bind (if b then close c s else ok s) rest)
  one-IsClosed id c cs s false rest e inv k f ih = carry (rest s) (ih s inv f.1)
    where
      carry : (o : Outcome State) → IsClosed id cs s o → IsClosed id (c ∷ cs) s o
      carry (ok t) h = (
        h.0,
        ap (λ b. holders t.clients id + (if b then suc (holders cs id) else holders cs id)) e ∙ h.1,
        h.2,
      )
      carry failed_assertion h = h
      carry null_seat h = h
      carry freed_seat h = h
  one-IsClosed id c cs s true rest e inv k f ih =
      subst (λ o. IsClosed id (c ∷ cs) s (bind o rest)) (sym (closes c s))
        (gone (client_destroy c s) (client_destroy-IsGone c s inv f.0))
    where
      sum : holders s.clients id ≡ suc (holders (without_client c.id s.clients) id)
      sum =
          holders-without c.id s.clients c id f.0
          ∙ ap
              (λ b.
                if b
                then suc (holders (without_client c.id s.clients) id)
                else holders (without_client c.id s.clients) id)
              e

      carry :
          (u : State) (o : Outcome State)
          → u.clients ≡ without_client c.id s.clients
          → ((o : Option ℕ) → has_seat u.seats o ≡ has_seat s.seats o)
          → IsClosed id cs u o
          → IsClosed id (c ∷ cs) s o
      carry u (ok t) e' k h = (
        h.0,
        ap (λ b. holders t.clients id + (if b then suc (holders cs id) else holders cs id)) e
            ∙ omega (arith, h.1, sum, ap (λ cl. holders cl id) e'),
        λ o. h.2 o ∙ k o,
      )
      carry u failed_assertion e' k h = h
      carry u null_seat e' k h = h
      carry u freed_seat e' k h = h

      gone : (o : Outcome State) → IsGone c s o → IsClosed id (c ∷ cs) s (bind o rest)
      gone (ok u) g = carry u (rest u) g.1 g.2 (
          ih u g.0 (
            subst (AreFound cs) (sym g.1)
              (without-AreFound c.id c.id cs s.clients k.1 (omega arith) f.1)))
      gone failed_assertion g = elim g [ ]
      gone null_seat g = elim g [ ]
      gone freed_seat g = elim g [ ]

  close_each-IsClosed :
      (id m : ℕ) (cs : List SeatClient) (s : State)
      → Inv s
      → Numbered m cs
      → AreFound cs s.clients
      → IsClosed id cs s (close_each close id cs s)
  unfolding close_each
  close_each-IsClosed id m [] s inv k f = (inv, omega arith, λ o. refl)
  close_each-IsClosed id m (c ∷ cs) s inv k f =
      one-IsClosed id c cs s (on_seat id c) (close_each close id cs) refl inv (omega arith, k.1) f
        (λ t i g. close_each-IsClosed id c.id cs t i k.1 g)

  -- Closing leaves the seat without a client, and the seat can be freed.
  pub seat_removed-IsFine : (id : ℕ) (s : State) → Inv s → IsFine (seat_removed close id s)
  unfolding seat_removed
  seat_removed-IsFine id s inv = go (seat_find_by_id s.seats id)
    where
      freed :
          (o : Outcome State)
          → IsClosed id s.clients s o
          → IsFine (bind o (λ t. ok (record t { seats = without_seat id t.seats })))
      freed (ok t) h = record {
        counted = without_seat-Counted id t.clients t.seats h.0.counted;
        have = without_seat-HaveSeats id t.seats t.clients (omega (arith, h.1)) h.0.have;
        number = h.0.number;
        numbered = h.0.numbered;
      }
      freed failed_assertion h = tt
      freed null_seat h = tt
      freed freed_seat h = h

      go :
          (o : Option ℕ)
          → IsFine (elim o [
            | none ↦ ok s
            | some _ ↦
                bind
                  (close_each close id s.clients s)
                  (λ t. ok (record t { seats = without_seat id t.seats }))
          ])
      go none = inv
      go (some i) = freed (close_each close id s.clients s) (
          close_each-IsClosed id s.next_client_id s.clients s inv inv.numbered
            (all-AreFound s.next_client_id s.clients inv.numbered))

  pub on_disconnect_client-IsFine :
      (id : Option ℕ) (s : State) → Inv s → IsFine (on_disconnect_client close id s).1
  unfolding on_disconnect_client
  on_disconnect_client-IsFine none s inv = inv
  on_disconnect_client-IsFine (some id) s inv = go (find_client id s.clients) refl
    where
      go :
          (o : Option SeatClient)
          → find_client id s.clients ≡ o
          → IsFine (
              let p : Bool × Outcome State = elim o [
                | none ↦ (false, ok s)
                | some c ↦ (true, close c s)
              ] in
              p.1)
      go none e = inv
      go (some c) e = subst IsFine (sym (closes c s)) (client_destroy-IsFine id c s inv e)
