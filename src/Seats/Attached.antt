-- ===== src/Seats/Attached.antt =====
-- The clients of src/main.c after attaching to a compositor.
use wayvnc.Prelude.{
  ◌++◌, append-nil, length-map, ℕ, suc, ◌<◌, ◌%◌, ◌^◌, ◌≡◌, refl, sym, ap, ◌∙◌, Bool, true, false,
  List, [], ◌∷◌, Option, none, if◌then◌else◌, length, map, subst,
}
use wayvnc.Seats.{
  Seat, SeatClient, Config, State, Outcome, ok, failed_assertion, null_seat, freed_seat, Announced,
  announced_seat, is_found, occupy, client_init_wayland, detach, init_each, attach, on_seat, bind,
}
use wayvnc.Seats.Counts.{holders, Counted, has_seat, HaveSeats, Inv, Counted-occupy, Numbered}
use wayvnc.Seats.Occupied.{IsFine, Sits, client_init_wayland-Sits, has_seat-occupy}

ext-Counted :
    (cs ds : List SeatClient) (ss : List Seat)
    → ((id : ℕ) → holders cs id ≡ holders ds id)
    → Counted cs ss
    → Counted ds ss
ext-Counted cs ds [] e h = tt
ext-Counted cs ds (s ∷ ss) e h = (h.0 ∙ ap (λ n. n % 2 ^ 32) (e s.id), ext-Counted cs ds ss e h.1)

swap :
    (a b : Bool) (n : ℕ)
    → (if a then suc (if b then suc n else n) else (if b then suc n else n))
      ≡ (if b then suc (if a then suc n else n) else (if a then suc n else n))
swap true true n = refl
swap true false n = refl
swap false true n = refl
swap false false n = refl

-- The order of the clients does not count.
move :
    (c : SeatClient) (cs ds : List SeatClient) (id : ℕ)
    → holders (cs ++ c ∷ ds) id ≡ holders (c ∷ (cs ++ ds)) id
move c [] ds id = refl
move c (d ∷ cs) ds id =
    ap (λ n. if on_seat id d then suc n else n) (move c cs ds id)
    ∙ swap (on_seat id d) (on_seat id c) (holders (cs ++ ds) id)

-- What the loop of `on_attach` leaves, with the clients that it has passed.
abbrev Inits :
    ℕ
    → List SeatClient
    → List SeatClient
    → List Seat
    → Outcome (List SeatClient × List Seat)
    → Type 0
Inits m done cs ss (ok (ds, ts)) =
    Counted (ds ++ done) ts
    × HaveSeats ts ds
    × (length ds ≡ length cs)
    × Numbered m ds
    × ((o : Option ℕ) → has_seat ts o ≡ has_seat ss o)
Inits m done cs ss freed_seat = ⊥
Inits m done cs ss _ = Unit {0}

module _ (cfg : Config) (ready : ℕ → Option ℕ) (m : ℕ) (done : List SeatClient) (c : SeatClient)
    (cs : List SeatClient) (ss : List Seat) where
  seated-Inits :
      (o : Option ℕ) (ts : List Seat) (q : Outcome (List SeatClient × List Seat))
      → c.id < m
      → has_seat ss o ≡ true
      → ts ≡ occupy o ss
      → Inits c.id (record c { seat = o } ∷ done) cs ts q
      → Inits m done (c ∷ cs) ss (bind q (λ q. ok (record c { seat = o } ∷ q.0, q.1)))
  seated-Inits o ts (ok (ds, us)) k h e i = (
    ext-Counted (ds ++ record c { seat = o } ∷ done) (record c { seat = o } ∷ (ds ++ done)) us
        (move (record c { seat = o }) ds done) i.0,
    (same o ∙ h, i.1),
    ap suc i.2,
    (k, i.3),
    same,
  )
    where
      same : (p : Option ℕ) → has_seat us p ≡ has_seat ss p
      same p = i.4 p ∙ ap (λ t. has_seat t p) e ∙ has_seat-occupy o ss p
  seated-Inits o ts failed_assertion k h e i = tt
  seated-Inits o ts null_seat k h e i = tt
  seated-Inits o ts freed_seat k h e i = i

  first-Inits :
      (r : Outcome (Option ℕ × List Seat))
      → Sits ss r
      → c.id < m
      → Counted done ss
      → ((o : Option ℕ) (ts : List Seat)
          → Counted (record c { seat = o } ∷ done) ts
          → Inits c.id (record c { seat = o } ∷ done) cs ts (init_each cfg ready cs ts))
      → Inits m done (c ∷ cs) ss (
          bind r
            (λ p. bind (init_each cfg ready cs p.1) (λ q. ok (record c { seat = p.0 } ∷ q.0, q.1))))
  first-Inits (ok (o, ts)) h k n ih = seated-Inits o ts (init_each cfg ready cs ts) k h.0 h.1 (
      ih o ts (
        subst (Counted (record c { seat = o } ∷ done)) (sym h.1) (Counted-occupy c.id o done ss n)))
  first-Inits failed_assertion h k n ih = tt
  first-Inits null_seat h k n ih = tt
  first-Inits freed_seat h k n ih = h

init_each-Inits :
    (cfg : Config) (ready : ℕ → Option ℕ) (m : ℕ) (done cs : List SeatClient) (ss : List Seat)
    → Numbered m cs
    → Counted done ss
    → Inits m done cs ss (init_each cfg ready cs ss)
unfolding init_each
init_each-Inits cfg ready m done [] ss k n = (n, tt, refl, tt, λ o. refl)
init_each-Inits cfg ready m done (c ∷ cs) ss k n =
    first-Inits cfg ready m done c cs ss (client_init_wayland cfg (ready c.id) ss)
      (client_init_wayland-Sits cfg (ready c.id) ss) k.0 n
      (λ o ts n. init_each-Inits cfg ready c.id (record c { seat = o } ∷ done) cs ts k.1 n)

new-Counted : (seats : List Announced) → Counted [] (map announced_seat seats)
unfolding announced_seat
new-Counted [] = tt
new-Counted (a ∷ seats) = (refl, new-Counted seats)

detached-Numbered :
    (m : ℕ) (cs : List SeatClient)
    → Numbered m cs
    → Numbered m (map (λ (c : SeatClient). record c { seat = none }) cs)
detached-Numbered m [] k = tt
detached-Numbered m (c ∷ cs) k = (k.0, detached-Numbered c.id cs k.1)

detached-HaveSeats :
    (cs : List SeatClient) → HaveSeats [] (map (λ (c : SeatClient). record c { seat = none }) cs)
detached-HaveSeats [] = tt
detached-HaveSeats (c ∷ cs) = (refl, detached-HaveSeats cs)

pub detach-Inv : (s : State) → Inv s → Inv (detach s)
unfolding detach
detach-Inv s inv = record {
  counted = tt;
  have = detached-HaveSeats s.clients;
  number = inv.number ∙ sym (length-map s.clients (λ (c : SeatClient). record c { seat = none }));
  numbered = detached-Numbered s.next_client_id s.clients inv.numbered;
}

pub attach-IsFine :
    (cfg : Config) (ready : ℕ → Option ℕ) (seats : List Announced) (s : State)
    → Inv s
    → IsFine (attach cfg ready seats s)
unfolding attach detach
attach-IsFine cfg ready seats s inv =
    found (is_found cfg.selected_seat_name (map announced_seat seats))
  where
    go :
        (o : Outcome (List SeatClient × List Seat))
        → Inits s.next_client_id [] (detach s).clients (map announced_seat seats) o
        → IsFine (bind o (λ p. ok (record s { attached = true; seats = p.1; clients = p.0 })))
    go (ok (ds, ts)) i = record {
      counted = subst (λ cs. Counted cs ts) (append-nil ds) i.0;
      have = i.1;
      number =
          inv.number
          ∙ sym (length-map s.clients (λ (c : SeatClient). record c { seat = none }))
          ∙ sym i.2;
      numbered = i.3;
    }
    go failed_assertion i = tt
    go null_seat i = tt
    go freed_seat i = i

    initialised : IsFine (
        bind
          (init_each cfg ready (detach s).clients (map announced_seat seats))
          (λ p. ok (record s { attached = true; seats = p.1; clients = p.0 })))
    initialised = go (init_each cfg ready (detach s).clients (map announced_seat seats)) (
        init_each-Inits cfg ready s.next_client_id [] (detach s).clients (map announced_seat seats)
          (detached-Numbered s.next_client_id s.clients inv.numbered) (new-Counted seats))

    found :
        (b : Bool)
        → IsFine (
            if b
            then bind
                (init_each cfg ready (detach s).clients (map announced_seat seats))
                (λ p. ok (record s { attached = true; seats = p.1; clients = p.0 }))
            else ok (detach s))
    found true = initialised
    found false = detach-Inv s inv
