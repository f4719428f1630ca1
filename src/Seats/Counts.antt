-- ===== src/Seats/Counts.antt =====
-- What taking and leaving a seat of src/seat.c changes in the counts.
use wayvnc.Prelude.{
  ℕ, suc, ◌%◌, ◌^◌, ◌≤◌, ◌<◌, ◌≢◌, ◌≡◌, refl, ap, ap₂, ◌∙◌, Bool, true, false, List, [], ◌∷◌,
  Option, none, some, ◌==◌, if◌then◌else◌, length, arith,
}
use mathlib.Core.Option.{some-injective}
use wayvnc.Seats.{
  Seat, SeatClient, State, change, up, down, occupy, find_client, without_client, on_seat,
}

-- How many clients have the seat.
abbrev pub holders : List SeatClient → ℕ → ℕ
holders [] id = 0
holders (c ∷ cs) id = if on_seat id c then suc (holders cs id) else holders cs id

-- Each seat is occupied as often as clients have it, as far as 32 bits count.
abbrev pub Counted : List SeatClient → List Seat → Type 0
Counted cs [] = Unit {0}
Counted cs (s ∷ ss) = (s.occupancy ≡ holders cs s.id % 2 ^ 32) × Counted cs ss

abbrev pub has_seat : List Seat → Option ℕ → Bool
has_seat ss none = true
has_seat [] (some id) = false
has_seat (s ∷ ss) (some id) = if s.id == id then true else has_seat ss (some id)

-- No client has a seat that is gone.
abbrev pub HaveSeats : List Seat → List SeatClient → Type 0
HaveSeats ss [] = Unit {0}
HaveSeats ss (c ∷ cs) = (has_seat ss c.seat ≡ true) × HaveSeats ss cs

-- The numbers of the clients, the newest first.
abbrev pub Numbered : ℕ → List SeatClient → Type 0
Numbered n [] = Unit {0}
Numbered n (c ∷ cs) = (c.id < n) × Numbered c.id cs

pub record Inv (s : State) : Type 0 where
  pub counted : Counted s.clients s.seats
  pub have : HaveSeats s.seats s.clients
  pub number : s.nr_clients ≡ length s.clients
  pub numbered : Numbered s.next_client_id s.clients

-- One seat and its clients.
abbrev Exact : List SeatClient → Seat → Type 0
Exact cs s = s.occupancy ≡ holders cs s.id % 2 ^ 32

up-Exact :
    (n id : ℕ) (cs : List SeatClient) (s : Seat) (b : Bool)
    → (s.id == id) ≡ b
    → Exact cs s
    → Exact (record { id = n; seat = some id } ∷ cs) (if b then up s else s)
up-Exact n id cs s true e h = ground (arith, e, h)
up-Exact n id cs s false e h = ground (arith, e, h)

pub Counted-occupy :
    (n : ℕ) (o : Option ℕ) (cs : List SeatClient) (ss : List Seat)
    → Counted cs ss
    → Counted (record { id = n; seat = o } ∷ cs) (occupy o ss)
unfolding occupy change
Counted-occupy n none cs [] h = tt
Counted-occupy n none cs (s ∷ ss) h = (h.0, Counted-occupy n none cs ss h.1)
Counted-occupy n (some id) cs [] h = tt
Counted-occupy n (some id) cs (s ∷ ss) h =
    (up-Exact n id cs s (s.id == id) refl h.0, Counted-occupy n (some id) cs ss h.1)

abbrev pub with_it : ℕ → SeatClient → ℕ → ℕ
with_it id c n = if on_seat id c then suc n else n

later :
    (a b : Bool) (h w : ℕ)
    → h ≡ (if b then suc w else w)
    → (if a then suc h else h)
      ≡ (if b then suc (if a then suc w else w) else (if a then suc w else w))
later true true h w e = ap suc e
later true false h w e = ap suc e
later false true h w e = e
later false false h w e = e

-- A client that is found, and the others.
pub holders-without :
    (n : ℕ) (cs : List SeatClient) (c : SeatClient) (id : ℕ)
    → find_client n cs ≡ some c
    → holders cs id ≡ with_it id c (holders (without_client n cs) id)
unfolding find_client without_client
holders-without n [] c id e = cc
holders-without n (d ∷ cs) c id e = split (d.id == n) e (holders-without n cs c id)
  where
    split :
        (b : Bool)
        → (if b then some d else find_client n cs) ≡ some c
        → (find_client n cs ≡ some c
            → holders cs id ≡ with_it id c (holders (without_client n cs) id))
        → holders (d ∷ cs) id
          ≡ with_it id c (holders (if b then cs else d ∷ without_client n cs) id)
    split true e ih = ap (λ x. with_it id x (holders cs id)) (some-injective d c e)
    split false e ih =
        later (on_seat id d) (on_seat id c) (holders cs id) (holders (without_client n cs) id)
          (ih e)

down-Exact :
    (cs ds : List SeatClient) (s : Seat) (id : ℕ) (b : Bool)
    → (s.id == id) ≡ b
    → holders cs s.id ≡ (if id == s.id then suc (holders ds s.id) else holders ds s.id)
    → Exact cs s
    → Exact ds (if b then down s else s)
down-Exact cs ds s id true e w h = ground (arith, e, w, h)
down-Exact cs ds s id false e w h = ground (arith, e, w, h)

-- The seats after a client with this seat has gone.
abbrev pub vacate : Option ℕ → List Seat → List Seat
vacate none ss = ss
vacate (some id) ss = change id down ss

pub Counted-vacate :
    (o : Option ℕ) (cs ds : List SeatClient) (ss : List Seat)
    → ((id : ℕ)
        → holders cs id ≡ (
            if elim o [ none ↦ false | some i ↦ i == id ]
            then suc (holders ds id)
            else holders ds id))
    → Counted cs ss
    → Counted ds (vacate o ss)
unfolding change
Counted-vacate none cs ds [] w h = tt
Counted-vacate none cs ds (s ∷ ss) w h =
    (h.0 ∙ ap (λ k. k % 2 ^ 32) (w s.id), Counted-vacate none cs ds ss w h.1)
Counted-vacate (some id) cs ds [] w h = tt
Counted-vacate (some id) cs ds (s ∷ ss) w h =
    (down-Exact cs ds s id (s.id == id) refl (w s.id) h.0, Counted-vacate (some id) cs ds ss w h.1)

-- Changes of seats that keep their names.
pub has_seat-change :
    (id : ℕ) (f : Seat → Seat) (ss : List Seat) (o : Option ℕ)
    → ((s : Seat) → (f s).id ≡ s.id)
    → has_seat (change id f ss) o ≡ has_seat ss o
unfolding change
has_seat-change id f ss none k = refl
has_seat-change id f [] (some i) k = refl
has_seat-change id f (s ∷ ss) (some i) k = same (s.id == id) (has_seat-change id f ss (some i) k)
  where
    same :
        (b : Bool)
        → has_seat (change id f ss) (some i) ≡ has_seat ss (some i)
        → (if (if b then f s else s).id == i then true else has_seat (change id f ss) (some i))
          ≡ (if s.id == i then true else has_seat ss (some i))
    same true e = ap₂ (λ x h. if x == i then true else h) (k s) e
    same false e = ap (λ h. if s.id == i then true else h) e

pub HaveSeats-map :
    (cs : List SeatClient) (ss ts : List Seat)
    → ((o : Option ℕ) → has_seat ts o ≡ has_seat ss o)
    → HaveSeats ss cs
    → HaveSeats ts cs
HaveSeats-map [] ss ts k h = tt
HaveSeats-map (c ∷ cs) ss ts k h = (k c.seat ∙ h.0, HaveSeats-map cs ss ts k h.1)

pub find-without :
    (m n : ℕ) (cs : List SeatClient)
    → m ≢ n
    → find_client m (without_client n cs) ≡ find_client m cs
unfolding find_client without_client
find-without m n [] h = refl
find-without m n (c ∷ cs) h = split (c.id == n) refl (find-without m n cs h)
  where
    split :
        (b : Bool)
        → (c.id == n) ≡ b
        → find_client m (without_client n cs) ≡ find_client m cs
        → find_client m (if b then cs else c ∷ without_client n cs)
          ≡ (if c.id == m then some c else find_client m cs)
    split true e ih = ground (arith, e, h)
    split false e ih = ap (λ r. if c.id == m then some c else r) ih

le-Numbered : (n m : ℕ) (cs : List SeatClient) → n ≤ m → Numbered n cs → Numbered m cs
le-Numbered n m [] h k = tt
le-Numbered n m (c ∷ cs) h k = (omega (arith, h, k.0), k.1)

pub without-Numbered :
    (n m : ℕ) (cs : List SeatClient) → Numbered m cs → Numbered m (without_client n cs)
unfolding without_client
without-Numbered n m [] h = tt
without-Numbered n m (c ∷ cs) h = split (c.id == n) (without-Numbered n c.id cs h.1)
  where
    split :
        (b : Bool)
        → Numbered c.id (without_client n cs)
        → Numbered m (if b then cs else c ∷ without_client n cs)
    split true ih = le-Numbered c.id m cs (omega (arith, h.0)) h.1
    split false ih = (h.0, ih)

pub without-HaveSeats :
    (n : ℕ) (ss : List Seat) (cs : List SeatClient)
    → HaveSeats ss cs
    → HaveSeats ss (without_client n cs)
unfolding without_client
without-HaveSeats n ss [] h = tt
without-HaveSeats n ss (c ∷ cs) h = split (c.id == n) (without-HaveSeats n ss cs h.1)
  where
    split :
        (b : Bool)
        → HaveSeats ss (without_client n cs)
        → HaveSeats ss (if b then cs else c ∷ without_client n cs)
    split true ih = h.1
    split false ih = (h.0, ih)

pub length-without :
    (n : ℕ) (cs : List SeatClient) (c : SeatClient)
    → find_client n cs ≡ some c
    → suc (length (without_client n cs)) ≡ length cs
unfolding find_client without_client
length-without n [] c e = cc
length-without n (d ∷ cs) c e = split (d.id == n) e (length-without n cs c)
  where
    split :
        (b : Bool)
        → (if b then some d else find_client n cs) ≡ some c
        → (find_client n cs ≡ some c → suc (length (without_client n cs)) ≡ length cs)
        → suc (length (if b then cs else d ∷ without_client n cs)) ≡ suc (length cs)
    split true e ih = refl
    split false e ih = ap suc (ih e)
