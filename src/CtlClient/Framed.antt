-- ===== src/CtlClient/Framed.antt =====
-- What the socket and the parser of src/ctl-client.c do with a message: it comes in bytes, and is taken
-- whole.
use wayvnc.Prelude.{
  ℕ, suc, ◌≤◌, ◌<◌, ◌≡◌, ◌≢◌, refl, ap, ◌⊎◌, Bool, true, false, List, [], ◌∷◌, ◌++◌, length, drop,
  arith,
}
use wayvnc.Text.{Str}
use wayvnc.Json.{Json, Loaded, value, premature, invalid}
use wayvnc.CtlClient.Reading.{Link, Poll, interrupted, readable, read_loop}

-- A part of a message is no value for the parser: it waits for the rest, or takes the part for
-- invalid, as jansson does where it ends in a literal, an escape or a character of several bytes.
abbrev pub IsPart : {J : Type 0} → Loaded J → Type 0
IsPart (value v n) = ⊥
IsPart premature = Unit {0}
IsPart (invalid message) = Unit {0}

-- The parser takes a message whole from the start of a text, and no part of it for a value.
pub record IsFramed (js : Json) (m : js.J) : Type 0 where
  pub whole : (s : Str) → js.load (js.dump m ++ s) ≡ value m (length (js.dump m))
  pub part : (a b : Str) → a ++ b ≡ js.dump m → a ≢ [] → b ≢ [] → IsPart (js.load a)

-- A text that is a part of the message, from its start, and that the parser takes for invalid.
abbrev pub IsBroken : (js : Json) → js.J → Str → Type 0
IsBroken js m a =
    (b : Str) × (message : Str) × (a ++ b ≡ js.dump m) × (b ≢ []) × (js.load a ≡ invalid message)

-- The socket only delivers bytes, and no signal stops the wait.
abbrev pub Quiet : Bool → List Poll → Type 0
Quiet w [] = Unit {0}
Quiet w (interrupted stopped ∷ ps) = (w ≡ true) × (stopped ≡ false) × Quiet w ps
Quiet w (readable n ∷ ps) = (1 ≤ n) × Quiet w ps
Quiet w (_ ∷ ps) = ⊥

abbrev pub receives : List Poll → ℕ
receives [] = 0
receives (readable n ∷ ps) = suc (receives ps)
receives (_ ∷ ps) = receives ps

-- Two ways to cut a text: the shorter part begins the longer.
pub split_at :
    (a b c d : Str)
    → a ++ b ≡ c ++ d
    → length c ≤ length a
    → (e : Str) × (a ≡ c ++ e) × (e ++ b ≡ d)
split_at a b [] d e h = (a, refl, e)
split_at [] b (x ∷ c) d e h = absurd (omega arith)
split_at (y ∷ a) b (x ∷ c) d e h =
    let (s, p, q) = split_at a b c d (ap (drop 1) e) (omega arith) in (s, ground (arith, p), q)

pub le_or_lt : (a b : ℕ) → (a ≤ b) ⊎ (b < a)
le_or_lt a b = omega arith

pub drop-append : (a b : Str) → drop (length a) (a ++ b) ≡ b
drop-append [] b = refl
drop-append (x ∷ a) b = drop-append a b

-- A signal that does not stop the wait.
pub wait_on :
    (js : Json) (l : Link) (stopped : Bool) (ps : List Poll)
    → l.wait_for_events ≡ true
    → stopped ≡ false
    → read_loop js l (interrupted stopped ∷ ps) ≡ read_loop js l ps
unfolding read_loop
wait_on js l stopped ps w s = ground (arith, w, s)
