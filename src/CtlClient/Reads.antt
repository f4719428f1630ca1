-- ===== src/CtlClient/Reads.antt =====
-- What `read_one_object` of src/ctl-client.c takes from what comes.
use wayvnc.Prelude.{
  ℕ, suc, ◌+◌, ◌≤◌, ◌<◌, ◌≡◌, refl, ap, Bool, true, false, List, [], ◌∷◌, ◌++◌, ◌==◌, length,
  length-append, take, drop, take-append-drop, length-drop, subst, arith, not, ◌&&◌,
}
use wayvnc.Text.{Str}
use wayvnc.Json.{Json, Loaded, value, premature, invalid}
use wayvnc.CtlClient.Reading.{
  eagain, econnreset, Link, Poll, interrupted, poll_failed, timed_out, recv_failed, readable,
  capacity, Found, found, nothing, OneObject, object_, null, waiting, advance_read_buffer, found_in,
  json_from_buffer, read_loop, read_one_object,
}
use wayvnc.CtlClient.Run.{Attempt, supply}

abbrev pub total : Link → ℕ
total l = length l.read_buffer + length l.stream

abbrev pub extra : List Attempt → ℕ
extra [] = 0
extra (a ∷ attempts) = suc (length a.stream + extra attempts)

-- What comes at once and what the attempts bring.
pub supply-total :
    (l : Link) (attempts : List Attempt) → supply l attempts ≡ total l + extra attempts
unfolding supply
supply-total l [] = omega arith
supply-total l (a ∷ attempts) = omega (arith, supply-total l attempts)

module _ (js : Json) where
  open js use {J, load, load_takes}

  abbrev Left : Str → Found J → Type 0
  Left b (found v left) = length left < length b
  Left b (nothing errno) = Unit {0}

  json_from_buffer-Left : (b : Str) → Left b (json_from_buffer js b)
  unfolding json_from_buffer found_in advance_read_buffer
  json_from_buffer-Left [] = tt
  json_from_buffer-Left (c ∷ s) = go (load (c ∷ s)) refl
    where
      go : (x : Loaded J) → load (c ∷ s) ≡ x → Left (c ∷ s) (found_in js (c ∷ s) x)
      go (value v n) e =
          omega (
            arith,
            (load_takes (c ∷ s) v n e).0,
            (load_takes (c ∷ s) v n e).1,
            length-drop n (c ∷ s),
          )
      go premature e = tt
      go (invalid m) e = tt

  -- Nothing is read that was not there, and a value takes at least a byte.
  abbrev pub Reads : ℕ → OneObject J → Type 0
  Reads n (object_ v l ps) = total l < n
  Reads n (null errno l ps) = total l ≤ n
  Reads n (waiting l) = total l ≤ n

  module _ (ps : List Poll) (ih : (l : Link) → Reads (total l) (read_loop js l ps)) (l : Link) where
    interrupted-Reads :
        (stopped : Bool) → Reads (total l) (read_loop js l (interrupted stopped ∷ ps))
    unfolding read_loop
    interrupted-Reads stopped = go (l.wait_for_events && not stopped)
      where
        go :
            (b : Bool)
            → Reads (total l) (elim b [
              | true ↦ read_loop js l ps
              | false ↦ null 4 (record l { wait_for_events = false }) ps
            ])
        go true = ih l
        go false = omega arith

    module _ (n : ℕ) where
      abbrev stream : Str
      stream = drop (capacity l n) l.stream

      same :
          (t : Str)
          → take (capacity l n) l.stream ≡ t
          → length (l.read_buffer ++ t) + length stream ≡ total l
      same t e = omega (
        arith,
        length-append l.read_buffer t,
        ap (λ u. length (u ++ stream)) e,
        length-append t stream,
        ap length (take-append-drop (capacity l n) l.stream),
      )

      retry :
          (b : Str)
          → length b + length stream ≡ total l
          → (errno : ℕ) → (again : Bool)
          → Reads (total l) (elim again [
            | true ↦ read_loop js (record l { read_buffer = b; stream = stream }) ps
            | false ↦ null errno (record l { read_buffer = b; stream = stream }) ps
          ])
      retry b e errno true =
          subst (λ k. Reads k (read_loop js (record l { read_buffer = b; stream = stream }) ps)) e
            (ih _)
      retry b e errno false = omega (arith, e)

      parse :
          (b : Str)
          → length b + length stream ≡ total l
          → (f : Found J) → Left b f
          → Reads (total l) (elim f [
            | found root left ↦ object_ root (record l { read_buffer = left; stream = stream }) ps
            | nothing errno ↦ elim (errno == eagain) [
              | true ↦ read_loop js (record l { read_buffer = b; stream = stream }) ps
              | false ↦ null errno (record l { read_buffer = b; stream = stream }) ps
            ]
          ])
      parse b e (found v left) h = omega (arith, e, h)
      parse b e (nothing errno) h = retry b e errno (errno == eagain)

      go :
          (t : Str)
          → take (capacity l n) l.stream ≡ t
          → Reads (total l) (elim t [
            | [] ↦ null econnreset l ps
            | c ∷ s ↦
                let buffer = l.read_buffer ++ c ∷ s in
                elim (json_from_buffer js buffer) [
                  | found root left ↦
                      object_ root (record l { read_buffer = left; stream = stream }) ps
                  | nothing errno ↦ elim (errno == eagain) [
                    | true ↦ read_loop js (record l { read_buffer = buffer; stream = stream }) ps
                    | false ↦ null errno (record l { read_buffer = buffer; stream = stream }) ps
                  ]
                ]
          ])
      go [] e = omega arith
      go (c ∷ s) e = parse _ (same (c ∷ s) e) _ (json_from_buffer-Left (l.read_buffer ++ c ∷ s))

      readable-Reads : Reads (total l) (read_loop js l (readable n ∷ ps))
      unfolding read_loop
      readable-Reads = go (take (capacity l n) l.stream) refl

  read_loop-Reads : (ps : List Poll) (l : Link) → Reads (total l) (read_loop js l ps)
  unfolding read_loop
  read_loop-Reads [] l = omega arith
  read_loop-Reads (interrupted stopped ∷ ps) l = interrupted-Reads ps (read_loop-Reads ps) l stopped
  read_loop-Reads (poll_failed errno ∷ ps) l = omega arith
  read_loop-Reads (timed_out ∷ ps) l = omega arith
  read_loop-Reads (recv_failed errno ∷ ps) l = omega arith
  read_loop-Reads (readable n ∷ ps) l = readable-Reads ps (read_loop-Reads ps) l n

  pub read_one_object-Reads :
      (ps : List Poll) (l : Link) → Reads (total l) (read_one_object js l ps)
  unfolding read_one_object
  read_one_object-Reads ps l =
      go (json_from_buffer js l.read_buffer) (json_from_buffer-Left l.read_buffer)
    where
      wait :
          (again : Bool) (errno : ℕ)
          → Reads (total l) (elim again [ true ↦ read_loop js l ps | false ↦ null errno l ps ])
      wait true errno = read_loop-Reads ps l
      wait false errno = omega arith

      go :
          (f : Found J)
          → Left l.read_buffer f
          → Reads (total l) (elim f [
            | found root left ↦ object_ root (record l { read_buffer = left }) ps
            | nothing errno ↦ elim (errno == eagain) [
              | true ↦ read_loop js l ps
              | false ↦ null errno l ps
            ]
          ])
      go (found v left) h = omega (arith, h)
      go (nothing errno) h = wait (errno == eagain) errno
