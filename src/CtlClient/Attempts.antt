-- ===== src/CtlClient/Attempts.antt =====
-- Each attempt of src/ctl-client.c to connect again is used up.
use wayvnc.Prelude.{
  ℕ, ◌+◌, ◌≤◌, ◌<◌, Bool, true, false, List, [], ◌∷◌, ◌==◌, Option, none, some, length, arith,
}
use wayvnc.Text.{Str}
use wayvnc.Json.{Json}
use wayvnc.JsonIpc.{Request, Response, Result, ok, err, response_parse_new}
use wayvnc.CtlClient.Reading.{Link, Poll, OneObject, object_, null, waiting}
use wayvnc.CtlClient.Run.{
  Attempt, Reply, reply, no_reply, Reconnect, reconnected, given_up, send_request, response_of,
  wait_for_response, run_single_command, block_until_reconnect, supply,
}
use wayvnc.CtlClient.Reads.{total, supply-total, Reads, read_one_object-Reads}

module _ (js : Json) where
  open js use {J}

  abbrev Replies : {A : Type 0} → ℕ → Reply A → Type 0
  Replies n (reply a l ps) = total l ≤ n
  Replies n (no_reply errno l ps) = total l ≤ n
  Replies n (Reply.pending l) = Unit {0}
  Replies n Reply.fault = Unit {0}

  response_of-Replies : (n : ℕ) (o : OneObject J) → Reads js n o → Replies n (response_of js o)
  unfolding response_of
  response_of-Replies n (waiting l) h = tt
  response_of-Replies n (null errno l ps) h = h
  response_of-Replies n (object_ root l ps) h = go (response_parse_new js root)
    where
      go :
          (r : Option (Result J (Response J)))
          → Replies n (elim r [
            | none ↦ Reply.fault
            | some (err e) ↦ no_reply none l ps
            | some (ok response) ↦ reply response l ps
          ])
      go none = tt
      go (some (err e)) = omega (arith, h)
      go (some (ok response)) = omega (arith, h)

  module _ (request : Request J) where
    run-Replies :
        (e : Option ℕ) (l : Link) (ps : List Poll)
        → Replies (total l) (run_single_command js request e l ps)
    unfolding run_single_command wait_for_response
    run-Replies e l ps = go (send_request js request) e
      where
        go :
            (s : Option Str) (e : Option ℕ)
            → Replies (total l) (elim s [
              | none ↦ Reply.fault
              | some _ ↦ elim e [
                | some errno ↦ no_reply (some errno) l ps
                | none ↦ wait_for_response js l ps
              ]
            ])
        go none e = tt
        go (some s) (some errno) = omega arith
        go (some s) none = response_of-Replies (total l) _ (read_one_object-Reads js ps l)

    -- An attempt is used up.
    abbrev pub Uses : ℕ → Reconnect → Type 0
    Uses n (reconnected l ps attempts) = supply l attempts < n
    Uses n _ = Unit {0}

    pub Uses-mono : (n m : ℕ) (o : Reconnect) → n ≤ m → Uses n o → Uses m o
    Uses-mono n m (reconnected l ps attempts) h u = omega (arith, h, u)
    Uses-mono n m given_up h u = tt
    Uses-mono n m (Reconnect.pending l) h u = tt
    Uses-mono n m Reconnect.fault h u = tt

    module _ (a : Attempt) (attempts : List Attempt) (l : Link)
        (ih : (l : Link)
          → Uses (supply l attempts) (block_until_reconnect js request l attempts)) where
      abbrev retry_after : Link → Reconnect
      retry_after k = elim a.sleeps [
        | false ↦ given_up
        | true ↦ block_until_reconnect js request k attempts
      ]

      again-Uses :
          (k : Link)
          → total k ≤ total l + length a.stream
          → Uses (supply l (a ∷ attempts)) (retry_after k)
      unfolding supply
      again-Uses k h = go a.sleeps
        where
          go :
              (b : Bool)
              → Uses
                  (supply l (a ∷ attempts))
                  (elim b [ false ↦ given_up | true ↦ block_until_reconnect js request k attempts ])
          go false = tt
          go true =
              Uses-mono (supply k attempts) (supply l (a ∷ attempts))
                (block_until_reconnect js request k attempts)
                (omega (arith, h, supply-total k attempts, supply-total l attempts)) (ih k)

      reply-Uses :
          (r : Reply (Response J))
          → Replies (length l.read_buffer + length a.stream) r
          → Uses (supply l (a ∷ attempts)) (elim r [
            | Reply.fault ↦ Reconnect.fault
            | Reply.pending k ↦ Reconnect.pending k
            | no_reply _ k _ ↦ retry_after k
            | reply response k ps ↦ elim (response.code == 0) [
              | true ↦ reconnected k ps attempts
              | false ↦ retry_after k
            ]
          ])
      unfolding supply
      reply-Uses Reply.fault h = tt
      reply-Uses (Reply.pending k) h = tt
      reply-Uses (no_reply errno k ps) h = again-Uses k (omega (arith, h))
      reply-Uses (reply response k ps) h = go (response.code == 0)
        where
          go :
              (b : Bool)
              → Uses
                  (supply l (a ∷ attempts))
                  (elim b [ true ↦ reconnected k ps attempts | false ↦ retry_after k ])
          go true = omega (arith, h, supply-total k attempts, supply-total l attempts)
          go false = again-Uses k (omega (arith, h))

      attempt-Uses :
          Uses (supply l (a ∷ attempts)) (block_until_reconnect js request l (a ∷ attempts))
      unfolding block_until_reconnect
      attempt-Uses = go a.connects
        where
          go :
              (b : Bool)
              → Uses (supply l (a ∷ attempts)) (elim b [
                | false ↦ retry_after l
                | true ↦
                    elim (run_single_command js request a.send_fails
                      (record l { stream = a.stream })
                      a.polls) [
                        | Reply.fault ↦ Reconnect.fault
                        | Reply.pending k ↦ Reconnect.pending k
                        | no_reply _ k _ ↦ retry_after k
                        | reply response k ps ↦ elim (response.code == 0) [
                          | true ↦ reconnected k ps attempts
                          | false ↦ retry_after k
                        ]
                      ]
              ])
          go false = again-Uses l (omega arith)
          go true = reply-Uses _ (run-Replies a.send_fails (record l { stream = a.stream }) a.polls)

    pub block_until_reconnect-Uses :
        (attempts : List Attempt) (l : Link)
        → Uses (supply l attempts) (block_until_reconnect js request l attempts)
    unfolding block_until_reconnect
    block_until_reconnect-Uses [] l = tt
    block_until_reconnect-Uses (a ∷ attempts) l =
        attempt-Uses a attempts l (block_until_reconnect-Uses attempts)
