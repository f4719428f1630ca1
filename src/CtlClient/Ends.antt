-- ===== src/CtlClient/Ends.antt =====
-- The event loop of src/ctl-client.c has an end, or waits.
use wayvnc.Prelude.{
  ℕ, zero, suc, if◌then◌else◌, ◌<◌, Bool, true, false, List, [], ◌∷◌, ◌++◌, ◌==◌, Option, none,
  some, arith,
}
use wayvnc.Json.{Json}
use wayvnc.JsonIpc.{Request, Response, Result, ok, err, request_parse_new}
use wayvnc.CtlClient.Reading.{
  econnreset, Link, Poll, OneObject, object_, null, waiting, read_one_object,
}
use wayvnc.CtlClient.Run.{
  Attempt, Reply, reply, no_reply, Reconnect, reconnected, given_up, Events, returned,
  run_single_command, block_until_reconnect, events_from, supply, event_loop, Round, stop, next,
  print_parsed, after_reconnect, after_read, shutdown_event, startup_event,
}
use wayvnc.CtlClient.Reads.{total, supply-total, Reads, read_one_object-Reads}
use wayvnc.CtlClient.Attempts.{Uses, Uses-mono, block_until_reconnect-Uses}

module _ (js : Json) where
  open js use {J}

  module _ (request : Request J) where
    -- The loop has an end, or waits for what is still to come.
    abbrev pub HasFuel : Events J → Type 0
    HasFuel Events.out_of_fuel = ⊥
    HasFuel _ = Unit {0}

    -- What goes on has less to come.
    abbrev Goes : ℕ → Round J → Type 0
    Goes n (stop o) = HasFuel o
    Goes n (next printed l ps attempts) = supply l attempts < n

    print_parsed-Goes :
        (printed : List (Request J)) (r : Option (Result J (Request J))) (l : Link) (ps : List Poll)
        (attempts : List Attempt) (n : ℕ)
        → supply l attempts < n
        → Goes n (print_parsed js printed r l ps attempts)
    unfolding print_parsed
    print_parsed-Goes printed none l ps attempts n h = tt
    print_parsed-Goes printed (some (err e)) l ps attempts n h = tt
    print_parsed-Goes printed (some (ok event)) l ps attempts n h = h

    after_reconnect-Goes :
        (printed : List (Request J)) (r : Reconnect) (n : ℕ)
        → Uses js request n r
        → Goes n (after_reconnect js printed r)
    unfolding after_reconnect
    after_reconnect-Goes printed Reconnect.fault n h = tt
    after_reconnect-Goes printed (Reconnect.pending l) n h = tt
    after_reconnect-Goes printed given_up n h = tt
    after_reconnect-Goes printed (reconnected l ps attempts) n h = h

    module _ (reconnects : Bool) (attempts : List Attempt) where
      after_read-Goes :
          (printed : List (Request J)) (l : Link) (o : OneObject J)
          → Reads js (total l) o
          → Goes (supply l attempts) (after_read js request reconnects printed o attempts)
      unfolding after_read
      after_read-Goes printed l (waiting k) h = tt
      after_read-Goes printed l (object_ root k ps) h =
          print_parsed-Goes printed (request_parse_new js root) k ps attempts (supply l attempts)
            (omega (arith, h, supply-total k attempts, supply-total l attempts))
      after_read-Goes printed l (null errno k ps) h = go (errno == econnreset) reconnects
        where
          go :
              (b c : Bool)
              → Goes (supply l attempts) (
                  if b
                  then if c
                    then after_reconnect js printed (block_until_reconnect js request k attempts)
                    else stop (returned (printed ++ shutdown_event js ∷ []) (some 0))
                  else stop (returned printed (some 0)))
          go false c = tt
          go true false = tt
          go true true =
              after_reconnect-Goes printed (block_until_reconnect js request k attempts)
                (supply l attempts)
                (Uses-mono js request (supply k attempts) (supply l attempts)
                  (block_until_reconnect js request k attempts)
                  (omega (arith, h, supply-total k attempts, supply-total l attempts))
                  (block_until_reconnect-Uses js request attempts k))

    module _ (reconnects : Bool) where
      abbrev Loops : ℕ → Type 0
      Loops fuel =
          (printed : List (Request J)) (l : Link) (ps : List Poll) (attempts : List Attempt)
          → supply l attempts < fuel
          → HasFuel (events_from js request reconnects fuel printed l ps attempts)

      events_step :
          (fuel : ℕ) (printed : List (Request J)) (l : Link) (ps : List Poll)
          (attempts : List Attempt)
          → Loops fuel
          → supply l attempts < suc fuel
          → HasFuel (events_from js request reconnects (suc fuel) printed l ps attempts)
      unfolding events_from
      events_step fuel printed l ps attempts ih h = go l.wait_for_events
        where
          on_round :
              (r : Round J)
              → Goes (supply l attempts) r
              → HasFuel (elim r [
                | stop result ↦ result
                | next p k qs later ↦ events_from js request reconnects fuel p k qs later
              ])
          on_round (stop o) g = g
          on_round (next p k qs later) g = ih p k qs later (omega (arith, g, h))

          go :
              (b : Bool)
              → HasFuel (elim b [
                | false ↦ returned printed (some 0)
                | true ↦
                    elim (after_read js request reconnects printed
                      (read_one_object js l ps)
                      attempts) [
                        | stop result ↦ result
                        | next p k qs later ↦ events_from js request reconnects fuel p k qs later
                      ]
              ])
          go false = tt
          go true =
              on_round _
                (after_read-Goes reconnects attempts printed l _ (read_one_object-Reads js ps l))

      -- With more fuel than there are bytes and attempts still to come, the loop returns or waits:
      -- each of its rounds takes a byte or an attempt.
      pub events_from-HasFuel : (fuel : ℕ) → Loops fuel
      unfolding events_from
      events_from-HasFuel zero printed l ps attempts h = elim h [ ]
      events_from-HasFuel (suc fuel) printed l ps attempts h =
          events_step fuel printed l ps attempts (events_from-HasFuel fuel) h

      -- The event loop of the client returns, faults or waits for what is still to come, whatever
      -- comes over however many connections: the fuel that the model gives it is enough.
      pub event_loop-HasFuel :
          (e : Option ℕ) (l : Link) (ps : List Poll) (attempts : List Attempt)
          → HasFuel (event_loop js request reconnects e l ps attempts)
      unfolding event_loop
      event_loop-HasFuel e l ps attempts = go (run_single_command js request e l ps)
        where
          start :
              (code : ℕ) (k : Link) (qs : List Poll) (b : Bool)
              → HasFuel (elim b [
                | false ↦ returned [] (some code)
                | true ↦
                    events_from js request reconnects
                      (suc (supply k attempts))
                      (startup_event js ∷ [])
                      (record k { wait_for_events = true })
                      qs
                      attempts
              ])
          start code k qs false = tt
          start code k qs true =
              events_from-HasFuel (suc (supply k attempts)) (startup_event js ∷ [])
                (record k { wait_for_events = true }) qs attempts
                (omega (
                  arith,
                  supply-total k attempts,
                  supply-total (record k { wait_for_events = true }) attempts,
                ))

          go :
              (r : Reply (Response J))
              → HasFuel (elim r [
                | Reply.fault ↦ Events.fault
                | Reply.pending k ↦ Events.pending [] k
                | no_reply _ k _ ↦ returned [] none
                | reply response k qs ↦ elim (response.code == 0) [
                  | false ↦ returned [] (some response.code)
                  | true ↦
                      events_from js request reconnects
                        (suc (supply k attempts))
                        (startup_event js ∷ [])
                        (record k { wait_for_events = true })
                        qs
                        attempts
                ]
              ])
          go Reply.fault = tt
          go (Reply.pending k) = tt
          go (no_reply n k qs) = tt
          go (reply response k qs) = start response.code k qs (response.code == 0)
