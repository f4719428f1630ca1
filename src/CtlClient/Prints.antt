-- ===== src/CtlClient/Prints.antt =====
-- The events that src/ctl-client.c prints are those that the server has sent, in their order.
use wayvnc.Prelude.{ℕ, ◌+◌, ◌≤◌, ◌<◌, ◌≡◌, ◌⊎◌, true, false, List, [], ◌∷◌, ◌++◌, some, length}
use wayvnc.Json.{Json}
use wayvnc.JsonIpc.{Request, ok, request_parse_new}
use wayvnc.CtlServer.Delivery.{bytes}
use wayvnc.CtlClient.Reading.{econnreset, Link, Poll, read_size, OneObject, object_, null, waiting}
use wayvnc.CtlClient.Framed.{IsFramed, IsBroken, Quiet, receives}
use wayvnc.CtlClient.Run.{
  Attempt, Events, returned, Round, stop, next, shutdown_event, events_from, supply,
}

module _ (js : Json) where
  open js use {J, dump}

  -- Messages that the parser takes whole and no part of which it takes for a value, that fit the buffer, and that are these events.
  abbrev pub AreEvents : List J → List (Request J) → Type 0
  AreEvents [] [] = Unit {0}
  AreEvents (m ∷ ms) (e ∷ es) =
      IsFramed js m
      × (length (dump m) ≤ read_size)
      × (request_parse_new js m ≡ some (ok e))
      × AreEvents ms es
  AreEvents _ _ = ⊥

  -- Without a message nothing happens until the server closes the connection.
  abbrev IsIdle : Link → List Poll → OneObject J → Type 0
  IsIdle l ps (waiting k) = (k ≡ l) × (receives ps ≡ 0)
  IsIdle l ps (null errno k later) = errno ≡ econnreset
  IsIdle l ps (object_ v k later) = ⊥

  -- Some of the next message is not in the buffer.
  abbrev pub IsMissing : List J → Link → Type 0
  IsMissing [] k = Unit {0}
  IsMissing (m ∷ ms) k = length k.read_buffer < length (dump m)

  -- The loop has ended with a part of a message in the buffer that the parser takes for invalid: all
  -- before it has been printed.
  abbrev pub Breaks : List (Request J) → List (Request J) → List (Request J) → Type 0
  Breaks printed es out =
      (done : List (Request J)) × (left : List (Request J)) × (m : J) × (ms : List J)
      × (last : Link) × (es ≡ done ++ left)
      × (out ≡ printed ++ done)
      × AreEvents (m ∷ ms) left
      × IsBroken js m last.read_buffer
      × (last.read_buffer ++ last.stream ≡ bytes js (m ∷ ms))

  -- What has been printed, and what is still to come of the messages; or all of them, and that the
  -- connection is closed; or those before a message that broke.
  abbrev pub Prints : List (Request J) → List (Request J) → Link → List Poll → Events J → Type 0
  Prints printed es l ps (Events.pending out k) =
      (done : List (Request J)) × (left : List (Request J)) × (ms : List J) × (es ≡ done ++ left)
      × (out ≡ printed ++ done)
      × AreEvents ms left
      × (k.read_buffer ++ k.stream ≡ bytes js ms)
      × (length k.stream + receives ps ≤ length l.stream)
      × IsMissing ms k
  Prints printed es l ps (returned out code) =
      (code ≡ some 0)
      × ((out ≡ printed ++ (es ++ (shutdown_event js ∷ []))) ⊎ Breaks printed es out)
  Prints printed es l ps Events.fault = ⊥
  Prints printed es l ps Events.out_of_fuel = ⊥

  module _ (request : Request J) (attempts : List Attempt) where
    abbrev from : ℕ → List (Request J) → Link → List Poll → Events J
    from fuel printed l ps = events_from js request false fuel printed l ps attempts

    abbrev continued : ℕ → Round J → Events J
    continued fuel r = elim r [
      | stop result ↦ result
      | next printed l ps later ↦ events_from js request false fuel printed l ps later
    ]

    abbrev PrintsAll : ℕ → List J → List (Request J) → Type 0
    PrintsAll fuel ms es =
        (printed : List (Request J)) (l : Link) (ps : List Poll)
        → l.read_buffer ++ l.stream ≡ bytes js ms
        → length l.read_buffer ≤ read_size
        → l.wait_for_events ≡ true
        → Quiet true ps
        → supply l attempts < fuel
        → Prints printed es l ps (from fuel printed l ps)
