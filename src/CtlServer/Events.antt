-- ===== src/CtlServer/Events.antt =====
-- Events of src/ctl-server.c: one message to every client that asked for events.
use wayvnc.Prelude.{
  ℕ, suc, ◌≡◌, refl, ap, ap₂, List, [], ◌∷◌, ◌++◌, some, map, if◌then◌else◌, Bool-cases, inl, inr,
}
use wayvnc.Text.{Str}
use wayvnc.Json.{Json}
use wayvnc.JsonIpc.{event_new, request_pack}
use wayvnc.CtlCommands.{EventType, event_info}
use wayvnc.CtlServer.Client.{Client, fifo, client_enqueue}
use wayvnc.CtlServer.Delivery.{pending, pending-client_enqueue}

module _ (js : Json) where
  open js use {J, dump}

  -- The loop over the clients: what each becomes, and how many got the message.
  unfoldable pub enqueue_for : List (Client J) → J → List (Client J) × ℕ
  enqueue_for [] packed = ([], 0)
  enqueue_for (c ∷ cs) packed =
      let (cs', n) = enqueue_for cs packed in
      if c.accept_events then (client_enqueue c packed fifo ∷ cs', suc n) else (c ∷ cs', n)

  -- `ctl_server_enqueue_event`
  unfoldable pub enqueue_event : List (Client J) → EventType → J → List (Client J) × ℕ
  unfolding enqueue_for
  enqueue_event clients event params =
      enqueue_for clients (request_pack js (event_new js (event_info event).name (some params)))

  abbrev pub event_message : EventType → J → J
  event_message event params = request_pack js (event_new js (event_info event).name (some params))

  abbrev pub listeners : List (Client J) → ℕ
  listeners [] = 0
  listeners (c ∷ cs) = if c.accept_events then suc (listeners cs) else listeners cs

  -- What a client has to be sent after an event.
  abbrev pub after_event : J → Client J → Str
  after_event m c = if c.accept_events then pending js c ++ dump m else pending js c

  enqueue_for-pending :
      (cs : List (Client J)) (m : J)
      → map (pending js) (enqueue_for cs m).0 ≡ map (after_event m) cs
  unfolding enqueue_for client_enqueue pending
  enqueue_for-pending [] m = refl
  enqueue_for-pending (c ∷ cs) m = elim (Bool-cases c.accept_events) [
    | inl e ↦
        rw (e, enqueue_for) (ap₂ ◌∷◌ (pending-client_enqueue js c m) (enqueue_for-pending cs m))
    | inr e ↦ rw (e, enqueue_for) (ap (◌∷◌ (pending js c)) (enqueue_for-pending cs m))
  ]

  enqueue_for-count : (cs : List (Client J)) (m : J) → (enqueue_for cs m).1 ≡ listeners cs
  unfolding enqueue_for
  enqueue_for-count [] m = refl
  enqueue_for-count (c ∷ cs) m = elim (Bool-cases c.accept_events) [
    | inl e ↦ rw (e, enqueue_for) (ap suc (enqueue_for-count cs m))
    | inr e ↦ rw (e, enqueue_for) (enqueue_for-count cs m)
  ]

  -- An event is added once, behind what is pending, to the output of exactly those clients that
  -- accept events, and their number is returned.
  pub enqueue_event_lem :
      (cs : List (Client J)) (event : EventType) (params : J)
      → (map (pending js) (enqueue_event cs event params).0
          ≡ map (after_event (event_message event params)) cs)
        × ((enqueue_event cs event params).1 ≡ listeners cs)
  unfolding enqueue_event
  enqueue_event_lem cs event params = (enqueue_for-pending cs _, enqueue_for-count cs _)
