-- ===== src/CtlServer/Delivery.antt =====
-- What a control client of src/ctl-server.c receives: whole messages, in order.
use wayvnc.Prelude.{
  ◌≡◌, refl, sym, ap, ◌∙◌, ◌⊎◌, inl, inr, true, List, [], ◌∷◌, ◌++◌, Option, none, some, append-nil,
  append_assoc, take, drop, take-append-drop, subst, Bool-cases,
}
use wayvnc.Text.{Str}
use wayvnc.Json.{Json}
use wayvnc.CtlServer.Client.{
  Client, Send, again, failed, accepted, has_output, client_set_aml_event_mask, client_enqueue,
  fifo, after_send, load_message, send_loaded, send_ready,
}

module _ (js : Json) where
  open js use {J, dump}

  -- The bytes of messages, one after the other.
  abbrev pub bytes : List J → Str
  bytes [] = []
  bytes (m ∷ ms) = dump m ++ bytes ms

  abbrev pub under_way : Option Str → Str
  under_way none = []
  under_way (some w) = w

  -- What is still to be sent to the client.
  unfoldable pub pending : Client J → Str
  pending c = under_way c.write_buffer ++ bytes c.response_queue

  bytes-append : (ms : List J) (m : J) → bytes (ms ++ m ∷ []) ≡ bytes ms ++ dump m
  bytes-append [] m = append-nil (dump m)
  bytes-append (n ∷ ms) m =
      ap (◌++◌ (dump n)) (bytes-append ms m) ∙ sym (append_assoc (dump n) (bytes ms) (dump m))

  -- A message enqueued in order comes after all that is still to be sent.
  pub pending-client_enqueue :
      (c : Client J) (m : J) → pending (client_enqueue c m fifo) ≡ pending c ++ dump m
  unfolding pending client_enqueue
  pending-client_enqueue c m =
      ap (◌++◌ (under_way c.write_buffer)) (bytes-append c.response_queue m)
      ∙ sym (append_assoc (under_way c.write_buffer) (bytes c.response_queue) (dump m))

  pending-load_message : (c : Client J) → pending (load_message js c) ≡ pending c
  unfolding pending load_message
  pending-load_message c = go c.write_buffer c.response_queue
    where
      go :
          (w : Option Str) (q : List J)
          → pending (load_message js (record c { write_buffer = w; response_queue = q }))
            ≡ under_way w ++ bytes q
      go (some w) q = refl
      go none [] = refl
      go none (m ∷ ms) = refl

  -- What went out begins what was pending. A client is destroyed only by a failed send or after an
  -- internal error; one that is left has all that did not go out, and waits for the socket exactly
  -- if there is something.
  abbrev pub Delivered : Client J → Send → Str → Option (Client J) → Type 0
  Delivered c r sent none =
      ((r ≡ failed) ⊎ (c.drop_after_next_send ≡ true)) × ((rest : Str) × (sent ++ rest ≡ pending c))
  Delivered c r sent (some d) =
      (sent ++ pending d ≡ pending c) × (d.wants_write ≡ has_output d.response_queue d.write_buffer)

  after_send-Delivered :
      (c : Client J) (r : Send) (sent left : Str)
      → Delivered (record c { write_buffer = some (sent ++ left) }) r sent (after_send c left)
  unfolding after_send pending
  after_send-Delivered c r sent [] = elim (Bool-cases c.drop_after_next_send) [
    | inl e ↦ dropped e
    | inr e ↦ rw (e, after_send) (rw (append-nil sent) refl, refl)
  ]
    where
      dropped :
          c.drop_after_next_send ≡ true
          → Delivered (record c { write_buffer = some (sent ++ []) }) r sent (after_send c [])
      dropped e =
          subst (Delivered (record c { write_buffer = some (sent ++ []) }) r sent) {x = none}
            (rw (e, after_send) refl) (inr e, (bytes c.response_queue, rw (append-nil sent) refl))
  after_send-Delivered c r sent (b ∷ left) =
      (sym (append_assoc sent (b ∷ left) (bytes c.response_queue)), refl)

  send_loaded-Delivered :
      (c : Client J) (r : Send) → Delivered c r (send_loaded js c r).0 (send_loaded js c r).1
  unfolding send_loaded client_set_aml_event_mask pending after_send
  send_loaded-Delivered c r = go c.write_buffer r
    where
      go :
          (w : Option Str) (r : Send)
          → let d = record c { write_buffer = w } in
            Delivered d r (send_loaded js d r).0 (send_loaded js d r).1
      go none r = (refl, refl)
      go (some w) failed = (inl refl, (w ++ bytes c.response_queue, refl))
      go (some w) again = after_send-Delivered c again [] w
      go (some w) (accepted n) =
          subst
            (λ v.
              Delivered (record c { write_buffer = some v }) (accepted n) (take n w)
                (after_send c (drop n w)))
            (take-append-drop n w) (after_send-Delivered c (accepted n) (take n w) (drop n w))

  load_message-drop :
      (c : Client J) → (load_message js c).drop_after_next_send ≡ c.drop_after_next_send
  unfolding load_message
  load_message-drop c = go c.write_buffer c.response_queue
    where
      go :
          (w : Option Str) (q : List J)
          → (load_message js
              (record c { write_buffer = w; response_queue = q })).drop_after_next_send
            ≡ c.drop_after_next_send
      go (some w) q = refl
      go none [] = refl
      go none (m ∷ ms) = refl

  Delivered-of_eq :
      (c d : Client J) (r : Send) (s : Str) (o : Option (Client J))
      → pending d ≡ pending c
      → d.drop_after_next_send ≡ c.drop_after_next_send
      → Delivered d r s o
      → Delivered c r s o
  Delivered-of_eq c d r s none p q (inl h, (rest, e)) = (inl h, (rest, e ∙ p))
  Delivered-of_eq c d r s none p q (inr h, (rest, e)) = (inr (sym q ∙ h), (rest, e ∙ p))
  Delivered-of_eq c d r s (some e) p q h = (h.0 ∙ p, h.1)

  send_ready-Delivered :
      (c : Client J) (r : Send) → Delivered c r (send_ready js c r).0 (send_ready js c r).1
  unfolding send_ready
  send_ready-Delivered c r =
      Delivered-of_eq c (load_message js c) r _ (send_loaded js (load_message js c) r).1
        (pending-load_message c) (load_message-drop c) (send_loaded-Delivered (load_message js c) r)

  -- What happens to a client from the side of its output: messages enqueued with SEND_FIFO, as the
  -- responses and the events are, and sends.
  pub data Event : Type 0 where
    enqueue : J → Event
    writable : Send → Event

  -- The bytes that go out over a history, and the client if it is still there.
  unfoldable pub run : Client J → List Event → Str × Option (Client J)
  run c [] = ([], some c)
  run c (enqueue m ∷ es) = run (client_enqueue c m fifo) es
  run c (writable r ∷ es) =
      let (sent, left) = send_ready js c r in
      elim left [ none ↦ (sent, none) | some d ↦ (sent ++ (run d es).0, (run d es).1) ]

  unfoldable pub enqueued : List Event → List J
  enqueued [] = []
  enqueued (enqueue m ∷ es) = m ∷ enqueued es
  enqueued (writable r ∷ es) = enqueued es

  abbrev pub Left : Option (Client J) → Str → Type 0
  Left none rest = Unit {0}
  Left (some d) rest = rest ≡ pending d

  -- What went out, and the rest, which is what is pending if the client is still there.
  abbrev pub InOrder : Client J → List Event → Str × Option (Client J) → Type 0
  InOrder c es (sent, left) =
      (rest : Str) × (sent ++ rest ≡ pending c ++ bytes (enqueued es)) × Left left rest

  prepend :
      (c d : Client J) (es : List Event) (sent : Str)
      → sent ++ pending d ≡ pending c
      → (o : Str × Option (Client J)) → InOrder d es o
      → InOrder c es (sent ++ o.0, o.1)
  prepend c d es sent e (out, left) (rest, p, l) = (
    rest,
    append_assoc sent out rest
        ∙ ap (◌++◌ sent) p
        ∙ sym (append_assoc sent (pending d) (bytes (enqueued es)))
        ∙ ap (λ t. t ++ bytes (enqueued es)) e,
    l,
  )

  -- Over any history of messages enqueued with SEND_FIFO, as responses and events are, and of sends,
  -- whole or partial, what a client has been sent begins the messages enqueued for it, in their
  -- order and without gaps; while it is connected, all that it has not been sent is still pending.
  -- The report of an internal error, which is enqueued in front with SEND_IMMEDIATE, is excluded.
  pub run-InOrder : (c : Client J) (es : List Event) → InOrder c es (run c es)
  unfolding run enqueued
  run-InOrder c [] = (pending c, sym (append-nil (pending c)), refl)
  run-InOrder c (enqueue m ∷ es) =
      let (rest, p, l) = run-InOrder (client_enqueue c m fifo) es in
      (
        rest,
        p
            ∙ ap (λ t. t ++ bytes (enqueued es)) (pending-client_enqueue c m)
            ∙ append_assoc (pending c) (dump m) (bytes (enqueued es)),
        l,
      )
  run-InOrder c (writable r ∷ es) =
      (elim (send_ready js c r).1
          as (λ o.
            Delivered c r (send_ready js c r).0 o
            → InOrder c (writable r ∷ es) (elim o [
              | none ↦ ((send_ready js c r).0, none)
              | some d ↦ ((send_ready js c r).0 ++ (run d es).0, (run d es).1)
            ])) [
              | none ↦ λ h. (
                h.1.0 ++ bytes (enqueued es),
                sym (append_assoc (send_ready js c r).0 h.1.0 (bytes (enqueued es)))
                    ∙ ap (λ t. t ++ bytes (enqueued es)) h.1.1,
                tt,
              )
              | some d ↦ λ h. prepend c d es (send_ready js c r).0 h.0 (run d es) (run-InOrder d es)
            ])
        (send_ready-Delivered c r)
