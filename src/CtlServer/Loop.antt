-- ===== src/CtlServer/Loop.antt =====
-- The loop of `recv_ready` in src/ctl-server.c over what has been read.
use wayvnc.Prelude.{
  ℕ, zero, suc, Bool, false, ◌<◌, ◌≡◌, ◌⊎◌, inl, inr, refl, sym, ap, ◌∙◌, List, [], ◌∷◌, ◌++◌,
  Option, none, some, arith, length, length-drop, drop, append-nil, append_assoc, subst,
}
use wayvnc.Text.{Str}
use wayvnc.Json.{Json, Loaded, value, premature, invalid}
use wayvnc.JsonIpc.{Response, response_pack}
use wayvnc.CtlServer.Client.{Client}
use wayvnc.CtlServer.Input.{next_from, client_next_object}
use wayvnc.CtlServer.Receive.{Actions, State, handle_object, Handled, handled, handle_objects}
use wayvnc.CtlServer.Requests.{
  Answered, IsFaulty, id_of, handle_object-Answered_id, handle_object-IsFaulty,
}

module _ (js : Json) {W : Type 0} (actions : Actions js.J W) where
  open js use {J, load, load_takes}

  -- The values at the start of a text, read one after the other.
  unfoldable pub objects : ℕ → Str → List J
  objects zero s = []
  objects (suc fuel) [] = []
  objects (suc fuel) (b ∷ s) = elim (load (b ∷ s)) [
    | value v n ↦ v ∷ objects fuel (drop n (b ∷ s))
    | premature ↦ []
    | invalid _ ↦ []
  ]

  -- The messages are one response for each value, in their order and with their ids, and events
  -- between them only if the client accepts events in the end.
  abbrev pub Answers : Bool → List J → List J → Type 0
  Answers accepts [] ms = ms ≡ []
  Answers accepts (v ∷ vs) ms =
      (events : List J) × (r : Response J) × (later : List J) × (r.id ≡ id_of js actions v)
      × (ms ≡ events ++ (response_pack js r ∷ later))
      × (accepts ≡ false → events ≡ [])
      × Answers accepts vs later

  -- One of the values meets the fault of `jvprintf`.
  abbrev pub HasFaulty : List J → Type 0
  HasFaulty [] = ⊥
  HasFaulty (v ∷ vs) = IsFaulty js actions v ⊎ HasFaulty vs

  -- The loop has ended with the values answered, or at one that meets the fault of `jvprintf`. A
  -- client that accepts events does so from then on.
  abbrev pub EachAnswered : List J → Client J → Handled js actions → Type 0
  EachAnswered values c (handled (w, d) e) =
      (ms : List J) × (d.response_queue ≡ c.response_queue ++ ms)
      × Answers d.accept_events values ms
      × (d.accept_events ≡ false → c.accept_events ≡ false)
  EachAnswered values c Handled.fault = HasFaulty values
  EachAnswered values c Handled.out_of_fuel = ⊥

  one_more :
      (v : J) (values : List J) (c d : Client J) (h : Handled js actions)
      → Answered js actions c (id_of js actions v) d
      → EachAnswered values d h
      → EachAnswered (v ∷ values) c h
  one_more v values c d (handled (w, e) x) a (ms, p, l, still) =
      let r = response_pack js a.response ∷ [] in
      (
        a.events ++ (r ++ ms),
        p
            ∙ ap (λ q. q ++ ms) a.queue
            ∙ append_assoc c.response_queue (a.events ++ r) ms
            ∙ ap (λ q. c.response_queue ++ q) (append_assoc a.events r ms),
        (
          a.events,
          a.response,
          ms,
          a.same_id,
          refl,
          λ quiet. a.silent (a.listening (still quiet)),
          l,
        ),
        λ quiet. a.listening (still quiet),
      )
  one_more v values c d Handled.fault a h = inr h
  one_more v values c d Handled.out_of_fuel a h = h

  abbrev Loop : ℕ → Type 0
  Loop fuel =
      (w : W) (c : Client J)
      → length c.read_buffer < fuel
      → EachAnswered (objects fuel c.read_buffer) c (handle_objects js actions fuel (w, c))

  module _ (fuel : ℕ) (ih : Loop fuel) (w : W) (c : Client J) where
    step_object :
        (s : Str) (v : J)
        → length s < fuel
        → (o : Option (State js actions))
        → handle_object js actions (w, record c { read_buffer = s }) v ≡ o
        → EachAnswered
            (v ∷ objects fuel s)
            c
            (elim o [ none ↦ Handled.fault | some t ↦ handle_objects js actions fuel t ])
    step_object s v h none e =
        inl (handle_object-IsFaulty js actions w (record c { read_buffer = s }) v e)
    step_object s v h (some (w', d)) e =
        let a = handle_object-Answered_id js actions w (record c { read_buffer = s }) (w', d) v e in
        one_more v (objects fuel s) (record c { read_buffer = s }) d
          (handle_objects js actions fuel (w', d)) a
          (subst (λ b. EachAnswered (objects fuel b) d (handle_objects js actions fuel (w', d)))
            a.reading (ih w' d (rw a.reading h)))

    step_loaded :
        (b : ℕ) (s : Str) (l : Loaded J)
        → length s < fuel
        → load (b ∷ s) ≡ l
        → EachAnswered
            (objects (suc fuel) (b ∷ s))
            c
            (handle_objects js actions (suc fuel) (w, record c { read_buffer = b ∷ s }))
    unfolding handle_objects objects client_next_object next_from
    step_loaded b s (value v n) h e =
        let left = drop n (b ∷ s) in
        let t = load_takes (b ∷ s) v n e in
        rw (e, handle_objects, objects, client_next_object)
          (step_object left v (omega (arith, t.0, t.1, length-drop n (b ∷ s))) _ refl)
    step_loaded b s premature h e =
        rw (e, handle_objects, objects, client_next_object)
          ([], sym (append-nil c.response_queue), refl, λ quiet. quiet)
    step_loaded b s (invalid m) h e =
        rw (e, handle_objects, objects, client_next_object)
          ([], sym (append-nil c.response_queue), refl, λ quiet. quiet)

    step_buffer :
        (s : Str)
        → length s < suc fuel
        → EachAnswered
            (objects (suc fuel) s)
            c
            (handle_objects js actions (suc fuel) (w, record c { read_buffer = s }))
    unfolding handle_objects objects client_next_object
    step_buffer [] h = ([], sym (append-nil c.response_queue), refl, λ quiet. quiet)
    step_buffer (b ∷ s) h = step_loaded b s (load (b ∷ s)) (omega arith) refl

  -- With more fuel than bytes in the buffer the loop of `recv_ready` ends: it has answered the values
  -- at the start of the buffer by one response each, in their order and with the ids of the
  -- requests, or one of them meets the fault of `jvprintf`, where a value is refused as a request or
  -- its command is refused. There is nothing else among the responses, but for
  -- events where the client accepts these in the end.
  pub handle_objects-EachAnswered :
      (fuel : ℕ) (w : W) (c : Client J)
      → length c.read_buffer < fuel
      → EachAnswered (objects fuel c.read_buffer) c (handle_objects js actions fuel (w, c))
  handle_objects-EachAnswered zero w c h = elim h [ ]
  handle_objects-EachAnswered (suc fuel) w c h =
      step_buffer fuel (handle_objects-EachAnswered fuel) w c c.read_buffer h
