-- ===== src/CtlServer/Requests.antt =====
-- Every request of a control client of src/ctl-server.c gets one response.
use wayvnc.Prelude.{
  ◌≡◌, ◌≢◌, refl, sym, ap, ◌∙◌, ◌⊎◌, inl, inr, Bool, true, false, List, [], ◌∷◌, ◌++◌, Option, none,
  some, Option-cases, append-nil, append_assoc, subst, if◌then◌else◌, arith,
}
use mathlib.Core.Option
use mathlib.Core.Option.{some-injective}
use wayvnc.Json.{Json}
use wayvnc.JsonIpc.{
  Request, Response, Error, Result, ok, err, request_parse_new, response_pack, response_new,
  error_response_new,
}
use wayvnc.CtlServer.Commands.{Cmd, cmd_help, cmd, parse_command}
use wayvnc.CtlCommands.{detach, output_cycle, wayvnc_exit, CmdType}
use wayvnc.CtlServer.Client.{
  Client, CmdResponse, fifo, client_enqueue, enqueue_response, client_enqueue_error,
}
use wayvnc.CtlServer.Receive.{
  notify, act, Actions, dispatch_plain, dispatch_cmd, State, answer, handle_request, handle_object,
}

module _ (js : Json) {W : Type 0} (actions : Actions js.J W) where
  open js use {J, load, load_takes}

  none≢some : {A : Type 0} (a : A) → none ≢ some a
  none≢some a e = cc

  true_is_not_false : true ≢ false
  true_is_not_false e = cc

  -- The client's queue has got a packed response with this id, after events if it accepts them.
  pub record Answered (c : Client J) (id : Option J) (d : Client J) : Type 0 where
    pub response : Response J
    pub events : List J
    pub silent : c.accept_events ≡ false → events ≡ []
    pub same_id : response.id ≡ id
    pub queue : d.response_queue ≡ c.response_queue ++ (events ++ response_pack js response ∷ [])
    pub reading : d.read_buffer ≡ c.read_buffer
    pub writing : d.write_buffer ≡ c.write_buffer
    pub dropping : d.drop_after_next_send ≡ c.drop_after_next_send
    pub listening : d.accept_events ≡ false → c.accept_events ≡ false

  enqueue_error-Answered :
      (c : Client J) (e : Error J) (id : Option J) → Answered c id (client_enqueue_error js c e id)
  unfolding client_enqueue_error client_enqueue error_response_new response_new
  enqueue_error-Answered c e id = record {
    response = error_response_new js e id;
    events = [];
    silent = λ e. refl;
    same_id = refl;
    queue = refl;
    reading = refl;
    writing = refl;
    dropping = refl;
    listening = λ q. q;
  }

  -- A command adds at most events to the client's queue, and changes no buffer.
  pub record Told (c d : Client J) : Type 0 where
    pub events : List J
    pub silent : c.accept_events ≡ false → events ≡ []
    pub queue : d.response_queue ≡ c.response_queue ++ events
    pub reading : d.read_buffer ≡ c.read_buffer
    pub writing : d.write_buffer ≡ c.write_buffer
    pub dropping : d.drop_after_next_send ≡ c.drop_after_next_send
    pub listening : d.accept_events ≡ false → c.accept_events ≡ false

  Told-nothing :
      (c d : Client J)
      → d.response_queue ≡ c.response_queue
      → d.read_buffer ≡ c.read_buffer
      → d.write_buffer ≡ c.write_buffer
      → d.drop_after_next_send ≡ c.drop_after_next_send
      → (d.accept_events ≡ false → c.accept_events ≡ false)
      → Told c d
  Told-nothing c d q r w f l = record {
    events = [];
    silent = λ e. refl;
    queue = q ∙ sym (append-nil c.response_queue);
    reading = r;
    writing = w;
    dropping = f;
    listening = l;
  }

  Told-enqueue :
      (c : Client J) (m : J) (d : Client J)
      → c.accept_events ≡ true
      → Told (client_enqueue c m fifo) d
      → Told c d
  unfolding client_enqueue
  Told-enqueue c m d accepts t = record {
    events = m ∷ t.events;
    silent = λ quiet. absurd (true_is_not_false (sym accepts ∙ quiet));
    queue = t.queue ∙ append_assoc c.response_queue (m ∷ []) t.events;
    reading = t.reading;
    writing = t.writing;
    dropping = t.dropping;
    listening = t.listening;
  }

  Told-choice :
      (c d e : Client J) (b : Bool)
      → (c.accept_events ≡ true → Told c d)
      → Told c e
      → c.accept_events ≡ b
      → Told c (if b then d else e)
  Told-choice c d e true accepting quiet h = accepting h
  Told-choice c d e false accepting quiet h = quiet

  notify-Told : (c : Client J) (ms : List J) → Told c (notify js actions c ms)
  unfolding notify
  notify-Told c [] = Told-nothing c c refl refl refl refl (λ q. q)
  notify-Told c (m ∷ ms) =
      Told-choice c _ _ c.accept_events
        (λ accepts. Told-enqueue c m _ accepts (notify-Told (client_enqueue c m fifo) ms))
        (notify-Told c ms) refl

  act-Told : (c : Client J) (r : CmdResponse J × List J × W) → Told c (act js actions c r).2
  unfolding act
  act-Told c (response, events, w) = notify-Told c events

  dispatch_plain-Told :
      (w : W) (c : Client J) (t : CmdType) → Told c (dispatch_plain js actions w c t).2
  unfolding dispatch_plain
  dispatch_plain-Told w c detach = act-Told c _
  dispatch_plain-Told w c wayvnc_exit = act-Told c _
  dispatch_plain-Told w c output_cycle = act-Told c _
  dispatch_plain-Told w c _ = Told-nothing c _ refl refl refl refl (λ q. ground (arith, q))

  pub dispatch_cmd-Told :
      (w : W) (c : Client J) (k : Cmd) → Told c (dispatch_cmd js actions w c k).2
  unfolding dispatch_cmd
  dispatch_cmd-Told w c (cmd t) = dispatch_plain-Told w c t
  dispatch_cmd-Told w c (cmd_help i b) = Told-nothing c c refl refl refl refl (λ q. q)
  dispatch_cmd-Told w c _ = act-Told c _

  Told-Answered :
      (c d : Client J) (r : CmdResponse J) (id : Option J)
      → Told c d
      → Answered c id (enqueue_response js d r id fifo)
  unfolding enqueue_response client_enqueue response_new
  Told-Answered c d r id t = record {
    response = response_new js r.code r.content id;
    events = t.events;
    silent = t.silent;
    same_id = refl;
    queue =
        ap (λ q. q ++ response_pack js (response_new js r.code r.content id) ∷ []) t.queue
        ∙ append_assoc c.response_queue t.events
            (response_pack js (response_new js r.code r.content id) ∷ []);
    reading = t.reading;
    writing = t.writing;
    dropping = t.dropping;
    listening = t.listening;
  }

  answer-Answered :
      (w : W) (c : Client J) (r : Request J) (k : Result J Cmd)
      → Answered c r.id (answer js actions (w, c) r k).1
  unfolding answer
  answer-Answered w c r (err e) = enqueue_error-Answered c e r.id
  answer-Answered w c r (ok k) =
      let d = (dispatch_cmd js actions w c k).2 in
      let a = (dispatch_cmd js actions w c k).0 in
      Told-Answered c d a r.id (dispatch_cmd-Told w c k)

  pub handle_object_lem :
      (s : State js actions) (root : J) (r : Request J) (k : Option (Result J Cmd))
      → request_parse_new js root ≡ some (ok r)
      → parse_command js r ≡ k
      → handle_object js actions s root ≡ Option.map (answer js actions s r) k
  unfolding handle_object handle_request
  handle_object_lem (w, c) root r none p q = rw (p, handle_object) (rw (q, handle_request) refl)
  handle_object_lem (w, c) root r (some k) p q = rw (p, handle_object) (rw (q, handle_request) refl)

  -- A value that is parsed as a request, and whose handling returns, without the fault of `jvprintf`
  -- on a long unknown command, is answered by one response, which carries the request's id and
  -- is enqueued behind all others, whatever the command and its outcome. Only a client that
  -- accepts events may get some before it. Nothing else of the client's buffers changes.
  pub handle_object-Answered :
      (w : W) (c : Client J) (root : J) (r : Request J) {t : State js actions}
      → request_parse_new js root ≡ some (ok r)
      → handle_object js actions (w, c) root ≡ some t
      → Answered c r.id t.1
  handle_object-Answered w c root r {t} parsed e = elim (Option-cases (parse_command js r)) [
    | inl p ↦ absurd (none≢some t (sym (handle_object_lem (w, c) root r none parsed p) ∙ e))
    | inr (k, p) ↦
        subst (λ (u : State js actions). Answered c r.id u.1)
          (some-injective _ _ (sym (handle_object_lem (w, c) root r (some k) parsed p) ∙ e))
          (answer-Answered w c r k)
  ]

  handle_object-none :
      (s : State js actions) (root : J)
      → request_parse_new js root ≡ none
      → handle_object js actions s root ≡ none
  unfolding handle_object
  handle_object-none s root p = rw (p, handle_object) refl

  handle_object_err :
      (w : W) (c : Client J) (root : J) (x : Error J)
      → request_parse_new js root ≡ some (err x)
      → handle_object js actions (w, c) root ≡ some (w, client_enqueue_error js c x none)
  unfolding handle_object handle_request
  handle_object_err w c root x p = rw (p, handle_object) refl

  abbrev pub parsed_id : Option (Result J (Request J)) → Option J
  parsed_id (some (ok r)) = r.id
  parsed_id (some (err x)) = none
  parsed_id none = none

  -- The id that the response to a value has to carry.
  abbrev pub id_of : J → Option J
  id_of root = parsed_id (request_parse_new js root)

  pub handle_object-Answered_id :
      (w : W) (c : Client J) (t : State js actions) (root : J)
      → handle_object js actions (w, c) root ≡ some t
      → Answered c (id_of root) t.1
  handle_object-Answered_id w c t root e = go (request_parse_new js root) refl
    where
      go :
          (r : Option (Result J (Request J)))
          → request_parse_new js root ≡ r
          → Answered c (parsed_id r) t.1
      go none p = absurd (none≢some t (sym (handle_object-none (w, c) root p) ∙ e))
      go (some (err x)) p =
          subst (λ (u : State js actions). Answered c none u.1)
            (some-injective _ _ (sym (handle_object_err w c root x p) ∙ e))
            (enqueue_error-Answered c x none)
      go (some (ok r)) p = handle_object-Answered w c root r p e

  -- A value on which `jvprintf` meets its fault: one that is refused as a request, or a request
  -- that is refused as a command.
  abbrev pub IsFaulty : J → Type 0
  IsFaulty root =
      (request_parse_new js root ≡ none)
      ⊎ ((r : Request J) × (request_parse_new js root ≡ some (ok r)) × (parse_command js r ≡ none))

  pub handle_object-IsFaulty :
      (w : W) (c : Client J) (root : J)
      → handle_object js actions (w, c) root ≡ none
      → IsFaulty root
  handle_object-IsFaulty w c root e = go (request_parse_new js root) refl
    where
      go : (r : Option (Result J (Request J))) → request_parse_new js root ≡ r → IsFaulty root
      go none p = inl p
      go (some (err x)) p = absurd (none≢some _ (sym e ∙ handle_object_err w c root x p))
      go (some (ok r)) p = elim (Option-cases (parse_command js r)) [
        | inl q ↦ inr (r, p, q)
        | inr (k, q) ↦ absurd (none≢some _ (sym e ∙ handle_object_lem (w, c) root r (some k) p q))
      ]
