-- ===== src/CtlClient/Together.antt =====
-- A command of src/ctl-client.c and its answer by src/ctl-server.c.
use wayvnc.Prelude.{
  ℕ, zero, suc, ◌≤◌, ◌≡◌, refl, sym, ap, ◌∙◌, ◌⊎◌, inl, inr, subst, true, false, List, [], ◌∷◌,
  ◌++◌, none, some, length, arith, drop, length-append, ap₂, append-nil,
}
use wayvnc.Text.{Str, take_all}
use wayvnc.Json.{Json, value}
use wayvnc.JsonIpc.{
  Request, Response, ok, is_valid_id, request_pack, response_pack, response_new, response_parse_new,
}
use wayvnc.JsonIpc.Laws.{request_parse_new-request_pack, response_parse_new-response_pack}
use wayvnc.CtlCommands.{CmdType}
use wayvnc.CtlServer.Commands.{Cmd, parse_command}
use wayvnc.CtlServer.Client.{
  Client, new_client, enqueue_response, client_enqueue, fifo, client_set_aml_event_mask,
}
use wayvnc.CtlServer.Input.{
  received, client_next_object, no_object, object_, next_from, client_read, data_,
}
use wayvnc.CtlServer.Receive.{
  Actions, Answer, alive, dispatch_cmd, handle_object, handle_objects, handled, finish, recv_ready,
  answer, State,
}
use wayvnc.CtlServer.Requests.{Told, dispatch_cmd-Told, handle_object_lem}
use wayvnc.CtlServer.Delivery.{pending, bytes, under_way}
use wayvnc.CtlClient.Reading.{OneObject, waiting, null, Link, Poll, read_size, read_one_object}
use wayvnc.CtlClient.Whole.{Delivers, read_one_object-Delivers}
use wayvnc.CtlClient.Framed.{IsFramed, IsBroken, Quiet, receives}
use wayvnc.CtlClient.Run.{
  Reply, reply, send_request, run_single_command, wait_for_response, response_of,
  print_single_command, single_result,
}

drop-all : (s : Str) → drop (length s) s ≡ []
drop-all [] = refl
drop-all (c ∷ s) = drop-all s

module _ (js : Json) where
  open js use {J, dump, load, load_takes}

  next_value :
      (c : Client J) (b : Str) (v : J) (n : ℕ)
      → load b ≡ value v n
      → client_next_object js (record c { read_buffer = b })
        ≡ object_ v (record c { read_buffer = drop n b })
  unfolding client_next_object next_from
  next_value c [] v n e = absurd (omega (arith, (load_takes [] v n e).0, (load_takes [] v n e).1))
  next_value c (x ∷ b) v n e = rw (client_next_object, e) refl

  next_none : (c : Client J) → c.read_buffer ≡ [] → client_next_object js c ≡ no_object
  unfolding client_next_object
  next_none c e = ap (λ b. client_next_object js (record c { read_buffer = b })) e

  response_back :
      (a : Response J) (x : J) (k : Link) (later : List Poll)
      → x ≡ response_pack js a
      → is_valid_id js a.id ≡ true
      → response_of js (OneObject.object_ x k later) ≡ reply a k later
  unfolding response_of
  response_back a x k later e v =
      rw (response_of, ap (response_parse_new js) e ∙ response_parse_new-response_pack js a v) refl

  sent :
      (r : Request J)
      → length (dump (request_pack js r)) ≤ 512
      → send_request js r ≡ some (dump (request_pack js r))
  unfolding send_request
  sent r fits = ground (arith, fits)

  run-sent :
      (r : Request J) (l : Link) (ps : List Poll)
      → length (dump (request_pack js r)) ≤ 512
      → run_single_command js r none l ps ≡ response_of js (read_one_object js l ps)
  unfolding run_single_command wait_for_response
  run-sent r l ps fits = rw (sent r fits, run_single_command) refl

  module _ {W : Type 0} (actions : Actions J W) (w : W) (r : Request J) (c : Cmd) where
    abbrev pub result : Answer js actions
    result = dispatch_cmd js actions w new_client c

    abbrev pub response : J
    response = response_pack js (response_new js result.0.code result.0.content r.id)

    abbrev pub client_after : Client J
    client_after = enqueue_response js result.2 result.0 r.id fifo

    told : Told js actions new_client result.2
    told = dispatch_cmd-Told js actions w new_client c

    no_events : result.2.response_queue ≡ []
    unfolding new_client
    no_events = told.queue ∙ told.silent refl

    pending-response : pending js client_after ≡ dump response
    unfolding enqueue_response client_enqueue client_set_aml_event_mask pending new_client
    pending-response =
        ap₂ (λ u q. under_way js u ++ bytes js (q ++ response ∷ [])) told.writing no_events
        ∙ append-nil (dump response)

    step :
        (fuel : ℕ) (u : W) (b d : Client J) (v : J) (t : State js actions)
        → client_next_object js b ≡ object_ v d
        → handle_object js actions (u, d) v ≡ some t
        → handle_objects js actions (suc fuel) (u, b) ≡ handle_objects js actions fuel t
    unfolding handle_objects
    step fuel u b d v t p q = rw (handle_objects, p) (rw q refl)

    last :
        (fuel : ℕ) (u : W) (b : Client J)
        → client_next_object js b ≡ no_object
        → handle_objects js actions (suc fuel) (u, b) ≡ handled (u, b) none
    unfolding handle_objects
    last fuel u b p = rw (handle_objects, p) refl

    answered :
        (fuel : ℕ)
        → parse_command js r ≡ some (ok c)
        → js.is_utf8 r.method ≡ true
        → is_valid_id js r.id ≡ true
        → load (dump (request_pack js r))
          ≡ value (request_pack js r) (length (dump (request_pack js r)))
        → handle_objects js actions
            (suc (suc fuel))
            (w, record new_client { read_buffer = dump (request_pack js r) })
          ≡ handled (result.1, client_after) none
    unfolding answer new_client enqueue_response client_enqueue client_set_aml_event_mask
    answered fuel p utf8 v e =
        step (suc fuel) w _ new_client (request_pack js r) (result.1, client_after)
          (next_value new_client _ _ _ e
            ∙ ap (λ b. object_ (request_pack js r) (record new_client { read_buffer = b }))
                (drop-all (dump (request_pack js r))))
          (handle_object_lem js actions (w, new_client) (request_pack js r) r (some (ok c))
            (request_parse_new-request_pack js r utf8 v) p)
        ∙ last fuel result.1 client_after (next_none client_after told.reading)

    received_whole :
        length (dump (request_pack js r)) ≤ 512
        → client_read js new_client (received (dump (request_pack js r)))
          ≡ data_ (record new_client { read_buffer = dump (request_pack js r) })
    unfolding client_read new_client
    received_whole fits =
        ap (λ s. data_ (record new_client { read_buffer = s }))
          (take_all 512 (dump (request_pack js r)) fits)

    server_side :
        load (dump (request_pack js r))
          ≡ value (request_pack js r) (length (dump (request_pack js r)))
        → length (dump (request_pack js r)) ≤ 512
        → parse_command js r ≡ some (ok c)
        → js.is_utf8 r.method ≡ true
        → is_valid_id js r.id ≡ true
        → recv_ready js actions (w, new_client) (received (dump (request_pack js r)))
          ≡ alive (result.1, client_after)
    unfolding recv_ready finish
    server_side loaded fits p utf8 v = rw (received_whole fits, recv_ready) (go (length s) refl)
      where
        s : Str
        s = dump (request_pack js r)

        go :
            (n : ℕ)
            → length s ≡ n
            → finish js actions
                (handle_objects js actions (suc n) (w, record new_client { read_buffer = s }))
              ≡ alive (result.1, client_after)
        go zero e = absurd (omega (arith, e, (load_takes s _ _ loaded).0))
        go (suc n) e = ap (finish js actions) (answered n p utf8 v loaded)

    -- The connection of the client, with the response in the socket.
    abbrev pub link : Link
    link = record { read_buffer = []; wait_for_events = false; stream = dump response }

    -- The client returns the code, or it returns 1, where the part of the response that it has
    -- read is invalid.
    abbrev pub IsStatus : Reply ℕ → Type 0
    IsStatus (reply code k later) =
        (code ≡ result.0.code) ⊎ ((code ≡ 1) × IsBroken js response k.read_buffer)
    IsStatus _ = ⊥

    module _ (cmd : CmdType) (framed : IsFramed js response) (ps : List Poll) where
      read_response :
          (o : OneObject J)
          → is_valid_id js r.id ≡ true
          → length (dump response) ≤ receives ps
          → Delivers js response [] framed link ps o
          → IsStatus (single_result js cmd (response_of js o))
      unfolding response_of single_result response_new
      read_response (waiting k) v enough (same, short, w_same, moved) = absurd (
          omega (
            arith,
            ap length same,
            length-append k.read_buffer k.stream,
            ap length (append-nil (dump response)),
          ))
      read_response (null errno k later) v enough (bad, broken, same) = rw bad (inr (refl, broken))
      read_response (OneObject.object_ x k later) v enough d = subst IsStatus (sym same) (inl refl)
        where
          same :
              single_result js cmd (response_of js (OneObject.object_ x k later))
              ≡ reply result.0.code k later
          same =
              ap (single_result js cmd) (
                response_back (response_new js result.0.code result.0.content r.id) x k later d.0 v)

      client_side :
          is_valid_id js r.id ≡ true
          → length (dump (request_pack js r)) ≤ 512
          → length (dump response) ≤ read_size
          → length (dump response) ≤ receives ps
          → Quiet false ps
          → IsStatus (print_single_command js cmd r none link ps)
      unfolding print_single_command
      client_side v fits small enough q =
          subst IsStatus (ap (single_result js cmd) (sym (run-sent r link ps fits))) (
            read_response (read_one_object js link ps) v enough (
              read_one_object-Delivers js response [] framed link ps small
                (sym (append-nil (dump response))) (omega arith) q))

      -- A request that the client makes of a command which the server takes, received by the
      -- server in one piece: the server, with a new connection, performs the command, and what
      -- it then has to send is one response with its code; with these bytes in the socket, and no
      -- stop, failure or timeout, the client returns this code as its status; or it returns 1, and
      -- then what it has read is a part of the response that the parser takes for invalid. Where
      -- the parser waits at every part of the response, `recv` may cut it anywhere. The request
      -- fits 512 bytes and the response 1024, the method is UTF-8, the parser of the other side
      -- takes them whole, and no part of the response is a value.
      pub code-IsStatus :
          load (dump (request_pack js r))
            ≡ value (request_pack js r) (length (dump (request_pack js r)))
          → length (dump (request_pack js r)) ≤ 512
          → parse_command js r ≡ some (ok c)
          → js.is_utf8 r.method ≡ true
          → is_valid_id js r.id ≡ true
          → length (dump response) ≤ read_size
          → length (dump response) ≤ receives ps
          → Quiet false ps
          → (recv_ready js actions (w, new_client) (received (dump (request_pack js r)))
              ≡ alive (result.1, client_after))
            × (pending js client_after ≡ dump response)
            × IsStatus (print_single_command js cmd r none link ps)
      code-IsStatus loaded fits p utf8 v small enough q =
          (server_side loaded fits p utf8 v, pending-response, client_side v fits small enough q)
