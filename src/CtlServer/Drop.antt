-- ===== src/CtlServer/Drop.antt =====
-- What becomes of the report of an internal error of src/ctl-server.c.
use wayvnc.Prelude.{◌≡◌, refl, [], ◌∷◌, none, some, arith, length, drop, subst, sym}
use wayvnc.Text.{Str, take_all}
use wayvnc.Json.{Json}
use wayvnc.JsonIpc.{response_pack, response_new}
use wayvnc.CtlServer.Client.{
  Client, CmdResponse, accepted, client_enqueue, client_enqueue_internal_error, load_message,
  send_loaded, send_ready, after_send,
}

module _ (js : Json) where
  open js use {J, dump}

  abbrev report : CmdResponse J → J
  report e = response_pack js (response_new js e.code e.content none)

  drop_all : (w : Str) → drop (length w) w ≡ []
  drop_all [] = refl
  drop_all (c ∷ w) = drop_all w

  -- With no message under way, the report is what goes out next, whole, before the client is
  -- dropped.
  pub send_ready-internal_error :
      (c : Client J) (e : CmdResponse J)
      → c.write_buffer ≡ none
      → send_ready js (client_enqueue_internal_error js c e) (accepted (length (dump (report e))))
        ≡ (dump (report e), none)
  unfolding send_ready load_message send_loaded client_enqueue_internal_error client_enqueue
      after_send
  send_ready-internal_error c e idle =
      rw (idle, load_message)
        (rw
          (
            take_all (length (dump (report e))) (dump (report e)) (omega arith),
            drop_all (dump (report e)),
          )
          refl)

  sent_lost :
      (c : Client J) (e : CmdResponse J) (w : Str)
      → send_ready js
          (client_enqueue_internal_error js (record c { write_buffer = some w }) e)
          (accepted (length w))
        ≡ (w, none)
  unfolding send_ready load_message send_loaded client_enqueue_internal_error client_enqueue
      after_send
  sent_lost c e w = rw (take_all (length w) w (omega arith), drop_all w) refl

  -- With another message under way, the client is dropped as soon as that message is out: the
  -- report is never sent.
  pub send_ready-internal_error_lost :
      (c : Client J) (e : CmdResponse J) (w : Str)
      → c.write_buffer ≡ some w
      → send_ready js (client_enqueue_internal_error js c e) (accepted (length w)) ≡ (w, none)
  send_ready-internal_error_lost c e w busy =
      subst
        (λ b.
          send_ready js (client_enqueue_internal_error js (record c { write_buffer = b }) e)
            (accepted (length w))
          ≡ (w, none))
        (sym busy) (sent_lost c e w)
