-- ===== src/Clipboard/Tests.antt =====
-- The clipboard of src/data-control.c on concrete inputs.
use wayvnc.Prelude.{ℕ, ◌≡◌, refl, true, false, List, [], ◌∷◌, none, some, map, arith, ap}
use wayvnc.JsonIpc.{text}
use wayvnc.Clipboard.{Read, bytes, Write, accepted, finished, receive_all, Control}
use wayvnc.Clipboard.Transfer.{receive_all-at_end, send_text, IsSent, send_text-IsSent}
use wayvnc.Clipboard.Offers.{Round, rounds, wanted, rounds-wanted}

abbrev reads : List Read
reads = bytes (text "he") true ∷ Read.again ∷ bytes (text "llo") true ∷ bytes [] true ∷ []

receive_all-at_end_example : receive_all [] reads ≡ finished (some (text "hello"))
receive_all-at_end_example = receive_all-at_end [] reads

send_text-IsSent_example :
    IsSent
      (text "hello")
      (send_text (text "hello") (accepted 2) (Write.again ∷ accepted 1 ∷ accepted 9 ∷ []))
send_text-IsSent_example =
    send_text-IsSent (text "hello") (accepted 2) (Write.again ∷ accepted 1 ∷ accepted 9 ∷ [])

abbrev idle : Control
idle = record {
  offer = none;
  is_own_offer = false;
  mime_type = text "text/plain;charset=utf-8";
  custom_mime_type_name = text "x-wayvnc-client-0000002a";
  cb_data = none;
  selection = none;
  primary_selection = none;
}

abbrev offered : List Round
offered =
    record { id = 3; types = text "text/html" ∷ text "text/plain;charset=utf-8" ∷ [] }
    ∷ record {
      id = 4;
      types = text "text/plain;charset=utf-8" ∷ text "x-wayvnc-client-0000002a" ∷ [];
    }
    ∷ []

abbrev first_byte : List ℕ → ℕ
first_byte [] = 0
first_byte (c ∷ s) = c

rounds-wanted_example :
    rounds offered idle ≡ (map (λ (r : Round). (wanted idle r, some r.id)) offered, idle)
rounds-wanted_example =
    rounds-wanted offered idle (λ e. omega (arith, ap first_byte e)) (refl, refl)
