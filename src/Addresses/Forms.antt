-- ===== src/Addresses/Forms.antt =====
-- The forms of an address that src/main.c reads, each as a user writes it.
use wayvnc.Prelude.{
  ℕ, ◌≤◌, ◌≡◌, ◌≢◌, refl, Bool, false, [], ◌∷◌, ◌++◌, ◌==◌, ltb, length, none, arith, ap, ◌∙◌,
  Bool-cases, inl, inr,
}
use wayvnc.Prelude.Int.{ℤ}
use wayvnc.Text.{Str, cut_at, take_all, Without, cut_at-append}
use wayvnc.JsonIpc.{text}
use wayvnc.Addresses.{
  SocketType, StreamType, normal, websocket, Listen, listen_tcp, listen_unix, listen_fd, is_prefix,
  colon, open_bracket, close_bracket, count_colons_in_string, parse_address_prefix,
  parse_address_port, port_of, after_bracket, bracketed, at_colon, unbracketed, listen_on,
  listening_address, with_port,
}

-- A host or a path with what stands around it; the port comes as its text and its value.
pub data Address : Type 0 where
  host_port : StreamType → (host port_text : Str) → (port : ℕ) → Address
  bracket_port : StreamType → (host port_text : Str) → (port : ℕ) → Address
  bare : StreamType → (host : Str) → Address
  path : StreamType → Str → Address
  descriptor : StreamType → Str → Address

abbrev pub print : Address → Str
print (host_port normal h t p) = text "tcp:" ++ (h ++ colon ∷ t)
print (host_port websocket h t p) = text "ws:" ++ (h ++ colon ∷ t)
print (bracket_port normal h t p) = text "tcp:" ++ (open_bracket ∷ (h ++ close_bracket ∷ colon ∷ t))
print (bracket_port websocket h t p) =
    text "ws:" ++ (open_bracket ∷ (h ++ close_bracket ∷ colon ∷ t))
print (bare normal h) = text "tcp:" ++ h
print (bare websocket h) = text "ws:" ++ h
print (path normal s) = text "unix:" ++ s
print (path websocket s) = text "ws-unix:" ++ s
print (descriptor normal s) = text "fd:" ++ s
print (descriptor websocket s) = text "ws-fd:" ++ s

abbrev starts_with_bracket : Str → Bool
starts_with_bracket [] = false
starts_with_bracket (c ∷ s) = c == open_bracket

module _ (atoi : Str → ℤ) where
  -- A host with a port has no colon unless it stands in brackets; a host without one has none, or is
  -- an IPv6 address with more than one. A port is not zero.
  abbrev pub IsWritten : Address → Type 0
  IsWritten (host_port s h t p) =
      (starts_with_bracket h ≡ false)
      × Without colon h
      × Without colon t
      × (port_of atoi t ≡ p)
      × ((p == 0) ≡ false)
  IsWritten (bracket_port s h t p) =
      Without close_bracket h × (port_of atoi t ≡ p) × ((p == 0) ≡ false)
  IsWritten (bare s h) = (starts_with_bracket h ≡ false) × (count_colons_in_string h ≢ 1)
  IsWritten (path s t) = Unit
  IsWritten (descriptor s t) = Unit

  -- What is to be listened on.
  abbrev pub target : ℕ → Address → Listen
  target default (host_port s h t p) = listen_tcp h p s
  target default (bracket_port s h t p) = listen_tcp h p s
  target default (bare s h) = listen_tcp h default s
  target default (path s t) = listen_unix t s
  target default (descriptor s t) = listen_fd (atoi t) s

  count-Without : (h : Str) → Without colon h → count_colons_in_string h ≡ 0
  unfolding count_colons_in_string
  count-Without [] w = refl
  count-Without (c ∷ h) w = ground (arith, count-Without h w.1, w.0)

  count-one :
      (h t : Str) → Without colon h → Without colon t → count_colons_in_string (h ++ colon ∷ t) ≡ 1
  unfolding count_colons_in_string
  count-one [] t w v = ground (arith, count-Without t v)
  count-one (c ∷ h) t w v = ground (arith, count-one h t w.1 v, w.0)

  none_found : (h : Str) → count_colons_in_string h ≡ 0 → cut_at colon h ≡ (h, none)
  unfolding count_colons_in_string cut_at
  none_found [] e = refl
  none_found (c ∷ h) e = ground (arith, none_found h)

  unbracketed_lem :
      (h : Str) → starts_with_bracket h ≡ false → parse_address_port atoi h ≡ unbracketed atoi h
  unfolding parse_address_port
  unbracketed_lem [] e = refl
  unbracketed_lem (c ∷ h) e = rw e refl

  starts-append :
      (h t : Str) → starts_with_bracket h ≡ false → starts_with_bracket (h ++ colon ∷ t) ≡ false
  starts-append [] t e = refl
  starts-append (c ∷ h) t e = e

  host_lem :
      (h t : Str)
      → starts_with_bracket h ≡ false
      → Without colon h
      → Without colon t
      → parse_address_port atoi (h ++ colon ∷ t) ≡ (h, port_of atoi t)
  unfolding unbracketed at_colon
  host_lem h t s w v =
      unbracketed_lem (h ++ colon ∷ t) (starts-append h t s)
      ∙ rw (count-one h t w v, cut_at-append colon h t w) refl

  bracket_lem :
      (h t : Str)
      → Without close_bracket h
      → parse_address_port atoi (open_bracket ∷ (h ++ close_bracket ∷ colon ∷ t))
        ≡ (h, port_of atoi t)
  unfolding parse_address_port bracketed after_bracket cut_at
  bracket_lem h t w = rw (cut_at-append close_bracket h (colon ∷ t) w) refl

  bare_lem :
      (h : Str)
      → starts_with_bracket h ≡ false
      → count_colons_in_string h ≢ 1
      → parse_address_port atoi h ≡ (h, 0)
  unfolding unbracketed at_colon
  bare_lem h s n = unbracketed_lem h s ∙ elim (Bool-cases (ltb 1 (count_colons_in_string h))) [
    | inl e ↦ rw e refl
    | inr e ↦ rw (e, none_found h (ground (arith, e, n))) refl
  ]

  listening_address-short :
      (s : Str) (d : ℕ) (k : SocketType) (st : StreamType)
      → length s ≤ 255
      → listening_address atoi s d k st ≡ listen_on atoi d (parse_address_prefix s k st)
  unfolding listening_address
  listening_address-short s d k st l = rw (take_all 255 s l) refl

  listen_on-print :
      (a : Address) (d : ℕ) (k : SocketType) (st : StreamType)
      → IsWritten a
      → listen_on atoi d (parse_address_prefix (print a) k st) ≡ target d a
  unfolding parse_address_prefix is_prefix listen_on
  listen_on-print (host_port normal h t p) d k s w = rw (host_lem h t w.0 w.1 w.2, w.3, w.4) refl
  listen_on-print (host_port websocket h t p) d k s w = rw (host_lem h t w.0 w.1 w.2, w.3, w.4) refl
  listen_on-print (bracket_port normal h t p) d k s w = rw (bracket_lem h t w.0, w.1, w.2) refl
  listen_on-print (bracket_port websocket h t p) d k s w = rw (bracket_lem h t w.0, w.1, w.2) refl
  listen_on-print (bare normal h) d k s w = ap (with_port atoi d normal) (bare_lem h w.0 w.1)
  listen_on-print (bare websocket h) d k s w = ap (with_port atoi d websocket) (bare_lem h w.0 w.1)
  listen_on-print (path normal t) d k s w = refl
  listen_on-print (path websocket t) d k s w = refl
  listen_on-print (descriptor normal t) d k s w = refl
  listen_on-print (descriptor websocket t) d k s w = refl

  -- An address in one of the forms, of at most 255 bytes, is listened on as it is meant, whatever
  -- the default types are.
  pub listening_address-print :
      (a : Address) (default : ℕ) (socket : SocketType) (stream : StreamType)
      → IsWritten a
      → length (print a) ≤ 255
      → listening_address atoi (print a) default socket stream ≡ target default a
  listening_address-print a default socket stream w l =
      listening_address-short (print a) default socket stream l
      ∙ listen_on-print a default socket stream w
