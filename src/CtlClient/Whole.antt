-- ===== src/CtlClient/Whole.antt =====
-- Messages arrive whole at src/ctl-client.c, where the parser waits for the rest of their parts.
use wayvnc.Prelude.{
  ℕ, ◌+◌, ◌-◌, ◌≤◌, ◌<◌, ◌≡◌, ◌≢◌, refl, sym, ap, ◌∙◌, ◌⊎◌, inl, inr, true, false, List, [], ◌∷◌,
  ◌++◌, length, length-append, take, drop, take-append-drop, length-take, length-drop, ◌==◌,
  append_assoc, arith, subst, min,
}
use wayvnc.Text.{Str}
use wayvnc.Json.{Json, Loaded, value, premature, invalid}
use wayvnc.JsonIpc.{einval}
use wayvnc.CtlClient.Reading.{
  eagain, read_size, Link, Poll, interrupted, poll_failed, timed_out, recv_failed, readable,
  capacity, Found, found, nothing, OneObject, object_, null, waiting, advance_read_buffer, found_in,
  json_from_buffer, read_loop, read_one_object,
}
use wayvnc.CtlClient.Framed.{
  IsPart, IsFramed, IsBroken, Quiet, receives, split_at, le_or_lt, drop-append, wait_on,
}

module _ (js : Json) (m : js.J) (rest : Str) (framed : IsFramed js m) where
  open js use {J, dump, load, load_takes}

  -- What `json_from_buffer` makes of a buffer that begins the message and the rest: the message if
  -- all of it is there.
  abbrev Seen : Str → Str → Found J → Type 0
  Seen b s (found v left) = (v ≡ m) × (left ++ s ≡ rest) × (length left < length b)
  Seen b s (nothing errno) =
      ((errno ≡ eagain) ⊎ ((errno ≡ einval) × IsBroken js m b)) × (length b < length (dump m))

  dump-nonempty : 1 ≤ length (dump m)
  dump-nonempty = (load_takes (dump m ++ []) m (length (dump m)) (framed.whole [])).0

  all-Seen :
      (b s left : Str) → b ≡ dump m ++ left → left ++ s ≡ rest → Seen b s (json_from_buffer js b)
  unfolding json_from_buffer found_in advance_read_buffer
  all-Seen [] s left e q =
      absurd (omega (arith, dump-nonempty, length-append (dump m) left, ap length e))
  all-Seen (c ∷ b) s left e q =
      rw (json_from_buffer, ap load e ∙ framed.whole left)
        (
          refl,
          ap (λ t. t ++ s) kept ∙ q,
          omega (
            arith,
            dump-nonempty,
            length-drop (length (dump m)) (c ∷ b),
            ap length e,
            length-append (dump m) left,
          ),
        )
    where
      kept : drop (length (dump m)) (c ∷ b) ≡ left
      kept = ap (drop (length (dump m))) e ∙ drop-append (dump m) left

  part-Seen :
      (b s more : Str)
      → b ++ more ≡ dump m
      → more ≢ []
      → length (dump m) ≤ read_size
      → length b < length (dump m)
      → Seen b s (json_from_buffer js b)
  unfolding json_from_buffer found_in
  part-Seen [] s more e n small h = (inl refl, h)
  part-Seen (c ∷ b) s more e n small h =
      go (load (c ∷ b)) refl (framed.part (c ∷ b) more e (λ e. cc) n)
    where
      go : (x : Loaded J) → load (c ∷ b) ≡ x → IsPart x → Seen (c ∷ b) s (found_in js (c ∷ b) x)
      go (value v k) same p = elim p [ ]
      go premature same p = (inl (ground (arith, h, small)), h)
      go (invalid message) same p = (inr (refl, (more, message, e, n, same)), h)

  seen :
      (b s : Str)
      → b ++ s ≡ dump m ++ rest
      → length (dump m) ≤ read_size
      → Seen b s (json_from_buffer js b)
  seen b s e small = elim (le_or_lt (length (dump m)) (length b)) [
    | inl h ↦ let (left, p, q) = split_at b s (dump m) rest e h in all-Seen b s left p q
    | inr h ↦
        let (more, p, q) = split_at (dump m) rest b s (sym e) (omega arith) in
        part-Seen b s more (sym p)
          (λ n. omega (arith, h, ap length p, length-append b more, ap length n)) small h
  ]

  -- The message, and behind it the rest; or the wait for more of it; or EINVAL, where the parser
  -- takes the part of it that is in the buffer for invalid, and all is kept. Each round that delivers has taken at least one byte from the
  -- socket.
  abbrev pub Delivers : Link → List Poll → OneObject J → Type 0
  Delivers l ps (object_ v l' ps') =
      (v ≡ m)
      × (l'.read_buffer ++ l'.stream ≡ rest)
      × (length l'.read_buffer ≤ read_size)
      × (l'.wait_for_events ≡ l.wait_for_events)
      × Quiet l.wait_for_events ps'
      × (length l'.stream + receives ps ≤ length l.stream + receives ps')
      × (length l'.read_buffer + length l'.stream < length l.read_buffer + length l.stream)
  Delivers l ps (waiting l') =
      (l'.read_buffer ++ l'.stream ≡ dump m ++ rest)
      × (length l'.read_buffer < length (dump m))
      × (l'.wait_for_events ≡ l.wait_for_events)
      × (length l'.stream + receives ps ≤ length l.stream)
  Delivers l ps (null errno l' ps') =
      (errno ≡ einval)
      × IsBroken js m l'.read_buffer
      × (l'.read_buffer ++ l'.stream ≡ dump m ++ rest)

  -- One round that has received `t`, with the rest of the loop.
  module _ (l : Link) (n : ℕ) (ps : List Poll) (small : length (dump m) ≤ read_size) where
    abbrev Later : Type 0
    Later =
        (l' : Link)
        → l'.read_buffer ++ l'.stream ≡ dump m ++ rest
        → length l'.read_buffer ≤ read_size
        → length l'.read_buffer < length (dump m)
        → Quiet l'.wait_for_events ps
        → Delivers l' ps (read_loop js l' ps)

    abbrev after : Str → Str → Found J → OneObject J
    after buffer stream f = elim f [
      | found root left ↦ object_ root (record l { read_buffer = left; stream = stream }) ps
      | nothing errno ↦ elim (errno == eagain) [
        | true ↦ read_loop js (record l { read_buffer = buffer; stream = stream }) ps
        | false ↦ null errno (record l { read_buffer = buffer; stream = stream }) ps
      ]
    ]

    carry :
        (l' : Link) (o : OneObject J)
        → l'.wait_for_events ≡ l.wait_for_events
        → length l'.stream < length l.stream
        → length l'.read_buffer + length l'.stream ≡ length l.read_buffer + length l.stream
        → Delivers l' ps o
        → Delivers l (readable n ∷ ps) o
    carry l' (object_ v k ps') w less total d = (
      d.0,
      d.1,
      d.2,
      d.3 ∙ w,
      subst (λ w. Quiet w ps') w d.4,
      omega (arith, less, d.5),
      omega (arith, total, d.6),
    )
    carry l' (waiting k) w less total d = (d.0, d.1, d.2 ∙ w, omega (arith, less, d.3))
    carry l' (null errno k ps') w less total d = d

    deliver_after :
        (b s : Str) (f : Found J)
        → Later
        → Quiet l.wait_for_events ps
        → b ++ s ≡ dump m ++ rest
        → length b ≤ read_size
        → length s < length l.stream
        → length b + length s ≡ length l.read_buffer + length l.stream
        → Seen b s f
        → Delivers l (readable n ∷ ps) (after b s f)
    deliver_after b s (found v left) later q e fits less total see = (
      see.0,
      see.1,
      omega (arith, see.2, fits),
      refl,
      q,
      omega (arith, less),
      omega (arith, see.2, total),
    )
    deliver_after b s (nothing errno) later q e fits less total (inl again, short) =
        let l' = record l { read_buffer = b; stream = s } in
        rw again (carry l' (read_loop js l' ps) refl less total (later l' e fits short q))
    deliver_after b s (nothing errno) later q e fits less total (inr (bad, broken), short) =
        rw bad (refl, broken, e)

    deliver_readable :
        (t : Str)
        → take (capacity l n) l.stream ≡ t
        → Later
        → 1 ≤ n
        → Quiet l.wait_for_events ps
        → l.read_buffer ++ l.stream ≡ dump m ++ rest
        → length l.read_buffer ≤ read_size
        → length l.read_buffer < length (dump m)
        → Delivers l (readable n ∷ ps) (read_loop js l (readable n ∷ ps))
    unfolding read_loop
    deliver_readable [] t later pos q e fits short = absurd (
        omega (
          arith,
          length-take (capacity l n) l.stream,
          ap length t,
          ap length e,
          length-append l.read_buffer l.stream,
          length-append (dump m) rest,
        ))
    deliver_readable (c ∷ s) t later pos q e fits short =
        rw (read_loop, t)
          (deliver_after (l.read_buffer ++ c ∷ s) left _ later q same
            (omega (arith, sizes, short, small, fits, taken)) (omega (arith, taken, rest_of))
            (omega (arith, sizes, taken, rest_of)) (seen _ _ same small))
      where
        left : Str
        left = drop (capacity l n) l.stream

        same : l.read_buffer ++ c ∷ s ++ left ≡ dump m ++ rest
        same =
            append_assoc l.read_buffer (c ∷ s) left
            ∙ ap (◌++◌ l.read_buffer)
                (ap (λ u. u ++ left) (sym t) ∙ take-append-drop (capacity l n) l.stream)
            ∙ e

        sizes : length (l.read_buffer ++ c ∷ s) ≡ length l.read_buffer + length (c ∷ s)
        sizes = length-append l.read_buffer (c ∷ s)

        taken : min (capacity l n) (length l.stream) ≡ length (c ∷ s)
        taken = sym (length-take (capacity l n) l.stream) ∙ ap length t

        rest_of : length left ≡ length l.stream - capacity l n
        rest_of = length-drop (capacity l n) l.stream

  deliver :
      (l : Link) (ps : List Poll)
      → length (dump m) ≤ read_size
      → l.read_buffer ++ l.stream ≡ dump m ++ rest
      → length l.read_buffer ≤ read_size
      → length l.read_buffer < length (dump m)
      → Quiet l.wait_for_events ps
      → Delivers l ps (read_loop js l ps)
  unfolding read_loop
  deliver l [] small e fits short q = (e, short, refl, omega arith)
  deliver l (interrupted stopped ∷ ps) small e fits short q =
      subst (Delivers l (interrupted stopped ∷ ps)) (sym (wait_on js l stopped ps q.0 q.1))
        (deliver l ps small e fits short q.2)
  deliver l (readable n ∷ ps) small e fits short q =
      deliver_readable l n ps small _ refl (λ l' e fits short q. deliver l' ps small e fits short q)
        q.0 q.1 e fits short
  deliver l (poll_failed errno ∷ ps) small e fits short q = elim q [ ]
  deliver l (timed_out ∷ ps) small e fits short q = elim q [ ]
  deliver l (recv_failed errno ∷ ps) small e fits short q = elim q [ ]

  -- Where a message that the parser takes whole stands at the front of what has been read and of
  -- what is in the socket, and no stop, failure or timeout comes, reading returns it whole and
  -- leaves what is behind it, or still waits, and then all is kept, some of the message is missing,
  -- and each `recv` has taken a byte; or it fails with EINVAL, and then all is kept, and what is
  -- in the buffer is a part of the message that the parser takes for invalid. No other error comes: where the parser waits
  -- at every part of the message, `recv` may cut the bytes anywhere. The message has at most 1024
  -- bytes, and no part of it is a value for the parser; the buffer never exceeds 1024 bytes.
  pub read_one_object-Delivers :
      (l : Link) (ps : List Poll)
      → length (dump m) ≤ read_size
      → l.read_buffer ++ l.stream ≡ dump m ++ rest
      → length l.read_buffer ≤ read_size
      → Quiet l.wait_for_events ps
      → Delivers l ps (read_one_object js l ps)
  unfolding read_one_object
  read_one_object-Delivers l ps small e fits q =
      go (json_from_buffer js l.read_buffer) (seen l.read_buffer l.stream e small)
    where
      go :
          (f : Found J)
          → Seen l.read_buffer l.stream f
          → Delivers l ps (elim f [
            | found root left ↦ object_ root (record l { read_buffer = left }) ps
            | nothing errno ↦ elim (errno == eagain) [
              | true ↦ read_loop js l ps
              | false ↦ null errno l ps
            ]
          ])
      go (found v left) see =
          (see.0, see.1, omega (arith, see.2, fits), refl, q, omega arith, omega (arith, see.2))
      go (nothing errno) (inl again, short) = rw again (deliver l ps small e fits short q)
      go (nothing errno) (inr (bad, broken), short) = rw bad (bad, broken, e)
