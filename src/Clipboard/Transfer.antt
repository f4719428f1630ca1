-- ===== src/Clipboard/Transfer.antt =====
-- What goes through the pipes of src/data-control.c.
use wayvnc.Prelude.{
  ℕ, zero, suc, ◌+◌, ◌-◌, ◌≡◌, refl, sym, ap, ◌∙◌, Bool, true, false, List, [], ◌∷◌, ◌++◌, ◌==◌,
  if◌then◌else◌, length, take, drop, length-drop, append_assoc, append-nil, arith,
}
use wayvnc.Text.{Str}
use wayvnc.Clipboard.{
  Read, again, failed, bytes, Receiving, waiting, finished, destroyed_twice, cut_text, on_receive,
  receive_all, SendContext, Write, accepted, Sending, active, complete, broken, on_send,
  first_write,
}

-- How the reads end: not yet, at the end of the file, or by an error.
pub data Ending : Type 0 where
  unended eof error : Ending

abbrev pub ending : List Read → Ending
ending [] = unended
ending (Read.again ∷ rs) = ending rs
ending (Read.failed ∷ rs) = error
ending (bytes [] grows ∷ rs) = eof
ending (bytes (c ∷ s) grows ∷ rs) = ending rs

-- What has been read by then, without the parts for which the buffer could not grow.
abbrev pub contents : List Read → Str
contents [] = []
contents (Read.again ∷ rs) = contents rs
contents (Read.failed ∷ rs) = []
contents (bytes [] grows ∷ rs) = []
contents (bytes (c ∷ s) grows ∷ rs) =
    let rest = contents rs in if grows then take 4096 (c ∷ s) ++ rest else rest

abbrev pub at_end : Ending → Str → Receiving
at_end unended t = waiting t
at_end eof t = finished (cut_text t)
at_end error t = destroyed_twice

-- Over any reads, what is passed on at the end of the file is what has been read, in order and
-- once, without the parts for which the buffer could not grow, which are lost; where nothing is
-- kept, nothing is passed on. Before the end it is all in the buffer. After an error of `read` the
-- context is used and destroyed twice.
pub receive_all-at_end :
    (b : Str) (rs : List Read) → receive_all b rs ≡ at_end (ending rs) (b ++ contents rs)
unfolding receive_all on_receive
receive_all-at_end b [] = ap waiting (sym (append-nil b))
receive_all-at_end b (Read.again ∷ rs) = receive_all-at_end b rs
receive_all-at_end b (Read.failed ∷ rs) = refl
receive_all-at_end b (bytes [] grows ∷ rs) = ap (λ t. finished (cut_text t)) (sym (append-nil b))
receive_all-at_end b (bytes (c ∷ s) true ∷ rs) =
    receive_all-at_end (b ++ take 4096 (c ∷ s)) rs
    ∙ ap (at_end (ending rs)) (append_assoc b (take 4096 (c ∷ s)) (contents rs))
receive_all-at_end b (bytes (c ∷ s) false ∷ rs) = receive_all-at_end b rs

-- Writes, one after the other, until the context is gone.
unfoldable pub send_all : SendContext → List Write → Str × Sending
send_all ctx [] = ([], active ctx)
send_all ctx (w ∷ ws) =
    let (out, state) = on_send ctx w in
    elim state [
      | active ctx' ↦ (out ++ (send_all ctx' ws).0, (send_all ctx' ws).1)
      | complete ↦ (out, complete)
      | broken ↦ (out, broken)
    ]

-- What has gone out begins the text; all of it has where the context is complete, and the rest is
-- still to come while it is active.
abbrev pub IsSent : Str → Str × Sending → Type 0
IsSent d (out, active ctx) = out ++ drop ctx.index ctx.content ≡ d
IsSent d (out, complete) = out ≡ d
IsSent d (out, broken) = (rest : Str) × (out ++ rest ≡ d)

take-rest : (n : ℕ) (l : Str) → take n l ++ drop (length (take n l)) l ≡ l
take-rest zero l = refl
take-rest (suc n) [] = refl
take-rest (suc n) (c ∷ l) = ap (◌∷◌ c) (take-rest n l)

drop-all : (l : Str) → drop (length l) l ≡ []
drop-all [] = refl
drop-all (c ∷ l) = drop-all l

drop-nil : (k : ℕ) → ◌≡◌ {A = Str} (drop k []) []
drop-nil zero = refl
drop-nil (suc k) = refl

zero_add : (k : ℕ) → zero + k ≡ k
zero_add k = omega arith

suc_add : (i k : ℕ) → suc i + k ≡ suc (i + k)
suc_add i k = omega arith

drop-add : (i k : ℕ) (l : Str) → drop (i + k) l ≡ drop k (drop i l)
drop-add zero k l = ap (λ n. drop n l) (zero_add k)
drop-add (suc i) k [] = drop-nil (suc i + k) ∙ sym (drop-nil k)
drop-add (suc i) k (c ∷ l) = ap (λ n. drop n (c ∷ l)) (suc_add i k) ∙ drop-add i k l

whole : (n : ℕ) (l : Str) → length (take n l) ≡ length l → take n l ≡ l
whole n l e = sym (append-nil (take n l)) ∙ ap (λ t. take n l ++ t) (sym none_left) ∙ take-rest n l
  where
    none_left : drop (length (take n l)) l ≡ []
    none_left = ap (λ k. drop k l) e ∙ drop-all l

on_send-IsSent :
    (ctx : SendContext) (w : Write) → IsSent (drop ctx.index ctx.content) (on_send ctx w)
unfolding on_send
on_send-IsSent ctx again = refl
on_send-IsSent ctx failed = (drop ctx.index ctx.content, refl)
on_send-IsSent ctx (accepted n) = go (length (take n left) == length ctx.content - ctx.index) refl
  where
    left : Str
    left = drop ctx.index ctx.content

    go :
        (b : Bool)
        → (length (take n left) == length ctx.content - ctx.index) ≡ b
        → IsSent left (
          take n left,
          (if b
              then complete
              else active (record ctx { index = ctx.index + length (take n left) })),
        )
    go true e = whole n left (ground (arith, e, length-drop ctx.index ctx.content))
    go false e =
        ap (λ t. take n left ++ t) (drop-add ctx.index (length (take n left)) ctx.content)
        ∙ take-rest n left

prepend-IsSent :
    (d left out : Str) (o : Str × Sending)
    → out ++ left ≡ d
    → IsSent left o
    → IsSent d (out ++ o.0, o.1)
prepend-IsSent d left out (t, active ctx) e h =
    append_assoc out t (drop ctx.index ctx.content) ∙ ap (λ u. out ++ u) h ∙ e
prepend-IsSent d left out (t, complete) e h = ap (λ u. out ++ u) h ∙ e
prepend-IsSent d left out (t, broken) e (rest, h) =
    (rest, append_assoc out t rest ∙ ap (λ u. out ++ u) h ∙ e)

send_all-IsSent :
    (ctx : SendContext) (ws : List Write) → IsSent (drop ctx.index ctx.content) (send_all ctx ws)
unfolding send_all
send_all-IsSent ctx [] = refl
send_all-IsSent ctx (w ∷ ws) = go (on_send ctx w) (on_send-IsSent ctx w) (λ c. send_all-IsSent c ws)
  where
    go :
        (o : Str × Sending)
        → IsSent (drop ctx.index ctx.content) o
        → ((c : SendContext) → IsSent (drop c.index c.content) (send_all c ws))
        → IsSent (drop ctx.index ctx.content) (elim o.1 [
          | active ctx' ↦ (o.0 ++ (send_all ctx' ws).0, (send_all ctx' ws).1)
          | complete ↦ (o.0, complete)
          | broken ↦ (o.0, broken)
        ])
    go (out, active c) h ih =
        prepend-IsSent (drop ctx.index ctx.content) (drop c.index c.content) out (send_all c ws) h
          (ih c)
    go (out, complete) h ih = h
    go (out, broken) h ih = h

-- `data_control_source_send_common` from its first write on, with the writes of `on_send` that
-- follow it.
unfoldable pub send_text : Str → Write → List Write → Str × Sending
unfolding send_all
send_text d w ws =
    let (out, state) = first_write d w in
    elim state [
      | active ctx ↦ (out ++ (send_all ctx ws).0, (send_all ctx ws).1)
      | complete ↦ (out, complete)
      | broken ↦ (out, broken)
    ]

first_write-IsSent : (d : Str) (w : Write) → IsSent d (first_write d w)
unfolding first_write
first_write-IsSent d again = refl
first_write-IsSent d failed = (d, refl)
first_write-IsSent d (accepted n) = go (length (take n d) == length d) refl
  where
    go :
        (b : Bool)
        → (length (take n d) == length d) ≡ b
        → IsSent d (
          take n d,
          (if b
              then complete
              else active (record { content = drop (length (take n d)) d; index = 0 })),
        )
    go true e = whole n d (ground (arith, e))
    go false e = take-rest n d

-- Over any writes, whole or partial, what goes into the pipe begins the text. All of the text is
-- there when the pipe is closed without an error, and while the context is there, it holds
-- the rest.
pub send_text-IsSent : (d : Str) (w : Write) (ws : List Write) → IsSent d (send_text d w ws)
unfolding send_text
send_text-IsSent d w ws = go (first_write d w) (first_write-IsSent d w)
  where
    go :
        (o : Str × Sending)
        → IsSent d o
        → IsSent d (elim o.1 [
          | active ctx ↦ (o.0 ++ (send_all ctx ws).0, (send_all ctx ws).1)
          | complete ↦ (o.0, complete)
          | broken ↦ (o.0, broken)
        ])
    go (out, active c) h =
        prepend-IsSent d (drop c.index c.content) out (send_all c ws) h (send_all-IsSent c ws)
    go (out, complete) h = h
    go (out, broken) h = h
