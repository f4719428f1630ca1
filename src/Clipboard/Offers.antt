-- ===== src/Clipboard/Offers.antt =====
-- Which offers of the clipboard src/data-control.c receives.
use wayvnc.Prelude.{
  ℕ, ◌≡◌, ◌≢◌, refl, sym, ap, ap₂, ◌∙◌, Bool, true, false, ◌&&◌, ◌||◌, not, List, [], ◌∷◌, Option,
  none, some, if◌then◌else◌, arith, Bool-cases, inl, inr, subst, map,
}
use wayvnc.Text.{Str, str_eq, str_eq_sound}
use wayvnc.Clipboard.{
  Control, Effect, is_offer, data_control_offer, data_control_device_selection, to_clipboard,
  source_send, set_selection, Write,
}

-- The types of one offer, one after the other.
unfoldable pub offer_all : ℕ → List Str → Control → Control
unfolding data_control_offer
offer_all id [] s = s
offer_all id (m ∷ ms) s = offer_all id ms (data_control_offer id m s)

-- An offer with its types, then the selection of it: what src/data-control.c does for each new
-- contents of the clipboard.
pub record Round : Type 0 where
  pub id : ℕ
  pub types : List Str

unfoldable pub round : Round → Control → Effect
unfolding offer_all
round r s = data_control_device_selection (some r.id) (offer_all r.id r.types s)

-- What is received from and what is destroyed, round by round, and the state.
unfoldable pub rounds : List Round → Control → List (Option ℕ × Option ℕ) × Control
unfolding round
rounds [] s = ([], s)
rounds (r ∷ rs) s =
    let e = round r s in
    let rest = rounds rs in ((e.receives, e.destroys) ∷ (rest e.after).0, (rest e.after).1)

abbrev pub among : Str → List Str → Bool
among t [] = false
among t (m ∷ ms) = str_eq m t || among t ms

-- The offer is of text, and not the client's own.
abbrev pub wanted : Control → Round → Option ℕ
wanted s r =
    if among s.mime_type r.types && not (among s.custom_mime_type_name r.types)
    then some r.id
    else none

-- Between two rounds.
abbrev pub IsClean : Control → Type 0
IsClean s = (s.offer ≡ none) × (s.is_own_offer ≡ false)

abbrev either : Option ℕ → Option ℕ → Option ℕ
either none b = b
either (some a) b = some a

module _ (s : Control) (id : ℕ) (apart : s.mime_type ≢ s.custom_mime_type_name) where
  -- The state with what the types so far have said.
  abbrev said : Bool → Option ℕ → Control
  said own offer = record s { is_own_offer = own; offer = offer }

  abbrev text_offer : List Str → Option ℕ
  text_offer ms = if among s.mime_type ms then some id else none

  or_true : (b c : Bool) → (true || c) ≡ (b || (true || c))
  or_true true c = refl
  or_true false c = refl

  not_both : (m : Str) → str_eq m s.custom_mime_type_name ≡ true → str_eq m s.mime_type ≡ false
  not_both m p = elim (Bool-cases (str_eq m s.mime_type)) [
    | inl q ↦ absurd (apart (sym (str_eq_sound m _ q) ∙ str_eq_sound m _ p))
    | inr q ↦ q
  ]

  step_offer :
      (ms : List Str) (p q own : Bool) (o : Option ℕ)
      → (p ≡ true → q ≡ false)
      → ((own : Bool) (o : Option ℕ)
          → offer_all id ms (said own o)
            ≡ said (own || among s.custom_mime_type_name ms) (either o (text_offer ms)))
      → offer_all id ms (
          if p then said true o else elim o [
            | some i ↦ said own (some i)
            | none ↦ if q then said own (some id) else said own none
          ])
        ≡ said
            (own || (p || among s.custom_mime_type_name ms))
            (either o (if q || among s.mime_type ms then some id else none))
  step_offer ms true q own o k ih =
      ih true o
      ∙ ap₂ said (or_true own (among s.custom_mime_type_name ms))
          (ap (λ q. either o (if q || among s.mime_type ms then some id else none)) (sym (k refl)))
  step_offer ms false q own (some i) k ih = ih own (some i)
  step_offer ms false true own none k ih = ih own (some id)
  step_offer ms false false own none k ih = ih own none

  or_false : (b : Bool) → b ≡ (b || false)
  or_false true = refl
  or_false false = refl

  either-none : (o : Option ℕ) → o ≡ either o none
  either-none none = refl
  either-none (some i) = refl

  offer_all-said :
      (ms : List Str) (own : Bool) (o : Option ℕ)
      → offer_all id ms (said own o)
        ≡ said (own || among s.custom_mime_type_name ms) (either o (text_offer ms))
  unfolding offer_all data_control_offer
  offer_all-said [] own o = ap₂ said (or_false own) (either-none o)
  offer_all-said (m ∷ ms) own none =
      step_offer ms (str_eq m s.custom_mime_type_name) (str_eq m s.mime_type) own none (not_both m)
        (offer_all-said ms)
  offer_all-said (m ∷ ms) own (some i) =
      step_offer ms (str_eq m s.custom_mime_type_name) (str_eq m s.mime_type) own (some i)
        (not_both m) (offer_all-said ms)

  clean_offer :
      IsClean s
      → (ms : List Str)
      → offer_all id ms s ≡ said (among s.custom_mime_type_name ms) (text_offer ms)
  clean_offer c ms =
      ap₂ (λ own o. offer_all id ms (said own o)) c.1 c.0 ∙ offer_all-said ms false none

  received :
      (a b : Bool)
      → (if is_offer (if a then some id else none) id && not b then some id else none)
        ≡ (if a && not b then some id else none)
  received true true = ground arith
  received true false = ground arith
  received false b = refl

  -- What the selection of a new offer does.
  abbrev pub IsRound : List Str → Effect → Type 0
  IsRound ms e =
      (e.receives ≡ wanted s (record { id = id; types = ms }))
      × (e.destroys ≡ some id)
      × (e.after ≡ s)

  round-IsRound :
      IsClean s → (ms : List Str) → IsRound ms (round (record { id = id; types = ms }) s)
  unfolding round data_control_device_selection
  round-IsRound c ms =
      subst (λ t. IsRound ms (data_control_device_selection (some id) t)) (sym (clean_offer c ms))
        (
          received (among s.mime_type ms) (among s.custom_mime_type_name ms),
          refl,
          ap₂ (λ own o. record s { is_own_offer = own; offer = o }) (sym c.1) (sym c.0),
        )

-- Over any sequence of new offers, each with its types and then selected, an offer is received
-- from exactly if it has the text type and is not marked with the client's own type. Each offer
-- is destroyed, once, and forgotten before the next. The own type is not the text type.
pub rounds-wanted :
    (rs : List Round) (s : Control)
    → s.mime_type ≢ s.custom_mime_type_name
    → IsClean s
    → rounds rs s ≡ (map (λ (r : Round). (wanted s r, some r.id)) rs, s)
unfolding rounds
rounds-wanted [] s apart c = refl
rounds-wanted (r ∷ rs) s apart c =
    let (p, d, e) = round-IsRound s r.id apart c r.types in
    ap₂ (λ x t. (x ∷ (rounds rs t).0, (rounds rs t).1)) (ap₂ (λ a b. (a, b)) p d) e
    ∙ ap (λ o. ((wanted s r, some r.id) ∷ o.0, o.1)) (rounds-wanted rs s apart c)

-- If the second source cannot be created, the first is still offered to others, but its text is
-- gone, and sending it fails an assertion.
pub to_clipboard-one_source :
    (c : ℕ) (s mime : Str) (first : ℕ) (self : Control) (b : Bool) (w : Write)
    → ((to_clipboard (c ∷ s) (some first) none self).selection ≡ some first)
      × (source_send (to_clipboard (c ∷ s) (some first) none self) mime b w ≡ none)
unfolding to_clipboard set_selection source_send
to_clipboard-one_source c s mime first self b w = (refl, refl)
