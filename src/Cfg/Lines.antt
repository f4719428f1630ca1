-- ===== src/Cfg/Lines.antt =====
-- One line of the configuration file of src/cfg.c.
use wayvnc.Prelude.{
  ne→==, ℕ, ◌≡◌, ◌≢◌, refl, sym, ap, ◌∙◌, Bool, true, false, [], ◌∷◌, ◌++◌, if◌then◌else◌,
  append_assoc,
}
use wayvnc.Text.{Str, Without, cut_at-append}
use wayvnc.Cfg.{
  Cfg, equals_sign, hash_sign, trim_left, trim_end, trim_right, trim, load_key_value, load_line,
}

module _ (isspace : ℕ → Bool) (strtoul : Str → ℕ) where
  -- Space only.
  abbrev pub Blank : Str → Type 0
  Blank [] = Unit {0}
  Blank (c ∷ s) = (isspace c ≡ true) × Blank s

  abbrev tl : Str → Str
  tl = trim_left isspace strtoul

  abbrev te : Str → Str
  te = trim_end isspace strtoul

  trim_left-Blank : (b s : Str) → Blank b → tl (b ++ s) ≡ tl s
  unfolding trim_left
  trim_left-Blank [] s h = refl
  trim_left-Blank (c ∷ b) s h = rw (h.0, trim_left) (trim_left-Blank b s h.1)

  trim_end-Blank : (b : Str) → Blank b → te b ≡ []
  trim_end-Blank [] h = refl
  trim_end-Blank (c ∷ b) h = rw (trim_end-Blank b h.1, h.0) refl

  -- Space behind the text goes, whatever stands before it.
  trim_end-append : (s b : Str) → Blank b → te (s ++ b) ≡ te s
  trim_end-append [] b h = trim_end-Blank b h
  trim_end-append (c ∷ s) b h = rw (trim_end-append s b h) refl

  -- Nothing goes before a byte that stays.
  trim_end-stays : (a : Str) (d : ℕ) (s r : Str) → te s ≡ d ∷ r → te (a ++ s) ≡ a ++ (d ∷ r)
  trim_end-stays [] d s r h = h
  trim_end-stays (c ∷ []) d s r h = rw h refl
  trim_end-stays (c ∷ e ∷ a) d s r h = rw (trim_end-stays (e ∷ a) d s r h) refl

  trim_end-no_space : (d : ℕ) (s : Str) → isspace d ≡ false → te (d ∷ s) ≡ d ∷ te s
  trim_end-no_space d s h = go (te s)
    where
      go :
          (t : Str) → elim t [ [] ↦ (if isspace d then [] else d ∷ []) | e ∷ r ↦ d ∷ e ∷ r ] ≡ d ∷ t
      go [] = rw h refl
      go (e ∷ r) = refl

  Without-append :
      (a b : Str) → Without equals_sign a → Without equals_sign b → Without equals_sign (a ++ b)
  Without-append [] b h k = k
  Without-append (c ∷ a) b h k = (h.0, Without-append a b h.1 k)

  Without-Blank : (b : Str) → isspace equals_sign ≡ false → Blank b → Without equals_sign b
  Without-Blank [] e h = tt
  Without-Blank (c ∷ b) e h = ((λ q. cc (e, h.0, q)), Without-Blank b e h.1)

  -- The value with space on both sides.
  trim-value : (b v e : Str) → Blank b → Blank e → tl v ≡ v → te v ≡ v → tl (te (b ++ (v ++ e))) ≡ v
  unfolding trim_left
  trim-value b [] e h k left right = ap tl (trim_end-append b e k ∙ trim_end-Blank b h)
  trim-value b (d ∷ v) e h k left right =
      ap tl (trim_end-stays b d ((d ∷ v) ++ e) v (trim_end-append (d ∷ v) e k ∙ right))
      ∙ trim_left-Blank b (d ∷ v) h
      ∙ left

  -- A name as it is written in the file: it has no `=`, starts with neither space nor `#`, and does
  -- not end with space.
  pub record Name (c : ℕ) (k : Str) : Type 0 where
    pub first_no_space : isspace c ≡ false
    pub first_no_hash : c ≢ hash_sign
    pub no_equals : Without equals_sign (c ∷ k)
    pub no_end : trim_end isspace strtoul k ≡ k

  module _ (no_space : isspace equals_sign ≡ false) (c : ℕ) (k : Str) (name : Name c k) where
    trim-line :
        (b1 b2 x : Str)
        → Blank b1
        → trim isspace strtoul (b1 ++ ((c ∷ k) ++ (b2 ++ equals_sign ∷ x)))
          ≡ c ∷ ((k ++ b2) ++ equals_sign ∷ te x)
    unfolding trim trim_left trim_right
    trim-line b1 b2 x h =
        ap (trim_right isspace strtoul)
          (trim_left-Blank b1 ((c ∷ k) ++ (b2 ++ equals_sign ∷ x)) h ∙ first)
        ∙ ap (◌∷◌ c) (
            ap te (sym (append_assoc k b2 (equals_sign ∷ x)))
            ∙ trim_end-stays (k ++ b2) equals_sign (equals_sign ∷ x) (te x)
                (trim_end-no_space equals_sign x no_space))
      where
        first : tl ((c ∷ k) ++ (b2 ++ equals_sign ∷ x)) ≡ (c ∷ k) ++ (b2 ++ equals_sign ∷ x)
        first = rw name.first_no_space refl

    load_trimmed :
        (self : Cfg) (line b2 y : Str)
        → Blank b2
        → trim isspace strtoul line ≡ c ∷ ((k ++ b2) ++ equals_sign ∷ y)
        → load_line isspace strtoul self line ≡ load_key_value isspace strtoul self (c ∷ k) (tl y)
    unfolding load_line trim_right
    load_trimmed self line b2 y h e =
        let found =
          cut_at-append equals_sign (c ∷ (k ++ b2)) y
            (Without-append (c ∷ k) b2 name.no_equals (Without-Blank b2 no_space h)) in
        rw
          (
            e,
            ne→== c hash_sign name.first_no_hash,
            ap (λ q. q.1) found,
            ap (λ q. q.0) found,
            load_line,
          )
          (ap (λ q. load_key_value isspace strtoul self (c ∷ q) (tl y))
            (trim_end-append k b2 h ∙ name.no_end))

    -- A line `name = value` sets the value, with or without space around the name and the value.
    pub load_line-spaces :
        (self : Cfg) (b1 b2 b3 v b4 : Str)
        → Blank b1
        → Blank b2
        → Blank b3
        → Blank b4
        → trim_left isspace strtoul v ≡ v
        → trim_end isspace strtoul v ≡ v
        → load_line isspace strtoul self
            (b1 ++ ((c ∷ k) ++ (b2 ++ equals_sign ∷ (b3 ++ (v ++ b4)))))
          ≡ load_key_value isspace strtoul self (c ∷ k) v
    load_line-spaces self b1 b2 b3 v b4 h1 h2 h3 h4 left right =
        load_trimmed self _ b2 (te (b3 ++ (v ++ b4))) h2 (trim-line b1 b2 (b3 ++ (v ++ b4)) h1)
        ∙ ap (load_key_value isspace strtoul self (c ∷ k)) (trim-value b3 v b4 h3 h4 left right)
