-- ===== src/Desktop/Outputs/Owned.antt =====
-- Who holds the screen captures of src/desktop.c: each belongs to one output.
use wayvnc.Prelude.{
  ℕ, ◌+◌, ◌≤◌, ◌≡◌, refl, sym, ◌∙◌, Bool, true, false, ◌||◌, List, [], ◌∷◌, map, Option, none, some,
  ◌==◌, if◌then◌else◌, arith, Bool-cases, inl, inr,
}
use wayvnc.Desktop.Outputs.{
  Kind, screen, cursor, sc_of, cleared, destroy_each, taken_out, empty_outputs,
}
use wayvnc.Desktop.Screens.{
  Screens, DesktopOutput, created, without, screencopy_destroy, desktop_output_destroy,
}

abbrev pub count : ℕ → List ℕ → ℕ
count i [] = 0
count i (j ∷ js) = (if j == i then 1 else 0) + count i js

-- How often a field, an output or a list of outputs points to a capture.
abbrev pub points : ℕ → Option ℕ → ℕ
points i none = 0
points i (some j) = if j == i then 1 else 0

abbrev pub held_by : ℕ → DesktopOutput → ℕ
held_by i o = points i o.sc + points i o.cursor_sc

abbrev pub held : ℕ → List DesktopOutput → ℕ
held i [] = 0
held i (o ∷ os) = held_by i o + held i os

-- The captures that are there are those that `h` counts, each once.
pub record Owns (h : ℕ → ℕ) (s : Screens) : Type 0 where
  pub owned : (i : ℕ) → h i ≡ count i s.live
  pub once : (i : ℕ) → count i s.live ≤ 1
  pub fresh : (i : ℕ) → s.next ≤ i → count i s.live ≡ 0

pub Owns-eq : {g h : ℕ → ℕ} {s : Screens} → ((i : ℕ) → g i ≡ h i) → Owns g s → Owns h s
Owns-eq e w = record { owned = λ i. sym (e i) ∙ w.owned i; once = w.once; fresh = w.fresh }

without_lem :
    (j : ℕ) (js : List ℕ)
    → 1 ≤ count j js
    → (ks : List ℕ) × (without j js ≡ some ks)
      × ((i : ℕ) → count i js ≡ (if j == i then 1 else 0) + count i ks)
without_lem j [] h = absurd (omega arith)
without_lem j (k ∷ js) h = elim (Bool-cases (j == k)) [
  | inl e ↦ (js, rw e refl, λ i. ground arith)
  | inr e ↦
      let (ks, found, counts) = without_lem j js (ground arith) in
      (k ∷ ks, rw (e, found), λ i. ground (arith, counts i))
]

-- A capture that is held is there to be destroyed.
screencopy_destroy-Owns :
    (x : Option ℕ) {h : ℕ → ℕ} {s : Screens}
    → Owns (λ i. points i x + h i) s
    → (s' : Screens) × (screencopy_destroy x s ≡ some s') × Owns h s'
unfolding screencopy_destroy
screencopy_destroy-Owns none {h} {s} w = (s, refl, Owns-eq (λ i. omega arith) w)
screencopy_destroy-Owns (some j) {h} {s} w =
    let (ks, found, counts) = without_lem j s.live (ground (arith, w.owned j)) in
    (
      record s { live = ks },
      rw found refl,
      record {
        owned = λ i. ground (arith, w.owned i, counts i);
        once = λ i. ground (arith, w.once i, counts i);
        fresh = λ i p. ground (arith, w.fresh i p, counts i);
      },
    )

pub created-Owns :
    {h : ℕ → ℕ} {s : Screens} → Owns h s → Owns (λ i. points i (some s.next) + h i) (created s).1
created-Owns {h} {s} w = record {
  owned = λ i. ground (arith, w.owned i);
  once = λ i. ground (arith, w.once i, w.fresh i);
  fresh = λ i p. ground (arith, w.fresh i);
}

abbrev pub is_set : Option ℕ → Bool
is_set none = false
is_set (some i) = true

-- Whether each output has a capture of a kind.
abbrev pub AllSet : Kind → Bool → List DesktopOutput → Type 0
AllSet k b [] = Unit {0}
AllSet k b (o ∷ os) = (is_set (sc_of k o) ≡ b) × AllSet k b os

held_by-cleared :
    (k : Kind) (o : DesktopOutput) (i : ℕ)
    → held_by i o ≡ points i (sc_of k o) + held_by i (cleared k o)
held_by-cleared screen o i = omega arith
held_by-cleared cursor o i = omega arith

-- The loops, where `h` counts what others hold. Destroying the captures of a kind leaves those of
-- the other kind.
pub destroy_each-Owns :
    (k : Kind) (os : List DesktopOutput) (h : ℕ → ℕ) (s : Screens)
    → Owns (λ i. held i os + h i) s
    → (s' : Screens) × (destroy_each k os s ≡ some (map (cleared k) os, s'))
      × Owns (λ i. held i (map (cleared k) os) + h i) s'
unfolding destroy_each
destroy_each-Owns k [] h s w = (s, refl, w)
destroy_each-Owns k (o ∷ os) h s w =
    let (s1, gone, w1) =
      screencopy_destroy-Owns (sc_of k o) {h = λ i. held i os + (held_by i (cleared k o) + h i)}
        (Owns-eq (λ i. omega (arith, held_by-cleared k o i)) w) in
    let (s2, rest, w2) = destroy_each-Owns k os (λ i. held_by i (cleared k o) + h i) s1 w1 in
    (s2, rw (gone, rest) refl, Owns-eq (λ i. omega arith) w2)

pub desktop_output_destroy-Owns :
    (o : DesktopOutput) (h : ℕ → ℕ) (s : Screens)
    → Owns (λ i. held_by i o + h i) s
    → (s' : Screens) × (desktop_output_destroy o s ≡ some s') × Owns h s'
unfolding desktop_output_destroy
desktop_output_destroy-Owns o h s w =
    let (s1, gone, w1) =
      screencopy_destroy-Owns o.sc {h = λ i. points i o.cursor_sc + h i}
        (Owns-eq (λ i. omega arith) w) in
    let (s2, gone', w2) = screencopy_destroy-Owns o.cursor_sc {h = h} w1 in
    (s2, rw (gone, gone') refl, w2)

pub empty_outputs-Owns :
    (os : List DesktopOutput) (h : ℕ → ℕ) (s : Screens)
    → Owns (λ i. held i os + h i) s
    → (s' : Screens) × (empty_outputs os s ≡ some s') × Owns h s'
unfolding empty_outputs
empty_outputs-Owns [] h s w = (s, refl, Owns-eq (λ i. omega arith) w)
empty_outputs-Owns (o ∷ os) h s w =
    let (s1, gone, w1) =
      desktop_output_destroy-Owns o (λ i. held i os + h i) s (Owns-eq (λ i. omega arith) w) in
    let (s2, rest, w2) = empty_outputs-Owns os h s1 w1 in (s2, rw (gone, rest) refl, w2)

abbrev pub has_output : ℕ → List DesktopOutput → Bool
has_output output [] = false
has_output output (o ∷ os) = o.output == output || has_output output os

-- An output of the desktop is taken out of it, and the others are left as they are.
pub taken_out_lem :
    (output : ℕ) (os : List DesktopOutput)
    → has_output output os ≡ true
    → (o : DesktopOutput) × (rest : List DesktopOutput) × (taken_out output os ≡ some (o, rest))
      × ((i : ℕ) → held i os ≡ held_by i o + held i rest)
      × ((k : Kind) (b : Bool) → AllSet k b os → AllSet k b rest)
taken_out_lem output [] h = cc
taken_out_lem output (p ∷ os) h = elim (Bool-cases (p.output == output)) [
  | inl e ↦ (p, os, rw e refl, λ i. refl, λ k b a. a.1)
  | inr e ↦
      let (o, rest, found, counts, keep) = taken_out_lem output os (ground (arith, e, h)) in
      (o, p ∷ rest, rw (e, found) refl, λ i. omega (arith, counts i), λ k b a. (a.0, keep k b a.1))
]
