-- ===== src/Desktop/Outputs/Starting.antt =====
-- The captures of src/desktop.c that are started, stopped and asked for their capabilities.
use wayvnc.Prelude.{
  ℕ, Bool, true, false, not, List, [], ◌∷◌, map, Option, none, some, if◌then◌else◌,
}
use wayvnc.Desktop.Screens.{◌>>=◌}
use wayvnc.Desktop.Screens.{◌>>=◌}
use wayvnc.Desktop.Outputs.{Desktop, Kind, sc_of, is_captured, object_of}

-- The loop of `desktop_capture_start`, with what `screencopy_start` returns: whether all of them
-- start, and which are asked to.
abbrev pub start_each : (ℕ → Bool) → List (Option ℕ) → Option (Bool × List ℕ)
start_each starts [] = some (true, [])
start_each starts (none ∷ scs) = none
start_each starts (some i ∷ scs) =
    let rest = start_each starts scs >>= λ r. some (r.0, i ∷ r.1) in
    if starts i then rest else some (false, i ∷ [])

-- The loop of `desktop_capture_stop`: `screencopy_stop` takes NULL.
abbrev pub stop_each : List (Option ℕ) → List ℕ
stop_each [] = []
stop_each (none ∷ scs) = stop_each scs
stop_each (some i ∷ scs) = i ∷ stop_each scs

-- The captures that the loops go through: the assertion in them fails if the desktop does not
-- point to the object.
abbrev pub loops_over : Kind → Desktop → Option (List (Option ℕ))
loops_over k self =
    if not self.there
    then none
    else if is_captured k self
    then some (map (sc_of k) self.outputs)
    else elim self.outputs [ [] ↦ some [] | o ∷ os ↦ none ]

abbrev pub looped {ℓ} : {A : Type ℓ} → Kind → Desktop → A → (List (Option ℕ) → Option A) → Option A
looped k self unset loop = elim (object_of k self) [
  | none ↦ none
  | some false ↦ some unset
  | some true ↦ elim (loops_over k self) [ none ↦ none | some scs ↦ loop scs ]
]

unfoldable pub desktop_capture_start : (ℕ → Bool) → Kind → Desktop → Option (Bool × List ℕ)
desktop_capture_start starts k self = looped k self (false, []) (start_each starts)

unfoldable pub desktop_capture_stop : Kind → Desktop → Option (List ℕ)
desktop_capture_stop k self = looped k self [] λ scs. some (stop_each scs)

-- `screencopy_get_capabilities` follows its argument; `sc` is that of the screen, for both kinds.
unfoldable pub desktop_capture_get_caps : (ℕ → ℕ) → Kind → Desktop → Option ℕ
desktop_capture_get_caps caps k self = elim (object_of k self) [
  | none ↦ none
  | some false ↦ some 0
  | some true ↦
      if self.there
      then elim self.outputs [
        | [] ↦ some 0
        | o ∷ os ↦ elim o.sc [ none ↦ none | some i ↦ some (caps i) ]
      ]
      else none
]
