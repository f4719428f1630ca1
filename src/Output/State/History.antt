-- ===== src/Output/State/History.antt =====
-- What an output of src/output.c shows after any sequence of events.
use wayvnc.Prelude.{
  ℕ, ◌≡◌, refl, sym, ◌∙◌, Bool, true, false, ◌∷◌, [], List, Option, none, some, arith, ◌≢◌,
}
use wayvnc.Prelude.Int.{ℤ, pos}
use wayvnc.Text.{Str, truncated}
use wayvnc.Output.State.{
  OutputState, Output, zeroed, to_uint32, output_new, output_handle_geometry, output_handle_mode,
  output_handle_done, output_logical_position, output_logical_size, output_name, output_description,
  geometry_changed,
}

-- The events of `wl_output` and of `zxdg_output_v1`.
pub data Event : Type 0 where
  geometry : Str → Str → ℤ → Event
  mode : ℤ → ℤ → Event
  done : Event
  logical_position : ℤ → ℤ → Event
  logical_size : ℤ → ℤ → Event
  name : Str → Event
  description : Str → Event

-- The listeners.
unfoldable pub handle : Event → Output → Output
unfolding output_handle_geometry output_handle_mode output_handle_done output_logical_position
    output_logical_size output_name output_description
handle (geometry make model transform) o = output_handle_geometry make model transform o
handle (mode width height) o = output_handle_mode width height o
handle done o = output_handle_done o
handle (logical_position x y) o = output_logical_position x y o
handle (logical_size width height) o = output_logical_size width height o
handle (name s) o = output_name s o
handle (description s) o = output_description s o

-- A new output after some events, the newest first.
unfoldable pub run : ℕ → List Event → Output
unfolding output_new handle
run id [] = output_new id
run id (e ∷ es) = handle e (run id es)

-- What the newest event that says something says.
abbrev pub latest {ℓ} : {A : Type ℓ} → (Event → Option A) → A → List Event → A
latest says a [] = a
latest says a (e ∷ es) = let rest = latest says a es in elim (says e) [ none ↦ rest | some v ↦ v ]

abbrev pub says_geometry : Event → Option (Str × Str × ℤ)
says_geometry (geometry make model transform) = some (make, model, transform)
says_geometry _ = none

abbrev pub says_mode : Event → Option (ℤ × ℤ)
says_mode (mode width height) = some (width, height)
says_mode _ = none

abbrev pub says_position : Event → Option (ℤ × ℤ)
says_position (logical_position x y) = some (x, y)
says_position _ = none

abbrev pub says_size : Event → Option (ℤ × ℤ)
says_size (logical_size width height) = some (width, height)
says_size _ = none

abbrev pub says_name : Event → Option Str
says_name (name s) = some s
says_name _ = none

abbrev pub says_description : Event → Option Str
says_description (description s) = some s
says_description _ = none

-- What the events say of the output, each thing in its newest version.
abbrev pub described : List Event → OutputState
described es =
    let g = latest says_geometry ([], [], pos 0) es in
    let buffer = latest says_mode (pos 0, pos 0) es in
    let position = latest says_position (pos 0, pos 0) es in
    let logical = latest says_size (pos 0, pos 0) es in
    record {
      logical_width = to_uint32 logical.0;
      logical_height = to_uint32 logical.1;
      buffer_width = to_uint32 buffer.0;
      buffer_height = to_uint32 buffer.1;
      x = to_uint32 position.0;
      y = to_uint32 position.1;
      transform = to_uint32 g.2;
      make = truncated 256 g.0;
      model = truncated 256 g.1;
      name = truncated 256 (latest says_name [] es);
      description = truncated 256 (latest says_description [] es);
    }

-- The events up to the newest `done`, which the compositor sends where a description is complete.
abbrev pub completed : List Event → List Event
completed [] = []
completed (done ∷ es) = es
completed (e ∷ es) = completed es

-- Where an output stands: its transform, its logical size, its buffer's size and its position.
abbrev pub placement : OutputState → ℕ × ℕ × ℕ × ℕ × ℕ × ℕ × ℕ
placement s =
    (s.transform, s.logical_width, s.logical_height, s.buffer_width, s.buffer_height, s.x, s.y)

abbrev pub last_told : List OutputState → OutputState
last_told [] = zeroed
last_told (s ∷ told) = s

-- Each time the observers are told there is another placement than the time before.
abbrev pub AllDiffer : List OutputState → Type 0
AllDiffer [] = Unit
AllDiffer (s ∷ told) = (placement s ≢ placement (last_told told)) × AllDiffer told

pub record IsCurrent (es : List Event) (o : Output) : Type 0 where
  pub gathered : o.pending ≡ described es
  pub shown : o.state ≡ described (completed es)
  pub told : placement (last_told o.notified) ≡ placement o.state
  pub told_of_changes : AllDiffer o.notified

geometry_changed_iff :
    (s p : OutputState)
    → (geometry_changed s p ≡ true → placement s ≢ placement p)
      × (geometry_changed s p ≡ false → placement s ≡ placement p)
unfolding geometry_changed
geometry_changed_iff s p = (λ h e. ground arith, λ h. ground arith)

done-IsCurrent :
    (es : List Event) (o : Output) (b : Bool)
    → geometry_changed o.state o.pending ≡ b
    → IsCurrent es o
    → IsCurrent (done ∷ es) (output_handle_done o)
unfolding output_handle_done
done-IsCurrent es o true e h = record {
  gathered = h.gathered;
  shown = h.gathered;
  told = rw e refl;
  told_of_changes = rw e (
    (λ same. (geometry_changed_iff o.state o.pending).0 e (sym (same ∙ h.told))),
    h.told_of_changes,
  );
}
done-IsCurrent es o false e h = record {
  gathered = h.gathered;
  shown = h.gathered;
  told = rw e (h.told ∙ (geometry_changed_iff o.state o.pending).1 e);
  told_of_changes = rw e h.told_of_changes;
}

-- An event that only adds to the description.
pending-IsCurrent :
    (e : Event) (es : List Event) (o : Output) (p : OutputState)
    → IsCurrent es o
    → completed (e ∷ es) ≡ completed es
    → p ≡ described (e ∷ es)
    → IsCurrent (e ∷ es) (record o { pending = p })
pending-IsCurrent e es o p h same d = record {
  gathered = d;
  shown = rw same h.shown;
  told = h.told;
  told_of_changes = h.told_of_changes;
}

handle-IsCurrent :
    (e : Event) (es : List Event) (o : Output) → IsCurrent es o → IsCurrent (e ∷ es) (handle e o)
unfolding handle output_handle_geometry output_handle_mode output_logical_position
    output_logical_size output_name output_description
handle-IsCurrent (geometry make model transform) es o h =
    pending-IsCurrent _ es o _ h refl (rw h.gathered)
handle-IsCurrent (mode width height) es o h = pending-IsCurrent _ es o _ h refl (rw h.gathered)
handle-IsCurrent done es o h = done-IsCurrent es o (geometry_changed o.state o.pending) refl h
handle-IsCurrent (logical_position x y) es o h = pending-IsCurrent _ es o _ h refl (rw h.gathered)
handle-IsCurrent (logical_size width height) es o h =
    pending-IsCurrent _ es o _ h refl (rw h.gathered)
handle-IsCurrent (name s) es o h = pending-IsCurrent _ es o _ h refl (rw h.gathered)
handle-IsCurrent (description s) es o h = pending-IsCurrent _ es o _ h refl (rw h.gathered)

-- Over any sequence of events, what an output gathers is the newest version of each thing that the
-- compositor has said, and what it shows is the same up to the newest `done`: a description is taken
-- whole. The placement that the observers of the geometry were told of last is the one that is
-- shown, and they are told only where it has changed.
pub run-IsCurrent : (id : ℕ) (es : List Event) → IsCurrent es (run id es)
unfolding run output_new
run-IsCurrent id [] = record { gathered = refl; shown = refl; told = refl; told_of_changes = tt }
run-IsCurrent id (e ∷ es) = handle-IsCurrent e es (run id es) (run-IsCurrent id es)
