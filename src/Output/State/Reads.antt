-- ===== src/Output/State/Reads.antt =====
-- What the functions of src/output.c that read outputs answer.
use wayvnc.Prelude.{
  ℕ, ◌<◌, ◌≡◌, refl, ap, List, [], ◌∷◌, ◌++◌, none, some, ◌==◌, ◌^◌, if◌then◌else◌, arith, inl, inr,
  Bool-cases,
}
use wayvnc.Prelude.Int.{ℤ, pos, negsuc}
use wayvnc.Output.State.{
  Output, to_uint32, to_int32, output_get_pos, output_get_buffer_size, is_transform_90_degrees,
  output_find_by_id,
}
use wayvnc.Output.State.History.{
  Event, run, latest, completed, described, says_position, says_mode, run-IsCurrent,
}

abbrev pub IsInt32 : ℤ → Type 0
IsInt32 (pos n) = n < 2 ^ 31
IsInt32 (negsuc n) = n < 2 ^ 31

pub to_int32-to_uint32 : (v : ℤ) → IsInt32 v → to_int32 (to_uint32 v) ≡ v
to_int32-to_uint32 (pos n) h = ground arith
to_int32-to_uint32 (negsuc n) h = ground arith

-- The position that is read is the newest of those before the newest `done`, if they are `int32_t`.
pub output_get_pos-run :
    (id : ℕ) (es : List Event) (x y : ℤ)
    → latest says_position (pos 0, pos 0) (completed es) ≡ (x, y)
    → IsInt32 x
    → IsInt32 y
    → output_get_pos (run id es) ≡ (x, y)
unfolding output_get_pos
output_get_pos-run id es x y h p q =
    rw ((run-IsCurrent id es).shown, h, to_int32-to_uint32 x p, to_int32-to_uint32 y q) refl

-- So is the size of the buffer, with the sides exchanged where the transform turns by a quarter.
pub output_get_buffer_size-run :
    (id : ℕ) (es : List Event) (w h : ℤ)
    → latest says_mode (pos 0, pos 0) (completed es) ≡ (w, h)
    → IsInt32 w
    → IsInt32 h
    → output_get_buffer_size (run id es)
      ≡ (if is_transform_90_degrees (described (completed es)).transform then (h, w) else (w, h))
unfolding output_get_buffer_size
output_get_buffer_size-run id es w h e p q =
    rw ((run-IsCurrent id es).shown, e, to_int32-to_uint32 w p, to_int32-to_uint32 h q) refl

-- An output is found by its id, and it is the first with that id.
pub output_find_by_id_lem :
    (os : List Output) (id : ℕ) {o : Output}
    → output_find_by_id os id ≡ some o
    → (before : List Output) × (after : List Output) × (os ≡ before ++ o ∷ after)
      × (output_find_by_id before id ≡ none)
      × (o.id ≡ id)
unfolding output_find_by_id
output_find_by_id_lem [] id h = cc
output_find_by_id_lem (p ∷ os) id {o} h = elim (Bool-cases (p.id == id)) [
  | inl e ↦ ([], os, ap (λ q. q ∷ os) (ground (arith, h)), refl, ground arith)
  | inr e ↦
      let (before, after, split, missed, found) = output_find_by_id_lem os id {o = o} (rw e at h) in
      (p ∷ before, after, ap (λ r. p ∷ r) split, rw (e, missed), found)
]
