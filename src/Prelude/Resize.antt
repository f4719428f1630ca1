-- ===== src/Prelude/Resize.antt =====
-- The C library's `realloc`, as the block that it returns: the old block's cells as far as they
-- fit, then cells with any content `junk`. The functions that call it branch on its failure.
use Prim.Native.Nat.{ℕ, zero, suc, ◌<◌}
use mathlib.Core.Path.{◌≡◌, refl}
use mathlib.Core.List.{List, [], ◌∷◌}
use native.Mathlib.Omega.{arith}
use wayvnc.Prelude.Lists.{length, get_or, replicate, length-replicate}

module _ {ℓ} {A : Type ℓ} (junk : A) where
  abbrev pub resize : List A → ℕ → List A
  resize xs zero = []
  resize [] (suc n) = junk ∷ replicate n junk
  resize (x ∷ xs) (suc n) = x ∷ resize xs n

  pub length-resize : (xs : List A) (n : ℕ) → length (resize xs n) ≡ n
  length-resize xs zero = refl
  length-resize [] (suc n) = omega (arith, length-replicate n junk)
  length-resize (x ∷ xs) (suc n) = omega (arith, length-resize xs n)

  -- The cells of the old block that fit are kept.
  pub get_or-resize :
      (xs : List A) (n i : ℕ) (d : A)
      → i < n
      → i < length xs
      → get_or (resize xs n) i d ≡ get_or xs i d
  get_or-resize xs zero i d h k = elim h [ ]
  get_or-resize [] (suc n) i d h k = elim k [ ]
  get_or-resize (x ∷ xs) (suc n) zero d h k = refl
  get_or-resize (x ∷ xs) (suc n) (suc i) d h k = get_or-resize xs n i d (omega arith) (omega arith)
