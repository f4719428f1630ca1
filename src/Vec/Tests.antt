-- ===== src/Vec/Tests.antt =====
-- The arrays of src/vec.c on concrete inputs.
use wayvnc.Prelude.{◌≡◌, refl, true, [], ◌∷◌, some}
use wayvnc.Vec.{Vec, append, grow, reserve, write_at, write}

abbrev two_bytes : Vec
two_bytes = record { block = 1 ∷ 2 ∷ []; len = 2; cap = 2 }

append-doubles :
    append 0 true two_bytes (3 ∷ [])
    ≡ some (true, record { block = 1 ∷ 2 ∷ 3 ∷ 0 ∷ 0 ∷ 0 ∷ []; len = 3; cap = 6 })
unfolding append grow reserve write_at write
append-doubles = refl
