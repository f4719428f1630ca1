-- ===== src/Vec.antt =====
-- src/vec.c: a growing array of bytes.
pub mod Laws
mod Tests
use wayvnc.Prelude.{
  ℕ, ◌+◌, ◌*◌, ◌%◌, ◌^◌, Bool, true, false, List, [], ◌++◌, Option, none, some, ltb, leb,
  if◌then◌else◌, length, take, drop, replicate, resize,
}
use wayvnc.Text.{Str}

-- `struct wv_vec`; `block` is what `data` points to.
pub record Vec : Type 0 where
  pub block : Str
  pub len : ℕ
  pub cap : ℕ

-- `size_t` arithmetic.
abbrev pub size_mod : ℕ
size_mod = 2 ^ 64

-- `memcpy` to an offset of a block; `none` is a write outside it.
unfoldable pub write : Str → ℕ → Str → Option Str
write block offset bytes =
    if leb (offset + length bytes) (length block)
    then some (take offset block ++ (bytes ++ drop (offset + length bytes) block))
    else none

-- `memcpy` behind the first `len` bytes, and the new length.
unfoldable pub write_at : Vec → ℕ → Str → Option (Bool × Vec)
write_at vec offset bytes = elim (write vec.block offset bytes) [
  | none ↦ none
  | some block ↦ some (true, record vec { block = block; len = (offset + length bytes) % size_mod })
]

module _ (junk : ℕ) (alloc_ok : Bool) where
  -- The status, 0 as `true` and -1 as `false`, and the array.
  unfoldable pub reserve : Vec → ℕ → Bool × Vec
  reserve vec size =
      if leb size vec.cap
      then (true, vec)
      else if alloc_ok
      then (true, record vec { cap = size; block = resize junk vec.block size })
      else (false, vec)

  unfoldable pub init : ℕ → Bool × Vec
  init cap = reserve (record { block = []; len = 0; cap = 0 }) cap

  unfoldable pub grow : Vec → ℕ → Bool × Vec
  grow vec size =
      if ltb ((vec.len + size) % size_mod) vec.cap
      then (true, vec)
      else reserve vec (2 * (vec.len + size) % size_mod)

  unfoldable pub assign : Vec → Str → Option (Bool × Vec)
  assign vec bytes =
      let (ok, vec') = reserve (record vec { len = 0 }) (length bytes) in
      if ok then write_at vec' 0 bytes else some (false, vec')

  unfoldable pub append : Vec → Str → Option (Bool × Vec)
  append vec bytes =
      let (ok, vec') = grow vec (length bytes) in
      if ok then write_at vec' vec'.len bytes else some (false, vec')

  unfoldable pub append_zero : Vec → ℕ → Option (Bool × Vec)
  append_zero vec size =
      let (ok, vec') = grow vec size in
      if ok then write_at vec' vec'.len (replicate size 0) else some (false, vec')

unfoldable pub bzero : Vec → Option Vec
bzero vec = elim (write vec.block 0 (replicate vec.cap 0)) [
  | none ↦ none
  | some block ↦ some (record vec { block = block })
]
