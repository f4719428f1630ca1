-- ===== src/Buffer/Configs.antt =====
-- When src/buffer.c takes a configuration for the one it has.
use wayvnc.Prelude.{ℕ, ◌%◌, ◌≡◌, refl, ◌==◌, Bool, true, [], ◌∷◌, arith}
use wayvnc.Buffer.{
  BufferType, BufferConfig, Pool, buffer_configs_match, modifiers_match, shm, dmabuf, unspec,
  type_eq,
}
use wayvnc.Buffer.Ops.{pool_reconfig}

type_eq_refl : (k : BufferType) → type_eq k k ≡ true
type_eq_refl unspec = refl
type_eq_refl shm = refl
type_eq_refl dmabuf = refl

==_refl : (n : ℕ) → n == n ≡ true
==_refl n = ground arith

first_bytes : (a b : ℕ) → a % 256 ≡ b % 256 → modifiers_match (a ∷ []) (b ∷ []) ≡ true
unfolding modifiers_match
first_bytes a b h = rw h (rw (==_refl (b % 256)) refl)

configs_match :
    (c : BufferConfig) (a b : ℕ)
    → c.modifiers ≡ a ∷ []
    → a % 256 ≡ b % 256
    → buffer_configs_match c (record c { modifiers = b ∷ [] }) ≡ true
unfolding buffer_configs_match
configs_match c a b e h =
    rw
      (
        e,
        type_eq_refl c.kind,
        ==_refl c.width,
        ==_refl c.height,
        ==_refl c.stride,
        ==_refl c.format,
        ==_refl c.node,
      )
      (first_bytes a b h)

module _ {R : Type 0} where
  -- If a configuration names one modifier and only that changes, to one with the same lowest byte,
  -- the pool says that it has been reconfigured and keeps the modifier it had.
  pub reconfig-one_modifier :
      (opened opened_again : Bool) (pool : Pool R) (a b : ℕ)
      → pool.config.modifiers ≡ a ∷ []
      → a % 256 ≡ b % 256
      → pool_reconfig opened opened_again (record pool.config { modifiers = b ∷ [] }) pool
        ≡ (true, pool)
  unfolding pool_reconfig
  reconfig-one_modifier opened opened_again pool a b e h =
      rw (configs_match pool.config a b e h) refl
