-- ===== src/Buffer/Counts.antt =====
-- The reference counts of the devices of src/buffer.c: the pool and its buffers hold them.
use wayvnc.Prelude.{
  ℕ, zero, suc, ◌+◌, ◌-◌, ◌≤◌, ◌<◌, ◌≡◌, refl, Bool, true, ◌&&◌, Option, none, some, List, [], ◌∷◌,
  ◌++◌, length, set, get_or, get_or-set_self, get_or-set_ne, ◌==◌, if◌then◌else◌, arith, inl, inr,
  Bool-cases, subst, sym,
}
use wayvnc.Buffer.{
  BufferConfig, Regions, Buffer, Pool, with_id, update, remove, wv_gbm_device_ref,
  wv_gbm_device_unref, buffer_configs_match,
}
use wayvnc.Buffer.Ops.{
  pool_reconfig, wv_buffer_destroy, reconfig_render_node, open_render_node, open_if_missing,
  without_device, gbm_of, is_none, is_dmabuf, damage_each,
}

-- How often a pointer to a device points to the device d.
abbrev pub held : Option ℕ → ℕ → ℕ
held none d = 0
held (some e) d = if e == d then 1 else 0

abbrev pub held_by : {R : Type 0} → List (Buffer R) → ℕ → ℕ
held_by [] d = 0
held_by (b ∷ bs) d = held b.gbm d + held_by bs d

get_or-within : (xs : List ℕ) (i : ℕ) → 0 < get_or xs i 0 → i < length xs
get_or-within [] i h = omega arith
get_or-within (x ∷ xs) zero h = omega arith
get_or-within (x ∷ xs) (suc i) h = omega (arith, get_or-within xs i h)

get_or-set :
    (xs : List ℕ) (i j v : ℕ)
    → i < length xs
    → get_or (set xs i v) j 0 ≡ (if i == j then v else get_or xs j 0)
get_or-set xs i j v h = elim (Bool-cases (i == j)) [
  | inl e ↦ let q : i ≡ j = ground (arith, e) in rw (e, sym q) (get_or-set_self xs i v 0 h)
  | inr e ↦ rw e (get_or-set_ne xs i j v 0 (λ q. ground (arith, e, q)))
]

get_or-snoc :
    (xs : List ℕ) (j : ℕ) → get_or (xs ++ 1 ∷ []) j 0 ≡ get_or xs j 0 + held (some (length xs)) j
get_or-snoc [] zero = refl
get_or-snoc [] (suc j) = ground arith
get_or-snoc (x ∷ xs) zero = ground arith
get_or-snoc (x ∷ xs) (suc j) = ground (arith, get_or-snoc xs j)

pub ref_lem :
    (refs : List ℕ) (e d : ℕ)
    → 0 < get_or refs e 0
    → get_or (wv_gbm_device_ref e refs) d 0 ≡ get_or refs d 0 + held (some e) d
unfolding wv_gbm_device_ref
ref_lem refs e d h =
    ground (arith, get_or-set refs e d (get_or refs e 0 + 1) (get_or-within refs e h))

unref_lem :
    (refs : List ℕ) (o : Option ℕ) (d : ℕ)
    → ((e : ℕ) → held o e ≤ get_or refs e 0)
    → get_or (wv_gbm_device_unref o refs) d 0 ≡ get_or refs d 0 - held o d
unfolding wv_gbm_device_unref
unref_lem refs none d h = omega arith
unref_lem refs (some e) d h =
    let p : 0 < get_or refs e 0 = ground (arith, h e) in
    ground (arith, get_or-set refs e d (get_or refs e 0 - 1) (get_or-within refs e p))

is_none_sound : (o : Option ℕ) → is_none o ≡ true → o ≡ none
is_none_sound none e = refl
is_none_sound (some d) e = ground arith

module _ {R : Type 0} where
  -- Each device has as many references as there are pointers to it, in the pool and in its buffers.
  unfoldable pub Counted : Pool R → Type 0
  Counted pool = (d : ℕ) → get_or pool.refs d 0 ≡ held pool.gbm d + held_by pool.list d

  pub held_by-update :
      (id : ℕ) (f : Buffer R → Buffer R)
      → ((b : Buffer R) → (f b).gbm ≡ b.gbm)
      → (bs : List (Buffer R)) (d : ℕ) → held_by (update id f bs) d ≡ held_by bs d
  held_by-update id f same [] d = refl
  held_by-update id f same (b ∷ bs) d = elim (Bool-cases (b.id == id)) [
    | inl e ↦ rw (e, same b) refl
    | inr e ↦ rw (e, held_by-update id f same bs d) refl
  ]

  held_by-remove :
      (id : ℕ) (bs : List (Buffer R)) (d : ℕ)
      → held_by bs d ≡ held_by (remove id bs) d + held (gbm_of (with_id id bs)) d
  held_by-remove id [] d = refl
  held_by-remove id (b ∷ bs) d = elim (Bool-cases (b.id == id)) [
    | inl e ↦ rw e (omega arith)
    | inr e ↦ rw e (omega (arith, held_by-remove id bs d))
  ]

  pub held_by-damage :
      (rs : Regions R) (region : R) (bs : List (Buffer R)) (d : ℕ)
      → held_by (damage_each rs region bs) d ≡ held_by bs d
  held_by-damage rs region [] d = refl
  held_by-damage rs region (b ∷ bs) d = rw (held_by-damage rs region bs d) refl

  pub destroy-Counted :
      (id : ℕ) (pool : Pool R) → Counted pool → Counted (wv_buffer_destroy id pool)
  unfolding Counted wv_buffer_destroy
  destroy-Counted id pool c d =
      let o = gbm_of (with_id id pool.list) in
      omega (
        arith,
        c d,
        held_by-remove id pool.list d,
        unref_lem pool.refs o d (λ e. omega (arith, c e, held_by-remove id pool.list e)),
      )

  without-Counted : (pool : Pool R) → Counted pool → Counted (without_device pool)
  unfolding Counted
  without-Counted pool c d =
      omega (arith, c d, unref_lem pool.refs pool.gbm d (λ e. omega (arith, c e)))

  open-Counted :
      (opened : Bool) (pool : Pool R)
      → pool.gbm ≡ none
      → Counted pool
      → Counted (open_render_node opened pool)
  unfolding Counted open_render_node
  open-Counted opened pool n c d =
      let k : get_or pool.refs d 0 ≡ 0 + held_by pool.list d =
        subst (λ g. get_or pool.refs d 0 ≡ held g d + held_by pool.list d) n (c d) in
      elim (Bool-cases opened) [
        | inl e ↦ rw e (omega (arith, k, get_or-snoc pool.refs d))
        | inr e ↦ rw e (omega (arith, k))
      ]

  missing-Counted :
      (opened : Bool) (pool : Pool R) → Counted pool → Counted (open_if_missing opened pool)
  unfolding Counted open_if_missing
  missing-Counted opened pool c = elim (Bool-cases (pool.config.node == 0 && is_none pool.gbm)) [
    | inl q ↦ rw q (open-Counted opened pool (is_none_sound pool.gbm (ground (arith, q))) c)
    | inr q ↦ rw q c
  ]

  node-Counted :
      (opened opened_again : Bool) (config : BufferConfig) (old_node : ℕ) (pool : Pool R)
      → Counted pool
      → Counted (reconfig_render_node opened opened_again config old_node pool).1
  unfolding reconfig_render_node
  node-Counted opened opened_again config old_node pool c =
      elim (Bool-cases (is_dmabuf config.kind)) [
        | inr e ↦ rw e (without-Counted pool c)
        | inl e ↦ elim (Bool-cases (old_node == config.node)) [
          | inl q ↦ rw (e, q) (missing-Counted opened_again pool c)
          | inr q ↦
              rw (e, q)
                (missing-Counted opened_again (open_render_node opened (without_device pool))
                  (open-Counted opened (without_device pool) refl (without-Counted pool c)))
        ]
      ]

  pub reconfig-Counted :
      (opened opened_again : Bool) (config : BufferConfig) (pool : Pool R)
      → Counted pool
      → Counted (pool_reconfig opened opened_again config pool).1
  unfolding pool_reconfig Counted
  reconfig-Counted opened opened_again config pool c =
      elim (Bool-cases (buffer_configs_match pool.config config)) [
        | inl e ↦ rw e c
        | inr e ↦ rw e (
            node-Counted opened opened_again config pool.config.node
              (record pool { has_nvnc_pool = true; config = config }) c)
      ]
