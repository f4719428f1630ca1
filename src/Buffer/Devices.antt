-- ===== src/Buffer/Devices.antt =====
-- Over any history of a pool of src/buffer.c, the reference counts of its devices are right.
use mathlib.Core.Option.{some-injective, none-ne-some}
use wayvnc.Prelude.{
  ℕ, ◌+◌, ◌<◌, ◌≡◌, refl, Bool, true, false, ◌||◌, Option, none, some, Option-cases, List, [], ◌∷◌,
  get_or, ◌==◌, arith, inl, inr, Bool-cases, subst,
}
use wayvnc.Pixels.{Formats, pixel_size_from_fourcc}
use wayvnc.Buffer.{
  BufferType, unspec, shm, dmabuf, BufferConfig, Regions, Buffer, Pool, Outcome, with_id, update,
  pool_alloc, wv_buffer_create, wv_buffer_create_shm, wv_buffer_create_dmabuf, insert_head,
}
use wayvnc.Buffer.Ops.{
  Choice, recycled, allocated, pool_acquire, pool_reconfig, wv_buffer_destroy, frame, frame_new,
  framed, damage_each, damage_rect, damage_whole, rect_damaged, whole_damaged, buffer_filled,
  pool_damage_all, frame_damage_of, cleared, wv_buffer_release, released,
}
use wayvnc.Prelude.Int.{ℤ}
use wayvnc.Buffer.Counts.{
  Counted, held, held_by, held_by-update, held_by-damage, ref_lem, destroy-Counted,
  reconfig-Counted,
}

module _ {R : Type 0} where
  abbrev pub AfterCounted : {A : Type 0} → Outcome R A → Type 0
  AfterCounted none = Unit
  AfterCounted (some (a, pool)) = Counted pool

module _ {R : Type 0} (rs : Regions R) (fs : Formats) where
  frame-Counted :
      (b : Option (Buffer R)) (pool : Pool R) → Counted pool → AfterCounted (frame fs b pool)
  unfolding Counted
  frame-Counted none pool c = c
  frame-Counted (some b) pool c =
      elim (Bool-cases (pixel_size_from_fourcc fs pool.config.format == 0 || b.is_framed)) [
        | inl e ↦ rw e tt
        | inr e ↦ rw e (λ d. omega (arith, c d, held_by-update b.id framed (λ a. refl) pool.list d))
      ]

  abbrev inserted : Outcome R (Option (Buffer R)) → Outcome R (Option (Buffer R))
  inserted none = none
  inserted (some r) = some (insert_head r)

  create-Counted :
      (kind : BufferType) (created : Bool) (id : ℕ) (pool : Pool R)
      → Counted pool
      → AfterCounted (inserted (wv_buffer_create rs fs kind created id pool.config pool))
  unfolding wv_buffer_create wv_buffer_create_shm wv_buffer_create_dmabuf Counted
  create-Counted unspec created id pool c = tt
  create-Counted shm false id pool c = c
  create-Counted shm true id pool c =
      elim (Bool-cases (pixel_size_from_fourcc fs pool.config.format == 0)) [
        | inl e ↦ rw e tt
        | inr e ↦ rw e (λ d. omega (arith, c d))
      ]
  create-Counted dmabuf created id pool c = elim (Option-cases pool.gbm) [
    | inl e ↦ rw e tt
    | inr (d, e) ↦
        let k : (i : ℕ) → get_or pool.refs i 0 ≡ held (some d) i + held_by pool.list i =
          subst (λ g. (i : ℕ) → get_or pool.refs i 0 ≡ held g i + held_by pool.list i) e c in
        let used : 0 < get_or pool.refs d 0 = ground (arith, k d) in
        rw e (elim (Bool-cases created) [
          | inl q ↦ rw q (λ i. omega (arith, k i, ref_lem pool.refs d i used))
          | inr q ↦ rw q k
        ])
  ]

  frame_new_counted :
      (r : Outcome R (Option (Buffer R))) → AfterCounted r → AfterCounted (frame_new fs r)
  frame_new_counted none c = tt
  frame_new_counted (some (b, pool)) c = frame-Counted b pool c

  acquire-Counted :
      (choice : Choice) (pool : Pool R)
      → Counted pool
      → AfterCounted (pool_acquire rs fs choice pool)
  unfolding pool_acquire Counted
  acquire-Counted (recycled id) pool c = elim (Bool-cases pool.has_nvnc_pool) [
    | inl e ↦ rw e (frame-Counted (with_id id pool.list) (record pool { has_nvnc_pool = true }) c)
    | inr e ↦ rw e tt
  ]
  acquire-Counted (allocated created id) pool c = elim (Bool-cases pool.has_nvnc_pool) [
    | inl e ↦ rw e (
        frame_new_counted (pool_alloc rs fs created id (record pool { has_nvnc_pool = true }))
          (create-Counted pool.config.kind created id (record pool { has_nvnc_pool = true }) c))
    | inr e ↦ rw e tt
  ]

  -- What happens to a pool.
  pub data Event : Type 0 where
    reconfig : (opened opened_again : Bool) → BufferConfig → Event
    acquire : Choice → Event
    rect : ℕ → (x y width height : ℤ) → Event
    whole filled release destroyed : ℕ → Event

  abbrev pub pool_of : {A : Type 0} → Outcome R A → Option (Pool R)
  pool_of none = none
  pool_of (some (a, pool)) = some pool

  unfoldable pub apply : Event → Pool R → Option (Pool R)
  apply (reconfig opened opened_again config) pool =
      some (pool_reconfig opened opened_again config pool).1
  apply (acquire choice) pool = pool_of (pool_acquire rs fs choice pool)
  apply (rect id x y width height) pool = some (damage_rect rs id x y width height pool)
  apply (whole id) pool = some (damage_whole rs id pool)
  apply (filled id) pool = some (buffer_filled rs id pool)
  apply (release id) pool = some (wv_buffer_release rs id pool)
  apply (destroyed id) pool = some (wv_buffer_destroy id pool)

  abbrev pub then_apply : Option (Pool R) → (Pool R → Option (Pool R)) → Option (Pool R)
  then_apply none f = none
  then_apply (some pool) f = f pool

  unfoldable pub apply_all : List Event → Pool R → Option (Pool R)
  unfolding apply
  apply_all [] pool = some pool
  apply_all (e ∷ es) pool = then_apply (apply e pool) (apply_all es)

  abbrev OptionCounted : Option (Pool R) → Type 0
  OptionCounted none = Unit
  OptionCounted (some pool) = Counted pool

  outcome_counted : {A : Type 0} (r : Outcome R A) → AfterCounted r → OptionCounted (pool_of r)
  outcome_counted none c = tt
  outcome_counted (some (a, pool)) c = c

  updated-Counted :
      (id : ℕ) (f : Buffer R → Buffer R)
      → ((b : Buffer R) → (f b).gbm ≡ b.gbm)
      → (pool : Pool R) → Counted pool
      → Counted (record pool { list = update id f pool.list })
  unfolding Counted
  updated-Counted id f same pool c d = omega (arith, c d, held_by-update id f same pool.list d)

  filled-Counted : (id : ℕ) (pool : Pool R) → Counted pool → Counted (buffer_filled rs id pool)
  unfolding Counted buffer_filled pool_damage_all
  filled-Counted id pool c d =
      let region = frame_damage_of rs (with_id id pool.list) in
      omega (
        arith,
        c d,
        held_by-damage rs region pool.list d,
        held_by-update id (cleared rs) (λ b. refl) (damage_each rs region pool.list) d,
      )

  apply-Counted : (e : Event) (pool : Pool R) → Counted pool → OptionCounted (apply e pool)
  unfolding apply damage_rect damage_whole wv_buffer_release
  apply-Counted (reconfig opened opened_again config) pool c =
      reconfig-Counted opened opened_again config pool c
  apply-Counted (acquire choice) pool c =
      outcome_counted (pool_acquire rs fs choice pool) (acquire-Counted choice pool c)
  apply-Counted (rect id x y width height) pool c =
      updated-Counted id (rect_damaged rs x y width height) (λ b. refl) pool c
  apply-Counted (whole id) pool c = updated-Counted id (whole_damaged rs) (λ b. refl) pool c
  apply-Counted (filled id) pool c = filled-Counted id pool c
  apply-Counted (release id) pool c = updated-Counted id (released rs) (λ b. refl) pool c
  apply-Counted (destroyed id) pool c = destroy-Counted id pool c

  then-Counted :
      (o : Option (Pool R)) (f : Pool R → Option (Pool R)) (pool' : Pool R)
      → OptionCounted o
      → ((p : Pool R) → Counted p → f p ≡ some pool' → Counted pool')
      → then_apply o f ≡ some pool'
      → Counted pool'
  then-Counted none f pool' c k h = absurd (none-ne-some pool' h)
  then-Counted (some p) f pool' c k h = k p c h

  -- From a pool whose counts are right, any history leaves each device with as many references as
  -- there are pointers to it, in the pool and in its buffers.
  pub apply_all-Counted :
      (es : List Event) (pool pool' : Pool R)
      → Counted pool
      → apply_all es pool ≡ some pool'
      → Counted pool'
  unfolding apply_all
  apply_all-Counted [] pool pool' c h = subst Counted (some-injective pool pool' h) c
  apply_all-Counted (e ∷ es) pool pool' c h =
      then-Counted (apply e pool) (apply_all es) pool' (apply-Counted e pool c)
        (λ p k g. apply_all-Counted es p pool' k g) h
