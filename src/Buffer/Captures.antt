-- ===== src/Buffer/Captures.antt =====
-- Histories of the pool of src/buffer.c, as src/ext-image-copy-capture.c makes them: buffers are
-- acquired, captured into and released.
use mathlib.Core.Option.{some-injective, none-ne-some}
use wayvnc.Prelude.{
  ◌∙◌, ℕ, ◌≡◌, refl, sym, subst, Bool, true, false, Option, none, some, Option-cases, List, [], ◌∷◌,
  inl, inr, Bool-cases, ◌==◌, ◌||◌, arith,
}
use wayvnc.Prelude.Int.{ℤ, pos}
use wayvnc.Pixels.{Formats, pixel_size_from_fourcc}
use wayvnc.Buffer.{
  BufferType, unspec, shm, dmabuf, BufferConfig, Regions, Buffer, Pool, Outcome, with_id,
  new_buffer, pool_alloc, wv_buffer_create, wv_buffer_create_shm, wv_buffer_create_dmabuf,
  insert_head,
}
use wayvnc.Buffer.Ops.{
  Choice, recycled, allocated, pool_acquire, pool_reconfig, damage_rect, damage_whole,
  buffer_filled, wv_buffer_release, wv_buffer_destroy, frame, frame_new, framed, released,
  rect_damaged, whole_damaged, reconfig_render_node, open_render_node, pool_create, pool_damage_all,
}
use wayvnc.Buffer.Damage.{
  RegionLaws, Picture, with_contents, inside, IsCurrent, Absent, AllCurrent, Capture, new-IsCurrent,
  all_remove, all_update, all_filled, filled_current,
}

-- The pool, the screen at the last frame that was captured, and what the buffers hold.
pub record World (R : Type 0) : Type 0 where
  pub pool : Pool R
  pub screen : Picture
  pub contents : ℕ → Picture

module _ {R : Type 0} {rs : Regions R} (laws : RegionLaws rs) (fs : Formats) where
  -- A buffer is allocated where there is none.
  abbrev pub IsNew : Choice → List (Buffer R) → Type 0
  IsNew (recycled id) bs = Unit
  IsNew (allocated created id) bs = Absent laws id bs

  pub data Step : World R → World R → Type 0 where
    reconfigured :
        {w : World R} (opened opened_again : Bool) (config : BufferConfig)
        → Step w (record w { pool = (pool_reconfig opened opened_again config w.pool).1 })
    acquired :
        {w : World R} (choice : Choice) (b : Option (Buffer R)) (pool : Pool R)
        → IsNew choice w.pool.list
        → pool_acquire rs fs choice w.pool ≡ some (b, pool)
        → Step w (record w { pool = pool })
    rect :
        {w : World R} (id : ℕ) (x y width height : ℤ)
        → Step w (record w { pool = damage_rect rs id x y width height w.pool })
    whole : {w : World R} (id : ℕ) → Step w (record w { pool = damage_whole rs id w.pool })
    filled :
        {w : World R} (id : ℕ) (b : Buffer R) (screen' c' : Picture)
        → with_id id w.pool.list ≡ some b
        → Capture laws w.screen screen' (w.contents id) c' b
        → Step w (record {
          pool = buffer_filled rs id w.pool;
          screen = screen';
          contents = with_contents id c' w.contents;
        })
    release : {w : World R} (id : ℕ) → Step w (record w { pool = wv_buffer_release rs id w.pool })
    destroyed : {w : World R} (id : ℕ) → Step w (record w { pool = wv_buffer_destroy id w.pool })

  pub data Steps : World R → World R → Type 0 where
    here : {w : World R} → Steps w w
    after : {u v w : World R} → Steps u v → Step v w → Steps u w

  AllShown : World R → Type 0
  AllShown w = AllCurrent laws w.screen w.contents w.pool.list

  -- A fault leaves nothing to be current.
  Kept : {A : Type 0} → Picture → (ℕ → Picture) → Outcome R A → Type 0
  Kept screen contents none = Unit
  Kept screen contents (some (a, pool)) = AllCurrent laws screen contents pool.list

  module _ (screen : Picture) (contents : ℕ → Picture) where
    frame-Kept :
        (b : Option (Buffer R)) (pool : Pool R)
        → AllCurrent laws screen contents pool.list
        → Kept screen contents (frame fs b pool)
    unfolding Kept IsCurrent
    frame-Kept none pool a = a
    frame-Kept (some b) pool a =
        elim (Bool-cases (pixel_size_from_fourcc fs pool.config.format == 0 || b.is_framed)) [
          | inl e ↦ rw e tt
          | inr e ↦
              rw e (all_update laws screen contents b.id framed (λ c. refl) (λ c i. i) pool.list a)
        ]

    frame_new-Kept :
        (r : Outcome R (Option (Buffer R)))
        → Kept screen contents r
        → Kept screen contents (frame_new fs r)
    unfolding Kept
    frame_new-Kept none k = tt
    frame_new-Kept (some (b, pool)) k = frame-Kept b pool k

    insert_kept :
        (id : ℕ) (config : BufferConfig) (gbm : Option ℕ) (pool : Pool R)
        → Absent laws id pool.list
        → AllCurrent laws screen contents pool.list
        → AllCurrent laws screen contents (new_buffer rs id config gbm ∷ pool.list)
    unfolding AllCurrent
    insert_kept id config gbm pool n a =
        (new-IsCurrent laws screen (contents id) id config gbm, n, a)

    abbrev inserted : Outcome R (Option (Buffer R)) → Outcome R (Option (Buffer R))
    inserted none = none
    inserted (some r) = some (insert_head r)

    create-Kept :
        (kind : BufferType) (created : Bool) (id : ℕ) (pool : Pool R)
        → Absent laws id pool.list
        → AllCurrent laws screen contents pool.list
        → Kept screen contents (inserted (wv_buffer_create rs fs kind created id pool.config pool))
    unfolding Kept wv_buffer_create wv_buffer_create_shm wv_buffer_create_dmabuf
    create-Kept unspec created id pool n a = tt
    create-Kept shm false id pool n a = a
    create-Kept shm true id pool n a =
        elim (Bool-cases (pixel_size_from_fourcc fs pool.config.format == 0)) [
          | inl e ↦ rw e tt
          | inr e ↦ rw e (insert_kept id pool.config none pool n a)
        ]
    create-Kept dmabuf created id pool n a = elim (Option-cases pool.gbm) [
      | inl e ↦ rw e tt
      | inr (d, e) ↦ rw e (elim (Bool-cases created) [
        | inl c ↦ rw c (insert_kept id pool.config (some d) pool n a)
        | inr c ↦ rw c a
      ])
    ]

    acquire-Kept :
        (choice : Choice) (pool : Pool R)
        → IsNew choice pool.list
        → AllCurrent laws screen contents pool.list
        → Kept screen contents (pool_acquire rs fs choice pool)
    unfolding pool_acquire Kept
    acquire-Kept (recycled id) pool n a = elim (Bool-cases pool.has_nvnc_pool) [
      | inl e ↦ rw e (frame-Kept (with_id id pool.list) (record pool { has_nvnc_pool = true }) a)
      | inr e ↦ rw e tt
    ]
    acquire-Kept (allocated created id) pool n a = elim (Bool-cases pool.has_nvnc_pool) [
      | inl e ↦ rw e (
          frame_new-Kept (pool_alloc rs fs created id (record pool { has_nvnc_pool = true }))
            (create-Kept pool.config.kind created id (record pool { has_nvnc_pool = true }) n a))
      | inr e ↦ rw e tt
    ]

    reconfig_kept :
        (opened opened_again : Bool) (config : BufferConfig) (pool : Pool R)
        → (pool_reconfig opened opened_again config pool).1.list ≡ pool.list
    unfolding pool_reconfig reconfig_render_node open_render_node
    reconfig_kept opened opened_again config pool = ground arith

  -- A buffer of the pool is among those that are current.
  listed-IsCurrent :
      (screen : Picture) (contents : ℕ → Picture) (id : ℕ) (b : Buffer R) (bs : List (Buffer R))
      → AllCurrent laws screen contents bs
      → with_id id bs ≡ some b
      → IsCurrent laws screen (contents id) b
  unfolding AllCurrent
  listed-IsCurrent screen contents id b [] a e = absurd (none-ne-some b e)
  listed-IsCurrent screen contents id b (c ∷ bs) a e = elim (Bool-cases (c.id == id)) [
    | inl q ↦
        let h : with_id id (c ∷ bs) ≡ some c = rw q refl in
        let same : c.id ≡ id = ground (arith, q) in
        subst (IsCurrent laws screen (contents id)) (some-injective c b (sym h ∙ e))
          (subst (λ i. IsCurrent laws screen (contents i) c) same a.0)
    | inr q ↦
        let h : with_id id (c ∷ bs) ≡ with_id id bs = rw q refl in
        listed-IsCurrent screen contents id b bs a.2 (sym h ∙ e)
  ]

  Step-shown : {w v : World R} → Step w v → AllShown w → AllShown v
  unfolding AllShown Kept IsCurrent damage_rect damage_whole buffer_filled pool_damage_all
      wv_buffer_release wv_buffer_destroy
  Step-shown {w = w} (reconfigured opened opened_again config) a =
      subst (AllCurrent laws w.screen w.contents)
        (sym (reconfig_kept w.screen w.contents opened opened_again config w.pool)) a
  Step-shown {w = w} (acquired choice b pool n e) a =
      subst (Kept w.screen w.contents) e (acquire-Kept w.screen w.contents choice w.pool n a)
  Step-shown {w = w} (rect id x y width height) a =
      all_update laws w.screen w.contents id (rect_damaged rs x y width height) (λ b. refl)
        (λ b i. i) w.pool.list a
  Step-shown {w = w} (whole id) a =
      all_update laws w.screen w.contents id (whole_damaged rs) (λ b. refl) (λ b i. i) w.pool.list a
  Step-shown {w = w} (filled id b screen' c' e k) a = rw e (
      all_filled laws w.screen screen' w.contents c' b.frame_damage k.unchanged id w.pool.list
        (λ b' e' x y p h.
          filled_current laws w.screen screen' (w.contents id) c' b'
            (subst (λ d. Capture laws w.screen screen' (w.contents id) c' d)
              (some-injective b b' (sym e ∙ e')) k)
            (listed-IsCurrent w.screen w.contents id b' w.pool.list a e') x y p)
        a)
  Step-shown {w = w} (release id) a =
      all_update laws w.screen w.contents id (released rs) (λ b. refl) (λ b i. i) w.pool.list a
  Step-shown {w = w} (destroyed id) a = all_remove laws w.screen w.contents id w.pool.list a

  steps_shown : {w v : World R} → Steps w v → AllShown w → AllShown v
  steps_shown here a = a
  steps_shown (after s p) a = Step-shown p (steps_shown s a)

  -- Over any history of a new pool, a buffer that is captured into shows the screen at every point,
  -- if each frame's damage covers what has changed on the screen since the frame before, and the
  -- compositor writes that damage and the damage that the buffer asks for.
  pub Steps-filled :
      {w v : World R} (id : ℕ) (b : Buffer R) (screen' c' : Picture)
      → w.pool ≡ pool_create
      → Steps w v
      → with_id id v.pool.list ≡ some b
      → Capture laws v.screen screen' (v.contents id) c' b
      → (x y : ℤ) → inside (pos 0) (pos 0) (pos b.config.width) (pos b.config.height) x y ≡ true
      → c' x y ≡ screen' x y
  unfolding AllShown AllCurrent pool_create
  Steps-filled {w = w} {v = v} id b screen' c' new s e k x y p =
      filled_current laws v.screen screen' (v.contents id) c' b k
        (listed-IsCurrent v.screen v.contents id b v.pool.list
          (steps_shown s (subst (λ q. AllCurrent laws w.screen w.contents q.list) (sym new) tt)) e)
        x y p
