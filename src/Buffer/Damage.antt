-- ===== src/Buffer/Damage.antt =====
-- The damage that src/buffer.c keeps for each buffer, against what the buffers show. A compositor
-- that captures into a buffer writes what has changed and what the buffer's damage asks for.
use wayvnc.Prelude.{
  ℕ, ◌≡◌, refl, sym, subst, ◌∙◌, Bool, true, false, not, ◌&&◌, ◌||◌, Option, some, List, [], ◌∷◌,
  ◌==◌, if◌then◌else◌, arith, inl, inr, Bool-cases, leb, ◌+◌,
}
use wayvnc.Prelude.Int.{ℤ, pos, pos_part, neg_part, ◌+ℤ◌}
use wayvnc.Buffer.{BufferConfig, Regions, Buffer, with_id, update, remove, new_buffer}
use wayvnc.Buffer.Ops.{damaged, damage_each, cleared}

abbrev is_below : ℤ → ℤ → Bool
is_below a b = leb (pos_part a + neg_part b) (pos_part b + neg_part a)

-- Whether a point lies in a rectangle.
abbrev pub inside : (x0 y0 width height : ℤ) → ℤ → ℤ → Bool
unfolding ◌+ℤ◌
inside x0 y0 width height x y =
    is_below x0 x
    && not (is_below (x0 +ℤ width) x)
    && is_below y0 y
    && not (is_below (y0 +ℤ height) y)

-- What pixman documents of the operations.
pub record RegionLaws {R : Type 0} (rs : Regions R) : Type 0 where
  pub has_empty : (x y : ℤ) → rs.has rs.empty x y ≡ false
  pub has_union : (r s : R) (x y : ℤ) → rs.has (rs.union r s) x y ≡ rs.has r x y || rs.has s x y
  pub has_union_rect :
      (r : R) (x0 y0 width height x y : ℤ)
      → rs.has (rs.union_rect r x0 y0 width height) x y
        ≡ rs.has r x y || inside x0 y0 width height x y

-- The colour at each point, of the screen or of a buffer.
abbrev pub Picture : Type 0
Picture = ℤ → ℤ → ℕ

abbrev pub with_contents : ℕ → Picture → (ℕ → Picture) → ℕ → Picture
with_contents id c contents i = if i == id then c else contents i

module _ {R : Type 0} {rs : Regions R} (laws : RegionLaws rs) where
  -- A buffer shows the screen wherever its damage does not reach.
  unfoldable pub IsCurrent : Picture → Picture → Buffer R → Type 0
  IsCurrent screen c b =
      (x y : ℤ)
      → inside (pos 0) (pos 0) (pos b.config.width) (pos b.config.height) x y ≡ true
      → rs.has b.buffer_damage x y ≡ false
      → c x y ≡ screen x y

  abbrev pub Absent : ℕ → List (Buffer R) → Type 0
  Absent id [] = Unit
  Absent id (b ∷ bs) = ((b.id == id) ≡ false) × Absent id bs

  -- All buffers show the screen where they are not damaged, and no two have the same address.
  unfoldable pub AllCurrent : Picture → (ℕ → Picture) → List (Buffer R) → Type 0
  unfolding IsCurrent
  AllCurrent screen contents [] = Unit
  AllCurrent screen contents (b ∷ bs) =
      IsCurrent screen (contents b.id) b × Absent b.id bs × AllCurrent screen contents bs

  -- What the compositor does when it captures a frame into a buffer: points outside the frame's
  -- damage have not changed, and it writes those in that damage and in the buffer's.
  pub record Capture (screen screen' c c' : Picture) (b : Buffer R) : Type 0 where
    pub unchanged : (x y : ℤ) → rs.has b.frame_damage x y ≡ false → screen' x y ≡ screen x y
    pub written :
        (x y : ℤ)
        → rs.has b.buffer_damage x y || rs.has b.frame_damage x y ≡ true
        → c' x y ≡ screen' x y
    pub kept :
        (x y : ℤ) → rs.has b.buffer_damage x y || rs.has b.frame_damage x y ≡ false → c' x y ≡ c x y

  damaged-IsCurrent :
      (screen screen' c : Picture) (d : R) (b : Buffer R)
      → ((x y : ℤ) → rs.has d x y ≡ false → screen' x y ≡ screen x y)
      → IsCurrent screen c b
      → IsCurrent screen' c (damaged rs d b)
  unfolding IsCurrent
  damaged-IsCurrent screen screen' c d b same i x y p h =
      let e : rs.has b.buffer_damage x y || rs.has d x y ≡ false =
        sym (laws.has_union b.buffer_damage d x y) ∙ h in
      i x y p (ground arith) ∙ sym (same x y (ground arith))

  -- The buffer that is captured into shows the whole screen.
  pub filled_current :
      (screen screen' c c' : Picture) (b : Buffer R)
      → Capture screen screen' c c' b
      → IsCurrent screen c b
      → (x y : ℤ) → inside (pos 0) (pos 0) (pos b.config.width) (pos b.config.height) x y ≡ true
      → c' x y ≡ screen' x y
  unfolding IsCurrent
  filled_current screen screen' c c' b k i x y p =
      elim (Bool-cases (rs.has b.buffer_damage x y || rs.has b.frame_damage x y)) [
        | inl e ↦ k.written x y e
        | inr e ↦ k.kept x y e ∙ i x y p (ground arith) ∙ sym (k.unchanged x y (ground arith))
      ]

module _ {R : Type 0} {rs : Regions R} (laws : RegionLaws rs) where
  pub new-IsCurrent :
      (screen c : Picture) (id : ℕ) (config : BufferConfig) (gbm : Option ℕ)
      → IsCurrent laws screen c (new_buffer rs id config gbm)
  unfolding IsCurrent
  new-IsCurrent screen c id config gbm x y p h =
      let e =
        laws.has_union_rect rs.empty (pos 0) (pos 0) (pos config.width) (pos config.height) x y in
      ground (arith, e, h, p)

  Absent-update :
      (i id : ℕ) (f : Buffer R → Buffer R)
      → ((b : Buffer R) → (f b).id ≡ b.id)
      → (bs : List (Buffer R)) → Absent laws i bs
      → Absent laws i (update id f bs)
  Absent-update i id f same [] a = tt
  Absent-update i id f same (b ∷ bs) a = elim (Bool-cases (b.id == id)) [
    | inl e ↦ rw e ((rw (same b) a.0, a.1))
    | inr e ↦ rw e (a.0, Absent-update i id f same bs a.1)
  ]

  Absent-remove :
      (i id : ℕ) (bs : List (Buffer R)) → Absent laws i bs → Absent laws i (remove id bs)
  Absent-remove i id [] a = tt
  Absent-remove i id (b ∷ bs) a = elim (Bool-cases (b.id == id)) [
    | inl e ↦ rw e a.1
    | inr e ↦ rw e (a.0, Absent-remove i id bs a.1)
  ]

  Absent-damage :
      (d : R) (i : ℕ) (bs : List (Buffer R))
      → Absent laws i bs
      → Absent laws i (damage_each rs d bs)
  Absent-damage d i [] a = tt
  Absent-damage d i (b ∷ bs) a = (a.0, Absent-damage d i bs a.1)

  module _ (screen : Picture) (contents : ℕ → Picture) where
    pub all_remove :
        (id : ℕ) (bs : List (Buffer R))
        → AllCurrent laws screen contents bs
        → AllCurrent laws screen contents (remove id bs)
    unfolding AllCurrent
    all_remove id [] a = tt
    all_remove id (b ∷ bs) a = elim (Bool-cases (b.id == id)) [
      | inl e ↦ rw e a.2
      | inr e ↦ rw e (a.0, Absent-remove b.id id bs a.1, all_remove id bs a.2)
    ]

    pub all_update :
        (id : ℕ) (f : Buffer R → Buffer R)
        → ((b : Buffer R) → (f b).id ≡ b.id)
        → ((b : Buffer R)
            → IsCurrent laws screen (contents b.id) b
            → IsCurrent laws screen (contents b.id) (f b))
        → (bs : List (Buffer R)) → AllCurrent laws screen contents bs
        → AllCurrent laws screen contents (update id f bs)
    unfolding AllCurrent
    all_update id f same keeps [] a = tt
    all_update id f same keeps (b ∷ bs) a = elim (Bool-cases (b.id == id)) [
      | inl e ↦ rw e ((rw (same b) (keeps b a.0), rw (same b) a.1, a.2))
      | inr e ↦ rw e (a.0, Absent-update b.id id f same bs a.1, all_update id f same keeps bs a.2)
    ]

  module _ (screen screen' : Picture) (contents : ℕ → Picture) (c' : Picture) (d : R)
      (same : (x y : ℤ) → rs.has d x y ≡ false → screen' x y ≡ screen x y) where
    -- The other buffers are damaged where the screen has changed.
    others_damaged :
        (id : ℕ) (bs : List (Buffer R))
        → Absent laws id bs
        → AllCurrent laws screen contents bs
        → AllCurrent laws screen' (with_contents id c' contents) (damage_each rs d bs)
    unfolding AllCurrent
    others_damaged id [] n a = tt
    others_damaged id (b ∷ bs) n a = (
      rw n.0 (damaged-IsCurrent laws screen screen' (contents b.id) d b same a.0),
      Absent-damage d b.id bs a.1,
      others_damaged id bs n.1 a.2,
    )

    -- After a capture, the buffer is current as a whole, and so are the others outside their damage.
    pub all_filled :
        (id : ℕ) (bs : List (Buffer R))
        → ((b : Buffer R) → with_id id bs ≡ some b → IsCurrent laws screen' c' (cleared rs b))
        → AllCurrent laws screen contents bs
        → AllCurrent laws screen'
            (with_contents id c' contents)
            (update id (cleared rs) (damage_each rs d bs))
    unfolding AllCurrent IsCurrent
    all_filled id [] k a = tt
    all_filled id (b ∷ bs) k a = elim (Bool-cases (b.id == id)) [
      | inl e ↦
          let q : b.id ≡ id = ground (arith, e) in
          rw e (
            (
              λ x y p h. rw e (k b (rw e refl) x y p h),
              Absent-damage d b.id bs a.1,
              others_damaged id bs (subst (λ i. Absent laws i bs) q a.1) a.2,
            ))
      | inr e ↦ rw e (
        rw e (damaged-IsCurrent laws screen screen' (contents b.id) d b same a.0),
        Absent-update b.id id (cleared rs) (λ b'. refl) (damage_each rs d bs)
            (Absent-damage d b.id bs a.1),
        all_filled id bs (λ b' h. k b' (rw e h)) a.2,
      )
    ]
