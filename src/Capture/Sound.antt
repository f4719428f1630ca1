-- ===== src/Capture/Sound.antt =====
-- What holds between the flags of a session of src/ext-image-copy-capture.c, and that its functions
-- keep it.
use wayvnc.Prelude.{
  ℕ, ◌≡◌, refl, ◌∙◌, Bool, true, false, not, ◌&&◌, ◌||◌, Option, none, some, ◌==◌, if◌then◌else◌,
  arith,
}
use wayvnc.Pixels.{Formats}
use wayvnc.Buffer.{BufferConfig, shm, dmabuf}
use wayvnc.Capture.{PoolOps, Capture, Result, quietly}
use wayvnc.Capture.Formats.{
  Rating, clear_constraints, config_buffers, config_dma_buffers, config_shm_buffers, dma_config,
  shm_config, ask, rate_formats_in_array, format_array_sort_by_score,
}
use wayvnc.Capture.Session.{
  schedule_capture, schedule_from_timer, constraints_done, start, with_buffer, configured, have_all,
  restart_session, deinit_session, init_session, init_cursor_session, dropped, time_left, delivered,
}

abbrev is_set : Option ℕ → Bool
is_set none = false
is_set (some b) = true

abbrev implies : Bool → Bool → Bool
implies true b = b
implies false b = true

-- A frame goes with its buffer and its session; while the timer runs or a start is due there is no
-- frame, and never both are at once.
unfoldable pub is_sound : {P : Type 0} → Capture P → Bool
is_sound self =
    implies self.frame (is_set self.buffer && self.session)
    && implies (is_set self.buffer) self.frame
    && implies self.have_constraints (self.session && not self.should_start)
    && implies self.timer (self.session && not self.frame && not self.should_start)
    && implies self.should_start (not self.frame)

unfoldable pub returns_sound : {P : Type 0} → Result P → Bool
unfolding is_sound
returns_sound none = false
returns_sound (some (reports, self)) = is_sound self

module _ {P : Type 0} (ops : PoolOps P) (fs : Formats) (r : Rating) where
  -- The choice of a format changes the lists of formats and the pool only.
  abbrev pub SameFlags : Capture P → Capture P → Type 0
  SameFlags s t =
      (s.frame ≡ t.frame)
      × (s.buffer ≡ t.buffer)
      × (s.session ≡ t.session)
      × (s.have_constraints ≡ t.have_constraints)
      × (s.should_start ≡ t.should_start)
      × (s.timer ≡ t.timer)

  ask_keeps : (c : Option BufferConfig) (self : Capture P) → SameFlags (ask ops fs r c self).1 self
  ask_keeps none self = (refl, refl, refl, refl, refl, refl)
  ask_keeps (some c) self = (refl, refl, refl, refl, refl, refl)

  same_trans : (s t u : Capture P) → SameFlags s t → SameFlags t u → SameFlags s u
  same_trans s t u a b = (a.0 ∙ b.0, a.1 ∙ b.1, a.2 ∙ b.2, a.3 ∙ b.3, a.4 ∙ b.4, a.5 ∙ b.5)

  dma_keeps : (self : Capture P) → SameFlags (config_dma_buffers ops fs r self).1 self
  unfolding config_dma_buffers
  dma_keeps self =
      let formats =
        format_array_sort_by_score r (rate_formats_in_array r dmabuf self.dmabuf_formats) in
      ask_keeps (dma_config formats self) (record self { dmabuf_formats = formats })

  -- The choice of a format is made, without a failed assertion.
  abbrev pub Configured : Capture P → Option (Bool × Capture P) → Type 0
  Configured self c = (b : Bool) × (u : Capture P) × (c ≡ some (b, u)) × SameFlags u self

  abbrev pub ConfiguresShm : Type 0
  ConfiguresShm =
      (self : Capture P)
      → (config : Option BufferConfig) × (shm_config fs
            (format_array_sort_by_score r (rate_formats_in_array r shm self.wl_shm_formats)) self
          ≡ some config)

  shm-Configured :
      ConfiguresShm → (self : Capture P) → Configured self (config_shm_buffers ops fs r self)
  unfolding config_shm_buffers
  shm-Configured safe self =
      let formats =
        format_array_sort_by_score r (rate_formats_in_array r shm self.wl_shm_formats) in
      let (config, e) = safe self in
      let s : Capture P = record self { wl_shm_formats = formats } in
      (
        (ask ops fs r config s).0,
        (ask ops fs r config s).1,
        rw (config_shm_buffers, e) refl,
        ask_keeps config s,
      )

  pub config-Configured :
      ConfiguresShm → (self : Capture P) → Configured self (config_buffers ops fs r self)
  unfolding config_buffers
  config-Configured safe self = go (config_dma_buffers ops fs r self) (dma_keeps self)
    where
      go :
          (dma : Bool × Capture P)
          → SameFlags dma.1 self
          → Configured self (if dma.0 then some dma else config_shm_buffers ops fs r dma.1)
      go (true, u) k = (true, u, refl, k)
      go (false, u) k =
          let (b, v, e, l) = shm-Configured safe u in (b, v, e, same_trans v u self l k)

  pub split_if :
      (b : Bool) (x y : Result P)
      → (b ≡ true → returns_sound x ≡ true)
      → (b ≡ false → returns_sound y ≡ true)
      → returns_sound (if b then x else y) ≡ true
  split_if true x y t f = t refl
  split_if false x y t f = f refl

  -- A capture is scheduled from a state with a session and without a frame.
  buffer_sound :
      (now : ℕ) (self u : Capture P) (b : Option ℕ) (p : P)
      → SameFlags u self
      → is_sound self ≡ true
      → self.frame ≡ false
      → self.session ≡ true
      → self.timer ≡ false
      → self.should_start ≡ false
      → returns_sound (with_buffer ops fs r now (record u { pool = p }) b) ≡ true
  unfolding is_sound returns_sound
  buffer_sound now self u none p k h f s t d = ground (arith, k.0, k.1, k.2, k.3, k.4, k.5)
  buffer_sound now self u (some b) p k h f s t d =
      rw (k.2 ∙ s) (ground (arith, k.0, k.1, k.2, k.3, k.4, k.5))

  schedule_sound :
      ConfiguresShm
      → (now : ℕ) (self : Capture P) → is_sound self ≡ true
      → self.frame ≡ false
      → self.session ≡ true
      → self.timer ≡ false
      → self.should_start ≡ false
      → returns_sound (schedule_capture ops fs r now self) ≡ true
  unfolding schedule_capture
  schedule_sound safe now self h f s t d =
      let (b, u, c, k) = config-Configured safe self in
      let got = ops.acquire u.pool in
      split_if self.frame none (configured ops fs r now (config_buffers ops fs r self))
        (λ e. ground (arith, e, f)) (λ e. rw c (buffer_sound now self u got.0 got.1 k h f s t d))

  due_sound :
      (now : ℕ) (self u : Capture P) (b : Option ℕ) (p : P)
      → SameFlags u self
      → is_sound self ≡ true
      → self.session ≡ true
      → self.should_start ≡ true
      → returns_sound (have_all ops fs r (with_buffer ops fs r now (record u { pool = p }) b))
        ≡ true
  unfolding is_sound returns_sound
  due_sound now self u none p k h s d = ground (arith, k.0, k.1, k.2, k.3, k.4, k.5)
  due_sound now self u (some b) p k h s d =
      rw (k.2 ∙ s) (ground (arith, k.0, k.1, k.2, k.3, k.4, k.5))

  all_if :
      (b : Bool) (y : Result P)
      → b ≡ false
      → returns_sound (have_all ops fs r y) ≡ true
      → returns_sound (have_all ops fs r (if b then none else y)) ≡ true
  all_if true y e h = ground (arith, e)
  all_if false y e h = h

  pub same_sound :
      (self u : Capture P) → SameFlags u self → is_sound self ≡ true → is_sound u ≡ true
  unfolding is_sound returns_sound
  same_sound self u k h = rw (k.0, k.1, k.2, k.3, k.4, k.5) h

  no_frame_due : (u : Capture P) → is_sound u ≡ true → u.should_start ≡ true → u.frame ≡ false
  unfolding is_sound returns_sound
  no_frame_due u h e = ground (arith, h, e)

  pub constraints_sound :
      ConfiguresShm
      → (now : ℕ) (b : Bool) (u : Capture P) → is_sound u ≡ true
      → u.session ≡ true
      → returns_sound (constraints_done ops fs r now (b, u)) ≡ true
  unfolding constraints_done schedule_capture is_sound returns_sound
  constraints_sound safe now false u h s = h
  constraints_sound safe now true u h s =
      let (b, v, c, k) = config-Configured safe u in
      let got = ops.acquire v.pool in
      split_if u.should_start (have_all ops fs r (schedule_capture ops fs r now u))
        (quietly (record u { have_constraints = true }))
        (λ e.
          all_if u.frame (configured ops fs r now (config_buffers ops fs r u)) (no_frame_due u h e)
            (rw c (due_sound now u v got.0 got.1 k h s e)))
        (λ e. ground (arith, e, s, h))

  restart_sound :
      (created : Bool) (self : Capture P)
      → is_sound self ≡ true
      → self.timer ≡ false
      → is_sound (record (restart_session ops created self) { should_start = true }) ≡ true
  unfolding is_sound returns_sound restart_session deinit_session init_session init_cursor_session
      clear_constraints
  restart_sound created self h t = ground arith

  pub start_sound :
      ConfiguresShm
      → (created immediate : Bool) (now : ℕ) (self : Capture P) → is_sound self ≡ true
      → self.timer ≡ false
      → returns_sound (start ops fs r created immediate now self) ≡ true
  unfolding start is_sound returns_sound
  start_sound safe created immediate now self h t =
      split_if self.frame (quietly self) _ (λ e. h)
        (λ f.
          split_if (immediate || self.frame_count == 0) _ _ (λ e. restart_sound created self h t)
            (λ e.
              split_if (not self.have_constraints) _ _ (λ c. ground arith)
                (λ c.
                  split_if (not (time_left ops fs r now self == 0)) _ _ (λ d. ground arith)
                    (λ d.
                      schedule_sound safe now (record self { timer = false }) (ground arith) f
                        (ground arith) refl (ground arith)))))

  pub timer_sound :
      ConfiguresShm
      → (now : ℕ) (self : Capture P) → is_sound self ≡ true
      → self.timer ≡ true
      → returns_sound (schedule_from_timer ops fs r now self) ≡ true
  unfolding schedule_from_timer is_sound returns_sound
  timer_sound safe now self h t =
      schedule_sound safe now (record self { timer = false }) (ground arith) (ground arith)
        (ground arith) refl (ground arith)

  pub dropped_sound :
      ConfiguresShm
      → (unfit created : Bool) (now : ℕ) (self : Capture P) (b : Option ℕ)
      → is_sound (record self { buffer = b }) ≡ true
      → self.frame ≡ true
      → returns_sound (dropped ops fs r unfit created now self b) ≡ true
  unfolding dropped is_sound returns_sound
  dropped_sound safe unfit created now self none h f = ground arith
  dropped_sound safe unfit created now self (some b) h f =
      let s = record self { frame = false; buffer = none; pool = ops.release b self.pool } in
      split_if unfit _ _ (λ e. start_sound safe created false now s (ground arith) (ground arith))
        (λ e. ground arith)

  pub ready_sound :
      (self : Capture P) (b : Option ℕ)
      → is_sound (record self { buffer = b }) ≡ true
      → self.frame ≡ true
      → returns_sound (delivered ops fs r self b) ≡ true
  unfolding is_sound returns_sound
  ready_sound self none h f = ground arith
  ready_sound self (some b) h f = ground arith
