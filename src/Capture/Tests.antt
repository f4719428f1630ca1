-- ===== src/Capture/Tests.antt =====
-- Tests of a capture session, and the histories at which its theorems are applied.
use wayvnc.Prelude.{
  ℕ, ◌+◌, ◌≡◌, ◌↔◌, ◌≢◌, refl, inl, inr, Bool, true, false, none, some, List, [], ◌∷◌,
  if◌then◌else◌, Bool-cases,
}
use wayvnc.Prelude.Int.{pos}
use wayvnc.Pixels.{Formats, pixel_size_from_fourcc}
use wayvnc.Buffer.{BufferType, shm, BufferConfig, dmabuf}
use wayvnc.Capture.{FormatEntry, PoolOps, Capture}
use wayvnc.Capture.Formats.{
  Rating, Sign, negative, zero_, positive, format_array_sort_by_score, cmp_format_entries,
  clear_constraints, config_buffers, config_dma_buffers, config_shm_buffers, dma_config, shm_config,
  rate_formats_in_array, select_modifiers, format_array_append, session_handle_format_shm,
  session_handle_format_drm, session_handle_dimensions,
}
use wayvnc.Capture.Formats.Choice.{
  In, IsSortedBy, IsComparison, SortLaws, IsBest, dma_config-IsBest,
}
use wayvnc.Capture.Session.{
  schedule_capture, schedule_from_timer, constraints_done, session_handle_constraints_done, start,
  stop, frame_handle_ready, frame_handle_failed, restart_session, deinit_session, init_session,
  dropped, time_left,
}
use wayvnc.Capture.Sound.{is_sound, returns_sound}
use wayvnc.Capture.Starts.{
  Event, format_shm, format_drm, dimensions, constraints, ready, failed, timer_fires, started,
  stopped, step, can_come, run, all_come, run-is_sound,
}

-- A pool that gives a new buffer each time.
abbrev counter : PoolOps ℕ
counter = record {
  reconfig = λ config next. (true, next);
  acquire = λ next. (some next, next + 1);
  release = λ b next. next;
  filled = λ b next. next;
}

-- Invented values for the constants.
abbrev formats : Formats
formats = record {
  big_endian = 2147483648;
  drm_argb8888 = 100;
  drm_xrgb8888 = 101;
  shm_argb8888 = 0;
  shm_xrgb8888 = 1;
  four_bytes = 100 ∷ 101 ∷ [];
  three_bytes = [];
  two_bytes = [];
}

abbrev is_positive : Sign → Bool
is_positive positive = true
is_positive zero_ = false
is_positive negative = false

is_positive_lem :
    (a : Sign) → (is_positive a ≡ true → a ≡ positive) × (is_positive a ≡ false → a ≢ positive)
is_positive_lem positive = (λ e. refl, λ e. absurd (cc e))
is_positive_lem zero_ = (λ e. cc, λ e p. cc)
is_positive_lem negative = (λ e. cc, λ e p. cc)

-- A sort by insertion.
module _ (cmp : FormatEntry → FormatEntry → Sign) where
  abbrev insert_sorted : FormatEntry → List FormatEntry → List FormatEntry
  insert_sorted x [] = x ∷ []
  insert_sorted x (y ∷ ys) =
      let rest = insert_sorted x ys in if is_positive (cmp x y) then y ∷ rest else x ∷ y ∷ ys

  abbrev sorted : List FormatEntry → List FormatEntry
  sorted [] = []
  sorted (x ∷ xs) = insert_sorted x (sorted xs)

  swap_in :
      (z x y : FormatEntry) (ys l : List FormatEntry)
      → In z l ↔ In z (x ∷ ys)
      → In z (y ∷ l) ↔ In z (x ∷ y ∷ ys)
  swap_in z x y ys l h = (there, back)
    where
      there : In z (y ∷ l) → In z (x ∷ y ∷ ys)
      there (inl e) = inr (inl e)
      there (inr i) = elim (h.0 i) [ inl e ↦ inl e | inr k ↦ inr (inr k) ]

      back : In z (x ∷ y ∷ ys) → In z (y ∷ l)
      back (inl e) = inr (h.1 (inl e))
      back (inr (inl e)) = inl e
      back (inr (inr i)) = inr (h.1 (inr i))

  In-insert_sorted :
      (z x : FormatEntry) (l : List FormatEntry) → In z (insert_sorted x l) ↔ In z (x ∷ l)
  In-insert_sorted z x [] = (λ i. i, λ i. i)
  In-insert_sorted z x (y ∷ ys) = elim (Bool-cases (is_positive (cmp x y))) [
    | inl e ↦ rw e (swap_in z x y ys (insert_sorted x ys) (In-insert_sorted z x ys))
    | inr e ↦ rw e (λ i. i, λ i. i)
  ]

  In-sorted : (z : FormatEntry) (xs : List FormatEntry) → In z (sorted xs) ↔ In z xs
  In-sorted z [] = (λ i. i, λ i. i)
  In-sorted z (x ∷ xs) = (
    λ i. elim ((In-insert_sorted z x (sorted xs)).0 i) [
      | inl e ↦ inl e
      | inr k ↦ inr ((In-sorted z xs).0 k)
    ],
    λ i.
        (In-insert_sorted z x (sorted xs)).1
          (elim i [ inl e ↦ inl e | inr k ↦ inr ((In-sorted z xs).1 k) ]),
  )

  module _ (good : IsComparison cmp) where
    before_all :
        (y x : FormatEntry) (ys : List FormatEntry)
        → cmp y x ≢ positive
        → ((z : FormatEntry) → In z ys → cmp y z ≢ positive)
        → (z : FormatEntry) → In z (insert_sorted x ys)
        → cmp y z ≢ positive
    before_all y x ys h k z i = elim ((In-insert_sorted z x ys).0 i) [
      | inl e ↦ rw e h
      | inr j ↦ k z j
    ]

    turned : (x y : FormatEntry) → is_positive (cmp x y) ≡ true → cmp y x ≢ positive
    turned x y e p = cc (good.reversed y x p, (is_positive_lem (cmp x y)).0 e)

    insert-IsSortedBy :
        (x : FormatEntry) (l : List FormatEntry)
        → IsSortedBy cmp l
        → IsSortedBy cmp (insert_sorted x l)
    insert-IsSortedBy x [] s = (λ y i. absurd i, tt)
    insert-IsSortedBy x (y ∷ ys) s = elim (Bool-cases (is_positive (cmp x y))) [
      | inl e ↦ rw e (before_all y x ys (turned x y e) s.0, insert-IsSortedBy x ys s.1)
      | inr e ↦ rw e (first e, s)
    ]
      where
        first :
            is_positive (cmp x y) ≡ false → (z : FormatEntry) → In z (y ∷ ys) → cmp x z ≢ positive
        first e z (inl q) = rw q ((is_positive_lem (cmp x y)).1 e)
        first e z (inr i) = good.passed x y z ((is_positive_lem (cmp x y)).1 e) (s.0 z i)

    sorted-IsSortedBy : (xs : List FormatEntry) → IsSortedBy cmp (sorted xs)
    sorted-IsSortedBy [] = tt
    sorted-IsSortedBy (x ∷ xs) = insert-IsSortedBy x (sorted xs) (sorted-IsSortedBy xs)

-- The formats of four bytes are rated for shared memory, all formats for others.
abbrev rate : BufferType → ℕ → ℕ → ℕ
rate shm format modifier = pixel_size_from_fourcc formats format
rate dmabuf format modifier = format
rate _ format modifier = 0

abbrev rating : Rating
rating = record { rate_format = rate; qsort = sorted }

rating_laws : SortLaws rating
rating_laws = record {
  kept = λ cmp x xs. In-sorted cmp x xs;
  ascending = λ cmp xs good. sorted-IsSortedBy cmp good xs;
}

abbrev stopped_capture : Capture ℕ
stopped_capture = record {
  session = false;
  cursor = false;
  frame = false;
  buffer = none;
  pool = 1;
  have_constraints = false;
  should_start = false;
  is_cursor_session = false;
  frame_count = 0;
  width = 0;
  height = 0;
  wl_shm_formats = [];
  dmabuf_formats = [];
  dmabuf_dev = none;
  hotspot = (pos 0, pos 0);
  last_time = 0;
  timer = false;
  rate_limit = 30;
}

abbrev two_frames : List Event
two_frames =
    started true true 0
    ∷ dimensions 4 2
    ∷ format_shm 100
    ∷ format_drm 7 (1 ∷ 2 ∷ [])
    ∷ constraints 10
    ∷ ready
    ∷ started true false 20
    ∷ timer_fires 33343
    ∷ failed false true 33400
    ∷ timer_fires 66700
    ∷ ready
    ∷ stopped
    ∷ []

is_sound-stopped_capture : is_sound stopped_capture ≡ true
unfolding is_sound
is_sound-stopped_capture = refl

two_frames_come : all_come counter formats rating stopped_capture two_frames ≡ true
unfolding all_come can_come step schedule_capture schedule_from_timer constraints_done
    session_handle_constraints_done start stop frame_handle_ready frame_handle_failed
    restart_session deinit_session init_session dropped time_left clear_constraints config_buffers
    config_dma_buffers config_shm_buffers dma_config shm_config rate_formats_in_array
    format_array_sort_by_score cmp_format_entries select_modifiers format_array_append
    session_handle_format_shm session_handle_format_drm session_handle_dimensions
    pixel_size_from_fourcc
two_frames_come = refl

run-is_sound_example : returns_sound (run counter formats rating stopped_capture two_frames) ≡ true
run-is_sound_example =
    run-is_sound counter formats rating rating_laws (λ format modifier h. h) stopped_capture
      two_frames is_sound-stopped_capture two_frames_come

-- A start that does not wait, while the timer runs: the timer brings a frame, and the constraints of
-- the new session bring another, which fails the assertion that there is none.
abbrev between_frames : Capture ℕ
between_frames = record stopped_capture {
  session = true;
  have_constraints = true;
  frame_count = 1;
  timer = true;
}

overlapping_start :
    run counter formats rating between_frames
      (started true true 20 ∷ timer_fires 30 ∷ format_shm 100 ∷ constraints 40 ∷ [])
    ≡ none
unfolding run step schedule_capture schedule_from_timer constraints_done
    session_handle_constraints_done start restart_session deinit_session init_session
    clear_constraints config_buffers config_dma_buffers config_shm_buffers dma_config shm_config
    format_array_sort_by_score cmp_format_entries rate_formats_in_array format_array_append
    session_handle_format_shm pixel_size_from_fourcc
overlapping_start = refl

abbrev offering : Capture ℕ
offering = record stopped_capture {
  width = 4;
  height = 2;
  dmabuf_formats =
      record { score = 0; format = 7; modifier = 1 }
      ∷ record { score = 0; format = 9; modifier = 2 }
      ∷ [];
}

abbrev nine : BufferConfig
nine = record {
  kind = dmabuf;
  width = 4;
  height = 2;
  stride = 0;
  format = 9;
  node = 0;
  modifiers = 2 ∷ [];
}

dma_config-IsBest_example :
    IsBest (rate_formats_in_array rating dmabuf offering.dmabuf_formats) nine
unfolding dma_config format_array_sort_by_score cmp_format_entries rate_formats_in_array
    select_modifiers
dma_config-IsBest_example = dma_config-IsBest rating offering nine rating_laws refl
