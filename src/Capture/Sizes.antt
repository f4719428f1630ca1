-- ===== src/Capture/Sizes.antt =====
-- The size of a pixel of the format that src/ext-image-copy-capture.c chooses for shared memory.
use wayvnc.Prelude.{
  ℕ, ◌≡◌, ◌≢◌, refl, Option, none, some, List, [], ◌∷◌, inl, inr, ◌==◌, ◌*◌, Bool-cases, map, arith,
}
use wayvnc.Pixels.{Formats, pixel_size_from_fourcc}
use wayvnc.Buffer.{BufferType, shm, BufferConfig}
use wayvnc.Capture.{FormatEntry, PoolOps}
use wayvnc.Capture.Formats.{
  Rating, rated, rate_formats_in_array, format_array_sort_by_score, shm_config,
}
use wayvnc.Capture.Formats.Choice.{In, SortLaws, In-format_array_sort_by_score}
use wayvnc.Capture.Sound.{ConfiguresShm}

-- Formats for shared memory whose pixels src/pixels.c does not know are rated zero.
abbrev pub RatesKnown : Formats → Rating → Type 0
RatesKnown fs r =
    (format modifier : ℕ)
    → r.rate_format shm format modifier ≢ 0
    → pixel_size_from_fourcc fs format ≢ 0

module _ (fs : Formats) (r : Rating) where
  rated_score :
      (type : BufferType) (xs : List FormatEntry) (e : FormatEntry)
      → In e (map (rated r type) xs)
      → e.score ≡ r.rate_format type e.format e.modifier
  rated_score type [] e i = absurd i
  rated_score type (x ∷ xs) e (inl p) = rw p refl
  rated_score type (x ∷ xs) e (inr i) = rated_score type xs e i

  pub configures_shm :
      {P : Type 0} (ops : PoolOps P) → SortLaws r → RatesKnown fs r → ConfiguresShm ops fs r
  unfolding shm_config rate_formats_in_array
  configures_shm ops laws known self =
      go (format_array_sort_by_score r (rate_formats_in_array r shm self.wl_shm_formats)) from
    where
      from :
          (x : FormatEntry)
          → In x (format_array_sort_by_score r (rate_formats_in_array r shm self.wl_shm_formats))
          → In x (map (rated r shm) self.wl_shm_formats)
      from x i = In-format_array_sort_by_score r laws x _ i

      sized : FormatEntry → BufferConfig
      sized top = record {
        kind = shm;
        width = self.width;
        height = self.height;
        stride = pixel_size_from_fourcc fs top.format * self.width;
        format = top.format;
        node = 0;
        modifiers = [];
      }

      go :
          (sorted : List FormatEntry)
          → ((x : FormatEntry) → In x sorted → In x (map (rated r shm) self.wl_shm_formats))
          → (config : Option BufferConfig) × (shm_config fs sorted self ≡ some config)
      go [] h = (none, refl)
      go (top ∷ rest) h = elim (Bool-cases (top.score == 0)) [
        | inl e ↦ (none, rw e refl)
        | inr e ↦ elim (Bool-cases (pixel_size_from_fourcc fs top.format == 0)) [
          | inl p ↦ absurd (
              known top.format top.modifier
                (ground (arith, e, rated_score shm self.wl_shm_formats top (h top (inl refl))))
                (ground (arith, p)))
          | inr p ↦ (some (sized top), rw (e, p) refl)
        ]
      ]
