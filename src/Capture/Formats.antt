-- ===== src/Capture/Formats.antt =====
-- The formats that a session offers in src/ext-image-copy-capture.c and the choice among them.
pub mod Choice
use wayvnc.Prelude.{
  ℕ, ◌+◌, ◌*◌, Bool, true, false, ◌&&◌, ◌||◌, Option, none, some, List, [], ◌∷◌, ◌++◌, map, ◌==◌,
  if◌then◌else◌, ltb,
}
use wayvnc.Buffer.{BufferType, shm, dmabuf, BufferConfig}
use wayvnc.Pixels.{Formats, pixel_size_from_fourcc}
use wayvnc.Capture.{FormatEntry, PoolOps, Capture}

unfoldable pub format_array_append : ℕ → ℕ → List FormatEntry → List FormatEntry
format_array_append format modifier self =
    self ++ record { score = 0; format = format; modifier = modifier } ∷ []

unfoldable pub clear_constraints : {P : Type 0} → Capture P → Capture P
clear_constraints self =
    if self.have_constraints
    then record self { dmabuf_formats = []; wl_shm_formats = []; have_constraints = false }
    else self

unfoldable pub session_handle_format_shm : {P : Type 0} → (fourcc : ℕ) → Capture P → Capture P
unfolding clear_constraints format_array_append
session_handle_format_shm fourcc self =
    let s = clear_constraints self in
    record s { wl_shm_formats = format_array_append fourcc 0 s.wl_shm_formats }

abbrev pub append_modifiers : ℕ → List ℕ → List FormatEntry → List FormatEntry
append_modifiers format [] formats = formats
append_modifiers format (m ∷ ms) formats =
    append_modifiers format ms (format_array_append format m formats)

unfoldable pub session_handle_format_drm : {P : Type 0} → ℕ → List ℕ → Capture P → Capture P
unfolding clear_constraints format_array_append
session_handle_format_drm format modifiers self =
    let s = clear_constraints self in
    record s { dmabuf_formats = append_modifiers format modifiers s.dmabuf_formats }

-- An array of another size than a device's is none.
unfoldable pub session_handle_dmabuf_device : {P : Type 0} → Option ℕ → Capture P → Capture P
unfolding clear_constraints
session_handle_dmabuf_device none self = clear_constraints self
session_handle_dmabuf_device (some device) self = record (clear_constraints self) {
  dmabuf_dev = some device;
}

unfoldable pub session_handle_dimensions : {P : Type 0} → ℕ → ℕ → Capture P → Capture P
unfolding clear_constraints
session_handle_dimensions width height self = record (clear_constraints self) {
  width = width;
  height = height;
}

-- What `cmp_format_entries` returns.
pub data Sign : Type 0 where
  negative zero_ positive : Sign

unfoldable pub cmp_format_entries : FormatEntry → FormatEntry → Sign
cmp_format_entries entry_a entry_b =
    if ltb entry_b.score entry_a.score
    then negative
    else if ltb entry_a.score entry_b.score
    then positive
    else zero_

-- What the choice of a format relies on: the rating, which src/main.c takes from neatvnc, and `qsort`
-- with a comparison.
pub record Rating : Type 0 where
  pub rate_format : BufferType → ℕ → ℕ → ℕ
  pub qsort : (FormatEntry → FormatEntry → Sign) → List FormatEntry → List FormatEntry

unfoldable pub format_array_sort_by_score : Rating → List FormatEntry → List FormatEntry
unfolding cmp_format_entries
format_array_sort_by_score r formats = r.qsort cmp_format_entries formats

abbrev pub rated : Rating → BufferType → FormatEntry → FormatEntry
rated r type entry = record entry { score = r.rate_format type entry.format entry.modifier }

unfoldable pub rate_formats_in_array : Rating → BufferType → List FormatEntry → List FormatEntry
rate_formats_in_array r type formats = map (rated r type) formats

-- The modifiers of the entries up to the first with another format or score than the top one.
unfoldable pub select_modifiers : FormatEntry → List FormatEntry → List ℕ
select_modifiers top [] = []
select_modifiers top (entry ∷ entries) =
    let rest = select_modifiers top entries in
    if entry.format == top.format && entry.score == top.score then entry.modifier ∷ rest else []

abbrev pub or_zero : Option ℕ → ℕ
or_zero none = 0
or_zero (some node) = node

-- The configuration that `config_dma_buffers` asks for, if there is one.
unfoldable pub dma_config : {P : Type 0} → List FormatEntry → Capture P → Option BufferConfig
unfolding select_modifiers
dma_config [] self = none
dma_config (top ∷ entries) self =
    if top.score == 0
    then none
    else some (record {
      kind = dmabuf;
      width = self.width;
      height = self.height;
      stride = 0;
      format = top.format;
      node = or_zero self.dmabuf_dev;
      modifiers = select_modifiers top (top ∷ entries);
    })

-- ... and the one of `config_shm_buffers`; `none` is the failed assertion that a pixel has a size.
unfoldable pub shm_config :
    {P : Type 0} → Formats → List FormatEntry → Capture P → Option (Option BufferConfig)
shm_config fs [] self = some none
shm_config fs (top ∷ entries) self =
    if top.score == 0
    then some none
    else let bpp = pixel_size_from_fourcc fs top.format in
      if bpp == 0
      then none
      else some (
          some (record {
            kind = shm;
            width = self.width;
            height = self.height;
            stride = bpp * self.width;
            format = top.format;
            node = 0;
            modifiers = [];
          }))

module _ {P : Type 0} (ops : PoolOps P) (fs : Formats) (r : Rating) where
  abbrev pub ask : Option BufferConfig → Capture P → Bool × Capture P
  ask none self = (false, self)
  ask (some config) self =
      let answer = ops.reconfig config self.pool in (answer.0, record self { pool = answer.1 })

  unfoldable pub config_dma_buffers : Capture P → Bool × Capture P
  unfolding rate_formats_in_array format_array_sort_by_score dma_config
  config_dma_buffers self =
      let formats =
        format_array_sort_by_score r (rate_formats_in_array r dmabuf self.dmabuf_formats) in
      ask (dma_config formats self) (record self { dmabuf_formats = formats })

  unfoldable pub config_shm_buffers : Capture P → Option (Bool × Capture P)
  unfolding rate_formats_in_array format_array_sort_by_score shm_config
  config_shm_buffers self =
      let formats =
        format_array_sort_by_score r (rate_formats_in_array r shm self.wl_shm_formats) in
      elim (shm_config fs formats self) [
        | none ↦ none
        | some config ↦ some (ask config (record self { wl_shm_formats = formats }))
      ]

  unfoldable pub config_buffers : Capture P → Option (Bool × Capture P)
  unfolding config_dma_buffers config_shm_buffers
  config_buffers self =
      let dma = config_dma_buffers self in if dma.0 then some dma else config_shm_buffers dma.1
