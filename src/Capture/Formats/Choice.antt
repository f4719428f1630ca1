-- ===== src/Capture/Formats/Choice.antt =====
-- Which format a session of src/ext-image-copy-capture.c asks of its buffers.
use mathlib.Core.Option.{some-injective, none-ne-some}
use wayvnc.Prelude.{
  ℕ, ◌≡◌, ◌≢◌, ◌≤◌, ◌<◌, ◌⊎◌, ◌↔◌, inl, inr, refl, sym, ◌∙◌, subst, Bool, true, false, ◌&&◌, none,
  some, List, [], ◌∷◌, ◌==◌, if◌then◌else◌, Bool-cases, arith,
}
use wayvnc.Buffer.{BufferConfig, dmabuf}
use wayvnc.Capture.{FormatEntry, Capture}
use wayvnc.Capture.Formats.{
  Rating, Sign, negative, zero_, positive, cmp_format_entries, format_array_sort_by_score,
  rate_formats_in_array, select_modifiers, dma_config, or_zero,
}

abbrev pub In : {A : Type 0} → A → List A → Type 0
In x [] = ⊥
In x (y ∷ ys) = (x ≡ y) ⊎ In x ys

-- Each entry stands before those behind it, by the comparison.
abbrev pub IsSortedBy : (FormatEntry → FormatEntry → Sign) → List FormatEntry → Type 0
IsSortedBy cmp [] = Unit {0}
IsSortedBy cmp (x ∷ xs) = ((y : FormatEntry) → In y xs → cmp x y ≢ positive) × IsSortedBy cmp xs

-- A comparison that `qsort` may be given: equal entries are equal both ways, and what is not after
-- is passed on.
pub record IsComparison (cmp : FormatEntry → FormatEntry → Sign) : Type 0 where
  pub same : (x : FormatEntry) → cmp x x ≡ zero_
  pub reversed : (x y : FormatEntry) → cmp x y ≡ positive → cmp y x ≡ negative
  pub passed : (x y z : FormatEntry) → cmp x y ≢ positive → cmp y z ≢ positive → cmp x z ≢ positive

-- What `qsort` does: it has the same entries in ascending order by the comparison.
pub record SortLaws (r : Rating) : Type 0 where
  pub kept :
      (cmp : FormatEntry → FormatEntry → Sign) (x : FormatEntry) (xs : List FormatEntry)
      → In x (r.qsort cmp xs) ↔ In x xs
  pub ascending :
      (cmp : FormatEntry → FormatEntry → Sign) (xs : List FormatEntry)
      → IsComparison cmp
      → IsSortedBy cmp (r.qsort cmp xs)

-- The configuration names a format that is rated above zero and no lower than any other, and
-- modifiers that come with that format and that rating.
pub record IsBest (entries : List FormatEntry) (config : BufferConfig) : Type 0 where
  pub top : FormatEntry
  pub offered : In top entries
  pub format_is : config.format ≡ top.format
  pub usable : 0 < top.score
  pub highest : (x : FormatEntry) → In x entries → x.score ≤ top.score
  pub modifiers_are :
      (m : ℕ)
      → In m config.modifiers
      → (entry : FormatEntry) × In entry entries
        × (entry.format ≡ top.format)
        × (entry.score ≡ top.score)
        × (entry.modifier ≡ m)
  pub has_modifier : config.modifiers ≢ []

-- An entry that the modifier m can come from.
abbrev Source : FormatEntry → List FormatEntry → ℕ → Type 0
Source top entries m =
    (entry : FormatEntry) × In entry entries
    × (entry.format ≡ top.format)
    × (entry.score ≡ top.score)
    × (entry.modifier ≡ m)

In-if :
    (b : Bool) (m a : ℕ) (rest : List ℕ)
    → In m (if b then a ∷ rest else [])
    → (b ≡ true) × ((m ≡ a) ⊎ In m rest)
In-if true m a rest i = (refl, i)
In-if false m a rest i = absurd i

later_source :
    (top e : FormatEntry) (es : List FormatEntry) (m : ℕ) → Source top es m → Source top (e ∷ es) m
later_source top e es m s = (s.0, inr s.1, s.2, s.3, s.4)

selected :
    (top : FormatEntry) (entries : List FormatEntry) (m : ℕ)
    → In m (select_modifiers top entries)
    → Source top entries m
unfolding select_modifiers
selected top [] m i = absurd i
selected top (e ∷ es) m i =
    let p =
      In-if (e.format == top.format && e.score == top.score) m e.modifier (select_modifiers top es)
        i in
    elim p.1 [
      | inl q ↦ (e, inl refl, ground (arith, p.0), ground (arith, p.0), sym q)
      | inr q ↦ later_source top e es m (selected top es m q)
    ]

abbrev top_config : {P : Type 0} → FormatEntry → List FormatEntry → Capture P → BufferConfig
top_config top rest self = record {
  kind = dmabuf;
  width = self.width;
  height = self.height;
  stride = 0;
  format = top.format;
  node = or_zero self.dmabuf_dev;
  modifiers = select_modifiers top (top ∷ rest);
}

cmp_format_entries-IsComparison : IsComparison cmp_format_entries
unfolding cmp_format_entries
cmp_format_entries-IsComparison = record {
  same = λ x. ground arith;
  reversed = λ x y h. ground (arith, h);
  passed = λ x y z h k e. ground (arith, h, k, e);
}

not_after : (a b : FormatEntry) → cmp_format_entries a b ≢ positive → b.score ≤ a.score
unfolding cmp_format_entries
not_after a b h = ground (arith, h)

-- What is sorted is what was there.
pub In-format_array_sort_by_score :
    (r : Rating)
    → SortLaws r
    → (x : FormatEntry) (xs : List FormatEntry) → In x (format_array_sort_by_score r xs)
    → In x xs
unfolding format_array_sort_by_score
In-format_array_sort_by_score r laws x xs i = (laws.kept cmp_format_entries x xs).0 i

-- The first entry after sorting has the highest score.
highest_first :
    (r : Rating)
    → SortLaws r
    → (top : FormatEntry) (xs rest : List FormatEntry)
    → format_array_sort_by_score r xs ≡ top ∷ rest
    → (x : FormatEntry) → In x xs
    → x.score ≤ top.score
unfolding format_array_sort_by_score
highest_first r laws top xs rest e x i =
    go x (subst (In x) e ((laws.kept cmp_format_entries x xs).1 i)) (
      subst (IsSortedBy cmp_format_entries) e
        (laws.ascending cmp_format_entries xs cmp_format_entries-IsComparison))
  where
    go :
        (y : FormatEntry)
        → In y (top ∷ rest)
        → IsSortedBy cmp_format_entries (top ∷ rest)
        → y.score ≤ top.score
    go y (inl same) s = rw same (omega arith)
    go y (inr later) s = not_after top y (s.0 y later)

IsBest-of :
    (r : Rating)
    → SortLaws r
    → {P : Type 0} (self : Capture P) (xs sorted : List FormatEntry) (config : BufferConfig)
    → format_array_sort_by_score r xs ≡ sorted
    → dma_config sorted self ≡ some config
    → IsBest xs config
unfolding dma_config select_modifiers format_array_sort_by_score
IsBest-of r laws self xs [] config s e = absurd (none-ne-some config e)
IsBest-of r laws self xs (top ∷ rest) config s e = elim (Bool-cases (top.score == 0)) [
  | inl q ↦
      let h : dma_config (top ∷ rest) self ≡ none = rw q refl in
      absurd (none-ne-some config (sym h ∙ e))
  | inr q ↦
      let h : dma_config (top ∷ rest) self ≡ some (top_config top rest self) = rw q refl in
      let here : (x : FormatEntry) → In x (top ∷ rest) → In x xs =
        λ x i. (laws.kept cmp_format_entries x xs).0 (subst (In x) (sym s) i) in
      subst (IsBest xs) (some-injective (top_config top rest self) config (sym h ∙ e)) (record {
        top = top;
        offered = here top (inl refl);
        format_is = refl;
        usable = ground (arith, q);
        highest = highest_first r laws top xs rest s;
        modifiers_are =
            λ m i. let c = selected top (top ∷ rest) m i in (c.0, here c.0 c.1, c.2, c.3, c.4);
        has_modifier = λ n. ground (arith, n);
      })
]

-- If `config_dma_buffers` asks for buffers, it is for a format that is rated above zero and no lower
-- than any other that the session offers, with at least one modifier, each of which is offered with
-- that format and rated the same.
pub dma_config-IsBest :
    {P : Type 0} (r : Rating) (self : Capture P) (config : BufferConfig)
    → SortLaws r
    → dma_config
        (format_array_sort_by_score r (rate_formats_in_array r dmabuf self.dmabuf_formats))
        self
      ≡ some config
    → IsBest (rate_formats_in_array r dmabuf self.dmabuf_formats) config
dma_config-IsBest r self config laws e =
    IsBest-of r laws self (rate_formats_in_array r dmabuf self.dmabuf_formats)
      (format_array_sort_by_score r (rate_formats_in_array r dmabuf self.dmabuf_formats)) config
      refl e
