-- ===== src/Profile/Vsr/Once.antt =====
-- Which samples `parse_snapshot` of scripts/vsr_profile_components.py takes its counters from.
use xsr.Prelude.{
  Bool-cases, List, Option, Text, [], ap, bind-eq-ok, find_key, inl, inr, map, none, ok,
  ok_injective, refl, some, sym, text_eq, ℕ, ◌∙◌, ◌∷◌, ◌≡◌, ◌≢◌, ◌⊎◌,
}
use xsr.Profile.Vsr.Names.{full_values-names, names_of, read_lines-names}
use xsr.Profile.Vsr.Snapshot.{
  Metric, Sample, Values, match_sample, read_lines, full_values, durations, events, field_of,
  Counters, counter_or, full_counters, no_values, parse_snapshot, vsr_stages,
}
use xsr.Profile.Vsr.Decimal.{parse_nonnegative_integer, SnapshotError}
use xsr.Profile.Vsr.Stored.{
  values_of, field_at, Effect, read_line-Effect, stored_here, stored_elsewhere, is_of, value_in,
}
use xsr.Profile.Router.{Metrics, Totals, splitlines}

-- Where the value of a field comes from: it was there, or else just one sample has it.
abbrev Source : Metric → Text → Values → List Text → ℕ → Type 0
Source metric stage values lines n =
    ((field_at values metric stage ≡ some n) × (values_of metric stage lines ≡ []))
    ⊎ ((field_at values metric stage ≡ none)
        × (t : Text) × (values_of metric stage lines ≡ t ∷ [])
        × (parse_nonnegative_integer t ≡ ok n))

some_none : (k : ℕ) → ◌≢◌ {A = Option ℕ} (some k) none
some_none k h = cc

some_same : (k n : ℕ) → ◌≡◌ {A = Option ℕ} (some k) (some n) → k ≡ n
some_same k n h = cc

empty_field :
    (metric : Metric) → field_of metric (record { event_count = none; duration = none }) ≡ none
empty_field events = refl
empty_field durations = refl

module _ (metric : Metric) (stage : Text) where
  Source-later :
      (values next : Values) (line : Text) (lines : List Text) (n : ℕ)
      → field_at next metric stage ≡ field_at values metric stage
      → value_in metric stage (match_sample line) ≡ []
      → Source metric stage next lines n
      → Source metric stage values (line ∷ lines) n
  unfolding values_of
  Source-later values next line lines n e v (inl (f, w)) = inl (sym e ∙ f, rw v w)
  Source-later values next line lines n e v (inr (f, t, w, p)) = inr (sym e ∙ f, t, rw v w, p)

  Source-here :
      (values next : Values) (line : Text) (lines : List Text) (n k : ℕ) (t : Text)
      → field_at next metric stage ≡ some k
      → field_at values metric stage ≡ none
      → value_in metric stage (match_sample line) ≡ t ∷ []
      → parse_nonnegative_integer t ≡ ok k
      → Source metric stage next lines n
      → Source metric stage values (line ∷ lines) n
  unfolding values_of
  Source-here values next line lines n k t a b v p (inl (f, w)) =
      inr (b, t, rw v (ap (λ xs. t ∷ xs) w), p ∙ ap ok (some_same k n (sym a ∙ f)))
  Source-here values next line lines n k t a b v p (inr (f, u, w, q)) =
      absurd (some_none k (sym a ∙ f))

  Source-line :
      (values next : Values) (line : Text) (lines : List Text) (n : ℕ) (o : Option Sample)
      → match_sample line ≡ o
      → Effect values o next
      → Source metric stage next lines n
      → Source metric stage values (line ∷ lines) n
  Source-line values next line lines n none m e src =
      Source-later values next line lines n (ap (λ v. field_at v metric stage) e) (rw m refl) src
  Source-line values next line lines n (some s) m e src = elim (Bool-cases (is_of metric stage s)) [
    | inl here ↦
        (let changed = stored_here metric stage values next s e here in
          Source-here values next line lines n e.n s.value changed.0 changed.1 (rw m (rw here refl))
            e.value_read src)
    | inr other ↦
        Source-later values next line lines n (stored_elsewhere metric stage values next s e other)
          (rw m (rw other refl)) src
  ]

  read_lines-Source :
      (values : Values) (lines : List Text) (final : Values) (n : ℕ)
      → read_lines values lines ≡ ok final
      → field_at final metric stage ≡ some n
      → Source metric stage values lines n
  unfolding read_lines values_of
  read_lines-Source values [] final n h f =
      inl (ap (λ v. field_at v metric stage) (ok_injective SnapshotError values final h) ∙ f, refl)
  read_lines-Source values (line ∷ lines) final n h f =
      let step = bind-eq-ok _ _ h in
      Source-line values step.0 line lines n (match_sample line) refl
        (read_line-Effect values line step.0 step.1)
        (read_lines-Source step.0 lines final n step.2 f)

-- No field of the first values is set.
nothing_at :
    (metric : Metric) (stage : Text) (names : List Text)
    → field_at (map (λ s. (s, record { event_count = none; duration = none })) names) metric stage
      ≡ none
unfolding find_key
nothing_at metric stage [] = refl
nothing_at metric stage (s ∷ names) = elim (Bool-cases (text_eq s stage)) [
  | inl e ↦ rw e (empty_field metric)
  | inr e ↦ rw e (nothing_at metric stage names)
]

counter_or-eq-ok : (o : Option ℕ) (n : ℕ) → counter_or o ≡ ok n → o ≡ some n
counter_or-eq-ok none n h = cc
counter_or-eq-ok (some k) n h = cc

full_counters-fields :
    (c : Counters) (m : Metrics)
    → full_counters c ≡ ok m
    → (c.event_count ≡ some m.count) × (c.duration ≡ some m.total_ns)
full_counters-fields c m h =
    let count = bind-eq-ok _ _ h in
    let total = bind-eq-ok _ _ count.2 in
    let same =
      ok_injective SnapshotError (record { count = count.0; total_ns = total.0 }) m total.2 in
    (
      counter_or-eq-ok _ _ count.1 ∙ ap (λ (x : Metrics). some x.count) same,
      counter_or-eq-ok _ _ total.1 ∙ ap (λ (x : Metrics). some x.total_ns) same,
    )

metrics_none : (m : Metrics) → ◌≢◌ {A = Option Metrics} (some m) none
metrics_none m h = cc

abbrev metrics_of : Metrics → Option Metrics → Metrics
metrics_of m none = m
metrics_of m (some k) = k

metrics_same : (k m : Metrics) → ◌≡◌ {A = Option Metrics} (some k) (some m) → k ≡ m
metrics_same k m h = ap (λ o. metrics_of k o) h

full_values-field :
    (values : Values) (totals : Totals) (stage : Text) (m : Metrics)
    → full_values values ≡ ok totals
    → find_key totals stage ≡ some m
    → (field_at values events stage ≡ some m.count)
      × (field_at values durations stage ≡ some m.total_ns)
unfolding full_values find_key
full_values-field [] totals stage m h f =
    let found : find_key totals stage ≡ none =
      ap (λ t. find_key t stage) (sym (ok_injective SnapshotError [] totals h)) in
    absurd (metrics_none m (sym f ∙ found))
full_values-field ((s, c) ∷ values) totals stage m h f =
    let here = bind-eq-ok _ _ h in
    let rest = bind-eq-ok _ _ here.2 in
    let found : find_key ((s, here.0) ∷ rest.0) stage ≡ some m =
      ap (λ t. find_key t stage) (ok_injective SnapshotError ((s, here.0) ∷ rest.0) totals rest.2)
      ∙ f in
    elim (Bool-cases (text_eq s stage)) [
      | inl e ↦
          rw e (full_counters-fields c m (here.1 ∙ ap ok (metrics_same here.0 m (rw e at found))))
      | inr e ↦ rw e (full_values-field values rest.0 stage m rest.1 (rw e at found))
    ]

-- The one value of the samples of a metric and a stage.
abbrev pub IsRead : Metric → Text → List Text → ℕ → Type 0
IsRead metric stage lines n =
    (t : Text) × (values_of metric stage lines ≡ t ∷ []) × (parse_nonnegative_integer t ≡ ok n)

Source-IsRead :
    (metric : Metric) (stage : Text) (lines : List Text) (n : ℕ)
    → Source metric stage no_values lines n
    → IsRead metric stage lines n
Source-IsRead metric stage lines n (inl (f, w)) =
    absurd (some_none n (sym f ∙ nothing_at metric stage vsr_stages))
Source-IsRead metric stage lines n (inr (f, t, w, p)) = (t, w, p)

-- A snapshot that is accepted has the counters of all stages and of no others, and each counter of a stage
-- is the value of the only sample of it.
pub parse_snapshot-IsRead :
    (raw : Text) (totals : Totals) (stage : Text) (m : Metrics)
    → parse_snapshot raw ≡ ok totals
    → find_key totals stage ≡ some m
    → (names_of totals ≡ vsr_stages)
      × IsRead events stage (splitlines raw) m.count
      × IsRead durations stage (splitlines raw) m.total_ns
unfolding parse_snapshot
parse_snapshot-IsRead raw totals stage m h f =
    let final = bind-eq-ok _ _ h in
    let lines = splitlines raw in
    let fields = full_values-field final.0 totals stage m final.2 f in
    (
      full_values-names final.0 totals final.2 ∙ read_lines-names no_values lines final.0 final.1,
      Source-IsRead events stage lines m.count
          (read_lines-Source events stage no_values lines final.0 m.count final.1 fields.0),
      Source-IsRead durations stage lines m.total_ns
          (read_lines-Source durations stage no_values lines final.0 m.total_ns final.1 fields.1),
    )
