-- ===== src/Profile/Vsr/Stored.antt =====
-- What a line of a snapshot does to the counters, for scripts/vsr_profile_components.py.
use xsr.Prelude.{
  &&-eq-true, Bool, Bool-cases, List, Option, Text, [], ap, arith, bind-eq-ok, codes, err, false,
  find_key, if◌then◌else◌, inl, inr, non_empty, none, not, ok, ok_injective, refl, refuse-eq-ok,
  some, starts_with, subst, sym, text_eq, text_eq_iff, true, ℕ, ◌&&◌, ◌++◌, ◌||◌, ◌∙◌, ◌∷◌, ◌≡◌,
}
use xsr.Profile.Vsr.Decimal.{SnapshotError, parse_nonnegative_integer, malformed_sample}
use xsr.Profile.Vsr.Snapshot.{
  Metric, Sample, Counters, Values, match_sample, set_field, field_of, with_field, durations,
  events, is_set, read_line, read_sample, store_sample,
}

abbrev same_metric : Metric → Metric → Bool
same_metric events events = true
same_metric durations durations = true
same_metric _ _ = false

-- The value of a sample of this metric and stage.
abbrev pub value_in : Metric → Text → Option Sample → List Text
value_in metric stage none = []
value_in metric stage (some s) =
    if same_metric s.metric metric && text_eq s.stage stage then s.value ∷ [] else []

-- The values of all samples of a metric and stage.
unfoldable pub values_of : Metric → Text → List Text → List Text
values_of metric stage [] = []
values_of metric stage (line ∷ lines) =
    value_in metric stage (match_sample line) ++ values_of metric stage lines

abbrev field_or : Metric → Option Counters → Option ℕ
field_or metric none = none
field_or metric (some c) = field_of metric c

abbrev pub field_at : Values → Metric → Text → Option ℕ
field_at values metric stage = field_or metric (find_key values stage)

abbrev counters_or : Counters → Option Counters → Counters
counters_or c none = c
counters_or c (some d) = d

text_eq-differs : (a b c : Text) → text_eq a b ≡ false → text_eq a c ≡ true → text_eq b c ≡ false
text_eq-differs a b c h k = elim (Bool-cases (text_eq b c)) [
  | inl e ↦
      (let same : a ≡ b = (text_eq_iff a c).0 k ∙ sym ((text_eq_iff b c).0 e) in
        let equal = (text_eq_iff a b).1 same in absurd (ground (arith, h, equal)))
  | inr e ↦ e
]

set_here :
    (metric : Metric) (n : ℕ) (s stage other : Text) (d c : Counters) (rest : Option Counters)
    → s ≡ stage
    → d ≡ c
    → (if text_eq s other then some (with_field metric n d) else rest) ≡ (
        if text_eq stage other
        then some (with_field metric n c)
        else if text_eq s other
        then some d
        else rest)
set_here metric n s stage other d c rest p q = elim (Bool-cases (text_eq stage other)) [
  | inl e ↦ rw p (rw e (ap (λ x. some (with_field metric n x)) q))
  | inr e ↦ rw p (rw e refl)
]

set_later :
    (s stage other : Text) (found : Option Counters) (d : Counters) (new old : Option Counters)
    → text_eq s stage ≡ false
    → new ≡ (if text_eq stage other then found else old)
    → (if text_eq s other then some d else new)
      ≡ (if text_eq stage other then found else if text_eq s other then some d else old)
set_later s stage other found d new old h k = elim (Bool-cases (text_eq s other)) [
  | inl e ↦ rw e (rw (text_eq-differs s stage other h e) refl)
  | inr e ↦ rw e k
]

find_key-set_field :
    (metric : Metric) (n : ℕ) (stage other : Text) (values : Values) (c : Counters)
    → find_key values stage ≡ some c
    → find_key (set_field metric n stage values) other
      ≡ (if text_eq stage other then some (with_field metric n c) else find_key values other)
unfolding find_key set_field
find_key-set_field metric n stage other [] c h = cc
find_key-set_field metric n stage other ((s, d) ∷ values) c h =
    elim (Bool-cases (text_eq s stage)) [
      | inl e ↦
          (let found : some d ≡ some c = rw e at h in
            rw e (
              set_here metric n s stage other d c (find_key values other)
                ((text_eq_iff s stage).0 e) (ap (λ o. counters_or d o) found)))
      | inr e ↦
          (let found : find_key values stage ≡ some c = rw e at h in
            rw e (
              set_later s stage other (some (with_field metric n c)) d
                (find_key (set_field metric n stage values) other) (find_key values other) e
                (find_key-set_field metric n stage other values c found)))
    ]

-- A line that is skipped holds no sample.
skipped :
    (line : Text)
    → (not (non_empty line) || starts_with line (codes "#")) ≡ true
    → match_sample line ≡ none
unfolding match_sample starts_with
skipped [] h = refl
skipped (c ∷ line) h = (let hash : c ≡ 35 = ground (arith, h) in rw hash refl)

-- What a line does to the values.
pub record Stored (values : Values) (s : Sample) (next : Values) : Type 0 where
  pub counters : Counters
  pub n : ℕ
  pub there : find_key values s.stage ≡ some counters
  pub new : field_of s.metric counters ≡ none
  pub value_read : parse_nonnegative_integer s.value ≡ ok n
  pub stored : next ≡ set_field s.metric n s.stage values

is_set-none : (o : Option ℕ) → is_set o ≡ false → o ≡ none
is_set-none none h = refl
is_set-none (some n) h = cc

store-Stored :
    (values : Values) (s : Sample) (o : Option Counters) (next : Values)
    → find_key values s.stage ≡ o
    → store_sample values s o ≡ ok next
    → Stored values s next
store-Stored values s none next e h = cc
store-Stored values s (some c) next e h =
    let fresh = bind-eq-ok _ _ h in
    let amount = bind-eq-ok _ _ fresh.2 in
    record {
      counters = c;
      n = amount.0;
      there = e;
      new = is_set-none _ (refuse-eq-ok _ _ fresh.1);
      value_read = amount.1;
      stored = sym (ok_injective SnapshotError _ next amount.2);
    }

abbrev pub Effect : Values → Option Sample → Values → Type 0
Effect values none next = next ≡ values
Effect values (some s) next = Stored values s next

read_sample-Effect :
    (values : Values) (line : Text) (o : Option Sample) (next : Values)
    → read_sample values line o ≡ ok next
    → Effect values o next
read_sample-Effect values line none next h =
    elim (Bool-cases (starts_with line (codes "vsr_component_profile_"))) [
      | inl e ↦ (let k : err malformed_sample ≡ ok next = rw e at h in cc)
      | inr e ↦ sym (ok_injective SnapshotError values next (rw e at h))
    ]
read_sample-Effect values line (some s) next h =
    store-Stored values s (find_key values s.stage) next refl h

pub read_line-Effect :
    (values : Values) (line : Text) (next : Values)
    → read_line values line ≡ ok next
    → Effect values (match_sample line) next
unfolding read_line
read_line-Effect values line next h =
    elim (Bool-cases (not (non_empty line) || starts_with line (codes "#"))) [
      | inl e ↦ rw (skipped line e) (sym (ok_injective SnapshotError values next (rw e at h)))
      | inr e ↦ read_sample-Effect values line (match_sample line) next (rw e at h)
    ]

-- The sample is one of the metric and the stage.
abbrev pub is_of : Metric → Text → Sample → Bool
is_of metric stage s = same_metric s.metric metric && text_eq s.stage stage

same_metric-eq : (a b : Metric) → same_metric a b ≡ true → a ≡ b
same_metric-eq events events h = refl
same_metric-eq durations durations h = refl
same_metric-eq events durations h = cc
same_metric-eq durations events h = cc

field_of-with_field :
    (metric : Metric) (n : ℕ) (c : Counters) → field_of metric (with_field metric n c) ≡ some n
field_of-with_field events n c = refl
field_of-with_field durations n c = refl

field_of-other :
    (metric other : Metric) (n : ℕ) (c : Counters)
    → same_metric metric other ≡ false
    → field_of other (with_field metric n c) ≡ field_of other c
field_of-other events events n c h = cc
field_of-other durations durations n c h = cc
field_of-other events durations n c h = refl
field_of-other durations events n c h = refl

module _ (metric : Metric) (stage : Text) (values next : Values) (s : Sample)
    (t : Stored values s next) where
  looked_up : find_key next stage ≡ (
      if text_eq s.stage stage
      then some (with_field s.metric t.n t.counters)
      else find_key values stage)
  looked_up =
      ap (λ v. find_key v stage) t.stored
      ∙ find_key-set_field s.metric t.n s.stage stage values t.counters t.there

  pub stored_here :
      is_of metric stage s ≡ true
      → (field_at next metric stage ≡ some t.n) × (field_at values metric stage ≡ none)
  stored_here h =
      let both = &&-eq-true _ _ h in
      let same_stage = (text_eq_iff s.stage stage).0 both.1 in
      let same = same_metric-eq s.metric metric both.0 in
      let before : field_at values metric s.stage ≡ none = rw t.there (rw (← same) t.new) in
      let after : field_at next metric stage ≡ some t.n =
        rw looked_up (rw both.1 (rw (← same) (field_of-with_field s.metric t.n t.counters))) in
      (after, subst (λ x. field_at values metric x ≡ none) same_stage before)

  pub stored_elsewhere :
      is_of metric stage s ≡ false → field_at next metric stage ≡ field_at values metric stage
  stored_elsewhere h = elim (Bool-cases (text_eq s.stage stage)) [
    | inl e ↦
        (let other : same_metric s.metric metric ≡ false = ground (arith, h, e) in
          let found : find_key values stage ≡ some t.counters =
            subst (λ x. find_key values x ≡ some t.counters) ((text_eq_iff s.stage stage).0 e)
              t.there in
          rw looked_up (rw e (rw found (field_of-other s.metric metric t.n t.counters other))))
    | inr e ↦ rw looked_up (rw e refl)
  ]
