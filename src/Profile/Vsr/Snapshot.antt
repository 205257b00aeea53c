-- ===== src/Profile/Vsr/Snapshot.antt =====
-- `parse_snapshot` of scripts/vsr_profile_components.py.
use xsr.Prelude.{
  Bool, List, Option, Result, Text, [], all, codes, drop, err, false, find_key, if◌then◌else◌,
  is_digit, length, map, next_is, non_empty, none, not, ok, refuse, some, starts_with, text_eq,
  true, ℕ, ◌&&◌, ◌++◌, ◌==◌, ◌||◌, ◌∷◌, ◌>>=◌, ◌>>◌,
}
use xsr.Profile.Vsr.Decimal.{
  SnapshotError, duplicate_sample, malformed_sample, missing_sample, parse_nonnegative_integer,
  unexpected_stage,
}
use xsr.Profile.Router.{Metrics, Totals, splitlines}
use xsr.Policy.Values.{is_space, strip_left}

-- STAGES
abbrev pub vsr_stages : List Text
vsr_stages =
    codes "request_fast_extract"
    ∷ codes "request_full_parse"
    ∷ codes "bm25_native"
    ∷ codes "decision_policy"
    ∷ codes "route_reply_build"
    ∷ codes "extproc_send"
    ∷ codes "request_body_total"
    ∷ []

-- A metric of a stage: the field of METRICS.
pub data Metric : Type 0 where
  events durations : Metric

abbrev events_name : Text
events_name = codes "vsr_component_profile_events_total"

abbrev durations_name : Text
durations_name = codes "vsr_component_profile_duration_nanoseconds_total"

-- What SAMPLE_RE finds in a line: the metric, the stage and the value.
pub record Sample : Type 0 where
  pub metric : Metric
  pub stage : Text
  pub value : Text

abbrev pub longer : ℕ → Option (Text × Text) → Option (Text × Text)
longer c none = none
longer c (some (before, after)) = some (c ∷ before, after)

-- The text in front of the first quote, and the text behind it.
unfoldable pub until_quote : Text → Option (Text × Text)
until_quote [] = none
until_quote (c ∷ cs) =
    let later = until_quote cs in if c == b'"' then some ([], cs) else longer c later

-- The text in front of the first blank, and the text from it on.
unfoldable pub until_space : Text → Text × Text
unfolding is_space
until_space [] = ([], [])
until_space (c ∷ cs) =
    let later = until_space cs in if is_space c then ([], c ∷ cs) else (c ∷ later.0, later.1)

-- Nothing, or blanks and the digits of a time.
abbrev pub ends_sample : Text → Bool
ends_sample [] = true
ends_sample (c ∷ cs) =
    is_space c && non_empty (strip_left is_space cs) && all is_digit (strip_left is_space cs)

abbrev sample_value : Metric → Text → Text × Text → Option Sample
sample_value metric stage (value, rest) =
    if non_empty value && ends_sample rest
    then some (record { metric = metric; stage = stage; value = value })
    else none

-- What follows the closing quote.
abbrev behind_stage : Metric → Option (Text × Text) → Option Sample
behind_stage metric none = none
behind_stage metric (some (stage, rest)) =
    if non_empty stage && starts_with rest (codes "}") && next_is is_space (drop 1 rest)
    then sample_value metric stage (until_space (strip_left is_space (drop 1 rest)))
    else none

abbrev stage_open : Text
stage_open = codes "{stage=\""

abbrev match_metric : Metric → Text → Text → Option Sample
match_metric metric name line =
    behind_stage metric (until_quote (drop (length (name ++ stage_open)) line))

-- SAMPLE_RE.match(line), where `\d` and `\s` are read as ASCII digits and as `str.isspace`.
unfoldable pub match_sample : Text → Option Sample
unfolding until_quote until_space is_space strip_left
match_sample line =
    if starts_with line (events_name ++ stage_open)
    then match_metric events events_name line
    else if starts_with line (durations_name ++ stage_open)
    then match_metric durations durations_name line
    else none

-- The counters of one stage.
pub record Counters : Type 0 where
  pub event_count : Option ℕ
  pub duration : Option ℕ

abbrev pub Values : Type 0
Values = List (Text × Counters)

abbrev pub no_values : Values
no_values = map (λ stage. (stage, record { event_count = none; duration = none })) vsr_stages

-- values[stage][field]
abbrev pub field_of : Metric → Counters → Option ℕ
field_of events c = c.event_count
field_of durations c = c.duration

-- values[stage][field] = value
abbrev pub with_field : Metric → ℕ → Counters → Counters
with_field events n c = record { event_count = some n; duration = c.duration }
with_field durations n c = record { event_count = c.event_count; duration = some n }

unfoldable pub set_field : Metric → ℕ → Text → Values → Values
set_field metric n stage [] = []
set_field metric n stage ((s, c) ∷ values) =
    if text_eq s stage
    then (s, with_field metric n c) ∷ values
    else (s, c) ∷ set_field metric n stage values

abbrev pub is_set : Option ℕ → Bool
is_set none = false
is_set (some n) = true

-- A sample of a stage whose counters are there.
abbrev pub store_sample : Values → Sample → Option Counters → Result SnapshotError Values
store_sample values sample none = err unexpected_stage
store_sample values sample (some c) = do
  refuse (is_set (field_of sample.metric c)) duplicate_sample
  n ← parse_nonnegative_integer sample.value
  ok (set_field sample.metric n sample.stage values)

abbrev pub read_sample : Values → Text → Option Sample → Result SnapshotError Values
read_sample values line none =
    if starts_with line (codes "vsr_component_profile_") then err malformed_sample else ok values
read_sample values line (some sample) = store_sample values sample (find_key values sample.stage)

-- One line of a snapshot.
unfoldable pub read_line : Values → Text → Result SnapshotError Values
unfolding match_sample parse_nonnegative_integer set_field
read_line values line =
    if not (non_empty line) || starts_with line (codes "#")
    then ok values
    else read_sample values line (match_sample line)

unfoldable pub read_lines : Values → List Text → Result SnapshotError Values
unfolding read_line
read_lines values [] = ok values
read_lines values (line ∷ lines) = do next ← read_line values line; read_lines next lines

abbrev pub counter_or : Option ℕ → Result SnapshotError ℕ
counter_or none = err missing_sample
counter_or (some n) = ok n

-- The last loop: every stage has both counters.
abbrev pub full_counters : Counters → Result SnapshotError Metrics
full_counters c = do
  count ← counter_or c.event_count
  total_ns ← counter_or c.duration
  ok (record { count = count; total_ns = total_ns })

unfoldable pub full_values : Values → Result SnapshotError Totals
full_values [] = ok []
full_values ((stage, c) ∷ values) = do
  m ← full_counters c
  rest ← full_values values
  ok ((stage, m) ∷ rest)

unfoldable pub parse_snapshot : Text → Result SnapshotError Totals
unfolding read_lines full_values splitlines
parse_snapshot raw = do values ← read_lines no_values (splitlines raw); full_values values
