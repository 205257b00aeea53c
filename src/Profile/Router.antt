-- ===== src/Profile/Router.antt =====
-- scripts/sk_profile_components.py: what the router's profile socket answers, added up over the CPUs;
-- the report of the totals is in Report.
pub mod Report
pub mod Render
pub mod Tally
pub mod Answer
pub mod Written
pub mod RoundTrip
pub mod Lines
pub mod Exchange
pub mod Exits
pub mod Means
pub mod Succeeds
pub mod Accept
pub mod Sums
pub mod Order
use xsr.Prelude.{
  Bool, List, Option, Result, Text, [], all, any, codes, eq_ℤ, err, false, find_key, if◌then◌else◌,
  leb, length, map, non_empty, none, not, ok, pos, refuse, some, text_eq, true, ℕ, ℤ, ◌&&◌, ◌++◌,
  ◌+◌, ◌==◌, ◌||◌, ◌∷◌, ◌>>=◌, ◌>>◌,
}
use xsr.Policy.Values.{read_signed}
use xsr.Fields.{partition, split_from}

-- STAGES
abbrev pub stages : List Text
stages = codes "parse_signal" ∷ codes "decision" ∷ codes "redirect" ∷ []

-- The `ValueError` and `RuntimeError` of the script, and the `OverflowError` of a division.
pub data ProfileError : Type 0 where
  invalid_field empty_response not_built read_failed unexpected_stage_count : ProfileError
  invalid_cpu_count wrong_row_count invalid_cpu_row invalid_metric counts_differ : ProfileError
  reset_failed too_large : ProfileError

pub data FieldValue : Type 0 where
  number : ℤ → FieldValue
  word : Text → FieldValue

abbrev pub FieldTable : Type 0
FieldTable = List (Text × FieldValue)

-- fields[key] = value
unfoldable pub put_field : FieldTable → Text → FieldValue → FieldTable
put_field [] key value = (key, value) ∷ []
put_field ((k, v) ∷ table) key value =
    if text_eq k key then (k, value) ∷ table else (k, v) ∷ put_field table key value

-- `int(value)`, or else the text itself
abbrev pub as_number : Text → Option ℤ → FieldValue
as_number value none = word value
as_number value (some n) = number n

abbrev pub field_entry : Option (Text × Text) → Result ProfileError (Text × FieldValue)
field_entry none = err invalid_field
field_entry (some (key, value)) = ok (key, as_number value (read_signed value))

unfoldable pub parse_entries : FieldTable → List Text → Result ProfileError FieldTable
unfolding put_field partition
parse_entries table [] = ok table
parse_entries table (part ∷ parts) = do
  entry ← field_entry (partition part)
  parse_entries (put_field table entry.0 entry.1) parts

unfoldable pub parse_fields : Text → Result ProfileError FieldTable
unfolding parse_entries split_from
parse_fields line = parse_entries [] (split_from [] line)

-- What `str.splitlines` ends a line at.
unfoldable pub is_line_break : ℕ → Bool
is_line_break c =
    (leb 10 c && leb c 13) || (leb 28 c && leb c 30) || c == 133 || c == 8232 || c == 8233

-- `text.splitlines()`, on the characters of a line and those behind it; behind a carriage return a line
-- feed ends no other line.
unfoldable pub lines_from : Bool → Text → Text → List Text
unfolding is_line_break
lines_from after_return line [] = if non_empty line then line ∷ [] else []
lines_from after_return line (c ∷ cs) =
    let skipped = lines_from false line cs in
    let ended = lines_from (c == 13) [] cs in
    let extended = lines_from false (line ++ c ∷ []) cs in
    if after_return && c == 10 then skipped else if is_line_break c then line ∷ ended else extended

unfoldable pub splitlines : Text → List Text
unfolding lines_from
splitlines = lines_from false []

-- `fields.get(key) == n`
abbrev is_number : ℕ → Option FieldValue → Bool
is_number n (some (number z)) = eq_ℤ z (pos n)
is_number n _ = false

abbrev pub has_number : FieldTable → Text → ℕ → Bool
has_number table key n = is_number n (find_key table key)

-- An integer that is not negative.
abbrev pub natural_of : Option FieldValue → Option ℕ
natural_of (some (number (pos n))) = some n
natural_of _ = none

abbrev pub or_error : {A : Type 0} → Option A → ProfileError → Result ProfileError A
or_error (some a) e = ok a
or_error none e = err e

abbrev pub is_present : Option FieldValue → Bool
is_present none = false
is_present (some v) = true

pub record Metrics : Type 0 where
  pub count : ℕ
  pub total_ns : ℕ

abbrev pub Totals : Type 0
Totals = List (Text × Metrics)

-- Adding the metrics of a row to the totals of its stages.
unfoldable pub add_row : FieldTable → Totals → Result ProfileError Totals
add_row row [] = ok []
add_row row ((stage, m) ∷ totals) = do
  count ← or_error (natural_of (find_key row (stage ++ codes "_count"))) invalid_metric
  total_ns ← or_error (natural_of (find_key row (stage ++ codes "_total_ns"))) invalid_metric
  rest ← add_row row totals
  ok ((stage, record { count = m.count + count; total_ns = m.total_ns + total_ns }) ∷ rest)

-- x in seen_cpus
abbrev pub has_cpu : List ℕ → ℕ → Bool
has_cpu seen cpu = any (λ c. c == cpu) seen

-- The loop over the CPU rows.
unfoldable pub add_lines : ℕ → List ℕ → Totals → List Text → Result ProfileError Totals
unfolding add_row
add_lines cpu_count seen totals [] = ok totals
add_lines cpu_count seen totals (line ∷ lines) = do
  row ← parse_fields line
  cpu ← or_error (natural_of (find_key row (codes "cpu"))) invalid_cpu_row
  refuse (leb cpu_count cpu || has_cpu seen cpu) invalid_cpu_row
  next ← add_row row totals
  add_lines cpu_count (cpu ∷ seen) next lines

abbrev pub no_metrics : Metrics
no_metrics = record { count = 0; total_ns = 0 }

abbrev pub no_totals : Totals
no_totals = map (λ stage. (stage, no_metrics)) stages

-- `len(counts) == 1`, for the counts of at least one stage
unfoldable pub same_counts : Totals → Bool
same_counts [] = false
same_counts ((stage, m) ∷ totals) = all (λ t. t.1.count == m.count) totals

-- The checks of the header, and the totals of the rows behind it, with the number of CPUs.
unfoldable pub read_totals : List Text → Result ProfileError (ℕ × Totals)
unfolding add_lines same_counts
read_totals [] = err empty_response
read_totals (first ∷ lines) = do
  header ← parse_fields first
  refuse (not (has_number header (codes "profile_enabled") 1)) not_built
  refuse (is_present (find_key header (codes "error"))) read_failed
  refuse (not (has_number header (codes "stage_count") (length stages))) unexpected_stage_count
  cpu_count ← or_error (natural_of (find_key header (codes "cpu_count"))) invalid_cpu_count
  refuse (cpu_count == 0) invalid_cpu_count
  refuse (not (length lines == cpu_count)) wrong_row_count
  totals ← add_lines cpu_count [] no_totals lines
  refuse (not (same_counts totals)) counts_differ
  ok (cpu_count, totals)

abbrev metrics_or : Option Metrics → Metrics
metrics_or none = no_metrics
metrics_or (some m) = m

-- totals[stage], for a stage that is there
abbrev pub metrics_at : Totals → Text → Metrics
metrics_at totals stage = metrics_or (find_key totals stage)

abbrev reset_outcome : Option FieldValue → Result ProfileError (Unit {0})
reset_outcome (some (word w)) = refuse (not (text_eq w (codes "ok"))) reset_failed
reset_outcome _ = err reset_failed

unfoldable pub confirm_reset : Text → Result ProfileError (Unit {0})
confirm_reset raw = do
  table ← parse_fields raw
  refuse (not (has_number table (codes "profile_enabled") 1)) not_built
  reset_outcome (find_key table (codes "reset"))
