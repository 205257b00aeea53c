-- ===== src/Profile/Vsr/Summary.antt =====
-- `summarize_snapshots` of scripts/vsr_profile_components.py.
use xsr.Prelude.{
  Bool, List, Option, Result, Text, [], codes, err, false, find_key, if◌then◌else◌, ltb, map, none,
  not, ok, refuse, some, ℕ, ◌+◌, ◌-◌, ◌==◌, ◌||◌, ◌∷◌, ◌>>=◌, ◌>>◌,
}
use xsr.Profile.Vsr.Decimal.{
  SnapshotError, counts_differ, decreased, too_large, no_requests, unexpected_count,
}
use xsr.Profile.Vsr.Snapshot.{parse_snapshot, vsr_stages}
use xsr.Profile.Double.{Double, nought, thousandth, true_div}
use xsr.Profile.Router.{Metrics, Totals, metrics_at, no_metrics, same_counts}

-- STACKED_COMPONENTS, behind the sum of the parsing timers
abbrev pub stacked_stages : List Text
stacked_stages =
    codes "bm25_native"
    ∷ codes "decision_policy"
    ∷ codes "route_reply_build"
    ∷ codes "extproc_send"
    ∷ []

pub record Component : Type 0 where
  pub metrics : Metrics
  pub mean_ns : Double
  pub mean_us : Double

pub record Summary : Type 0 where
  pub completed_requests : ℕ
  pub stages : List (Text × Component)
  pub figure_components : List (Text × Component)
  pub stacked_direct_mean_us : Double
  pub request_body_total_mean_us : Double

abbrev pub not_too_large : Option Double → Result SnapshotError Double
not_too_large none = err too_large
not_too_large (some x) = ok x

-- The means of a stage, 0.0 where it has no event.
unfoldable pub component_of : Metrics → Result SnapshotError Component
component_of m =
    if m.count == 0 then ok (record { metrics = m; mean_ns = nought; mean_us = nought }) else do
      mean ← not_too_large (true_div m.total_ns m.count)
      ok (record { metrics = m; mean_ns = mean; mean_us = thousandth mean })

-- after - before, which may not be negative
unfoldable pub difference : Metrics → Metrics → Result SnapshotError Metrics
difference before after = do
  refuse (ltb after.count before.count || ltb after.total_ns before.total_ns) decreased
  ok (record { count = after.count - before.count; total_ns = after.total_ns - before.total_ns })

-- The first loop, over the stages of both snapshots.
unfoldable pub differences : Totals → Totals → List Text → Result SnapshotError Totals
unfolding difference
differences before after [] = ok []
differences before after (stage ∷ stages) = do
  m ← difference (metrics_at before stage) (metrics_at after stage)
  rest ← differences before after stages
  ok ((stage, m) ∷ rest)

unfoldable pub components_of : Totals → Result SnapshotError (List (Text × Component))
unfolding component_of
components_of [] = ok []
components_of ((stage, m) ∷ totals) = do
  c ← component_of m
  rest ← components_of totals
  ok ((stage, c) ∷ rest)

-- The parsing timers, added up.
abbrev pub parsing_metrics : ℕ → Totals → Metrics
parsing_metrics completed window = record {
  count = completed;
  total_ns =
      (metrics_at window (codes "request_fast_extract")).total_ns
      + (metrics_at window (codes "request_full_parse")).total_ns;
}

abbrev component_or : Option Component → Component
component_or none = record { metrics = no_metrics; mean_ns = nought; mean_us = nought }
component_or (some c) = c

abbrev pub component_at : List (Text × Component) → Text → Component
component_at components stage = component_or (find_key components stage)

abbrev pub unexpected : Option ℕ → ℕ → Bool
unexpected none completed = false
unexpected (some expected) completed = not (completed == expected)

-- The counts of a window, which all are the number of its requests.
unfoldable pub completed_of : Option ℕ → Totals → Result SnapshotError ℕ
unfolding same_counts
completed_of expected window =
    let completed = (metrics_at window (codes "request_body_total")).count in
    do
      refuse (not (same_counts window)) counts_differ
      refuse (completed == 0) no_requests
      refuse (unexpected expected completed) unexpected_count
      ok completed

-- What happened between two snapshots: the counters of every stage, and the number of requests.
unfoldable pub window_of : Text → Text → Option ℕ → Result SnapshotError (ℕ × Totals)
unfolding differences completed_of
window_of before_raw after_raw expected = do
  before ← parse_snapshot before_raw
  after ← parse_snapshot after_raw
  window ← differences before after vsr_stages
  completed ← completed_of expected window
  ok (completed, window)

module _ (sum_doubles : List Double → Double) where
  unfoldable pub summarize_snapshots : Text → Text → Option ℕ → Result SnapshotError Summary
  unfolding window_of components_of component_of
  summarize_snapshots before_raw after_raw expected = do
    window ← window_of before_raw after_raw expected
    stages ← components_of window.1
    parsing ← component_of (parsing_metrics window.0 window.1)
    let components =
        (codes "request_parsing", parsing)
        ∷ map (λ stage. (stage, component_at stages stage)) stacked_stages
    ok (record {
      completed_requests = window.0;
      stages = stages;
      figure_components = components;
      stacked_direct_mean_us = thousandth (sum_doubles (map (λ c. c.1.mean_ns) components));
      request_body_total_mean_us = (component_at stages (codes "request_body_total")).mean_us;
    })
