-- ===== src/Profile/Router/Report.antt =====
-- The report that `aggregate_response` of scripts/sk_profile_components.py makes of the totals.
use xsr.Prelude.{
  List, Option, Result, Text, [], codes, find_key, if◌then◌else◌, map, none, ok, some, ℕ, ◌==◌, ◌∷◌,
  ◌>>=◌,
}
use xsr.Profile.Double.{Double, nought, thousandth, true_div}
use xsr.Profile.Router.{
  too_large, Metrics, ProfileError, Totals, metrics_at, or_error, read_totals, splitlines,
}

pub record StageReport : Type 0 where
  pub metrics : Metrics
  pub mean_ns : Double
  pub mean_us : Double

pub record Report : Type 0 where
  pub completed_requests : ℕ
  pub cpu_count : ℕ
  pub stage_reports : List (Text × StageReport)
  pub parse_signal_mean_us : Double
  pub decision_mean_us : Double
  pub redirect_mean_us : Double
  pub total_profiled_kernel_mean_us : Double

-- total_ns / count if count else 0.0
unfoldable pub mean_of : Metrics → Result ProfileError Double
mean_of m = if m.count == 0 then ok nought else or_error (true_div m.total_ns m.count) too_large

unfoldable pub report_stages : Totals → Result ProfileError (List (Text × StageReport))
unfolding mean_of
report_stages [] = ok []
report_stages ((stage, m) ∷ totals) = do
  mean ← mean_of m
  rest ← report_stages totals
  ok ((stage, record { metrics = m; mean_ns = mean; mean_us = thousandth mean }) ∷ rest)

abbrev mean_us_or : Option StageReport → Double
mean_us_or none = nought
mean_us_or (some r) = r.mean_us

abbrev pub mean_us_at : List (Text × StageReport) → Text → Double
mean_us_at reports stage = mean_us_or (find_key reports stage)

-- `sum` of floating-point numbers is a parameter: Python 3.12 changed how it rounds.
module _ (sum_doubles : List Double → Double) where
  unfoldable pub report_of : ℕ → Totals → Result ProfileError Report
  unfolding report_stages
  report_of cpu_count totals = do
    reports ← report_stages totals
    ok (record {
      completed_requests = (metrics_at totals (codes "redirect")).count;
      cpu_count = cpu_count;
      stage_reports = reports;
      parse_signal_mean_us = mean_us_at reports (codes "parse_signal");
      decision_mean_us = mean_us_at reports (codes "decision");
      redirect_mean_us = mean_us_at reports (codes "redirect");
      total_profiled_kernel_mean_us = thousandth (sum_doubles (map (λ r. r.1.mean_ns) reports));
    })

  unfoldable pub aggregate_response : Text → Result ProfileError Report
  unfolding read_totals report_of splitlines
  aggregate_response raw = do found ← read_totals (splitlines raw); report_of found.0 found.1
