-- ===== src/Profile/Vsr/Render.antt =====
-- `capture`, `render_human`, `render_csv` and `main` of scripts/vsr_profile_components.py.
use xsr.Prelude.{
  Bool, List, Option, Result, Text, [], codes, err, false, map, none, ok, some, true, ℕ, ◌++◌, ◌∷◌,
}
use xsr.Profile.Vsr.Summary.{Component, Summary, summarize_snapshots}
use xsr.Profile.Vsr.Decimal.{SnapshotError, too_large}
use xsr.Profile.Vsr.Snapshot.{parse_snapshot}
use xsr.Profile.Double.{Double, fixed}
use xsr.Profile.Router.{Totals}
use xsr.Profile.Command.{
  Format, Outcome, csv, csv_fields, csv_line, csv_row, human, human_line, join_lines, json, prints,
  uncaught, usage_error, with_newline,
}
use xsr.Policy.Values.{show_nat}

abbrev component_line : Text × Component → Text
component_line (name, c) = human_line name c.metrics.count c.metrics.total_ns c.mean_us

unfoldable pub render_human : Summary → Text
unfolding human_line join_lines
render_human summary = join_lines (
    codes "instrumentation: vsr_profile_components"
    ∷ (codes "completed_requests: " ++ show_nat summary.completed_requests)
    ∷ (map component_line summary.figure_components
        ++ (codes "stacked_direct_mean_us: " ++ fixed 6 summary.stacked_direct_mean_us)
          ∷ (codes "request_body_total_mean_us: "
              ++ (fixed 6 summary.request_body_total_mean_us ++ codes " (inclusive, not stacked)"))
          ∷ []))

unfoldable pub component_rows : List (Text × Component) → Text
unfolding csv_line
component_rows [] = []
component_rows ((name, c) ∷ components) =
    csv_line name c.metrics.count c.metrics.total_ns c.mean_ns c.mean_us
    ++ component_rows components

unfoldable pub render_csv : Summary → Text
unfolding component_rows csv_fields
render_csv summary =
    csv_row (
      codes "component" ∷ codes "count" ∷ codes "total_ns" ∷ codes "mean_ns" ∷ codes "mean_us" ∷ [])
    ++ component_rows summary.figure_components

-- The parsed command line; the snapshots of `summarize` are what their files hold, `none` where a file
-- cannot be read.
pub data Command : Type 0 where
  capture_metrics : Command
  summarize : Option Text → Option Text → Option ℕ → Format → Command

-- An `OverflowError` is none of the exceptions that `main` catches.
abbrev caught : SnapshotError → Outcome
caught too_large = uncaught
caught _ = usage_error

abbrev writes : Bool → Text → Result SnapshotError Totals → Outcome
writes writable raw (err e) = caught e
writes true raw (ok values) = record { status = 0; printed = []; written = some raw }
writes false raw (ok values) = usage_error

-- `capture`, of what the server answers: `none` where it cannot be reached or is no UTF-8. `writable`
-- is whether the output file takes a text; where it does not, what is left of it is not modelled.
unfoldable pub capture : (Text → Bool) → Option Text → Outcome
capture writable none = usage_error
capture writable (some raw) = writes (writable raw) raw (parse_snapshot raw)

module _ (sum_doubles : List Double → Double) (to_json : Summary → Text) (answer : Option Text)
    (writable : Text → Bool) where
  abbrev pub print_summary : Format → Result SnapshotError Summary → Outcome
  print_summary f (err e) = caught e
  print_summary human (ok summary) = prints (with_newline (render_human summary))
  print_summary json (ok summary) = prints (with_newline (to_json summary))
  print_summary csv (ok summary) = prints (render_csv summary)

  unfoldable pub main : Command → Outcome
  unfolding capture summarize_snapshots render_human render_csv
  main capture_metrics = capture writable answer
  main (summarize none after expected f) = usage_error
  main (summarize (some before) none expected f) = usage_error
  main (summarize (some before) (some after) expected f) =
      print_summary f (summarize_snapshots sum_doubles before after expected)
