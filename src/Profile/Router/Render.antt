-- ===== src/Profile/Router/Render.antt =====
-- `request`, `render_human`, `render_csv` and `main` of scripts/sk_profile_components.py.
use xsr.Prelude.{List, Option, Result, Text, [], codes, err, map, none, ok, some, ◌++◌, ◌∷◌}
use xsr.Profile.Double.{Double, fixed}
use xsr.Profile.Router.Report.{Report, StageReport, aggregate_response}
use xsr.Profile.Router.{ProfileError, confirm_reset, too_large}
use xsr.Profile.Command.{
  Format, Outcome, csv, csv_fields, csv_line, csv_row, human, human_line, join_lines, json, prints,
  uncaught, usage_error, with_newline,
}
use xsr.Policy.Values.{is_space, show_nat, strip}

abbrev stage_line : Text × StageReport → Text
stage_line (stage, r) = human_line stage r.metrics.count r.metrics.total_ns r.mean_us

unfoldable pub render_human : Report → Text
unfolding human_line join_lines
render_human report = join_lines (
    codes "instrumentation: on"
    ∷ (codes "completed_requests: " ++ show_nat report.completed_requests)
    ∷ (map stage_line report.stage_reports
        ++ (codes "total_profiled_kernel_mean_us: " ++ fixed 6 report.total_profiled_kernel_mean_us)
          ∷ []))

unfoldable pub stage_rows : List (Text × StageReport) → Text
unfolding csv_line
stage_rows [] = []
stage_rows ((stage, r) ∷ reports) =
    csv_line stage r.metrics.count r.metrics.total_ns r.mean_ns r.mean_us ++ stage_rows reports

unfoldable pub render_csv : Report → Text
unfolding stage_rows csv_fields
render_csv report =
    csv_row
      (codes "stage" ∷ codes "count" ∷ codes "total_ns" ∷ codes "mean_ns" ∷ codes "mean_us" ∷ [])
    ++ stage_rows report.stage_reports

pub data Action : Type 0 where
  read reset : Action

abbrev action_word : Action → Text
action_word read = codes "read"
action_word reset = codes "reset"

-- The parsed command line.
pub record Arguments : Type 0 where
  pub action : Action
  pub format : Format

-- An `OverflowError` is none of the exceptions that `main` catches.
abbrev caught : ProfileError → Outcome
caught too_large = uncaught
caught _ = usage_error

abbrev strip_reply : Option Text → Option Text
strip_reply none = none
strip_reply (some reply) = some (strip is_space reply)

module _ (sum_doubles : List Double → Double) (to_json : Report → Text)
    (exchange : Text → Option Text) where
  -- What the socket answers, `none` on a `ConnectionError`, an `OSError` or text outside ASCII.
  abbrev pub request : Text → Option Text
  request command = strip_reply (exchange (codes "profile " ++ (command ++ 10 ∷ [])))

  abbrev pub print_report : Format → Result ProfileError Report → Outcome
  print_report f (err e) = caught e
  print_report human (ok report) = prints (with_newline (render_human report))
  print_report json (ok report) = prints (with_newline (to_json report))
  print_report csv (ok report) = prints (render_csv report)

  abbrev print_reset : Result ProfileError (Unit {0}) → Outcome
  print_reset (err e) = caught e
  print_reset (ok u) = prints (codes "profiling counters reset\n")

  abbrev run_on : Arguments → Action → Option Text → Outcome
  run_on arguments action none = usage_error
  run_on arguments reset (some raw) = print_reset (confirm_reset raw)
  run_on arguments read (some raw) =
      print_report arguments.format (aggregate_response sum_doubles raw)

  unfoldable pub main : Arguments → Outcome
  unfolding strip is_space render_human render_csv aggregate_response confirm_reset
  main arguments = run_on arguments arguments.action (request (action_word arguments.action))
