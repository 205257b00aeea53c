-- ===== src/Tests/Components.antt =====
-- The two profile scripts, on small answers.
use xsr.Prelude.{
  List, Text, [], arith, codes, eq_ℤ, false, find_key, is_digit, lower_char, none, ok, pos, refl,
  some, starts_with, text_eq, true, ℕ, ◌*◌, ◌++◌, ◌+ℤ◌, ◌+◌, ◌>>=◌, ◌∷◌, ◌≡◌,
}
use xsr.Profile.Router.Report.{StageReport, aggregate_response, mean_of, report_of, report_stages}
use xsr.Profile.Router.Means.{AllReported, report_stages-AllReported}
use xsr.Profile.Vsr.Names.{names_of}
use xsr.Profile.Vsr.Summary.{completed_of, difference, differences, window_of}
use xsr.Profile.Vsr.Decimal.{
  digits_value, integral_value, parse_nonnegative_integer, read_decimal, read_unsigned, span_digits,
}
use xsr.Profile.Vsr.Printed.{parse_nonnegative_integer-printed, scientific}
use xsr.Profile.Vsr.Joined.{joined_windows, window_of-joined}
use xsr.Profile.Vsr.Snapshot.{
  full_values, match_sample, parse_snapshot, read_line, read_lines, set_field, until_quote,
  until_space, vsr_stages,
}
use xsr.Profile.Router.Tally.{totals_of}
use xsr.Profile.Router.Order.{read_totals-reordered}
use xsr.Profile.Router.Exits.{main-serve_profile_read_failed, main-serve_profile_reset}
use xsr.Profile.Router.RoundTrip.{three_totals}
use xsr.Profile.Router.Exchange.{aggregate_response-serve_profile_read, served_totals}
use xsr.Profile.Router.Sums.{Accepted, read_totals-IsTally}
use xsr.Profile.Router.Succeeds.{main-succeeds}
use mathlib.Core.List.{Permᴰ}
use xsr.Profile.Vsr.Render.{main as vsr_main, summarize, capture}
use xsr.Profile.Vsr.Snapshot.{events, durations}
use xsr.Profile.Vsr.Succeeds.{main-summarize_succeeds}
use xsr.Profile.Vsr.Once.{IsRead, parse_snapshot-IsRead}
use xsr.Profile.Router.Answer.{serve_profile_read, serve_profile_reset}
use xsr.Profile.Command.{usage_error}
use xsr.Policy.Values.{is_space, read_digits, read_signed, show_nat, strip, strip_left, strip_right}
use xsr.Fields.{partition, split_from}
use xsr.Profile.Router.{
  add_lines, add_row, confirm_reset, is_line_break, lines_from, parse_entries, parse_fields,
  put_field, read_totals, same_counts, splitlines, Metrics, Totals,
}
use xsr.Profile.Router.Render.{reset, main, read, render_human, render_csv}
use xsr.Profile.Command.{json, csv, Format, human, Outcome, human_line, join_lines}
use xsr.Profile.Double.{
  Double, nought, to_double, true_div, thousandth, fixed, log2, log2_fuel, round_half_even,
  padded_digits,
}

abbrev sum_exactly : List Double → Double
sum_exactly [] = nought
sum_exactly (x ∷ []) = x
sum_exactly (x ∷ xs) =
    let rest = sum_exactly xs in
    to_double (x.numerator * rest.denominator + rest.numerator * x.denominator)
      (x.denominator * rest.denominator)

abbrev two_cpus : Text
two_cpus =
    codes
      "profile_enabled=1 cpu_count=2 stage_count=3\ncpu=0 parse_signal_count=2 parse_signal_total_ns=500 decision_count=2 decision_total_ns=1000 redirect_count=1 redirect_total_ns=100\ncpu=1 parse_signal_count=1 parse_signal_total_ns=500 decision_count=1 decision_total_ns=0 redirect_count=2 redirect_total_ns=1\n"

abbrev main_read : Format → Outcome
main_read f = main sum_exactly (λ r. []) (λ t. some two_cpus) (record { action = read; format = f })

main_human :
    (main_read human).printed
    ≡ codes
        "instrumentation: on\ncompleted_requests: 3\nparse_signal: count=3 total_ns=1000 mean_us=0.333333\ndecision: count=3 total_ns=1000 mean_us=0.333333\nredirect: count=3 total_ns=101 mean_us=0.033667\ntotal_profiled_kernel_mean_us: 0.700333\n"
unfolding main strip strip_left strip_right is_space render_human render_csv aggregate_response
    confirm_reset read_totals report_of splitlines lines_from is_line_break parse_fields
    parse_entries split_from partition put_field add_lines add_row same_counts report_stages mean_of
    true_div to_double round_half_even log2 log2_fuel thousandth fixed padded_digits human_line
    join_lines show_nat read_signed read_digits is_digit find_key text_eq eq_ℤ ◌>>=◌
main_human = refl

abbrev two_values : ℕ → Metrics
two_values i = record { count = 3; total_ns = 100 * i + 7 }

aggregate_response-serve_profile_read_example :
    aggregate_response sum_exactly
      (strip is_space (serve_profile_read (pos 2) true (some two_values)))
    ≡ report_of sum_exactly 2 (served_totals 1 two_values)
aggregate_response-serve_profile_read_example =
    aggregate_response-serve_profile_read 1 two_values sum_exactly refl refl

abbrev first_line : Text
first_line = codes "profile_enabled=1 cpu_count=2 stage_count=3"

abbrev row_0 : Text
row_0 =
    codes
      "cpu=0 parse_signal_count=2 parse_signal_total_ns=500 decision_count=2 decision_total_ns=1000 redirect_count=1 redirect_total_ns=100"

abbrev row_1 : Text
row_1 =
    codes
      "cpu=1 parse_signal_count=1 parse_signal_total_ns=500 decision_count=1 decision_total_ns=0 redirect_count=2 redirect_total_ns=1"

abbrev two_totals : Totals
two_totals =
    three_totals (record { count = 3; total_ns = 1000 }) (record { count = 3; total_ns = 1000 })
      (record { count = 3; total_ns = 101 })

two_rows_run : read_totals (first_line ∷ row_0 ∷ row_1 ∷ []) ≡ ok (2, two_totals)
unfolding read_totals parse_fields parse_entries split_from partition put_field add_lines add_row
    same_counts is_space read_signed read_digits is_digit find_key text_eq eq_ℤ ◌>>=◌
two_rows_run = refl

read_totals-IsTally_example : Accepted (row_0 ∷ row_1 ∷ []) (2, two_totals)
read_totals-IsTally_example =
    read_totals-IsTally first_line (row_0 ∷ row_1 ∷ []) 2 two_totals two_rows_run

read_totals-reordered_example : read_totals (first_line ∷ row_1 ∷ row_0 ∷ []) ≡ ok (2, two_totals)
read_totals-reordered_example =
    read_totals-reordered first_line (row_0 ∷ row_1 ∷ []) (row_1 ∷ row_0 ∷ []) 2 two_totals
      (Permᴰ.swap refl refl) two_rows_run

main-serve_profile_reset_example :
    main sum_exactly
      (λ r. [])
      (λ command. some (serve_profile_reset (pos 2) true false))
      (record { action = reset; format = csv })
    ≡ usage_error
main-serve_profile_reset_example =
    main-serve_profile_reset sum_exactly (λ r. []) csv (pos 2) true false

main-serve_profile_read_failed_example :
    main sum_exactly
      (λ r. [])
      (λ command. some (serve_profile_read (pos 2) true none))
      (record { action = read; format = json })
    ≡ usage_error
main-serve_profile_read_failed_example =
    main-serve_profile_read_failed sum_exactly (λ r. []) json (pos 2) true none refl

abbrev same_values : ℕ → Metrics
same_values i = record { count = 3; total_ns = 70 }

main-succeeds_example :
    (main sum_exactly
      (λ r. [])
      (λ command. some (serve_profile_read (pos 2) true (some same_values)))
      (record { action = read; format = human })).status
    ≡ 0
main-succeeds_example =
    main-succeeds 1 same_values (λ i. (omega arith, omega arith)) (omega arith) sum_exactly
      (λ r. []) human refl refl

abbrev one_stage : Totals
one_stage = (codes "redirect", record { count = 3; total_ns = 100 }) ∷ []

abbrev one_report : List (Text × StageReport)
one_report =
    (
      codes "redirect",
      record {
        metrics = record { count = 3; total_ns = 100 };
        mean_ns = to_double 100 3;
        mean_us = thousandth (to_double 100 3);
      },
    )
    ∷ []

one_stage_run : report_stages one_stage ≡ ok one_report
unfolding report_stages mean_of true_div to_double round_half_even log2 log2_fuel thousandth ◌>>=◌
one_stage_run = refl

report_stages-AllReported_example : AllReported one_stage one_report
report_stages-AllReported_example =
    report_stages-AllReported one_stage one_report ((omega arith, omega arith), tt) one_stage_run

parse_nonnegative_integer-printed_example :
    (parse_nonnegative_integer (show_nat 12) ≡ ok 12)
    × (parse_nonnegative_integer (scientific 12 6) ≡ ok 12000000)
parse_nonnegative_integer-printed_example = parse_nonnegative_integer-printed 12 6

abbrev sample_lines : ℕ → ℕ → List Text → Text
sample_lines n t [] = []
sample_lines n t (stage ∷ names) =
    codes "vsr_component_profile_events_total{stage=\""
    ++ (stage
        ++ (codes "\"} "
            ++ (show_nat n
                ++ (codes "\nvsr_component_profile_duration_nanoseconds_total{stage=\""
                    ++ (stage
                        ++ (codes "\"} " ++ (show_nat t ++ (10 ∷ sample_lines n t names))))))))

abbrev snapshot : ℕ → ℕ → Text
snapshot n t = codes "# HELP\n" ++ sample_lines n t vsr_stages

abbrev even_window : ℕ → ℕ → Totals
even_window n t = totals_of vsr_stages (λ stage. record { count = n; total_ns = t })

first_window : window_of (snapshot 3 10) (snapshot 5 1010) (some 2) ≡ ok (2, even_window 2 1000)
unfolding window_of parse_snapshot splitlines lines_from is_line_break read_lines read_line
    match_sample until_quote until_space strip_left set_field full_values parse_nonnegative_integer
    read_decimal read_unsigned span_digits digits_value integral_value differences difference
    completed_of same_counts is_space is_digit starts_with lower_char find_key text_eq show_nat ◌+ℤ◌
    ◌>>=◌
first_window = refl

second_window : window_of (snapshot 5 1010) (snapshot 9 1500) none ≡ ok (4, even_window 4 490)
unfolding window_of parse_snapshot splitlines lines_from is_line_break read_lines read_line
    match_sample until_quote until_space strip_left set_field full_values parse_nonnegative_integer
    read_decimal read_unsigned span_digits digits_value integral_value differences difference
    completed_of same_counts is_space is_digit starts_with lower_char find_key text_eq show_nat ◌+ℤ◌
    ◌>>=◌
second_window = refl

window_of-joined_example :
    window_of (snapshot 3 10) (snapshot 9 1500) none
    ≡ ok (6, joined_windows (even_window 2 1000) (even_window 4 490))
window_of-joined_example =
    window_of-joined (snapshot 3 10) (snapshot 5 1010) (snapshot 9 1500) (some 2) none 2 4
      (even_window 2 1000) (even_window 4 490) first_window second_window

one_snapshot : parse_snapshot (snapshot 3 10) ≡ ok (even_window 3 10)
unfolding parse_snapshot splitlines lines_from is_line_break read_lines read_line match_sample
    until_quote until_space strip_left set_field full_values parse_nonnegative_integer read_decimal
    read_unsigned span_digits digits_value integral_value is_space is_digit starts_with lower_char
    find_key text_eq show_nat ◌+ℤ◌ ◌>>=◌
one_snapshot = refl

native_found :
    find_key (even_window 3 10) (codes "bm25_native") ≡ some (record { count = 3; total_ns = 10 })
unfolding find_key text_eq
native_found = refl

parse_snapshot-IsRead_example :
    (names_of (even_window 3 10) ≡ vsr_stages)
    × IsRead events (codes "bm25_native") (splitlines (snapshot 3 10)) 3
    × IsRead durations (codes "bm25_native") (splitlines (snapshot 3 10)) 10
parse_snapshot-IsRead_example =
    parse_snapshot-IsRead (snapshot 3 10) (even_window 3 10) (codes "bm25_native")
      (record { count = 3; total_ns = 10 }) one_snapshot native_found

main-summarize_succeeds_example :
    (vsr_main sum_exactly
      (λ s. [])
      none
      (λ raw. true)
      (summarize (some (snapshot 3 10)) (some (snapshot 5 1010)) (some 2) human)).status
    ≡ 0
main-summarize_succeeds_example =
    main-summarize_succeeds sum_exactly (snapshot 3 10) (snapshot 5 1010) (some 2) 2
      (even_window 2 1000) (λ s. []) none (λ raw. true) human first_window (omega arith)
      (omega arith)

unwritable_output : capture (λ raw. false) (some (snapshot 3 10)) ≡ usage_error
unfolding capture
unwritable_output = rw one_snapshot refl
