-- ===== src/Profile/Router/Exchange.antt =====
-- scripts/sk_profile_components.py asks, the router of src/sk_router.c answers.
use xsr.Prelude.{
  ==_iff, All, List, [], ap, arith, codes, eq_ℤ, find_key, length, ok, pos, refl, some, suc,
  text_eq, true, zero, ℕ, ◌+◌, ◌>>=◌, ◌∙◌, ◌∷◌, ◌≡◌,
}
use xsr.Profile.Router.Report.{aggregate_response, report_of}
use xsr.Profile.Double.{Double}
use xsr.Profile.Router.Written.{Key, Key-test, parse_fields-join_fields, table_of}
use xsr.Profile.Router.Sums.{nothing_plus}
use xsr.Policy.Values.{is_space, strip, strip_left, strip_right}
use xsr.Profile.Router.{
  read_totals, no_totals, Metrics, Totals, add_lines, no_metrics, put_field, same_counts,
  splitlines,
}
use xsr.Profile.Router.Answer.{
  serve_profile_read, head_fields, cpu_lines, join_fields, stage_fields, value_at, unlines,
  header_tail,
}
use xsr.Profile.Router.Lines.{Line, join_fields-Line, splitlines-unlines}
use xsr.Profile.Router.RoundTrip.{add_cpu_lines, row_keys, sum_stage, three_totals}
use xsr.Profile.Router.Accept.{Header, Accept-read_totals}

cpu_lines-Line :
    (cpu_count : ℕ) (values : ℕ → Metrics) (remaining cpu : ℕ)
    → All Line (cpu_lines cpu_count values remaining cpu)
unfolding cpu_lines
cpu_lines-Line cpu_count values zero cpu = tt
cpu_lines-Line cpu_count values (suc remaining) cpu =
    let value = value_at cpu_count values cpu in
    (
      join_fields-Line (codes "cpu", cpu) (stage_fields value) (row_keys cpu value),
      cpu_lines-Line cpu_count values remaining (cpu + 1),
    )

length-cpu_lines :
    (cpu_count : ℕ) (values : ℕ → Metrics) (remaining cpu : ℕ)
    → length (cpu_lines cpu_count values remaining cpu) ≡ remaining
unfolding cpu_lines
length-cpu_lines cpu_count values zero cpu = refl
length-cpu_lines cpu_count values (suc remaining) cpu =
    ap suc (length-cpu_lines cpu_count values remaining (cpu + 1))

header_keys : (cpu_count : ℕ) → All Key (head_fields cpu_count)
unfolding is_space
header_keys cpu_count = Key-test (head_fields cpu_count) refl

served-Header : (n : ℕ) → Header (join_fields (head_fields (suc n))) (suc n)
unfolding table_of put_field find_key text_eq eq_ℤ
served-Header n = record {
  fields = table_of [] (head_fields (suc n));
  parsed =
      parse_fields-join_fields (codes "profile_enabled", 1) (header_tail (suc n))
        (header_keys (suc n));
  enabled = refl;
  no_error = refl;
  known = refl;
  cpus = refl;
  some_cpu = ground arith;
}

three_totals-same :
    (a b c : Metrics)
    → a.count ≡ c.count
    → b.count ≡ c.count
    → same_counts (three_totals a b c) ≡ true
unfolding same_counts
three_totals-same a b c h k = ground (arith, h, k)

module _ (n : ℕ) (values : ℕ → Metrics) where
  -- The values of a stage, added up over the CPUs.
  abbrev pub over_cpus : ℕ → Metrics
  over_cpus stage = sum_stage (suc n) values stage (suc n) 0

  abbrev pub served_totals : Totals
  served_totals = three_totals (over_cpus 0) (over_cpus 1) (over_cpus 2)

  added_lines :
      add_lines (suc n) [] no_totals (cpu_lines (suc n) values (suc n) 0) ≡ ok served_totals
  added_lines =
      add_cpu_lines (suc n) values (suc n) 0 [] no_metrics no_metrics no_metrics (omega arith) tt
      ∙ (λ i. ok (
          three_totals (nothing_plus (over_cpus 0) i) (nothing_plus (over_cpus 1) i)
            (nothing_plus (over_cpus 2) i)))

  served_lines :
      splitlines (strip is_space (serve_profile_read (pos (suc n)) true (some values)))
      ≡ join_fields (head_fields (suc n)) ∷ cpu_lines (suc n) values (suc n) 0
  unfolding serve_profile_read strip strip_left strip_right unlines join_fields is_space
  served_lines =
      splitlines-unlines (join_fields (head_fields (suc n))) (cpu_lines (suc n) values (suc n) 0) (
        join_fields-Line (codes "profile_enabled", 1) (header_tail (suc n)) (header_keys (suc n)),
        cpu_lines-Line (suc n) values (suc n) 0,
      )

  read_totals-served :
      (over_cpus 0).count ≡ (over_cpus 2).count
      → (over_cpus 1).count ≡ (over_cpus 2).count
      → read_totals
          (splitlines (strip is_space (serve_profile_read (pos (suc n)) true (some values))))
        ≡ ok (suc n, served_totals)
  read_totals-served h k =
      ap read_totals served_lines
      ∙ Accept-read_totals _ _ (suc n) served_totals (record {
        header = served-Header n;
        rows = (==_iff _ _).1 (length-cpu_lines (suc n) values (suc n) 0);
        found = added_lines;
        counted = three_totals-same (over_cpus 0) (over_cpus 1) (over_cpus 2) h k;
      })

  -- What the script makes of the router's answer is the report of the sums over the CPUs, when the three
  -- stages have counted the same number of events.
  pub aggregate_response-serve_profile_read :
      (sum_doubles : List Double → Double)
      → (over_cpus 0).count ≡ (over_cpus 2).count
      → (over_cpus 1).count ≡ (over_cpus 2).count
      → aggregate_response sum_doubles
          (strip is_space (serve_profile_read (pos (suc n)) true (some values)))
        ≡ report_of sum_doubles (suc n) served_totals
  unfolding aggregate_response ◌>>=◌
  aggregate_response-serve_profile_read sum_doubles h k = rw (read_totals-served h k) refl
