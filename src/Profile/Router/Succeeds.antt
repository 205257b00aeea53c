-- ===== src/Profile/Router/Succeeds.antt =====
-- scripts/sk_profile_components.py ends well on the counters that src/sk_router.c can hold.
use xsr.Prelude.{
  ==_iff, All, Bool-cases, List, Option, Returns, Returns-bind, Text, [], arith, inl, inr, ok, pos,
  refl, some, suc, true, zero, ℕ, ◌*◌, ◌+◌, ◌<◌, ◌==◌, ◌^◌, ◌∷◌, ◌≡◌, ◌≤◌,
}
use xsr.Profile.Router.Answer.{serve_profile_read}
use xsr.Profile.Router.RoundTrip.{sum_stage}
use xsr.Profile.Router.Exchange.{aggregate_response-serve_profile_read, over_cpus, served_totals}
use xsr.Profile.Router.Render.{main, print_report, read}
use xsr.Profile.Command.{Format}
use xsr.Profile.Command.{Format, human, json, csv}
use xsr.Profile.Double.{true_div, Double, nought, to_double}
use xsr.Profile.Double.Quotient.{true_div-IsNearest}
use xsr.Profile.Router.Report.{Report, mean_of, report_of, report_stages}
use xsr.Profile.Router.{Metrics, Totals}

-- Counters of 64 bits each.
abbrev pub Counters64 : (ℕ → Metrics) → Type 0
Counters64 values = (i : ℕ) → ((values i).count < 2 ^ 64) × ((values i).total_ns < 2 ^ 64)

-- A total and a count that a double can hold.
abbrev Small : Metrics → Type 0
Small m = (m.count < 2 ^ 1021) × (m.total_ns < 2 ^ 1023)

pub quotient_found :
    (n d : ℕ) → 0 < d → n < 2 ^ 1023 → d < 2 ^ 1021 → (x : Double) × (true_div n d ≡ some x)
unfolding true_div to_double
quotient_found n d p h k = elim (Bool-cases (n == 0)) [
  | inl e ↦ rw ((==_iff n 0).0 e) (nought, refl)
  | inr e ↦ (to_double n d, (true_div-IsNearest n d (ground (arith, e)) p h k).0)
]

mean_found : (m : Metrics) → Small m → Returns (mean_of m)
unfolding mean_of
mean_found m s = elim (Bool-cases (m.count == 0)) [
  | inl e ↦ (nought, rw e refl)
  | inr e ↦
      (let q = quotient_found m.total_ns m.count (ground (arith, e)) s.1 s.0 in
        (q.0, rw e (rw q.1 refl)))
]

reports_found : (totals : Totals) → All (λ t. Small t.1) totals → Returns (report_stages totals)
unfolding report_stages
reports_found [] h = ([], refl)
reports_found ((stage, m) ∷ totals) h =
    Returns-bind _ _ (mean_found m h.0)
      λ mean. Returns-bind _ _ (reports_found totals h.1) λ rest. (_, refl)

pub report_found :
    (sum_doubles : List Double → Double) (n : ℕ) (totals : Totals)
    → All (λ t. Small t.1) totals
    → Returns (report_of sum_doubles n totals)
unfolding report_of
report_found sum_doubles n totals h = Returns-bind _ _ (reports_found totals h) λ reports. (_, refl)

sum_bound :
    (cpu_count : ℕ) (values : ℕ → Metrics) (stage remaining cpu : ℕ)
    → Counters64 values
    → ((sum_stage cpu_count values stage remaining cpu).count ≤ remaining * 2 ^ 64)
      × ((sum_stage cpu_count values stage remaining cpu).total_ns ≤ remaining * 2 ^ 64)
sum_bound cpu_count values stage zero cpu h = (omega arith, omega arith)
sum_bound cpu_count values stage (suc remaining) cpu h =
    let rest = sum_bound cpu_count values stage remaining (cpu + 1) h in
    let here = h (stage * cpu_count + cpu) in
    (omega (arith, rest.0, here.0), omega (arith, rest.1, here.1))

printed :
    (sum_doubles : List Double → Double) (to_json : Report → Text) (exchange : Text → Option Text)
    (f : Format) (r : Report)
    → (print_report sum_doubles to_json exchange f (ok r)).status ≡ 0
printed sum_doubles to_json exchange human r = refl
printed sum_doubles to_json exchange json r = refl
printed sum_doubles to_json exchange csv r = refl

module _ (n : ℕ) (values : ℕ → Metrics) (h : Counters64 values) (few : n < 2 ^ 31) where
  over_cpus-Small : (stage : ℕ) → Small (over_cpus n values stage)
  over_cpus-Small stage =
      let b = sum_bound (suc n) values stage (suc n) 0 h in
      (omega (arith, b.0, few), omega (arith, b.1, few))

  -- On the 64-bit counters of up to 2 ^ 31 CPUs the command `read` ends with status 0, in every format,
  -- when the stages have counted the same number of events.
  pub main-succeeds :
      (sum_doubles : List Double → Double) (to_json : Report → Text) (f : Format)
      → (over_cpus n values 0).count ≡ (over_cpus n values 2).count
      → (over_cpus n values 1).count ≡ (over_cpus n values 2).count
      → (main sum_doubles to_json
          (λ command. some (serve_profile_read (pos (suc n)) true (some values)))
          (record { action = read; format = f })).status
        ≡ 0
  unfolding main
  main-succeeds sum_doubles to_json f same_0 same_1 =
      let r =
        report_found sum_doubles (suc n) (served_totals n values)
          (over_cpus-Small 0, (over_cpus-Small 1, (over_cpus-Small 2, tt))) in
      rw (aggregate_response-serve_profile_read n values sum_doubles same_0 same_1) (
        rw r.1 (
          printed sum_doubles to_json
            (λ command. some (serve_profile_read (pos (suc n)) true (some values))) f r.0))
