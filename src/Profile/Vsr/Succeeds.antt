-- ===== src/Profile/Vsr/Succeeds.antt =====
-- `summarize` of scripts/vsr_profile_components.py ends well on a window that is accepted.
use xsr.Prelude.{
  All, Bool, Bool-cases, List, Option, Returns, Returns-bind, Text, [], arith, codes, find_key, inl,
  inr, ok, refl, some, text_eq, ℕ, ◌<◌, ◌==◌, ◌>>=◌, ◌^◌, ◌∷◌, ◌≡◌,
}
use xsr.Profile.Double.{Double, nought, thousandth}
use xsr.Profile.Router.{Metrics, Totals, metrics_at}
use xsr.Profile.Router.Succeeds.{quotient_found}
use xsr.Profile.Vsr.Summary.{
  Summary, component_of, components_of, parsing_metrics, summarize_snapshots, window_of,
}
use xsr.Profile.Vsr.Render.{main, summarize, print_summary}
use xsr.Profile.Command.{Format, human, json, csv}

-- A count and a time that stay small enough to be divided, the time also twice.
abbrev pub Small : Metrics → Type 0
Small m = (m.count < 2 ^ 1021) × (m.total_ns < 2 ^ 1022)

component_found :
    (m : Metrics) → m.count < 2 ^ 1021 → m.total_ns < 2 ^ 1023 → Returns (component_of m)
unfolding component_of ◌>>=◌
component_found m h k = elim (Bool-cases (m.count == 0)) [
  | inl e ↦ (record { metrics = m; mean_ns = nought; mean_us = nought }, rw e refl)
  | inr e ↦
      (let q = quotient_found m.total_ns m.count (ground (arith, e)) k h in
        (record { metrics = m; mean_ns = q.0; mean_us = thousandth q.0 }, rw e (rw q.1 refl)))
]

components_found : (totals : Totals) → All (λ t. Small t.1) totals → Returns (components_of totals)
unfolding components_of
components_found [] h = ([], refl)
components_found ((stage, m) ∷ totals) h =
    Returns-bind _ _ (component_found m h.0.0 (omega (arith, h.0.1)))
      λ c. Returns-bind _ _ (components_found totals h.1) λ rest. ((stage, c) ∷ rest, refl)

metrics_at-Small :
    (totals : Totals) (stage : Text) → All (λ t. Small t.1) totals → Small (metrics_at totals stage)
unfolding find_key
metrics_at-Small [] stage h = (omega arith, omega arith)
metrics_at-Small ((s, m) ∷ totals) stage h = elim (Bool-cases (text_eq s stage)) [
  | inl e ↦ rw e h.0
  | inr e ↦ rw e (metrics_at-Small totals stage h.1)
]

parsing_found :
    (n : ℕ) (window : Totals)
    → n < 2 ^ 1021
    → All (λ t. Small t.1) window
    → Returns (component_of (parsing_metrics n window))
parsing_found n window h k =
    let fast = metrics_at-Small window (codes "request_fast_extract") k in
    let full = metrics_at-Small window (codes "request_full_parse") k in
    component_found (parsing_metrics n window) h (omega (arith, fast.1, full.1))

module _ (sum_doubles : List Double → Double) (x y : Text) (expected : Option ℕ) (n : ℕ)
    (window : Totals) where
  summary_found :
      window_of x y expected ≡ ok (n, window)
      → n < 2 ^ 1021
      → All (λ t. Small t.1) window
      → Returns (summarize_snapshots sum_doubles x y expected)
  unfolding summarize_snapshots ◌>>=◌
  summary_found w h k = rw w (
      Returns-bind _ _ (components_found window k)
        λ found_stages. Returns-bind _ _ (parsing_found n window h k) λ parsing. (_, refl))

  printed :
      (to_json : Summary → Text) (answer : Option Text) (writable : Text → Bool) (f : Format)
      (s : Summary)
      → (print_summary sum_doubles to_json answer writable f (ok s)).status ≡ 0
  printed to_json answer writable human s = refl
  printed to_json answer writable json s = refl
  printed to_json answer writable csv s = refl

  -- On two snapshots whose window is accepted, with counts below 2 ^ 1021 and times below 2 ^ 1022
  -- nanoseconds, the command `summarize` ends with status 0, in every format.
  pub main-summarize_succeeds :
      (to_json : Summary → Text) (answer : Option Text) (writable : Text → Bool) (f : Format)
      → window_of x y expected ≡ ok (n, window)
      → n < 2 ^ 1021
      → All (λ t. Small t.1) window
      → (main sum_doubles to_json answer writable (summarize (some x) (some y) expected f)).status
        ≡ 0
  unfolding main
  main-summarize_succeeds to_json answer writable f w h k =
      let s = summary_found w h k in rw s.1 (printed to_json answer writable f s.0)
