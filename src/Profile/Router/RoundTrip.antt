-- ===== src/Profile/Router/RoundTrip.antt =====
-- scripts/sk_profile_components.py reads what the router writes on its profile socket.
use xsr.Prelude.{
  All, All-weaken, List, Text, [], arith, codes, false, find_key, if◌then◌else◌, leb, ok, refl, suc,
  text_eq, zero, ℕ, ◌+◌, ◌<◌, ◌∙◌, ◌∷◌, ◌≡◌, ◌≤◌,
}
use xsr.Profile.Router.Sums.{plus_assoc, plus_nothing}
use xsr.Profile.Router.Tally.{CpuRow, plus, take_row}
use xsr.Policy.Values.{is_space}
use xsr.Profile.Router.Answer.{join_fields, cpu_fields, cpu_lines, stage_fields, value_at}
use xsr.Profile.Router.Written.{Key-test, Key, table_of, parse_fields-join_fields}
use xsr.Profile.Router.{Metrics, put_field, Totals, add_lines, has_cpu, no_metrics}

pub row_keys : (cpu : ℕ) (value : ℕ → Metrics) → All Key (cpu_fields cpu value)
unfolding is_space
row_keys cpu value = Key-test (cpu_fields cpu value) refl

leb_of_lt : (a b : ℕ) → a < b → leb b a ≡ false
leb_of_lt a b h = ground arith

cpu_row :
    (cpu_count cpu : ℕ) (value : ℕ → Metrics)
    → cpu < cpu_count
    → CpuRow cpu_count (join_fields (cpu_fields cpu value))
unfolding table_of put_field find_key text_eq
cpu_row cpu_count cpu value h = record {
  fields = table_of [] (cpu_fields cpu value);
  cpu = cpu;
  parsed = parse_fields-join_fields (codes "cpu", cpu) (stage_fields value) (row_keys cpu value);
  cpu_field = refl;
  below = leb_of_lt cpu cpu_count h;
  complete = (((_, refl), (_, refl)), (((_, refl), (_, refl)), (((_, refl), (_, refl)), tt)));
}

-- Totals of the three stages.
abbrev pub three_totals : Metrics → Metrics → Metrics → Totals
three_totals a b c = (codes "parse_signal", a) ∷ (codes "decision", b) ∷ (codes "redirect", c) ∷ []

abbrev by_stage : Metrics → Metrics → Metrics → Text → Metrics
by_stage a b c stage =
    if text_eq stage (codes "parse_signal")
    then a
    else if text_eq stage (codes "decision")
    then b
    else c

module _ (cpu_count : ℕ) (values : ℕ → Metrics) where
  -- A stage's values from a CPU on, added up.
  abbrev pub sum_stage : ℕ → ℕ → ℕ → Metrics
  sum_stage stage zero cpu = no_metrics
  sum_stage stage (suc remaining) cpu =
      plus (value_at cpu_count values cpu stage) (sum_stage stage remaining (cpu + 1))

  Below-unseen : (cpu : ℕ) (seen : List ℕ) → All (λ c. c < cpu) seen → has_cpu seen cpu ≡ false
  Below-unseen cpu [] h = refl
  Below-unseen cpu (c ∷ seen) h = let rest = Below-unseen cpu seen h.1 in ground (arith, h.0)

  pub add_cpu_lines :
      (remaining cpu : ℕ) (seen : List ℕ) (a b c : Metrics)
      → cpu + remaining ≤ cpu_count
      → All (λ s. s < cpu) seen
      → add_lines cpu_count seen (three_totals a b c) (cpu_lines cpu_count values remaining cpu)
        ≡ ok (
            three_totals
              (plus a (sum_stage 0 remaining cpu))
              (plus b (sum_stage 1 remaining cpu))
              (plus c (sum_stage 2 remaining cpu)))
  unfolding cpu_lines text_eq cpu_row table_of put_field find_key add_lines
  add_cpu_lines zero cpu seen a b c fits below =
      λ i. ok (three_totals (plus_nothing a i) (plus_nothing b i) (plus_nothing c i))
  add_cpu_lines (suc remaining) cpu seen a b c fits below =
      let value = value_at cpu_count values cpu in
      take_row cpu_count seen (by_stage a b c)
        (join_fields (cpu_fields cpu (value_at cpu_count values cpu)))
        (cpu_lines cpu_count values remaining (cpu + 1))
        (record {
          row = cpu_row cpu_count cpu (value_at cpu_count values cpu) (omega (arith, fits));
          unseen = Below-unseen cpu seen below;
          later =
              add_cpu_lines remaining (cpu + 1) (cpu ∷ seen) (plus a (value 0)) (plus b (value 1))
                (plus c (value 2)) (omega (arith, fits))
                (omega arith, All-weaken _ (λ s h. omega (arith, h)) seen below)
              ∙ (λ i. ok (
                  three_totals (plus_assoc a (value 0) (sum_stage 0 remaining (cpu + 1)) i)
                    (plus_assoc b (value 1) (sum_stage 1 remaining (cpu + 1)) i)
                    (plus_assoc c (value 2) (sum_stage 2 remaining (cpu + 1)) i)));
        })
