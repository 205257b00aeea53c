-- ===== src/Profile/Router/Sums.antt =====
-- `aggregate_response` of scripts/sk_profile_components.py against its sums over the CPU rows.
use xsr.Prelude.{
  ==_iff, All, All-weaken, List, Text, [], all-All, ap, arith, codes, false, find_key, length, ok,
  ok_injective, refl, subst, sym, text_eq, true, ||-eq-false, ℕ, ◌==◌, ◌∙◌, ◌∷◌, ◌≡◌, ◌≢◌,
}
use xsr.Profile.Router.Accept.{read_totals-Accept}
use xsr.Profile.Router.{
  add_lines, Totals, Metrics, no_metrics, stages, has_cpu, ProfileError, metrics_at, read_totals,
  same_counts, no_totals,
}
use xsr.Profile.Router.Tally.{CpuRow, row-Taken, plus, totals_of, measured, behind_row}

-- The rows of the lines, one for each.
abbrev pub Rows : ℕ → List Text → Type 0
Rows cpu_count [] = Unit
Rows cpu_count (line ∷ lines) = CpuRow cpu_count line × Rows cpu_count lines

module _ (cpu_count : ℕ) where
  -- What the rows measure of a stage, added up.
  abbrev pub sum_of : (lines : List Text) → Rows cpu_count lines → Text → Metrics
  sum_of [] rows stage = no_metrics
  sum_of (line ∷ lines) rows stage = plus (measured rows.0.fields stage) (sum_of lines rows.1 stage)

  abbrev pub cpus_of : (lines : List Text) → Rows cpu_count lines → List ℕ
  cpus_of [] rows = []
  cpus_of (line ∷ lines) rows = rows.0.cpu ∷ cpus_of lines rows.1

-- No number stands twice.
abbrev pub Distinct : List ℕ → Type 0
Distinct [] = Unit
Distinct (c ∷ cs) = All (λ d. c ≢ d) cs × Distinct cs

-- The totals are the sums of what the rows measure; the CPUs of the rows are distinct.
pub record IsTally (cpu_count : ℕ) (lines : List Text) (totals : Totals) : Type 0 where
  pub rows : Rows cpu_count lines
  pub distinct : Distinct (cpus_of cpu_count lines rows)
  pub sums : totals ≡ totals_of stages (sum_of cpu_count lines rows)

record TallyBehind (cpu_count : ℕ) (seen : List ℕ) (f : Text → Metrics) (lines : List Text)
    (totals : Totals) : Type 0 where
  rows : Rows cpu_count lines
  distinct : Distinct (cpus_of cpu_count lines rows)
  unseen : All (λ c. has_cpu seen c ≡ false) (cpus_of cpu_count lines rows)
  sums : totals ≡ totals_of stages (λ stage. plus (f stage) (sum_of cpu_count lines rows stage))

pub metrics_path :
    {a b c d : ℕ}
    → a ≡ b
    → c ≡ d
    → ◌≡◌ {A = Metrics} (record { count = a; total_ns = c }) (record { count = b; total_ns = d })
metrics_path p q = λ i. record { count = p i; total_ns = q i }

pub plus_nothing : (a : Metrics) → a ≡ plus a no_metrics
plus_nothing a = metrics_path (omega arith) (omega arith)

pub nothing_plus : (a : Metrics) → plus no_metrics a ≡ a
nothing_plus a = metrics_path (omega arith) (omega arith)

pub plus_assoc : (a b c : Metrics) → plus (plus a b) c ≡ plus a (plus b c)
plus_assoc a b c = metrics_path (omega arith) (omega arith)

pub same_totals :
    {f g : Text → Metrics}
    → ((stage : Text) → f stage ≡ g stage)
    → totals_of stages f ≡ totals_of stages g
same_totals h = ap (totals_of stages) (λ i stage. h stage i)

unequal : (a b : ℕ) → (a == b) ≡ false → a ≢ b
unequal a b h = ground (arith, ==_iff a b)

tally_behind :
    (cpu_count : ℕ) (seen : List ℕ) (f : Text → Metrics) (lines : List Text) {totals : Totals}
    → add_lines cpu_count seen (totals_of stages f) lines ≡ ok totals
    → TallyBehind cpu_count seen f lines totals
unfolding add_lines
tally_behind cpu_count seen f [] h = record {
  rows = tt;
  distinct = tt;
  unseen = tt;
  sums = sym (ok_injective ProfileError _ _ h) ∙ same_totals (λ stage. plus_nothing (f stage));
}
tally_behind cpu_count seen f (line ∷ lines) h =
    let t = row-Taken cpu_count seen f line lines h in
    let rest =
      tally_behind cpu_count (t.row.cpu ∷ seen) (behind_row f t.row.fields) lines t.later in
    record {
      rows = (t.row, rest.rows);
      distinct = (
        All-weaken (λ c. t.row.cpu ≢ c) (λ c h. unequal _ _ (||-eq-false _ _ h).0) _ rest.unseen,
        rest.distinct,
      );
      unseen = (
        t.unseen,
        All-weaken (λ c. has_cpu seen c ≡ false) (λ c h. (||-eq-false _ _ h).1) _ rest.unseen,
      );
      sums =
          rest.sums
          ∙ same_totals (λ stage.
            plus_assoc (f stage) (measured t.row.fields stage)
              (sum_of cpu_count lines rest.rows stage));
    }

same_counts-All :
    (stage : Text) (m : Metrics) (totals : Totals)
    → same_counts ((stage, m) ∷ totals) ≡ true
    → All (λ t. t.1.count ≡ m.count) totals
unfolding same_counts
same_counts-All stage m totals h =
    All-weaken _ (λ t e. (==_iff _ _).0 e) totals (all-All (λ t. t.1.count == m.count) totals h)

add_lines-IsTally :
    (cpu_count : ℕ) (lines : List Text) (totals : Totals)
    → add_lines cpu_count [] no_totals lines ≡ ok totals
    → IsTally cpu_count lines totals
add_lines-IsTally cpu_count lines totals h =
    let t = tally_behind cpu_count [] (λ stage. no_metrics) lines h in
    record {
      rows = t.rows;
      distinct = t.distinct;
      sums = t.sums ∙ same_totals (λ stage. nothing_plus (sum_of cpu_count lines t.rows stage));
    }

-- All stages have as many events as the last one.
abbrev pub SameCounts : Totals → Type 0
SameCounts totals = All (λ t. t.1.count ≡ (metrics_at totals (codes "redirect")).count) totals

totals_of-SameCounts :
    (f : Text → Metrics) → same_counts (totals_of stages f) ≡ true → SameCounts (totals_of stages f)
unfolding find_key text_eq
totals_of-SameCounts f h =
    let same = same_counts-All _ _ _ h in
    (omega (arith, same.1.0), (omega (arith, same.0, same.1.0), (refl, tt)))

-- What an accepted answer says.
abbrev pub Accepted : List Text → ℕ × Totals → Type 0
Accepted lines (cpu_count, totals) =
    (length lines ≡ cpu_count) × IsTally cpu_count lines totals × SameCounts totals

IsTally-SameCounts :
    (cpu_count : ℕ) (lines : List Text) (totals : Totals)
    → IsTally cpu_count lines totals
    → same_counts totals ≡ true
    → SameCounts totals
IsTally-SameCounts cpu_count lines totals t h = subst SameCounts (sym t.sums) (
    totals_of-SameCounts (sum_of cpu_count lines t.rows)
      (subst (λ x. same_counts x ≡ true) t.sums h))

-- An answer that is accepted has one row for each CPU, of the CPUs below `cpu_count`, all distinct; the
-- totals are the sums of what the rows measure; and all stages have counted the same number of events.
pub read_totals-IsTally :
    (first : Text) (lines : List Text) (cpu_count : ℕ) (totals : Totals)
    → read_totals (first ∷ lines) ≡ ok (cpu_count, totals)
    → Accepted lines (cpu_count, totals)
read_totals-IsTally first lines cpu_count totals h =
    let a = read_totals-Accept first lines cpu_count totals h in
    let t = add_lines-IsTally cpu_count lines totals a.found in
    ((==_iff _ _).0 a.rows, t, IsTally-SameCounts cpu_count lines totals t a.counted)
