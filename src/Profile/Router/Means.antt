-- ===== src/Profile/Router/Means.antt =====
-- The means in the report of `aggregate_response` of scripts/sk_profile_components.py.
use xsr.Prelude.{
  ==_iff, All, Bool-cases, List, Option, Text, [], ap, arith, bind-eq-ok, inl, inr, none, ok,
  ok_injective, refl, some, subst, sym, ℕ, ◌<◌, ◌==◌, ◌^◌, ◌∙◌, ◌∷◌, ◌≡◌, ◌⊎◌,
}
use xsr.Profile.Router.Report.{StageReport, mean_of, report_stages}
use xsr.Profile.Router.Tally.{or_error-eq-ok}
use xsr.Profile.Double.{Double, true_div, to_double, nought}
use xsr.Profile.Double.Nearest.{IsNearest}
use xsr.Profile.Double.Quotient.{true_div-IsNearest}
use xsr.Profile.Router.{too_large, Metrics, Totals, ProfileError}

-- 0.0 without events, and else the quotient but for a relative error of at most 2 ^ -53.
abbrev pub IsMean : Metrics → Double → Type 0
IsMean m x = ((m.count ≡ 0) × (x ≡ nought)) ⊎ ((0 < m.count) × IsNearest m.total_ns m.count x)

-- A stage's report tells its metrics and its mean.
abbrev pub Reported : Text × Metrics → Text × StageReport → Type 0
Reported (stage, m) (name, r) = (stage ≡ name) × (m ≡ r.metrics) × IsMean m r.mean_ns

-- The reports of the stages, one for each.
abbrev pub AllReported : Totals → List (Text × StageReport) → Type 0
AllReported [] [] = Unit
AllReported (t ∷ totals) (r ∷ reports) = Reported t r × AllReported totals reports
AllReported _ _ = ⊥

abbrev double_or : Double → Option Double → Double
double_or x none = x
double_or x (some y) = y

double_same : (x y : Double) → ◌≡◌ {A = Option Double} (some x) (some y) → x ≡ y
double_same x y h = ap (λ o. double_or x o) h

IsNearest-zero : (d : ℕ) → IsNearest 0 d nought
IsNearest-zero d = (omega arith, omega arith)

quotient-IsNearest :
    (n d : ℕ) (x : Double)
    → 0 < d
    → n < 2 ^ 1023
    → d < 2 ^ 1021
    → true_div n d ≡ some x
    → IsNearest n d x
unfolding true_div to_double
quotient-IsNearest n d x p h k e = elim (Bool-cases (n == 0)) [
  | inl z ↦
      (let no_time = (==_iff n 0).0 z in
        let none_of : some nought ≡ some x = subst (λ k. true_div k d ≡ some x) no_time e in
        rw no_time (subst (IsNearest 0 d) (double_same nought x none_of) (IsNearest-zero d)))
  | inr z ↦
      (let q = true_div-IsNearest n d (ground (arith, z)) p h k in
        subst (IsNearest n d) (double_same _ x (sym q.0 ∙ e)) q.1)
]

mean_of-IsMean :
    (m : Metrics) (x : Double)
    → m.count < 2 ^ 1021
    → m.total_ns < 2 ^ 1023
    → mean_of m ≡ ok x
    → IsMean m x
unfolding mean_of
mean_of-IsMean m x h k e = elim (Bool-cases (m.count == 0)) [
  | inl z ↦ inl ((==_iff m.count 0).0 z, sym (ok_injective ProfileError nought x (rw z at e)))
  | inr z ↦
      (let positive : 0 < m.count = ground (arith, z) in
        let found = or_error-eq-ok (true_div m.total_ns m.count) too_large (rw z at e) in
        inr (positive, quotient-IsNearest m.total_ns m.count x positive k h found))
]

-- The report has a line for each stage, with its metrics and its mean: 0.0 without events, and else the
-- quotient of total and count but for a relative error of at most 2 ^ -53, for counts below 2 ^ 1021 and
-- totals below 2 ^ 1023.
pub report_stages-AllReported :
    (totals : Totals) (reports : List (Text × StageReport))
    → All (λ t. (t.1.count < 2 ^ 1021) × (t.1.total_ns < 2 ^ 1023)) totals
    → report_stages totals ≡ ok reports
    → AllReported totals reports
unfolding report_stages
report_stages-AllReported [] reports h e =
    subst (AllReported []) (ok_injective ProfileError [] reports e) tt
report_stages-AllReported ((stage, m) ∷ totals) reports h e =
    let mean = bind-eq-ok _ _ e in
    let rest = bind-eq-ok _ _ mean.2 in
    subst (AllReported ((stage, m) ∷ totals)) (ok_injective ProfileError _ reports rest.2) (
      (refl, refl, mean_of-IsMean m mean.0 h.0.0 h.0.1 mean.1),
      report_stages-AllReported totals rest.0 h.1 rest.1,
    )
