-- ===== src/Profile/Vsr/Window.antt =====
-- The counters between two snapshots, for `summarize_snapshots` of scripts/vsr_profile_components.py.
use xsr.Prelude.{
  &&-eq-true, ==_iff, All, All-weaken, List, Option, Text, [], all, ap₂, arith, bind-eq-ok, codes,
  drop, false, find_key, ltb, none, not-eq-false, ok, ok_injective, refl, refuse-eq-ok, subst, sym,
  text_eq, true, ||-eq-false, ℕ, ◌-◌, ◌<◌, ◌==◌, ◌>>=◌, ◌∙◌, ◌∷◌, ◌≡◌, ◌≤◌,
}
use xsr.Profile.Vsr.Decimal.{SnapshotError}
use xsr.Profile.Vsr.Summary.{difference, differences, completed_of, window_of}
use xsr.Profile.Vsr.Snapshot.{vsr_stages, parse_snapshot}
use xsr.Profile.Router.{Metrics, Totals, metrics_at, same_counts}
use xsr.Profile.Router.Tally.{totals_of}

-- No counter of a stage goes back.
abbrev pub Grows : Totals → Totals → Text → Type 0
Grows before after stage =
    ((metrics_at before stage).count ≤ (metrics_at after stage).count)
    × ((metrics_at before stage).total_ns ≤ (metrics_at after stage).total_ns)

abbrev pub between : Totals → Totals → Text → Metrics
between before after stage = record {
  count = (metrics_at after stage).count - (metrics_at before stage).count;
  total_ns = (metrics_at after stage).total_ns - (metrics_at before stage).total_ns;
}

not_less : (a b : ℕ) → ltb a b ≡ false → b ≤ a
not_less a b h = ground (arith, h)

not_greater : (a b : ℕ) → b ≤ a → ltb a b ≡ false
not_greater a b h = ground (arith, h)

pub differences-Grows :
    (before after : Totals) (names : List Text)
    → All (Grows before after) names
    → differences before after names ≡ ok (totals_of names (between before after))
unfolding differences difference ◌>>=◌
differences-Grows before after [] h = refl
differences-Grows before after (stage ∷ names) h =
    rw (not_greater _ _ h.0.0)
      (rw (not_greater _ _ h.0.1) (rw (differences-Grows before after names h.1) refl))

pub Grows-differences :
    (before after : Totals) (names : List Text) (window : Totals)
    → differences before after names ≡ ok window
    → All (Grows before after) names
unfolding differences difference
Grows-differences before after [] window h = tt
Grows-differences before after (stage ∷ names) window h =
    let here = bind-eq-ok _ _ h in
    let checked = bind-eq-ok _ _ here.1 in
    let fits = ||-eq-false _ _ (refuse-eq-ok _ _ checked.1) in
    let rest = bind-eq-ok _ _ here.2 in
    ((not_less _ _ fits.0, not_less _ _ fits.1), Grows-differences before after names rest.0 rest.1)

pub totals_path :
    (names : List Text) (f g : Text → Metrics)
    → All (λ stage. f stage ≡ g stage) names
    → totals_of names f ≡ totals_of names g
totals_path [] f g h = refl
totals_path (stage ∷ names) f g h =
    ap₂ (λ m totals. (stage, m) ∷ totals) h.0 (totals_path names f g h.1)

all-same :
    (names : List Text) (f : Text → Metrics) (n : ℕ)
    → All (λ stage. (f stage).count ≡ n) names
    → all (λ t. t.1.count == n) (totals_of names f) ≡ true
all-same [] f n h = refl
all-same (stage ∷ names) f n h = rw ((==_iff _ n).1 h.0) (all-same names f n h.1)

same-all :
    (names : List Text) (f : Text → Metrics) (n : ℕ)
    → all (λ t. t.1.count == n) (totals_of names f) ≡ true
    → All (λ stage. (f stage).count ≡ n) names
same-all [] f n h = tt
same-all (stage ∷ names) f n h =
    let both = &&-eq-true _ _ h in ((==_iff _ n).0 both.0, same-all names f n both.1)

not_nothing : (n : ℕ) → (n == 0) ≡ false → 0 < n
not_nothing n h = ground (arith, h)

nothing : (n : ℕ) → 0 < n → (n == 0) ≡ false
nothing n h = ground (arith, h)

-- The counts of a window that is accepted.
pub completed_of-inversion :
    (expected : Option ℕ) (f : Text → Metrics) (n : ℕ)
    → completed_of expected (totals_of vsr_stages f) ≡ ok n
    → All (λ stage. (f stage).count ≡ n) vsr_stages × (0 < n)
unfolding completed_of same_counts find_key text_eq
completed_of-inversion expected f n h =
    let first = f (codes "request_fast_extract") in
    let same = bind-eq-ok _ _ h in
    let positive = bind-eq-ok _ _ same.2 in
    let expected_count = bind-eq-ok _ _ positive.2 in
    let counts =
      same-all (drop 1 vsr_stages) f first.count (not-eq-false _ (refuse-eq-ok _ _ same.1)) in
    let count =
      ok_injective SnapshotError (f (codes "request_body_total")).count n expected_count.2 in
    let first_count : first.count ≡ n = sym counts.1.1.1.1.1.0 ∙ count in
    (
      (
        first_count,
        All-weaken (λ stage. (f stage).count ≡ n) (λ stage e. e ∙ first_count) (drop 1 vsr_stages)
            counts,
      ),
      subst (λ k. 0 < k) count (not_nothing _ (refuse-eq-ok _ _ positive.1)),
    )

pub completed_of-same :
    (f : Text → Metrics) (n : ℕ)
    → All (λ stage. (f stage).count ≡ n) vsr_stages
    → 0 < n
    → completed_of none (totals_of vsr_stages f) ≡ ok n
unfolding completed_of same_counts find_key text_eq ◌>>=◌
completed_of-same f n h p =
    let first = f (codes "request_fast_extract") in
    let last = h.1.1.1.1.1.1.0 in
    let others =
      All-weaken (λ stage. (f stage).count ≡ first.count) (λ stage e. e ∙ sym h.0)
        (drop 1 vsr_stages) h.1 in
    let same = all-same (drop 1 vsr_stages) f first.count others in
    rw same (rw last (rw (nothing n p) refl))

-- What two snapshots tell, where they are accepted.
pub record Window (before_raw after_raw : Text) (n : ℕ) (window : Totals) : Type 0 where
  pub before : Totals
  pub after : Totals
  pub before_read : parse_snapshot before_raw ≡ ok before
  pub after_read : parse_snapshot after_raw ≡ ok after
  pub grows : All (Grows before after) vsr_stages
  pub metrics : window ≡ totals_of vsr_stages (between before after)
  pub counted : All (λ stage. (between before after stage).count ≡ n) vsr_stages
  pub positive : 0 < n

pub window_of-inversion :
    (before_raw after_raw : Text) (expected : Option ℕ) (n : ℕ) (window : Totals)
    → window_of before_raw after_raw expected ≡ ok (n, window)
    → Window before_raw after_raw n window
unfolding window_of
window_of-inversion before_raw after_raw expected n window h =
    let before = bind-eq-ok _ _ h in
    let after = bind-eq-ok _ _ before.2 in
    let found = bind-eq-ok _ _ after.2 in
    let completed = bind-eq-ok _ _ found.2 in
    let grows = Grows-differences before.0 after.0 vsr_stages found.0 found.1 in
    let same =
      ok_injective SnapshotError _ _
        (sym found.1 ∙ differences-Grows before.0 after.0 vsr_stages grows) in
    let counts =
      completed_of-inversion expected (between before.0 after.0) completed.0
        (subst (λ w. completed_of expected w ≡ ok completed.0) same completed.1) in
    subst (λ (r : ℕ × Totals). Window before_raw after_raw r.0 r.1)
      (ok_injective SnapshotError (completed.0, found.0) (n, window) completed.2)
      (record {
        before = before.0;
        after = after.0;
        before_read = before.1;
        after_read = after.1;
        grows = grows;
        metrics = same;
        counted = counts.0;
        positive = counts.1;
      })
