-- ===== src/Profile/Vsr/Joined.antt =====
-- Two windows one after the other, for `summarize_snapshots` of scripts/vsr_profile_components.py.
use xsr.Prelude.{
  All, All-weaken, List, Option, Text, [], ap, ap₂, arith, find_key, none, ok, ok_injective, refl,
  subst, sym, text_eq, ℕ, ◌+◌, ◌<◌, ◌>>=◌, ◌∙◌, ◌∷◌, ◌≡◌,
}
use xsr.Profile.Vsr.Decimal.{SnapshotError}
use xsr.Profile.Router.Sums.{metrics_path}
use xsr.Profile.Vsr.Summary.{window_of}
use xsr.Profile.Vsr.Snapshot.{parse_snapshot, vsr_stages}
use xsr.Profile.Router.{Totals, Metrics, metrics_at}
use xsr.Profile.Router.Tally.{totals_of, plus}
use xsr.Profile.Vsr.Window.{
  Grows, between, differences-Grows, completed_of-same, totals_path, window_of-inversion,
}

-- The sums of two windows.
abbrev pub joined_windows : Totals → Totals → Totals
joined_windows first second =
    totals_of vsr_stages (λ stage. plus (metrics_at first stage) (metrics_at second stage))

window_of-accepted :
    (before_raw after_raw : Text) (before after : Totals) (n : ℕ)
    → parse_snapshot before_raw ≡ ok before
    → parse_snapshot after_raw ≡ ok after
    → All (Grows before after) vsr_stages
    → All (λ stage. (between before after stage).count ≡ n) vsr_stages
    → 0 < n
    → window_of before_raw after_raw none ≡ ok (n, totals_of vsr_stages (between before after))
unfolding window_of ◌>>=◌
window_of-accepted before_raw after_raw before after n b a g c p = rw b (
    rw a (
      rw (differences-Grows before after vsr_stages g)
        (rw (completed_of-same (between before after) n c p) refl)))

module _ (a b c : Totals) where
  Grows-trans : (stage : Text) → Grows a b stage → Grows b c stage → Grows a c stage
  Grows-trans stage g h = (omega (arith, g.0, h.0), omega (arith, g.1, h.1))

  between_joined :
      (stage : Text)
      → Grows a b stage
      → Grows b c stage
      → between a c stage ≡ plus (between a b stage) (between b c stage)
  between_joined stage g h = metrics_path (omega (arith, g.0, h.0)) (omega (arith, g.1, h.1))

  counts_joined :
      (n m : ℕ) (stage : Text)
      → Grows a b stage
      → Grows b c stage
      → (between a b stage).count ≡ n
      → (between b c stage).count ≡ m
      → (between a c stage).count ≡ n + m
  counts_joined n m stage g h e d = omega (arith, g.0, h.0, e, d)

All-zip : (P Q : Text → Type 0) (xs : List Text) → All P xs → All Q xs → All (λ x. P x × Q x) xs
All-zip P Q [] p q = tt
All-zip P Q (x ∷ xs) p q = ((p.0, q.0), All-zip P Q xs p.1 q.1)

-- The metrics of a stage, looked up in a table of all stages.
metrics_at-totals_of :
    (f : Text → Metrics)
    → All (λ stage. metrics_at (totals_of vsr_stages f) stage ≡ f stage) vsr_stages
unfolding find_key text_eq
metrics_at-totals_of f = (refl, (refl, (refl, (refl, (refl, (refl, (refl, tt)))))))

found_at :
    (w : Totals) (f : Text → Metrics)
    → w ≡ totals_of vsr_stages f
    → All (λ stage. metrics_at w stage ≡ f stage) vsr_stages
found_at w f h =
    subst (λ t. All (λ stage. metrics_at t stage ≡ f stage) vsr_stages) (sym h)
      (metrics_at-totals_of f)

-- What a window between `b` and `c` says of a stage.
record AtStage (b c w : Totals) (n : ℕ) (stage : Text) : Type 0 where
  grown : Grows b c stage
  count : (between b c stage).count ≡ n
  found : metrics_at w stage ≡ between b c stage

at_stages :
    (b c w : Totals) (n : ℕ)
    → All (Grows b c) vsr_stages
    → All (λ stage. (between b c stage).count ≡ n) vsr_stages
    → w ≡ totals_of vsr_stages (between b c)
    → All (AtStage b c w n) vsr_stages
at_stages b c w n g e h =
    let Counted : Text → Type 0 = λ stage. (between b c stage).count ≡ n in
    let AsFound : Text → Type 0 = λ stage. metrics_at w stage ≡ between b c stage in
    All-weaken (AtStage b c w n)
      (λ stage (t : Grows b c stage × (Counted stage × AsFound stage)). record {
        grown = t.0;
        count = t.1.0;
        found = t.1.1;
      })
      vsr_stages
      (All-zip (Grows b c) (λ stage. Counted stage × AsFound stage) vsr_stages g
        (All-zip Counted AsFound vsr_stages e (found_at w (between b c) h)))

-- What the window from `a` to `c` says of a stage.
abbrev StageJoined : Totals → Totals → Totals → Totals → ℕ → Text → Type 0
StageJoined a c w v n stage =
    Grows a c stage
    × ((between a c stage).count ≡ n)
    × (between a c stage ≡ plus (metrics_at w stage) (metrics_at v stage))

stage_joined :
    (a b c w v : Totals) (n m : ℕ) (stage : Text)
    → AtStage a b w n stage × AtStage b c v m stage
    → StageJoined a c w v (n + m) stage
stage_joined a b c w v n m stage (f, s) = (
  Grows-trans a b c stage f.grown s.grown,
  counts_joined a b c n m stage f.grown s.grown f.count s.count,
  between_joined a b c stage f.grown s.grown ∙ ap₂ plus (sym f.found) (sym s.found),
)

window_joined :
    (x z : Text) (a b c w v : Totals) (n m : ℕ)
    → parse_snapshot x ≡ ok a
    → parse_snapshot z ≡ ok c
    → 0 < n
    → All (AtStage a b w n) vsr_stages
    → All (AtStage b c v m) vsr_stages
    → window_of x z none ≡ ok (n + m, joined_windows w v)
window_joined x z a b c w v n m p q positive f s =
    let all_joined =
      All-weaken (StageJoined a c w v (n + m)) (stage_joined a b c w v n m) vsr_stages
        (All-zip (AtStage a b w n) (AtStage b c v m) vsr_stages f s) in
    window_of-accepted x z a c (n + m) p q
      (All-weaken (Grows a c) (λ stage (t : StageJoined a c w v (n + m) stage). t.0) vsr_stages
        all_joined)
      (All-weaken (λ stage. (between a c stage).count ≡ n + m)
        (λ stage (t : StageJoined a c w v (n + m) stage). t.1) vsr_stages all_joined)
      (omega (arith, positive))
    ∙ ap (λ t. ok (n + m, t))
        (totals_path vsr_stages (between a c)
          (λ stage. plus (metrics_at w stage) (metrics_at v stage))
          (All-weaken _ (λ stage (t : StageJoined a c w v (n + m) stage). t.2) vsr_stages
            all_joined))

-- When the windows from x to y and from y to z are accepted, whatever count was expected, so is that
-- from x to z without an expected count, with the sums of their requests, counts and times.
pub window_of-joined :
    (x y z : Text) (e d : Option ℕ) (n m : ℕ) (w v : Totals)
    → window_of x y e ≡ ok (n, w)
    → window_of y z d ≡ ok (m, v)
    → window_of x z none ≡ ok (n + m, joined_windows w v)
window_of-joined x y z e d n m w v h k =
    let first = window_of-inversion x y e n w h in
    let second = window_of-inversion y z d m v k in
    let same =
      ok_injective SnapshotError second.before first.after
        (sym second.before_read ∙ first.after_read) in
    let from_y =
      at_stages second.before second.after v m second.grows second.counted second.metrics in
    window_joined x z first.before first.after second.after w v n m first.before_read
      second.after_read first.positive
      (at_stages first.before first.after w n first.grows first.counted first.metrics)
      (subst (λ b. All (AtStage b second.after v m) vsr_stages) same from_y)
