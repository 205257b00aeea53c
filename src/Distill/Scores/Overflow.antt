-- ===== src/Distill/Scores/Overflow.antt =====
-- The bound that the model file carries holds of every score.
use xsr.Prelude.{
  All, All-weaken, Bool-cases, Ensures, Ensures-bind, Ensures-ok, Ensures-refuse, List, Option,
  Text, [], any, arith, get_or, inl, inr, length, magnitude, magnitude-+ℤ, ok, pos, some, suc, true,
  zero, ℕ, ℤ, ◌*◌, ◌+◌, ◌-◌, ◌<◌, ◌==◌, ◌^◌, ◌∷◌, ◌≡◌, ◌≤◌,
}
use xsr.Distill.Features.Bounds.{feature_indices-bounds}
use xsr.Distill.Scores.{
  Matrix, add_rows, gather, integer_scores, overflow_bound, add_features, class_count,
}
use xsr.Distill.Features.{prompt_byte_limit, feature_indices}

get_or-magnitude :
    (row : List ℤ) (i bound : ℕ)
    → All (λ w. magnitude w ≤ bound) row
    → magnitude (get_or row i (pos 0)) ≤ bound
get_or-magnitude [] i bound h = omega arith
get_or-magnitude (w ∷ row) zero bound h = h.0
get_or-magnitude (w ∷ row) (suc i) bound h = get_or-magnitude row i bound h.1

gather-magnitude :
    (row : List ℤ) (bound : ℕ) (indices : List ℕ)
    → All (λ w. magnitude w ≤ bound) row
    → magnitude (gather row indices) ≤ length indices * bound
unfolding gather
gather-magnitude row bound [] h = omega arith
gather-magnitude row bound (i ∷ is) h = omega (
  arith,
  magnitude-+ℤ (get_or row i (pos 0)) (gather row is),
  get_or-magnitude row i bound h,
  gather-magnitude row bound is h,
)

-- A bias whose absolute value is an int32 too.
abbrev pub HasAbs : ℤ → Type 0
HasAbs b = magnitude b ≤ 2 ^ 31 - 1

-- The largest absolute value of an array of int32 that is not empty, where all of them are int32 too:
-- what `np.max(np.abs(bias))` is documented to be.
abbrev pub FindsLargest : (List ℤ → Option ℤ) → Type 0
FindsLargest max_abs =
    (bias : List ℤ)
    → 0 < length bias
    → All HasAbs bias
    → (m : ℕ) × (max_abs bias ≡ some (pos m))
      × All (λ b. magnitude b ≤ m) bias
      × (any (λ b. magnitude b == m) bias ≡ true)

add_rows-magnitude :
    (bias : List ℤ) (rows : List (List ℤ)) (indices : List ℕ) (bound top : ℕ)
    → All (All (λ w. magnitude w ≤ bound)) rows
    → All (λ b. magnitude b ≤ top) bias
    → All (λ s. magnitude s ≤ top + length indices * bound) (add_rows bias rows indices)
unfolding add_rows
add_rows-magnitude [] rows indices bound top h k = tt
add_rows-magnitude (b ∷ bias) [] indices bound top h k = (
  omega (arith, k.0),
  All-weaken (λ s. magnitude s ≤ top + length indices * bound) (λ s e. omega (arith, e)) bias k.1,
)
add_rows-magnitude (b ∷ bias) (row ∷ rows) indices bound top h k = (
  omega (arith, k.0, magnitude-+ℤ b (gather row indices), gather-magnitude row bound indices h.0),
  add_rows-magnitude bias rows indices bound top h.1 k.1,
)

add_features-magnitude :
    (bias : List ℤ) (rows : List (List ℤ)) (indices : List ℕ) (bound top : ℕ)
    → All (All (λ w. magnitude w ≤ bound)) rows
    → All (λ b. magnitude b ≤ top) bias
    → Ensures
        (All (λ s. magnitude s ≤ top + length indices * bound))
        (add_features bias rows indices)
unfolding add_features
add_features-magnitude bias rows [] bound top h k =
    Ensures-ok _ _
      (All-weaken (λ s. magnitude s ≤ top + 0 * bound) (λ s e. omega (arith, e)) bias k)
add_features-magnitude bias rows (i ∷ is) bound top h k =
    elim (Bool-cases (length bias == class_count)) [
      | inl fits ↦ rw fits (Ensures-ok _ _ (add_rows-magnitude bias rows (i ∷ is) bound top h k))
      | inr other ↦ rw other (record { at = λ a q. cc })
    ]

-- What the scores of a prompt are within, when every bias is at most `top`.
integer_scores-magnitude :
    (prompt : Text) (weights : Matrix) (bias : List ℤ) (weight_bound top : ℕ)
    → All (All (λ w. magnitude w ≤ weight_bound)) weights.rows
    → All (λ b. magnitude b ≤ top) bias
    → Ensures
        (All (λ s. magnitude s ≤ top + (prompt_byte_limit - 2) * weight_bound))
        (integer_scores prompt weights bias)
unfolding integer_scores
integer_scores-magnitude prompt weights bias weight_bound top h k = Ensures-refuse _ _ _ _ λ shape.
    Ensures-bind _ _ _ λ indices found.
      (let (bytes, facts) = few_features indices found in
        record {
          at = λ a q.
              All-weaken (λ s. magnitude s ≤ top + (prompt_byte_limit - 2) * weight_bound)
                (within (length indices) facts) a
                ((add_features-magnitude bias weights.rows indices weight_bound top h k).at a q);
        })
  where
    few_features :
        (indices : List ℕ)
        → feature_indices prompt prompt_byte_limit weights.width ≡ ok indices
        → Text × (length indices ≤ prompt_byte_limit - 2)
    few_features indices found =
        let (bytes, _, _, few, _) =
          feature_indices-bounds prompt prompt_byte_limit weights.width indices found in
        (bytes, few)

    within :
        (n : ℕ)
        → n ≤ prompt_byte_limit - 2
        → (s : ℤ) → magnitude s ≤ top + n * weight_bound
        → magnitude s ≤ top + (prompt_byte_limit - 2) * weight_bound
    within n few s small =
        let more : n * weight_bound ≤ (prompt_byte_limit - 2) * weight_bound = grind arith in
        omega (arith, more, small)

-- With weights of at most `weight_bound` in magnitude and biases within ±(2^31 - 1), one at least,
-- `overflow_bound` returns a bound that no score of any prompt passes; `np.max(np.abs(bias))` is taken
-- to be the largest absolute value.
pub integer_scores-overflow :
    (max_abs : List ℤ → Option ℤ) (prompt : Text) (weights : Matrix) (bias : List ℤ)
    (weight_bound : ℕ) (scores : List ℤ)
    → FindsLargest max_abs
    → All (All (λ w. magnitude w ≤ weight_bound)) weights.rows
    → 0 < length bias
    → All HasAbs bias
    → integer_scores prompt weights bias ≡ ok scores
    → (bound : ℕ) × (overflow_bound max_abs bias prompt_byte_limit weight_bound ≡ some (pos bound))
      × All (λ s. magnitude s ≤ bound) scores
unfolding overflow_bound
integer_scores-overflow max_abs prompt weights bias weight_bound scores largest h some_bias f e =
    let (m, is_m, below, attained) = largest bias some_bias f in
    let top = m + (prompt_byte_limit - 2) * weight_bound in
    (
      top,
      rw is_m (ground arith),
      (integer_scores-magnitude prompt weights bias weight_bound m h below).at scores e,
    )
