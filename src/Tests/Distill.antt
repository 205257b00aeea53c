-- ===== src/Tests/Distill.antt =====
-- The feature hash, the scores and a model file of one feature for each of the 14 classes.
use xsr.Prelude.{
  All, All-replicate, Bool-cases, List, Option, Text, [], any, arith, codes, err, inl, inr, length,
  lower_char, magnitude, max, negsuc, none, ok, pos, refl, replicate, some, true, ℕ, ℤ, ◌*◌, ◌+ℤ◌,
  ◌+◌, ◌-◌, ◌<◌, ◌==◌, ◌>>=◌, ◌^◌, ◌∷◌, ◌≡◌, ◌≤◌,
}
use xsr.Distill.File.Bytes.{Fits32, Fits8}
use xsr.Distill.Features.Bounds.{feature_indices-bounds}
use xsr.Distill.File.RoundTrip.{IsModel, read-write_kernel_model}
use xsr.Distill.Scores.Overflow.{integer_scores-overflow, FindsLargest}
use xsr.Distill.Scores.{Matrix, add_features, add_rows, gather, integer_scores, overflow_bound}
use xsr.Distill.File.{Model, model_bound, read_kernel_model, write_kernel_model}
use xsr.Distill.Features.{
  feature_indices, fnv1a, fnv1a_trigram, normalize_bytes, not_power_of_two, prompt_byte_limit,
  trigram_indices, utf8, utf8_char, not_encodable,
}

abbrev one_weight : Matrix
one_weight = record { width = 1; rows = replicate 14 (pos 3 ∷ []) }

abbrev small_bias : List ℤ
small_bias = pos 2 ∷ negsuc 4 ∷ replicate 12 (pos 0)

abbrev small_model : Model
small_model = record { weights = one_weight; bias = small_bias; scale_bits = 77 }

trigram_run : fnv1a_trigram (codes "abc") 4096 ≡ ok 2315
unfolding fnv1a_trigram fnv1a
trigram_run = refl

odd_width_refused : fnv1a_trigram (codes "abc") 3 ≡ err not_power_of_two
unfolding fnv1a_trigram
odd_width_refused = refl

abcd_indices : feature_indices (codes "ABCD") 64 1 ≡ ok (0 ∷ 0 ∷ [])
unfolding feature_indices trigram_indices normalize_bytes utf8 utf8_char lower_char fnv1a_trigram
    fnv1a ◌>>=◌
abcd_indices = refl

abcd_scores :
    integer_scores (codes "ABCD") one_weight small_bias ≡ ok (pos 8 ∷ pos 1 ∷ replicate 12 (pos 6))
unfolding integer_scores feature_indices trigram_indices normalize_bytes utf8 utf8_char lower_char
    fnv1a_trigram fnv1a add_features add_rows gather ◌>>=◌ ◌+ℤ◌
abcd_scores = refl

feature_indices-bounds_example :
    (bytes : Text) × (normalize_bytes (codes "ABCD") 64 ≡ ok bytes)
    × (length {A = ℕ} (0 ∷ 0 ∷ []) ≡ length bytes - 2)
    × (length {A = ℕ} (0 ∷ 0 ∷ []) ≤ 64 - 2)
    × All {A = ℕ} (λ i. i < 1) (0 ∷ 0 ∷ [])
feature_indices-bounds_example =
    feature_indices-bounds (codes "ABCD") 64 1 (0 ∷ 0 ∷ []) abcd_indices

surrogate_refused : feature_indices (0x61 ∷ 0xD800 ∷ []) 64 1 ≡ err not_encodable
unfolding feature_indices normalize_bytes utf8 utf8_char ◌>>=◌
surrogate_refused = refl

-- The largest absolute value, as `np.max(np.abs(bias))` gives it.
abbrev largest_from : List ℤ → ℕ
largest_from [] = 0
largest_from (b ∷ bias) = max (magnitude b) (largest_from bias)

abbrev largest_abs : List ℤ → Option ℤ
largest_abs [] = none
largest_abs (b ∷ bias) = some (pos (largest_from (b ∷ bias)))

below_largest : (bias : List ℤ) (m : ℕ) → largest_from bias ≤ m → All (λ b. magnitude b ≤ m) bias
below_largest [] m h = tt
below_largest (b ∷ bias) m h = (omega (arith, h), below_largest bias m (omega (arith, h)))

largest_attained :
    (b : ℤ) (bias : List ℤ) (m : ℕ)
    → m ≡ largest_from (b ∷ bias)
    → any (λ x. magnitude x == m) (b ∷ bias) ≡ true
largest_attained b [] m h = ground (arith, h)
largest_attained b (c ∷ bias) m h = elim (Bool-cases (magnitude b == m)) [
  | inl hit ↦ rw hit refl
  | inr miss ↦
      let later : m ≡ largest_from (c ∷ bias) = ground (arith, h, miss) in
      rw miss (largest_attained c bias m later)
]

largest_abs-FindsLargest : FindsLargest largest_abs
largest_abs-FindsLargest [] some_bias h = absurd (omega (arith, some_bias))
largest_abs-FindsLargest (b ∷ bias) some_bias h = (
  largest_from (b ∷ bias),
  refl,
  below_largest (b ∷ bias) (largest_from (b ∷ bias)) (omega arith),
  largest_attained b bias (largest_from (b ∷ bias)) refl,
)

small_weights : All (All (λ w. magnitude w ≤ 127)) one_weight.rows
small_weights = All-replicate (All (λ w. magnitude w ≤ 127)) 14 (pos 3 ∷ []) (omega arith, tt)

small_bound : model_bound largest_abs small_bias ≡ some (pos (5 + 16382 * 127))
unfolding overflow_bound
small_bound = refl

integer_scores-overflow_example :
    (bound : ℕ) × (overflow_bound largest_abs small_bias prompt_byte_limit 127 ≡ some (pos bound))
    × All (λ s. magnitude s ≤ bound) (pos 8 ∷ pos 1 ∷ replicate 12 (pos 6))
integer_scores-overflow_example =
    integer_scores-overflow largest_abs (codes "ABCD") one_weight small_bias 127
      (pos 8 ∷ pos 1 ∷ replicate 12 (pos 6)) largest_abs-FindsLargest small_weights (omega arith)
      (
        omega arith,
        (omega arith, All-replicate (λ b. magnitude b ≤ 2 ^ 31 - 1) 12 (pos 0) (omega arith)),
      )
      abcd_scores

small_model-IsModel : IsModel small_model
small_model-IsModel = record {
  classes = refl;
  rectangular = All-replicate (λ r. length r ≡ 1) 14 (pos 3 ∷ []) refl;
  int8 = All-replicate (All Fits8) 14 (pos 3 ∷ []) (omega arith, tt);
  biases = refl;
  int32 = (omega arith, (omega arith, All-replicate Fits32 12 (pos 0) (omega arith)));
  scale_fits = omega arith;
}

read-write_kernel_model_example :
    (bytes : Text) × (write_kernel_model largest_abs small_model ≡ ok bytes)
    × (read_kernel_model largest_abs bytes none ≡ ok small_model)
read-write_kernel_model_example =
    read-write_kernel_model small_model small_model-IsModel largest_abs (5 + 16382 * 127) refl
      (omega arith) small_bound (omega arith)
