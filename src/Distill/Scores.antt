-- ===== src/Distill/Scores.antt =====
-- `integer_scores` and `overflow_bound` of benchmarks/lora_distill/core.py. An integer
-- array of two dimensions is the list of its rows with their width.
pub mod Overflow
use xsr.Prelude.{
  List, Option, Result, Text, [], err, get_or, if◌then◌else◌, length, none, not, ok, pos, refuse,
  some, ℕ, ℤ, ◌*◌, ◌+ℤ◌, ◌-◌, ◌==◌, ◌∷◌, ◌>>=◌, ◌>>◌,
}
use xsr.Distill.Features.{
  ModelError, bad_weight_shape, feature_indices, prompt_byte_limit, bad_bias_shape,
}

abbrev pub class_count : ℕ
class_count = 14

pub record Matrix : Type 0 where
  pub width : ℕ
  pub rows : List (List ℤ)

-- `weights[:, indices].sum(axis=1)` of one row.
unfoldable pub gather : List ℤ → List ℕ → ℤ
gather row [] = pos 0
gather row (i ∷ is) = get_or row i (pos 0) +ℤ gather row is

-- `scores += …`, class by class.
unfoldable pub add_rows : List ℤ → List (List ℤ) → List ℕ → List ℤ
unfolding gather
add_rows [] rows indices = []
add_rows (b ∷ bias) [] indices = b ∷ bias
add_rows (b ∷ bias) (row ∷ rows) indices = (b +ℤ gather row indices) ∷ add_rows bias rows indices

-- Adding the sums to the scores, which needs a sum for each score; without features nothing is added.
unfoldable pub add_features : List ℤ → List (List ℤ) → List ℕ → Result ModelError (List ℤ)
unfolding add_rows
add_features bias rows [] = ok bias
add_features bias rows (i ∷ is) =
    if length bias == class_count then ok (add_rows bias rows (i ∷ is)) else err bad_bias_shape

unfoldable pub integer_scores : Text → Matrix → List ℤ → Result ModelError (List ℤ)
unfolding add_features
integer_scores prompt weights bias = do
  refuse (not (length weights.rows == class_count)) bad_weight_shape
  indices ← feature_indices prompt prompt_byte_limit weights.width
  add_features bias weights.rows indices

abbrev pub add_to : ℕ → Option ℤ → Option ℤ
add_to n none = none
add_to n (some m) = some (m +ℤ pos n)

-- `np.max(np.abs(bias))` is the parameter `max_abs`, for an array of one type: `none` where it raises.
unfoldable pub overflow_bound : (List ℤ → Option ℤ) → List ℤ → ℕ → ℕ → Option ℤ
unfolding ◌+ℤ◌
overflow_bound max_abs bias prompt_limit weight_bound =
    add_to ((prompt_limit - 2) * weight_bound) (max_abs bias)
