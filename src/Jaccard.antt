-- ===== src/Jaccard.antt =====
-- benchmarks/policy/jaccard_reference.py. Unicode's lower case and its class `\w` are tables that the
-- repository does not hold: they are the parameters `to_lower` and `is_word_char`.
pub mod Counts
pub mod Rules
use xsr.Prelude.{
  Bool, List, Text, [], drop, if◌then◌else◌, leb, length, ltb, min, replicate, suc, take, zero, ℕ,
  ◌&&◌, ◌*◌, ◌++◌, ◌+◌, ◌-◌, ◌/◌, ◌^◌, ◌||◌, ◌∷◌,
}
use xsr.Counter.{Counter, count_of, tally, total}

-- `" " * (arity - 1) + word + " " * (arity - 1)`
abbrev pub pad : ℕ → Text → Text
pad arity word = replicate (arity - 1) b' ' ++ (word ++ replicate (arity - 1) b' ')

-- `padded[index : index + arity] for index in range(count)`
unfoldable pub windows : ℕ → ℕ → Text → List Text
windows zero arity padded = []
windows (suc count) arity padded = take arity padded ∷ windows count arity (drop 1 padded)

-- All the grams of a padded word, in order.
unfoldable pub grams_of : ℕ → Text → List Text
unfolding windows
grams_of arity word =
    let padded = pad arity word in windows (length padded + 1 - arity) arity padded

unfoldable pub similarity : Counter → Counter → ℕ
similarity [] right = 0
similarity ((gram, count) ∷ left) right = min count (count_of right gram) + similarity left right

-- The samegram count, the allgram count and the numerator of the score.
unfoldable pub similarity_counts : Counter → Counter → ℕ × ℕ × ℕ
unfolding similarity
similarity_counts left right =
    let same = similarity left right in
    let all_grams = total left + total right - same in
    (same, all_grams, all_grams * all_grams - (all_grams - same) * (all_grams - same))

-- A decimal number `digits / 10 ^ places`, with its sign.
pub record Decimal : Type 0 where
  pub negative : Bool
  pub digits : ℕ
  pub places : ℕ

-- The thousandths of the magnitude, a half rounded up.
unfoldable pub milli_of : ℕ → ℕ → ℕ
milli_of digits places = (2 * (digits * 1000) + 10 ^ places) / (2 * 10 ^ places)

-- `amount >= threshold_milli(value) * scale` for a natural number `amount`: a negative threshold is
-- always reached.
unfoldable pub reaches : Decimal → ℕ → ℕ → Bool
unfolding milli_of
reaches value amount scale =
    value.negative || leb (scale * milli_of value.digits value.places) amount

unfoldable pub score_matches : Decimal → ℕ × ℕ × ℕ → Bool
unfolding reaches
score_matches threshold (same, all_grams, numerator) =
    ltb 0 same && ltb 0 all_grams && reaches threshold (numerator * 1000) (all_grams * all_grams)

module _ (to_lower : Text → Text) where
  unfoldable pub word_grams : Text → ℕ → Bool → Counter
  unfolding grams_of
  word_grams word arity case_sensitive =
      tally (grams_of arity (if case_sensitive then word else to_lower word))

  unfoldable pub matches : Text → Text → ℕ → Decimal → Bool → Bool
  matches word keyword arity threshold case_sensitive = score_matches threshold (
      similarity_counts (word_grams word arity case_sensitive)
        (word_grams keyword arity case_sensitive))
