-- ===== src/Jaccard/Rules.antt =====
-- `words` and `rule_matches` of benchmarks/policy/jaccard_reference.py.
pub mod Operators
pub mod Conjunction
use xsr.Prelude.{
  Bool, List, Text, [], any, codes, contains, false, if◌then◌else◌, keep, length, ltb, not, text_eq,
  true, upper, ℕ, ◌&&◌, ◌++◌, ◌==◌, ◌||◌, ◌∷◌,
}
use xsr.Jaccard.{Decimal, matches}

-- `[word]` if it is not empty.
abbrev pub chunk : Text → List Text
chunk [] = []
chunk (c ∷ cs) = (c ∷ cs) ∷ []

-- The maximal runs of the characters that pass the test, with the run so far.
unfoldable pub runs : (ℕ → Bool) → Text → Text → List Text
runs test run [] = chunk run
runs test run (c ∷ cs) =
    let longer = runs test (run ++ c ∷ []) cs in
    let next = runs test [] cs in if test c then longer else chunk run ++ next

-- `re.split(r"[^\w-]+", text)` with its empty pieces left out.
unfoldable pub words : (ℕ → Bool) → Text → List Text
unfolding runs
words is_word_char = runs (λ c. is_word_char c || c == b'-') []

-- Adding texts to a set, which lists each member once.
unfoldable pub add_all : List Text → List Text → List Text
add_all set [] = set
add_all set (x ∷ xs) = add_all (if contains set x then set else set ++ x ∷ []) xs

abbrev pub any_member : List Text → Bool
any_member [] = false
any_member (x ∷ xs) = true

-- The set of the keywords that match a word or, if any is left, the whole text.
unfoldable pub matched_set : (Text → Bool) → (Text → Bool) → List Text → List Text
unfolding add_all
matched_set by_word by_text keywords =
    let matched = add_all [] (keep by_word keywords) in
    if ltb (length matched) (length keywords)
    then add_all matched (keep (λ k. not (contains matched k) && by_text k) keywords)
    else matched

unfoldable pub apply_operator : Text → List Text → List Text → Bool
apply_operator operator matched keywords =
    (text_eq operator (codes "OR") && any_member matched)
    || (text_eq operator (codes "AND") && length matched == length keywords)
    || (text_eq operator (codes "NOR") && not (any_member matched))

module _ (to_lower : Text → Text) (is_word_char : ℕ → Bool) where
  unfoldable pub rule_matches : Text → List Text → Text → ℕ → Decimal → Bool → Bool
  unfolding words matched_set apply_operator
  rule_matches text keywords operator arity threshold case_sensitive =
      let by_text = λ (k : Text). matches to_lower text k arity threshold case_sensitive in
      let by_word = λ (k : Text).
        any (λ w. matches to_lower w k arity threshold case_sensitive) (words is_word_char text) in
      apply_operator (upper operator) (matched_set by_word by_text keywords) keywords
