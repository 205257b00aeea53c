-- ===== src/Tests/Matching.antt =====
-- The Jaccard reference matcher, on small texts. Lower case and words are ASCII's here.
use xsr.Prelude.{
  All, Bool, List, Text, [], any, arith, codes, contains, false, lower, lower_char, not, refl,
  text_eq, text_eq_iff, true, upper, upper_char, ℕ, ◌<◌, ◌==◌, ◌||◌, ◌∷◌, ◌≡◌,
}
use xsr.Tokenizer.Words.{is_alnum}
use xsr.Jaccard.Rules.Operators.{
  keyword_matches, rule_matches-and, rule_matches-nor, rule_matches-or,
}
use xsr.Jaccard.Counts.{SameCounts, matches_same}
use xsr.Jaccard.Rules.{add_all, apply_operator, matched_set, rule_matches, runs, words}
use xsr.Jaccard.{
  Decimal, grams_of, matches, milli_of, reaches, score_matches, similarity, similarity_counts,
  windows, word_grams,
}
use xsr.Counter.{bump, count_of, tally, tally_onto, total}

abbrev ascii_word : ℕ → Bool
ascii_word c = is_alnum c || c == b'_'

abbrev two_fifths : Decimal
two_fifths = record { negative = false; digits = 4; places = 1 }

matches_run :
    (matches lower (codes "Integral") (codes "integrals") 3 two_fifths false ≡ true)
    × (matches lower (codes "cat") (codes "function") 3 two_fifths false ≡ false)
unfolding matches score_matches reaches milli_of similarity_counts similarity word_grams tally
    tally_onto bump grams_of windows count_of total lower_char text_eq
matches_run = (refl, refl)

-- The letters of one word in another order, at arity 1.
same_grams :
    SameCounts (word_grams lower (codes "AB") 1 false) (word_grams lower (codes "ba") 1 false)
unfolding word_grams tally tally_onto bump grams_of windows count_of lower_char text_eq
same_grams gram = ground (arith, text_eq_iff (codes "a") gram, text_eq_iff (codes "b") gram)

some_gram : 0 < total (word_grams lower (codes "AB") 1 false)
unfolding total word_grams tally tally_onto bump grams_of windows lower_char text_eq
some_gram = omega arith

matches_same_example : matches lower (codes "AB") (codes "ba") 1 two_fifths false ≡ true
matches_same_example =
    matches_same lower 1 two_fifths false (codes "AB") (codes "ba") same_grams some_gram
      (omega arith)

abbrev keywords : List Text
keywords = codes "cat" ∷ codes "dog" ∷ []

abbrev pets : Text
pets = codes "a cat, a dog"

to_upper :
    (upper (codes "or") ≡ codes "OR")
    × (upper (codes "nor") ≡ codes "NOR")
    × (upper (codes "and") ≡ codes "AND")
unfolding upper_char
to_upper = (refl, refl, refl)

and_holds : rule_matches lower ascii_word pets keywords (codes "and") 3 two_fifths false ≡ true
unfolding rule_matches words runs matched_set add_all apply_operator contains upper_char is_alnum
    matches score_matches reaches milli_of similarity_counts similarity word_grams tally tally_onto
    bump grams_of windows count_of total lower_char text_eq
and_holds = refl

rule_matches-or_example :
    rule_matches lower ascii_word pets keywords (codes "or") 3 two_fifths false
    ≡ any (keyword_matches lower ascii_word 3 two_fifths false pets) keywords
rule_matches-or_example =
    rule_matches-or lower ascii_word 3 two_fifths false pets keywords (codes "or") to_upper.0

rule_matches-nor_example :
    rule_matches lower ascii_word pets keywords (codes "nor") 3 two_fifths false
    ≡ not (any (keyword_matches lower ascii_word 3 two_fifths false pets) keywords)
rule_matches-nor_example =
    rule_matches-nor lower ascii_word 3 two_fifths false pets keywords (codes "nor") to_upper.1

rule_matches-and_example :
    All (λ k. keyword_matches lower ascii_word 3 two_fifths false pets k ≡ true) keywords
rule_matches-and_example =
    rule_matches-and lower ascii_word 3 two_fifths false pets keywords (codes "and") to_upper.2
      and_holds
