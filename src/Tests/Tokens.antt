-- ===== src/Tests/Tokens.antt =====
-- The tokenizer, on inputs of benchmarks/policy/test_bm25_policy.py.
use xsr.Prelude.{
  All, Text, [], arith, codes, contains, ends_with, err, false, find_key, if◌then◌else◌, is_ascii,
  is_digit, length, lower_char, map, ok, refl, starts_with, true, ◌++◌, ◌∷◌, ◌≡◌, ◌≤◌,
}
use xsr.Tokenizer.Stem.Length.{length-stem_english}
use xsr.Tokenizer.Stem.Regions.{regions_bounds}
use xsr.Tokenizer.Stem.Marks.{Unmarked, stem_english-Unmarked}
use xsr.Tokenizer.Words.Shape.{ascii_words-IsToken}
use xsr.Tokenizer.Words.Domain.{tokenize-eq-tokenize_query}
use xsr.Tokenizer.Words.Boundary.{tokenize_query-boundary}
use xsr.Tokenizer.Words.{
  ascii_words, is_alnum, is_ascii_word, joined, outside_ascii_domain, tokenize, tokenize_query,
}
use xsr.Tokenizer.Tables.{
  doubles, exceptions, is_valid_li, is_vowel, post_1a_exceptions, step_2_table, step_3_table,
  step_4_table, english_stop_words,
}
use xsr.Tokenizer.Stem.{
  finish_2, finish_4, has_vowel, mark_y, regions, remove_4, repair_1b, replace_2, replace_3,
  short_syllable, stem_english, step_0, step_1a, step_1b, step_1c, step_2, step_3, step_4, step_5,
  strip_1b,
}

stems :
    map stem_english (
      map codes (
        "connections" ∷ "relational" ∷ "conditional" ∷ "triplicate" ∷ "communism" ∷ "skies"
        ∷ "proceed" ∷ "playing" ∷ []))
    ≡ map codes
        ("connect" ∷ "relat" ∷ "condit" ∷ "triplic" ∷ "communism" ∷ "sky" ∷ "proceed" ∷ "play" ∷ [])
unfolding stem_english regions step_0 step_1a step_1b strip_1b repair_1b step_1c step_2 replace_2
    finish_2 step_3 replace_3 step_4 remove_4 finish_4 step_5 short_syllable has_vowel mark_y
    starts_with ends_with contains find_key exceptions post_1a_exceptions doubles is_vowel
    is_valid_li step_2_table step_3_table step_4_table
stems = refl

abbrev sample : Text
sample = codes "I am writing 3.14 can't foo_bar functions"

sample_words :
    ascii_words sample
    ≡ ok (map codes ("writing" ∷ "3.14" ∷ "can't" ∷ "foo_bar" ∷ "functions" ∷ []))
unfolding ascii_words lower_char is_digit is_alnum contains english_stop_words joined
sample_words = refl

length-stem_english_example :
    length (stem_english (codes "connections")) ≤ length (codes "connections")
length-stem_english_example = length-stem_english (codes "connections")

regions_bounds_example :
    ((regions (codes "communism")).0 ≤ 9)
    × ((regions (codes "communism")).1 ≤ 9)
    × ((regions (codes "communism")).0 ≤ (regions (codes "communism")).1)
regions_bounds_example = regions_bounds (codes "communism")

stem_english-Unmarked_example : Unmarked (stem_english (codes "playing"))
stem_english-Unmarked_example = stem_english-Unmarked (codes "playing") (omega arith)

ascii_words-IsToken_example :
    All
      (λ w. (is_ascii_word w ≡ true) × (contains english_stop_words w ≡ false))
      (map codes ("writing" ∷ "3.14" ∷ "can't" ∷ "foo_bar" ∷ "functions" ∷ []))
ascii_words-IsToken_example = ascii_words-IsToken sample _ sample_words

tokenize_query-boundary_example :
    tokenize_query (codes "functions" ++ (8212 ∷ codes "derivatives"))
    ≡ tokenize_query (codes "functions") ++ tokenize_query (codes "derivatives")
tokenize_query-boundary_example =
    tokenize_query-boundary (codes "functions") 8212 (codes "derivatives") (omega arith)

tokenize-eq-tokenize_query_example : tokenize (codes "déf") ≡ (
    if is_ascii (codes "déf") then ok (tokenize_query (codes "déf")) else err outside_ascii_domain)
tokenize-eq-tokenize_query_example = tokenize-eq-tokenize_query (codes "déf")
