-- ===== src/Tests/Ngrams.antt =====
-- The n-gram policy of one rule with two keywords. `Decimal` reads every text as 0.4 here, and the code
-- points are those of ASCII.
use xsr.Prelude.{
  All, List, Option, Text, [], codes, contains, eq_ℤ, false, find_key, length, lower, lower_char,
  ok, pos, refl, some, starts_with, text_eq, upper, upper_char, ℕ, ◌>>=◌, ◌∷◌, ◌≡◌, ◌≤◌,
}
use xsr.Policy.Values.{
  Fields, Value, dict, end, field, from_list, get, item, list, nil, text, to_int, to_str, truthy,
}
use xsr.Policy.Signals.{
  decision_keyword_routes, get_int, get_str, keyword_signals, route_of_prefix, signal_route_name,
}
use xsr.NgramPolicy.Bounds.{KeywordFits, RuleFits, parse_ngram-IsBounded}
use xsr.Jaccard.{Decimal, grams_of, windows}
use xsr.Counter.{bump, count_of, tally, tally_onto}
use xsr.NgramPolicy.{
  Keyword, Rule, add_keywords, add_rule, add_rules, casefold_entries, casefold_of, casefolds_from,
  distinct_onto, gram_counts, lowered_chars, max_casefolds, max_keywords, max_rules, normalize,
  of_policy, parse_ngram, scalar_lower, threshold_milli,
}

abbrev no_text : Value → Text
no_text v = []

abbrev two_fifths_of : Text → Option Decimal
two_fifths_of t = some (record { negative = false; digits = 4; places = 1 })

abbrev rule_fields : Fields
rule_fields = field (codes "name") (text (codes "math_a")) (
    field (codes "method") (text (codes "ngram"))
      (field (codes "keywords") (list (from_list (text (codes "aa") ∷ text (codes "B") ∷ []))) end))

abbrev rule_policy : Fields
rule_policy = field (codes "routes") (list (item (dict rule_fields) nil)) end

abbrev built_rules : List Rule
built_rules =
    record {
      milli = 400;
      priority = pos 0;
      route = codes "math";
      operator = codes "OR";
      arity = 3;
      case_sensitive = false;
      keyword_count = 2;
    }
    ∷ []

abbrev built_keywords : List Keyword
built_keywords =
    record {
      rule_id = 0;
      grams = codes "  a" ∷ codes " aa" ∷ codes "aa " ∷ codes "a  " ∷ [];
      counts = 1 ∷ 1 ∷ 1 ∷ 1 ∷ [];
      total_grams = 4;
    }
    ∷ record {
      rule_id = 0;
      grams = codes "  b" ∷ codes " b " ∷ codes "b  " ∷ [];
      counts = 1 ∷ 1 ∷ 1 ∷ [];
      total_grams = 3;
    }
    ∷ []

parse_run :
    parse_ngram lower upper no_text two_fifths_of 128 rule_policy false
    ≡ ok (built_rules, built_keywords, (b'A', b'a') ∷ (b'B', b'b') ∷ [])
unfolding parse_ngram add_rules add_rule add_keywords threshold_milli gram_counts normalize
    scalar_lower distinct_onto casefold_entries casefolds_from casefold_of lowered_chars of_policy
    keyword_signals decision_keyword_routes signal_route_name get truthy to_str to_int get_str
    get_int route_of_prefix grams_of windows tally tally_onto bump count_of text_eq contains
    starts_with find_key lower_char upper_char eq_ℤ ◌>>=◌
parse_run = refl

parse_ngram-IsBounded_example :
    (length built_rules ≤ max_rules)
    × (length built_keywords ≤ max_keywords)
    × All RuleFits built_rules
    × All (KeywordFits (length built_rules)) built_keywords
    × (length {A = ℕ × ℕ} ((b'A', b'a') ∷ (b'B', b'b') ∷ []) ≤ max_casefolds)
parse_ngram-IsBounded_example =
    parse_ngram-IsBounded lower upper no_text two_fifths_of 128 rule_policy false built_rules
      built_keywords ((b'A', b'a') ∷ (b'B', b'b') ∷ []) parse_run
