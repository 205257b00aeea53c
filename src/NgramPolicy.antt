-- ===== src/NgramPolicy.antt =====
-- benchmarks/policy/generate_jaccard_policy_header.py: the rules, keywords and case-fold entries that the
-- eBPF maps of the n-gram matcher hold. A policy is what `load_policy` returns.
pub mod Bounds
use xsr.Prelude.{
  Bool, List, Option, Result, Text, [], codes, contains, eq_ℤ, err, false, find_key, has_char,
  if◌then◌else◌, leb, length, lower, ltb, map, non_empty, none, not, ok, pos, refuse, some, suc,
  text_eq, upper, zero, ℕ, ℤ, ◌%◌, ◌&&◌, ◌*◌, ◌++◌, ◌+◌, ◌/◌, ◌==◌, ◌^◌, ◌||◌, ◌∷◌, ◌>>=◌, ◌>>◌,
}
use xsr.Policy.Values.{flag, get, Fields, Value, as_dict, to_str, truthy}
use xsr.Policy.Signals.{
  Checked, DecisionRoutes, PolicyError, get_default, get_int, get_list, get_str, route_names,
  signal_route_name, decision_keyword_routes, keyword_signals,
}
use xsr.Policy.Validate.{operators, agrees, get_priority}
use xsr.Jaccard.{Decimal, grams_of}
use xsr.Counter.{count_of, tally}

-- MAX_KEYWORDS
abbrev pub max_keywords : ℕ
max_keywords = 16

-- MAX_RULES
abbrev pub max_rules : ℕ
max_rules = 8

abbrev pub max_grams : ℕ
max_grams = 32

abbrev pub max_arity : ℕ
max_arity = 3

abbrev pub max_casefolds : ℕ
max_casefolds = 128

pub data NgramError : Type 0 where
  in_policy : PolicyError → NgramError
  bad_decimal threshold_range threshold_precision expanding_case context_case : NgramError
  too_many_grams too_many_casefolds not_a_dict other_method unknown_route : NgramError
  unknown_operator bad_arity no_keywords too_many_rules mixed_case too_many_keywords : NgramError
  blank_keyword : NgramError

unfoldable pub of_policy : {A : Type 0} → Checked A → Result NgramError A
of_policy (ok a) = ok a
of_policy (err e) = err (in_policy e)

abbrev pub some_or : {A : Type 0} → Option A → NgramError → Result NgramError A
some_or (some a) e = ok a
some_or none e = err e

-- `threshold_milli`, once `Decimal` has read the value. A negative zero is in range.
unfoldable pub threshold_milli : Decimal → Result NgramError ℕ
threshold_milli value = do
  refuse ((value.negative && ltb 0 value.digits) || ltb (10 ^ value.places) value.digits)
      threshold_range
  refuse (not (value.digits * 1000 % 10 ^ value.places == 0)) threshold_precision
  ok (value.digits * 1000 / 10 ^ value.places)

pub record Rule : Type 0 where
  pub milli : ℕ
  pub priority : ℤ
  pub route : Text
  pub operator : Text
  pub arity : ℕ
  pub case_sensitive : Bool
  pub keyword_count : ℕ

pub record Keyword : Type 0 where
  pub rule_id : ℕ
  pub grams : List Text
  pub counts : List ℕ
  pub total_grams : ℕ

-- The distinct grams, in the order in which they first occur.
unfoldable pub distinct_onto : List Text → List Text → List Text
distinct_onto result [] = result
distinct_onto result (value ∷ values) =
    distinct_onto (if contains result value then result else result ++ value ∷ []) values

-- What the loop over the signals has built.
pub record Building : Type 0 where
  pub rules : List Rule
  pub keywords : List Keyword
  pub insensitive_texts : List Text
  pub policy_case_sensitive : Option Bool

-- rules.append, with the case sensitivity of the policy
abbrev pub append_rule : Rule → Building → Building
append_rule rule state = record {
  rules = state.rules ++ rule ∷ [];
  keywords = state.keywords;
  insensitive_texts = state.insensitive_texts;
  policy_case_sensitive = some rule.case_sensitive;
}

-- keywords.append, and the text of a keyword that ignores case
abbrev pub append_keyword : ℕ → Bool → Text → List Text × List ℕ × ℕ → Building → Building
append_keyword rule_id case_sensitive keyword counted state = record {
  rules = state.rules;
  keywords =
      state.keywords
      ++ record {
        rule_id = rule_id;
        grams = counted.0;
        counts = counted.1;
        total_grams = counted.2;
      }
        ∷ [];
  insensitive_texts =
      if case_sensitive then state.insensitive_texts else state.insensitive_texts ++ keyword ∷ [];
  policy_case_sensitive = state.policy_case_sensitive;
}

module _ (to_lower to_upper : Text → Text) where
  unfoldable pub scalar_lower : Text → Result NgramError Text
  scalar_lower [] = ok []
  scalar_lower (c ∷ cs) =
      let lowered = to_lower (c ∷ []) in
      do
        refuse (not (length lowered == 1)) expanding_case
        rest ← scalar_lower cs
        ok (lowered ++ rest)

  unfoldable pub normalize : Text → Bool → Result NgramError Text
  unfolding scalar_lower
  normalize keyword case_sensitive = if case_sensitive then ok keyword else do
    scalar ← scalar_lower keyword
    upper_scalar ← scalar_lower (to_upper keyword)
    refuse (not (text_eq (to_lower (to_upper keyword)) upper_scalar)) context_case
    ok (to_lower keyword)

  unfoldable pub gram_counts : Text → ℕ → Bool → Result NgramError (List Text × List ℕ × ℕ)
  unfolding normalize distinct_onto
  gram_counts keyword arity case_sensitive = do
    normalized ← normalize keyword case_sensitive
    let all_grams = grams_of arity normalized
    refuse (ltb max_grams (length all_grams)) too_many_grams
    let result = distinct_onto [] all_grams
    refuse (ltb max_grams (length result)) too_many_grams
    ok (result, map (count_of (tally all_grams)) result, length all_grams)

  -- The keywords of a rule.
  unfoldable pub add_keywords :
      (Value → Text) → ℕ → Bool → Building → List Value → Result NgramError Building
  unfolding gram_counts
  add_keywords show rule_id case_sensitive state [] = ok state
  add_keywords show rule_id case_sensitive state (value ∷ values) =
      let keyword = to_str show value in
      do
        refuse (leb max_keywords (length state.keywords)) too_many_keywords
        refuse (not (non_empty keyword)) blank_keyword
        counted ← gram_counts keyword max_arity case_sensitive
        add_keywords show rule_id case_sensitive
            (append_keyword rule_id case_sensitive keyword counted state) values

  module _ (show : Value → Text) (decimal_of : Text → Option Decimal)
      (decisions : DecisionRoutes) where
    -- A signal whose method is ngram.
    unfoldable pub add_rule : Building → Fields → Result NgramError Building
    unfolding add_keywords threshold_milli
    add_rule state signal = do
      let name = get_str show signal (codes "name") []
      route ← of_policy (signal_route_name show signal decisions.routes)
      refuse (not (contains route_names route)) unknown_route
      let operator = upper (get_str show signal (codes "operator") (codes "OR"))
      refuse (not (contains operators operator)) unknown_operator
      arity ← of_policy (get_int show signal (codes "ngram_arity") max_arity)
      refuse (not (eq_ℤ arity (pos max_arity))) bad_arity
      values ← some_or (get_list (get signal (codes "keywords"))) no_keywords
      refuse (length values == 0) no_keywords
      refuse (leb max_rules (length state.rules)) too_many_rules
      let case_sensitive = truthy (get_default (get signal (codes "case_sensitive")) (flag false))
      refuse (not (agrees state.policy_case_sensitive case_sensitive)) mixed_case
      threshold ←
          some_or (decimal_of (get_str show signal (codes "ngram_threshold") (codes "0.4")))
            bad_decimal
      milli ← threshold_milli threshold
      own_priority ← of_policy (get_int show signal (codes "priority") 0)
      add_keywords show (length state.rules) case_sensitive
          (append_rule
            (record {
              milli = milli;
              priority = get_priority (find_key decisions.priorities name) own_priority;
              route = route;
              operator = operator;
              arity = max_arity;
              case_sensitive = case_sensitive;
              keyword_count = length values;
            })
            state)
          values

    -- The loop over the signals.
    unfoldable pub add_rules : Bool → Building → List Value → Result NgramError Building
    unfolding add_rule
    add_rules allow_other_methods state [] = ok state
    add_rules allow_other_methods state (signal ∷ signals) = do
      fields ← some_or (as_dict signal) not_a_dict
      let other = not (text_eq (lower (get_str show fields (codes "method") [])) (codes "ngram"))
      refuse (other && not allow_other_methods) other_method
      next ← if other then ok state else add_rule state fields
      add_rules allow_other_methods next signals

  -- char.lower() in targets, for one code point
  unfoldable pub casefold_of : List ℕ → ℕ → List (ℕ × ℕ)
  casefold_of targets codepoint = entry (to_lower (codepoint ∷ []))
    where
      entry : Text → List (ℕ × ℕ)
      entry (lowered ∷ []) =
          if has_char lowered targets && not (lowered == codepoint)
          then (codepoint, lowered) ∷ []
          else []
      entry _ = []

  -- `count` code points from `codepoint` on
  unfoldable pub casefolds_from : List ℕ → ℕ → ℕ → List (ℕ × ℕ)
  unfolding casefold_of
  casefolds_from targets codepoint zero = []
  casefolds_from targets codepoint (suc count) =
      casefold_of targets codepoint ++ casefolds_from targets (codepoint + 1) count

  unfoldable pub lowered_chars : List Text → Text
  lowered_chars [] = []
  lowered_chars (t ∷ texts) = to_lower t ++ lowered_chars texts

  -- `sys.maxunicode + 1` is the parameter `limit`.
  unfoldable pub casefold_entries : ℕ → List Text → Result NgramError (List (ℕ × ℕ))
  unfolding casefolds_from lowered_chars
  casefold_entries limit texts =
      let entries = casefolds_from (lowered_chars texts) 0 limit in
      do refuse (ltb max_casefolds (length entries)) too_many_casefolds; ok entries

  module _ (show : Value → Text) (decimal_of : Text → Option Decimal) (limit : ℕ) where
    abbrev pub nothing_built : Building
    nothing_built = record {
      rules = [];
      keywords = [];
      insensitive_texts = [];
      policy_case_sensitive = none;
    }

    unfoldable pub parse_ngram :
        Fields → Bool → Result NgramError (List Rule × List Keyword × List (ℕ × ℕ))
    unfolding add_rules casefold_entries
    parse_ngram policy allow_other_methods = do
      signals ← of_policy (keyword_signals policy)
      decisions ← of_policy (decision_keyword_routes show policy)
      built ← add_rules show decimal_of decisions allow_other_methods nothing_built signals
      casefolds ← casefold_entries limit built.insensitive_texts
      ok (built.rules, built.keywords, casefolds)
