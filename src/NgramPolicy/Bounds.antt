-- ===== src/NgramPolicy/Bounds.antt =====
-- What is built fits the eBPF maps.
use xsr.Prelude.{
  All, All-append, All-weaken, Bool, Ensures, Ensures-bind, Ensures-ok, Ensures-refuse, List,
  Option, Text, [], arith, false, if◌then◌else◌, leb, length, length-append, length-map, ltb, ok,
  refl, suc, true, zero, ℕ, ◌&&◌, ◌*◌, ◌++◌, ◌+◌, ◌/◌, ◌<◌, ◌^◌, ◌||◌, ◌∷◌, ◌≡◌, ◌≤◌,
}
use xsr.Policy.Values.{Fields, Value, to_str}
use xsr.Policy.Signals.{DecisionRoutes}
use xsr.Jaccard.{Decimal}
use xsr.NgramPolicy.{
  Building, Keyword, Rule, gram_counts, max_arity, max_grams, max_keywords, max_rules,
  threshold_milli, add_keywords, add_rule, append_keyword, append_rule, add_rules, casefold_entries,
  max_casefolds, nothing_built, parse_ngram,
}

-- A keyword that fits its map entry, of a rule below `rules`.
pub record KeywordFits (rules : ℕ) (k : Keyword) : Type 0 where
  pub of_rule : k.rule_id < rules
  pub few_grams : length k.grams ≤ max_grams
  pub a_count_each : length k.counts ≡ length k.grams
  pub few_in_all : k.total_grams ≤ max_grams

pub record RuleFits (r : Rule) : Type 0 where
  pub at_most_one : r.milli ≤ 1000
  pub of_arity : r.arity ≡ max_arity

pub record IsBounded (built : Building) : Type 0 where
  pub few_rules : length built.rules ≤ max_rules
  pub few_keywords : length built.keywords ≤ max_keywords
  pub rules_fit : All RuleFits built.rules
  pub keywords_fit : All (KeywordFits (length built.rules)) built.keywords

thousandths : (d q : ℕ) → d ≤ q → d * 1000 / q ≤ 1000
thousandths d zero h = omega arith
thousandths d (suc q) h = grind arith

in_range : (b : Bool) (d q : ℕ) → (b || ltb q d) ≡ false → d ≤ q
in_range b d q h = ground (arith, h)

threshold_milli-le : (value : Decimal) → Ensures (λ n. n ≤ 1000) (threshold_milli value)
unfolding threshold_milli
threshold_milli-le value = Ensures-refuse _ _ _ _ λ range. Ensures-refuse _ _ _ _ λ precise.
    Ensures-ok _ _ (
      thousandths value.digits (10 ^ value.places)
        (in_range (value.negative && ltb 0 value.digits) value.digits (10 ^ value.places) range))

gram_counts-Ensures :
    (to_lower to_upper : Text → Text) (keyword : Text) (arity : ℕ) (case_sensitive : Bool)
    → Ensures
        (λ c. (length c.0 ≤ max_grams) × (length c.1 ≡ length c.0) × (c.2 ≤ max_grams))
        (gram_counts to_lower to_upper keyword arity case_sensitive)
unfolding gram_counts
gram_counts-Ensures to_lower to_upper keyword arity case_sensitive =
    Ensures-bind _ _ _ λ normalized eq. Ensures-refuse _ _ _ _ λ few.
      Ensures-refuse _ _ _ _ λ few_distinct.
        Ensures-ok _ _ (ground (arith, few_distinct), length-map _ _, ground (arith, few))

append_keyword-IsBounded :
    (rule_id : ℕ) (case_sensitive : Bool) (keyword : Text) (counted : List Text × List ℕ × ℕ)
    (state : Building)
    → rule_id < length state.rules
    → leb max_keywords (length state.keywords) ≡ false
    → (length counted.0 ≤ max_grams)
      × (length counted.1 ≡ length counted.0)
      × (counted.2 ≤ max_grams)
    → IsBounded state
    → IsBounded (append_keyword rule_id case_sensitive keyword counted state)
append_keyword-IsBounded rule_id case_sensitive keyword counted state h room sizes b =
    let added : Keyword = record {
      rule_id = rule_id;
      grams = counted.0;
      counts = counted.1;
      total_grams = counted.2;
    } in
    let below : length state.keywords < max_keywords = ground (arith, room) in
    record {
      few_rules = b.few_rules;
      few_keywords = omega (arith, length-append state.keywords (added ∷ []), below);
      rules_fit = b.rules_fit;
      keywords_fit =
          All-append (KeywordFits (length state.rules)) state.keywords (added ∷ []) b.keywords_fit (
            record {
              of_rule = h;
              few_grams = sizes.0;
              a_count_each = sizes.1;
              few_in_all = sizes.2;
            },
            tt,
          );
    }

fits_more : (m n : ℕ) (k : Keyword) → m ≤ n → KeywordFits m k → KeywordFits n k
fits_more m n k h f = record {
  of_rule = omega (arith, f.of_rule);
  few_grams = f.few_grams;
  a_count_each = f.a_count_each;
  few_in_all = f.few_in_all;
}

append_rule-IsBounded :
    (rule : Rule) (state : Building)
    → RuleFits rule
    → leb max_rules (length state.rules) ≡ false
    → IsBounded state
    → (length state.rules < length (append_rule rule state).rules)
      × IsBounded (append_rule rule state)
append_rule-IsBounded rule state fits room b =
    let below : length state.rules < max_rules = ground (arith, room) in
    let longer : length (state.rules ++ rule ∷ []) ≡ length state.rules + 1 =
      length-append state.rules (rule ∷ []) in
    (
      omega (arith, longer),
      record {
        few_rules = omega (arith, longer, below);
        few_keywords = b.few_keywords;
        rules_fit = All-append RuleFits state.rules (rule ∷ []) b.rules_fit (fits, tt);
        keywords_fit =
            All-weaken (KeywordFits (length (state.rules ++ rule ∷ [])))
              (λ k.
                fits_more (length state.rules) (length (state.rules ++ rule ∷ [])) k
                  (omega (arith, longer)))
              state.keywords b.keywords_fit;
      },
    )

module _ (to_lower to_upper : Text → Text) (show : Value → Text) where
  add_keywords-IsBounded :
      (rule_id : ℕ) (case_sensitive : Bool) (values : List Value) (state : Building)
      → rule_id < length state.rules
      → IsBounded state
      → Ensures IsBounded (add_keywords to_lower to_upper show rule_id case_sensitive state values)
  unfolding add_keywords
  add_keywords-IsBounded rule_id case_sensitive [] state h b = Ensures-ok _ _ b
  add_keywords-IsBounded rule_id case_sensitive (value ∷ values) state h b =
      Ensures-refuse _ _ _ _ λ room. Ensures-refuse _ _ _ _ λ some_text.
        Ensures-bind _ _ _ λ counted eq.
          add_keywords-IsBounded rule_id case_sensitive values
            (append_keyword rule_id case_sensitive (to_str show value) counted state) h
            (append_keyword-IsBounded rule_id case_sensitive (to_str show value) counted state h
              room
              ((gram_counts-Ensures to_lower to_upper (to_str show value) max_arity
                  case_sensitive).at
                counted eq)
              b)

  module _ (decimal_of : Text → Option Decimal) (decisions : DecisionRoutes) where
    add_rule-IsBounded :
        (state : Building) (signal : Fields)
        → IsBounded state
        → Ensures IsBounded (add_rule to_lower to_upper show decimal_of decisions state signal)
    unfolding add_rule
    add_rule-IsBounded state signal b = Ensures-bind _ _ _ λ route q.
        Ensures-refuse _ _ _ _ λ known. Ensures-refuse _ _ _ _ λ operator.
          Ensures-bind _ _ _ λ arity q. Ensures-refuse _ _ _ _ λ three.
            Ensures-bind _ _ _ λ values q. Ensures-refuse _ _ _ _ λ some_value.
              Ensures-refuse _ _ _ _ λ room. Ensures-refuse _ _ _ _ λ same_case.
                Ensures-bind _ _ _ λ threshold q. Ensures-bind _ _ _ λ milli in_range.
                  Ensures-bind _ _ _ λ priority q.
                    (let grown =
                        append_rule-IsBounded _ state
                          (record {
                            at_most_one = (threshold_milli-le threshold).at milli in_range;
                            of_arity = refl;
                          })
                          room b in
                      add_keywords-IsBounded (length state.rules) _ values _ grown.0 grown.1)

    add_rules-IsBounded :
        (allow_other_methods : Bool) (signals : List Value) (state : Building)
        → IsBounded state
        → Ensures IsBounded (
            add_rules to_lower to_upper show decimal_of decisions allow_other_methods state signals)
    unfolding add_rules
    add_rules-IsBounded allow_other_methods [] state b = Ensures-ok _ _ b
    add_rules-IsBounded allow_other_methods (signal ∷ signals) state b =
        Ensures-bind _ _ _ λ fields q. Ensures-refuse _ _ _ _ λ allowed.
          Ensures-bind _ _ _ λ next grown.
            add_rules-IsBounded allow_other_methods signals next
              ((either_bounded _ state fields b).at next grown)
      where
        either_bounded :
            (other : Bool) (state : Building) (fields : Fields)
            → IsBounded state
            → Ensures IsBounded (
                if other
                then ok state
                else add_rule to_lower to_upper show decimal_of decisions state fields)
        either_bounded true state fields b = Ensures-ok _ _ b
        either_bounded false state fields b = add_rule-IsBounded state fields b

casefold_entries-le :
    (to_lower : Text → Text) (to_upper : Text → Text) (limit : ℕ) (texts : List Text)
    → Ensures (λ e. length e ≤ max_casefolds) (casefold_entries to_lower to_upper limit texts)
unfolding casefold_entries
casefold_entries-le to_lower to_upper limit texts =
    Ensures-refuse _ _ _ _ λ few. Ensures-ok _ _ (ground (arith, few))

parse_ngram-Ensures :
    (to_lower to_upper : Text → Text) (show : Value → Text) (decimal_of : Text → Option Decimal)
    (limit : ℕ) (policy : Fields) (allow_other_methods : Bool)
    → Ensures
        (λ p.
          (length p.0 ≤ max_rules)
          × (length p.1 ≤ max_keywords)
          × All RuleFits p.0
          × All (KeywordFits (length p.0)) p.1
          × (length p.2 ≤ max_casefolds))
        (parse_ngram to_lower to_upper show decimal_of limit policy allow_other_methods)
unfolding parse_ngram
parse_ngram-Ensures to_lower to_upper show decimal_of limit policy allow =
    Ensures-bind _ _ _ λ signals q. Ensures-bind _ _ _ λ decisions q.
      Ensures-bind _ _ _ λ built found. Ensures-bind _ _ _ λ casefolds folded.
        (let b =
            (add_rules-IsBounded to_lower to_upper show decimal_of decisions allow signals
                (nothing_built to_lower to_upper show decimal_of limit)
                (record {
                  few_rules = omega arith;
                  few_keywords = omega arith;
                  rules_fit = tt;
                  keywords_fit = tt;
                })).at
              built found in
          Ensures-ok _ _ (
            b.few_rules,
            b.few_keywords,
            b.rules_fit,
            b.keywords_fit,
            (casefold_entries-le to_lower to_upper limit built.insensitive_texts).at casefolds
                folded,
          ))

-- What the maps of the n-gram matcher are loaded with: at most 8 rules with thresholds of at most 1000
-- thousandths, at most 16 keywords of at most 32 grams, counted one by one, each of one of the rules, and
-- at most 128 case-fold entries.
pub parse_ngram-IsBounded :
    (to_lower to_upper : Text → Text) (show : Value → Text) (decimal_of : Text → Option Decimal)
    (limit : ℕ) (policy : Fields) (allow_other_methods : Bool) (rules : List Rule)
    (keywords : List Keyword) (casefolds : List (ℕ × ℕ))
    → parse_ngram to_lower to_upper show decimal_of limit policy allow_other_methods
      ≡ ok (rules, keywords, casefolds)
    → (length rules ≤ max_rules)
      × (length keywords ≤ max_keywords)
      × All RuleFits rules
      × All (KeywordFits (length rules)) keywords
      × (length casefolds ≤ max_casefolds)
parse_ngram-IsBounded to_lower to_upper show decimal_of limit policy allow rules keywords casefolds
      h =
    (parse_ngram-Ensures to_lower to_upper show decimal_of limit policy allow).at
      (rules, keywords, casefolds) h
