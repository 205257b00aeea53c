-- ===== src/Policy/Validate.antt =====
-- `validate_policy` of benchmarks/policy/generate_keyword_header.py.
pub mod Keywords
pub mod Order
pub mod Valid
use xsr.Prelude.{
  Bool, List, Option, Text, [], all, any, codes, contains, err, false, find_key, if◌then◌else◌,
  is_ascii, leb, lower, ltb_ℤ, non_empty, none, not, ok, refuse, some, starts_with, text_eq, true,
  upper, ℕ, ℤ, ◌&&◌, ◌++◌, ◌==◌, ◌||◌, ◌∷◌, ◌>>=◌, ◌>>◌,
}
use xsr.Policy.Values.{Fields, Value, flag, get, to_str, truthy, as_dict}
use xsr.Policy.Signals.{
  Checked, DecisionRoutes, bad_operator, duplicate_keyword, empty_keyword, get_default, get_int,
  get_list, get_str, keyword_not_ascii, keyword_not_printable, missing_keywords,
  mixed_case_sensitivity, regex_syntax, route_names, signal_route_name, unsupported_method,
  unsupported_route, decision_keyword_routes, keyword_signals, no_keyword_signals, or_raise,
  signal_not_object,
}

abbrev pub is_printable : ℕ → Bool
is_printable c = leb 32 c && leb c 126

abbrev one_of : Text → ℕ → Bool
one_of set c = any (λ x. x == c) set

-- `.^$*+?{}\[` and the backslash, the members of the pattern's first class.
abbrev pub is_meta : ℕ → Bool
is_meta = one_of (codes ".^$*+?{}\\[")

-- `re.search(r"[.^$*+?{}\\[\\]\\\\|()]", value)`. The class ends at its first `]`, so that the pattern
-- is: a member of the class and two backslashes, or else the empty group and a `]`.
unfoldable pub uses_regex_syntax : Text → Bool
uses_regex_syntax [] = false
uses_regex_syntax (c ∷ cs) =
    c == b']' || (is_meta c && starts_with cs (codes "\\\\")) || uses_regex_syntax cs

-- One keyword of a signal: the checks in their order, and the texts seen so far.
unfoldable pub check_keyword : (Value → Text) → Text → Bool → List Text → Value → Checked Text
unfolding uses_regex_syntax
check_keyword show method case_sensitive seen keyword =
    let value = to_str show keyword in
    let normalized = if case_sensitive then value else lower value in
    do
      refuse (not (non_empty value)) empty_keyword
      refuse (not (is_ascii value)) keyword_not_ascii
      refuse (not (all is_printable value)) keyword_not_printable
      refuse (text_eq method (codes "regex") && uses_regex_syntax value) regex_syntax
      refuse (contains seen normalized) duplicate_keyword
      ok normalized

-- The loop over the keywords: the clean keywords, which are also what is added to the texts seen.
unfoldable pub check_keywords :
    (Value → Text) → Text → Bool → List Text → List Value → Checked (List Text)
unfolding check_keyword
check_keywords show method case_sensitive seen [] = ok []
check_keywords show method case_sensitive seen (keyword ∷ keywords) = do
  normalized ← check_keyword show method case_sensitive seen keyword
  rest ← check_keywords show method case_sensitive (normalized ∷ seen) keywords
  ok (normalized ∷ rest)

-- A threshold is passed through: what the signal says, or the default of the code.
pub record Route : Type 0 where
  pub name : Text
  pub priority : ℤ
  pub keywords : List Text
  pub operator : Text
  pub method : Text
  pub ngram_arity : ℤ
  pub ngram_threshold : Option Value
  pub bm25_threshold : Option Value

abbrev pub operators : List Text
operators = codes "OR" ∷ codes "AND" ∷ codes "NOR" ∷ []

abbrev pub methods : List Text
methods = codes "literal" ∷ codes "exact" ∷ codes "regex" ∷ codes "bm25" ∷ codes "ngram" ∷ []

abbrev pub bool_eq : Bool → Bool → Bool
bool_eq true b = b
bool_eq false b = not b

-- `global_case_sensitive` after a signal, which must agree with the signals before it.
abbrev pub agrees : Option Bool → Bool → Bool
agrees none case_sensitive = true
agrees (some global) case_sensitive = bool_eq global case_sensitive

abbrev pub non_empty_list : Option (List Value) → Checked (List Value)
non_empty_list (some (k ∷ ks)) = ok (k ∷ ks)
non_empty_list _ = err missing_keywords

abbrev or_raise_empty : List Value → Checked (List Value)
or_raise_empty [] = err no_keyword_signals
or_raise_empty (v ∷ vs) = ok (v ∷ vs)

-- decision_priorities.get(signal_name, own)
abbrev pub get_priority : Option ℤ → ℤ → ℤ
get_priority none own = own
get_priority (some p) own = p

pub record Checking : Type 0 where
  pub seen_keywords : List Text
  pub global_case_sensitive : Option Bool
  pub routes : List Route

module _ (show : Value → Text) (decisions : DecisionRoutes) where
  -- The body of the loop over the signals.
  unfoldable pub check_signal : Checking → Fields → Checked Checking
  unfolding check_keywords
  check_signal state route = do
    name ← signal_route_name show route decisions.routes
    refuse (not (contains route_names name)) unsupported_route
    let signal_name = get_str show route (codes "name") name
    let operator = upper (get_str show route (codes "operator") (codes "OR"))
    refuse (not (contains operators operator)) bad_operator
    let method = lower (get_str show route (codes "method") (codes "regex"))
    refuse (not (contains methods method)) unsupported_method
    let case_sensitive = truthy (get_default (get route (codes "case_sensitive")) (flag false))
    refuse (not (agrees state.global_case_sensitive case_sensitive)) mixed_case_sensitivity
    keywords ← non_empty_list (get_list (get route (codes "keywords")))
    clean ← check_keywords show method case_sensitive state.seen_keywords keywords
    own_priority ← get_int show route (codes "priority") 0
    arity ← get_int show route (codes "ngram_arity") 3
    ok (record {
      seen_keywords = clean ++ state.seen_keywords;
      global_case_sensitive = some case_sensitive;
      routes =
          state.routes
          ++ record {
            name = name;
            priority = get_priority (find_key decisions.priorities signal_name) own_priority;
            keywords = clean;
            operator = operator;
            method = method;
            ngram_arity = arity;
            ngram_threshold = get route (codes "ngram_threshold");
            bm25_threshold = get route (codes "bm25_threshold");
          }
            ∷ [];
    })

  unfoldable pub check_signals : Checking → List Value → Checked Checking
  unfolding check_signal
  check_signals state [] = ok state
  check_signals state (signal ∷ signals) = do
    route ← or_raise (as_dict signal) signal_not_object
    state' ← check_signal state route
    check_signals state' signals

-- `sort(key=priority, reverse=True)`, which is stable: among equal priorities the order stays.
unfoldable pub insert_route : Route → List Route → List Route
insert_route r [] = r ∷ []
insert_route r (s ∷ routes) =
    if ltb_ℤ r.priority s.priority then s ∷ insert_route r routes else r ∷ s ∷ routes

unfoldable pub sort_routes : List Route → List Route
unfolding insert_route
sort_routes [] = []
sort_routes (r ∷ routes) = insert_route r (sort_routes routes)

abbrev pub start : Checking
start = record { seen_keywords = []; global_case_sensitive = none; routes = [] }

abbrev pub is_true : Option Bool → Bool
is_true none = false
is_true (some b) = b

unfoldable pub validate_policy : (Value → Text) → Fields → Checked (Bool × List Route)
unfolding check_signals sort_routes
validate_policy show policy = do
  raw_routes ← keyword_signals policy
  signals ← or_raise_empty raw_routes
  decisions ← decision_keyword_routes show policy
  state ← check_signals show decisions start signals
  ok (is_true state.global_case_sensitive, sort_routes state.routes)
