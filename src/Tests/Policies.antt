-- ===== src/Tests/Policies.antt =====
-- The policy checks, on a policy of two signals. No text of it is a container.
use xsr.Prelude.{
  List, Text, [], codes, contains, false, find_key, lower_char, none, ok, pos, refl, starts_with,
  text_eq, true, upper_char, ℕ, ◌>>=◌, ◌∷◌, ◌≡◌,
}
use Prim.Native.String.{String}
use xsr.Policy.Validate.Keywords.{check_keyword-regex_syntax}
use xsr.Policy.Validate.Valid.{IsPolicy, validate_policy-IsPolicy}
use xsr.Policy.Validate.Order.{Descending, sort_routes-stable, with_priority}
use xsr.Policy.Values.{
  Fields, Value, dict, end, field, get, item, list, nil, num, text, to_int, to_str, truthy,
}
use xsr.Policy.Signals.{
  decision_keyword_routes, get_int, get_str, keyword_signals, route_of_prefix, signal_route_name,
}
use xsr.Policy.Validate.{
  Route, check_keyword, check_keywords, check_signal, check_signals, insert_route, sort_routes,
  uses_regex_syntax, validate_policy,
}

abbrev shown : Value → Text
shown v = []

abbrev signal : String → ℕ → String → Value
signal name priority keyword = dict (
    field (codes "name") (text (codes name)) (
      field (codes "priority") (num (pos priority))
        (field (codes "keywords") (list (item (text (codes keyword)) nil)) end)))

abbrev sample_policy : Fields
sample_policy =
    field (codes "routes")
      (list (item (signal "math_sum" 1 "Integral") (item (signal "code_py" 5 "a.*b") nil))) end

abbrev sample_route : String → ℕ → String → Route
sample_route name priority keyword = record {
  name = codes name;
  priority = pos priority;
  keywords = codes keyword ∷ [];
  operator = codes "OR";
  method = codes "regex";
  ngram_arity = pos 3;
  ngram_threshold = none;
  bm25_threshold = none;
}

abbrev sample_routes : List Route
sample_routes = sample_route "coding" 5 "a.*b" ∷ sample_route "math" 1 "integral" ∷ []

sample_accepted : validate_policy shown sample_policy ≡ ok (false, sample_routes)
unfolding validate_policy keyword_signals decision_keyword_routes signal_route_name get truthy
    to_str to_int get_str get_int route_of_prefix check_signals check_signal check_keywords
    check_keyword uses_regex_syntax sort_routes insert_route text_eq contains starts_with find_key
    lower_char upper_char ◌>>=◌
sample_accepted = refl

validate_policy-IsPolicy_example : IsPolicy sample_routes
validate_policy-IsPolicy_example =
    validate_policy-IsPolicy shown sample_policy false sample_routes sample_accepted

sort_routes-stable_example :
    Descending (sort_routes sample_routes)
    × (with_priority (pos 5) (sort_routes sample_routes) ≡ with_priority (pos 5) sample_routes)
sort_routes-stable_example = sort_routes-stable sample_routes (pos 5)

check_keyword-regex_syntax_example :
    check_keyword shown (codes "regex") true [] (text (codes "a.*(b|c)?")) ≡ ok (codes "a.*(b|c)?")
unfolding contains
check_keyword-regex_syntax_example =
    check_keyword-regex_syntax shown true [] (codes "a.*(b|c)?") (refl, refl) refl refl refl
