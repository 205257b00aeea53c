-- ===== src/Tests/Profiles.antt =====
-- The module selection, on a policy of two n-gram signals of one priority. No text of it is a container.
use xsr.Prelude.{
  List, Text, [], codes, contains, eq_ℤ, err, false, find_key, get_elem?, lower_char, none, ok, pos,
  refl, some, text_eq, true, ◌>>=◌, ◌∷◌, ◌≡◌,
}
use xsr.Modules.Priorities.{methods_of-shared_priority}
use xsr.Policy.Values.{
  Fields, Value, dict, end, field, from_list, get, list, num, text, to_int, to_str, truthy,
}
use xsr.Policy.Signals.{DecisionRoutes, decision_keyword_routes, get_int, get_str, keyword_signals}
use xsr.Modules.{
  check_priorities, dict_signals, find_priority, from_policy, methods_of, resolve_profile,
  selected_methods, set_default, signal_method, signal_priority, named, no_selection, only_methods,
  selection_flags,
}
use Prim.Native.String.{String}

abbrev as_text : Value → Text
as_text v = []

abbrev ngram_fields : String → Fields
ngram_fields name =
    field (codes "name") (text (codes name))
      (field (codes "priority") (num (pos 3)) (field (codes "method") (text (codes "NGRAM")) end))

abbrev ngram_signals : List Value
ngram_signals = dict (ngram_fields "math_a") ∷ dict (ngram_fields "code_b") ∷ []

abbrev ngram_policy : Fields
ngram_policy = field (codes "routes") (list (from_list ngram_signals)) end

abbrev no_decisions : DecisionRoutes
no_decisions = record { routes = []; priorities = [] }

ngram_methods : methods_of as_text ngram_policy ≡ ok (codes "ngram" ∷ [])
unfolding methods_of selected_methods signal_method check_priorities signal_priority set_default
    find_priority eq_ℤ dict_signals from_policy keyword_signals decision_keyword_routes get truthy
    to_str to_int get_str get_int text_eq contains find_key lower_char ◌>>=◌
ngram_methods = refl

ngram_found : keyword_signals ngram_policy ≡ ok ngram_signals
unfolding keyword_signals get truthy text_eq ◌>>=◌
ngram_found = refl

no_decisions_found : decision_keyword_routes as_text ngram_policy ≡ ok no_decisions
unfolding decision_keyword_routes get truthy text_eq ◌>>=◌
no_decisions_found = refl

ngram_priority :
    (name : String)
    → signal_priority as_text no_decisions.priorities (ngram_fields name) ≡ ok (pos 3)
unfolding signal_priority from_policy get_int get_str get to_int text_eq find_key ◌>>=◌
ngram_priority name = refl

auto_resolved :
    resolve_profile as_text ngram_policy (codes "auto") ≡ ok (codes "ngram", codes "ngram" ∷ [])
unfolding resolve_profile ◌>>=◌ contains text_eq
auto_resolved = rw ngram_methods refl

first_signal : get_elem? (dict_signals ngram_signals) 0 ≡ some (ngram_fields "math_a")
unfolding dict_signals
first_signal = refl

second_signal : get_elem? (dict_signals ngram_signals) 1 ≡ some (ngram_fields "code_b")
unfolding dict_signals
second_signal = refl

methods_of-shared_priority_example :
    signal_method as_text (ngram_fields "math_a") ≡ signal_method as_text (ngram_fields "code_b")
methods_of-shared_priority_example =
    methods_of-shared_priority as_text ngram_policy (codes "ngram" ∷ []) ngram_signals no_decisions
      ngram_methods ngram_found no_decisions_found 0 1 (ngram_fields "math_a")
      (ngram_fields "code_b") (pos 3) first_signal second_signal (ngram_priority "math_a")
      (ngram_priority "code_b")

set_in_place_of_profile :
    selection_flags (only_methods (codes "bm25" ∷ [])) none false none
    ≡ ok (record {
      enable_ngram = false;
      enable_bm25 = true;
      enable_distill = false;
      parity_debug = false;
    })
unfolding selection_flags text_eq contains
set_in_place_of_profile = refl

profile_without_methods : selection_flags (named (codes "ngram")) none false none ≡ err no_selection
unfolding selection_flags
profile_without_methods = refl
