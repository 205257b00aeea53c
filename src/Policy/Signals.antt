-- ===== src/Policy/Signals.antt =====
-- `keyword_signals`, `decision_keyword_routes`, `signal_route_name` and `validate_policy` of
-- benchmarks/policy/generate_keyword_header.py. A policy is a dict. `show` is Python's `repr` of a
-- list or a dict.
use xsr.Prelude.{
  List, Option, Result, Text, [], codes, contains, err, find_key, if◌then◌else◌, non_empty, none,
  ok, pos, some, starts_with, text_eq, ℕ, ℤ, ◌&&◌, ◌||◌, ◌∷◌, ◌>>=◌,
}
use xsr.Policy.Values.{Fields, Value, as_dict, as_list, to_int, to_str, get, num, text, truthy}

-- Each `raise` of the module, and what Python raises where `int` meets a value that it cannot read.
pub data PolicyError : Type 0 where
  no_keyword_signals signal_not_object missing_route unsupported_route bad_operator : PolicyError
  unsupported_method mixed_case_sensitivity missing_keywords empty_keyword : PolicyError
  keyword_not_ascii keyword_not_printable regex_syntax duplicate_keyword bad_integer : PolicyError

abbrev pub Checked : Type 0 → Type 0
Checked = Result PolicyError

-- `dict.get(key)` where the dict itself may be missing or something else.
abbrev pub get_dict : Option Value → Option Fields
get_dict none = none
get_dict (some value) = as_dict value

abbrev pub get_list : Option Value → Option (List Value)
get_list none = none
get_list (some value) = as_list value

abbrev pub chain {ℓ} : {A B : Type ℓ} → Option A → (A → Option B) → Option B
chain none f = none
chain (some a) f = f a

abbrev pub or_raise : {A : Type 0} → Option A → PolicyError → Checked A
or_raise (some a) e = ok a
or_raise none e = err e

abbrev pub first_some {ℓ} : {A : Type ℓ} → Option A → Option A → Option A
first_some (some a) b = some a
first_some none b = b

-- `routing.signals.keywords`, and `routes` of older policies.
unfoldable pub keyword_signals : Fields → Checked (List Value)
unfolding get
keyword_signals policy =
    or_raise
      (first_some
        (chain (get_dict (get policy (codes "routing"))) λ routing.
          chain (get_dict (get routing (codes "signals")))
            λ signals. get_list (get signals (codes "keywords")))
        (get_list (get policy (codes "routes"))))
      no_keyword_signals

abbrev pub route_names : List Text
route_names = codes "coding" ∷ codes "math" ∷ codes "qa" ∷ codes "writing" ∷ []

-- A Python dict with text keys, the latest entry of a key first.
abbrev pub Table : Type 0 → Type 0
Table V = List (Text × V)

abbrev pub get_default : Option Value → Value → Value
get_default (some v) d = v
get_default none d = d

-- The two dicts of `decision_keyword_routes`.
pub record DecisionRoutes : Type 0 where
  pub routes : Table Text
  pub priorities : Table ℤ

module _ (show : Value → Text) where
  -- str(fields.get(key, default))
  unfoldable pub get_str : Fields → Text → Text → Text
  unfolding get to_str
  get_str fields key default = to_str show (get_default (get fields key) (text default))

  -- int(fields.get(key, default))
  unfoldable pub get_int : Fields → Text → ℕ → Checked ℤ
  unfolding get to_int
  get_int fields key default =
      or_raise (to_int (get_default (get fields key) (num (pos default)))) bad_integer

  -- One condition: a keyword condition with a name assigns the route and the priority.
  unfoldable pub add_condition : Text → ℤ → DecisionRoutes → Option Fields → DecisionRoutes
  unfolding get_str
  add_condition name priority table none = table
  add_condition name priority table (some condition) =
      let signal = get_str condition (codes "name") [] in
      if text_eq (get_str condition (codes "type") []) (codes "keyword") && non_empty signal
      then record {
        routes = (signal, name) ∷ table.routes;
        priorities = (signal, priority) ∷ table.priorities;
      }
      else table

  unfoldable pub add_conditions : Text → ℤ → DecisionRoutes → List Value → DecisionRoutes
  unfolding add_condition
  add_conditions name priority table [] = table
  add_conditions name priority table (condition ∷ conditions) =
      add_conditions name priority (add_condition name priority table (as_dict condition))
        conditions

  -- `rules.conditions` of a decision; anything that is missing or of another type skips it.
  abbrev pub conditions_of : Fields → List Value
  conditions_of decision =
      elim (chain (get_dict (get decision (codes "rules")))
        λ rules. get_list (get rules (codes "conditions"))) [
          | none ↦ []
          | some conditions ↦ conditions
        ]

  unfoldable pub add_decision : DecisionRoutes → Option Fields → Checked DecisionRoutes
  unfolding add_conditions
  add_decision table none = ok table
  add_decision table (some decision) =
      let name = get_str decision (codes "name") [] in
      if contains route_names name
      then (do
        priority ← get_int decision (codes "priority") 0
        ok (add_conditions name priority table (conditions_of decision)))
      else ok table

  unfoldable pub add_decisions : DecisionRoutes → List Value → Checked DecisionRoutes
  unfolding add_decision
  add_decisions table [] = ok table
  add_decisions table (decision ∷ decisions) = do
    table' ← add_decision table (as_dict decision)
    add_decisions table' decisions

  unfoldable pub decision_keyword_routes : Fields → Checked DecisionRoutes
  unfolding add_decisions
  decision_keyword_routes policy =
      elim (chain (get_dict (get policy (codes "routing")))
        λ routing. get_list (get routing (codes "decisions"))) [
          | none ↦ ok (record { routes = []; priorities = [] })
          | some decisions ↦ add_decisions (record { routes = []; priorities = [] }) decisions
        ]

  unfoldable pub route_of_prefix : Text → Checked Text
  route_of_prefix name =
      if starts_with name (codes "code_") || starts_with name (codes "coding_")
      then ok (codes "coding")
      else if starts_with name (codes "math_")
      then ok (codes "math")
      else if starts_with name (codes "qa_")
      then ok (codes "qa")
      else if starts_with name (codes "writing_")
      then ok (codes "writing")
      else err missing_route

  abbrev pub ok_or : {A : Type 0} → Option A → Checked A → Checked A
  ok_or (some a) r = ok a
  ok_or none r = r

  abbrev pub if_truthy : Option Value → Option Value
  if_truthy none = none
  if_truthy (some v) = if truthy v then some v else none

  unfoldable pub signal_route_name : Fields → Table Text → Checked Text
  unfolding route_of_prefix get_str
  signal_route_name signal decision_routes = elim (if_truthy (get signal (codes "route"))) [
    | some route ↦ ok (to_str show route)
    | none ↦
        ok_or (find_key decision_routes (get_str signal (codes "name") []))
          (route_of_prefix (get_str signal (codes "name") []))
  ]
