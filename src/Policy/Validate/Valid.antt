-- ===== src/Policy/Validate/Valid.antt =====
-- What `validate_policy` promises of the routes that it returns.
use xsr.Prelude.{
  All, All-append, All-weaken, Bool, DistinctTexts, Ensures, Ensures-bind, Ensures-ok,
  Ensures-refuse, List, Option, Text, [], arith, contains, contains-++, false, members, not, ok,
  refl, text_eq_iff, true, ◌++◌, ◌∷◌, ◌≡◌,
}
use xsr.Policy.Validate.Order.{
  Descending, Pairs, Pairs-snoc, sort_routes-All, sort_routes-Descending, sort_routes-Pairs,
}
use xsr.Policy.Values.{Fields, Value}
use xsr.Policy.Validate.Keywords.{IsKeyword, check_keywords-AreClean}
use xsr.Policy.Signals.{route_names, DecisionRoutes}
use xsr.Policy.Validate.{
  Route, methods, operators, Checking, check_signal, check_signals, start, validate_policy,
}

-- A route of the policy: one of the four routes, a known operator and method, and keywords that are
-- well formed and distinct.
pub record IsRoute (r : Route) : Type 0 where
  pub known_route : contains route_names r.name ≡ true
  pub known_operator : contains operators r.operator ≡ true
  pub known_method : contains methods r.method ≡ true
  pub well_formed : All IsKeyword r.keywords
  pub distinct : DistinctTexts r.keywords

-- Two routes share no keyword.
abbrev pub Disjoint : Route → Route → Type 0
Disjoint r s = All (λ k. contains s.keywords k ≡ false) r.keywords

not_in :
    (xs ys : List Text) (y : Text)
    → contains ys y ≡ true
    → All (λ x. contains ys x ≡ false) xs
    → contains xs y ≡ false
unfolding contains
not_in [] ys y m h = refl
not_in (x ∷ xs) ys y m h = ground (arith, m, h.0, text_eq_iff x y, not_in xs ys y m h.1)

Disjoint-symm : (r s : Route) → Disjoint r s → Disjoint s r
Disjoint-symm r s h =
    All-weaken (λ k. contains r.keywords k ≡ false) (λ k m. not_in r.keywords s.keywords k m h)
      s.keywords (members s.keywords)

-- What holds between two signals of the loop: the keywords of the routes are the texts seen.
record IsChecked (state : Checking) : Type 0 where
  are_routes : All IsRoute state.routes
  disjoint : Pairs Disjoint state.routes
  seen : All (λ r. All (λ k. contains state.seen_keywords k ≡ true) r.keywords) state.routes

grow :
    (clean seen : List Text) (r : Route)
    → All (λ k. contains seen k ≡ true) r.keywords
    → All (λ k. contains (clean ++ seen) k ≡ true) r.keywords
grow clean seen r =
    All-weaken (λ k. contains (clean ++ seen) k ≡ true)
      (λ k e. ground (arith, e, contains-++ clean seen k)) r.keywords

-- One more route, whose keywords are new.
add_route-IsChecked :
    (state : Checking) (r : Route) (sensitive : Option Bool)
    → IsChecked state
    → IsRoute r
    → All (λ k. contains state.seen_keywords k ≡ false) r.keywords
    → IsChecked (record {
      seen_keywords = r.keywords ++ state.seen_keywords;
      global_case_sensitive = sensitive;
      routes = state.routes ++ r ∷ [];
    })
add_route-IsChecked state r sensitive h is_route new = record {
  are_routes = All-append IsRoute state.routes (r ∷ []) h.are_routes (is_route, tt);
  disjoint = Pairs-snoc Disjoint Disjoint-symm state.routes r h.disjoint (
      All-weaken (λ s. Disjoint s r)
        (λ s inside.
          All-weaken (λ k. contains r.keywords k ≡ false)
            (λ k m. not_in r.keywords state.seen_keywords k m new) s.keywords inside)
        state.routes h.seen);
  seen =
      All-append (λ s. All (λ k. contains (r.keywords ++ state.seen_keywords) k ≡ true) s.keywords)
        state.routes (r ∷ [])
        (All-weaken
          (λ s. All (λ k. contains (r.keywords ++ state.seen_keywords) k ≡ true) s.keywords)
          (λ s. grow r.keywords state.seen_keywords s) state.routes h.seen)
        (
          All-weaken (λ k. contains (r.keywords ++ state.seen_keywords) k ≡ true)
              (λ k m. ground (arith, m, contains-++ r.keywords state.seen_keywords k)) r.keywords
              (members r.keywords),
          tt,
        );
}

accepted : (b : Bool) → not b ≡ false → b ≡ true
accepted true h = refl
accepted false h = cc

module _ (show : Value → Text) (decisions : DecisionRoutes) where
  check_signal-IsChecked :
      (state : Checking) (route : Fields)
      → IsChecked state
      → Ensures IsChecked (check_signal show decisions state route)
  unfolding check_signal
  check_signal-IsChecked state route h = Ensures-bind _ _ _ λ name named.
      Ensures-refuse _ _ _ _ λ known_route. Ensures-refuse _ _ _ _ λ known_operator.
        Ensures-refuse _ _ _ _ λ known_method. Ensures-refuse _ _ _ _ λ same_case.
          Ensures-bind _ _ _ λ keywords listed. Ensures-bind _ _ _ λ clean checked.
            Ensures-bind _ _ _ λ priority _. Ensures-bind _ _ _ λ arity _.
              (let facts =
                  (check_keywords-AreClean show _ _ keywords state.seen_keywords).at clean
                    checked in
                Ensures-ok _ _ (
                  add_route-IsChecked state _ _ h
                    (record {
                      known_route = accepted _ known_route;
                      known_operator = accepted _ known_operator;
                      known_method = accepted _ known_method;
                      well_formed = facts.0;
                      distinct = facts.1;
                    })
                    facts.2))

  check_signals-IsChecked :
      (signals : List Value) (state : Checking)
      → IsChecked state
      → Ensures IsChecked (check_signals show decisions state signals)
  unfolding check_signals
  check_signals-IsChecked [] state h = Ensures-ok _ _ h
  check_signals-IsChecked (signal ∷ signals) state h = Ensures-bind _ _ _ λ route is_object.
      Ensures-bind _ _ _ λ state' stepped.
        check_signals-IsChecked signals state'
          ((check_signal-IsChecked state route h).at state' stepped)

start-IsChecked : IsChecked start
start-IsChecked = record { are_routes = tt; disjoint = tt; seen = tt }

-- A policy: well-formed routes in descending order of priority, no two of which share a keyword.
pub record IsPolicy (routes : List Route) : Type 0 where
  pub are_routes : All IsRoute routes
  pub descending : Descending routes
  pub disjoint : Pairs Disjoint routes

-- Every policy that `validate_policy` accepts has known routes, operators and methods, keywords that
-- are printable ASCII, not empty, and distinct within and across its routes, and its routes stand in
-- descending order of priority.
pub validate_policy-IsPolicy :
    (show : Value → Text) (policy : Fields) (case_sensitive : Bool) (routes : List Route)
    → validate_policy show policy ≡ ok (case_sensitive, routes)
    → IsPolicy routes
unfolding validate_policy
validate_policy-IsPolicy show policy case_sensitive routes h = (steps.at (case_sensitive, routes) h)
  where
    steps : Ensures (λ r. IsPolicy r.1) (validate_policy show policy)
    steps = Ensures-bind _ _ _ λ raw found. Ensures-bind _ _ _ λ signals some_signal.
        Ensures-bind _ _ _ λ decisions decided. Ensures-bind _ _ _ λ state checked.
          (let valid =
              (check_signals-IsChecked show decisions signals start start-IsChecked).at state
                checked in
            Ensures-ok _ _ (record {
              are_routes = sort_routes-All IsRoute state.routes valid.are_routes;
              descending = sort_routes-Descending state.routes;
              disjoint = sort_routes-Pairs Disjoint Disjoint-symm state.routes valid.disjoint;
            }))
