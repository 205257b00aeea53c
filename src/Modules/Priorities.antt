-- ===== src/Modules/Priorities.antt =====
-- Signals of one priority share their method.
use xsr.Prelude.{
  All, Bool-cases, Ensures, Ensures-bind, Ensures-ok, Ensures-refuse, List, Option-cases, Text, [],
  ap, arith, eq_ℤ, eq_ℤ_refl, get_elem?, inl, inr, none, ok, refl, some, subst, suc, sym,
  text_eq_iff, zero, ℕ, ℤ, ◌++◌, ◌∙◌, ◌∷◌, ◌≡◌,
}
use xsr.Policy.Values.{Fields, Value}
use xsr.Policy.Signals.{Table, DecisionRoutes, decision_keyword_routes, keyword_signals, Checked}
use xsr.Modules.{
  PriorityMethods, find_priority, check_priorities, set_default, signal_method, signal_priority,
  dict_signals, methods_of, from_policy,
}

find-append_new :
    (table : PriorityMethods) (p : ℤ) (method : Text)
    → find_priority table p ≡ none
    → find_priority (table ++ (p, method) ∷ []) p ≡ some method
unfolding find_priority
find-append_new [] p method h = rw (eq_ℤ_refl p) refl
find-append_new ((q, m) ∷ table) p method h = elim (Bool-cases (eq_ℤ q p)) [
  | inl e ↦ (let k : some m ≡ none = rw e at h in cc)
  | inr e ↦ rw e (find-append_new table p method (rw e at h))
]

find-append_old :
    (table : PriorityMethods) (p q : ℤ) (method m : Text)
    → find_priority table q ≡ some m
    → find_priority (table ++ (p, method) ∷ []) q ≡ some m
unfolding find_priority
find-append_old [] p q method m h = cc
find-append_old ((r, n) ∷ table) p q method m h = elim (Bool-cases (eq_ℤ r q)) [
  | inl e ↦ rw e (rw e at h)
  | inr e ↦ rw e (find-append_old table p q method m (rw e at h))
]

-- After `setdefault` the priority has the value returned, and the others what they had.
set_default-found :
    (table : PriorityMethods) (p : ℤ) (method : Text)
    → find_priority (set_default table p method).0 p ≡ some (set_default table p method).1
unfolding set_default
set_default-found table p method = elim (Option-cases (find_priority table p)) [
  | inl e ↦ rw e (find-append_new table p method e)
  | inr (previous, e) ↦ rw e e
]

set_default-keeps :
    (table : PriorityMethods) (p q : ℤ) (method m : Text)
    → find_priority table q ≡ some m
    → find_priority (set_default table p method).0 q ≡ some m
unfolding set_default
set_default-keeps table p q method m h = elim (Option-cases (find_priority table p)) [
  | inl e ↦ rw e (find-append_old table p q method m h)
  | inr (previous, e) ↦ rw e h
]

module _ (show : Value → Text) (priorities : Table ℤ) where
  -- The table gives the priority of the signal the signal's method.
  abbrev pub IsEntered : PriorityMethods → Fields → Type 0
  IsEntered table s =
      (p : ℤ) × (signal_priority show priorities s ≡ ok p)
      × (find_priority table p ≡ some (signal_method show s))

  check_priorities-keeps :
      (table : PriorityMethods) (signals : List Fields) (q : ℤ) (m : Text)
      → find_priority table q ≡ some m
      → Ensures
          (λ after. find_priority after q ≡ some m)
          (check_priorities show priorities table signals)
  unfolding check_priorities
  check_priorities-keeps table [] q m h = Ensures-ok _ _ h
  check_priorities-keeps table (s ∷ signals) q m h = Ensures-bind _ _ _ λ p found.
      Ensures-refuse _ _ _ _ λ same.
        check_priorities-keeps (set_default table p (signal_method show s)).0 signals q m
          (set_default-keeps table p q (signal_method show s) m h)

  check_priorities-IsEntered :
      (table : PriorityMethods) (signals : List Fields)
      → Ensures
          (λ after. All (IsEntered after) signals)
          (check_priorities show priorities table signals)
  unfolding check_priorities
  check_priorities-IsEntered table [] = Ensures-ok _ _ tt
  check_priorities-IsEntered table (s ∷ signals) = Ensures-bind _ _ _ λ p found.
      Ensures-refuse _ _ _ _ λ same.
        (let entry = set_default table p (signal_method show s) in
          let method : entry.1 ≡ signal_method show s =
            (text_eq_iff entry.1 (signal_method show s)).0 (ground (arith, same)) in
          record {
            at = λ after q. (
              (
                p,
                found,
                (check_priorities-keeps entry.0 signals p (signal_method show s)
                      (set_default-found table p (signal_method show s) ∙ ap some method)).at
                    after q,
              ),
              (check_priorities-IsEntered entry.0 signals).at after q,
            );
          })

from_policy-eq : {A : Type 0} (m : Checked A) (a b : A) → m ≡ ok a → from_policy m ≡ ok b → a ≡ b
unfolding from_policy
from_policy-eq m a b h k = (let e : from_policy (ok a) ≡ ok b = rw h at k in cc)

-- What is checked when the methods are accepted.
methods_of-IsEntered :
    (show : Value → Text) (policy : Fields) (signals : List Value) (decisions : DecisionRoutes)
    → keyword_signals policy ≡ ok signals
    → decision_keyword_routes show policy ≡ ok decisions
    → Ensures
        (λ selected.
          (after : PriorityMethods) × All
            (IsEntered show decisions.priorities after)
            (dict_signals signals))
        (methods_of show policy)
unfolding methods_of
methods_of-IsEntered show policy signals decisions k d = Ensures-bind _ _ _ λ sig eq.
    rw (← from_policy-eq (keyword_signals policy) signals sig k eq) (
      Ensures-refuse _ _ _ _ λ known. Ensures-refuse _ _ _ _ λ some_method.
        Ensures-bind _ _ _ λ dec deq. Ensures-bind _ _ _ λ table teq. Ensures-ok _ _ (
          table,
          subst (λ x. All (IsEntered show x.priorities table) (dict_signals signals))
              (sym (from_policy-eq (decision_keyword_routes show policy) decisions dec d deq))
              ((check_priorities-IsEntered show dec.priorities [] (dict_signals signals)).at table
                teq),
        ))

All-get_elem? :
    (P : Fields → Type 0) (xs : List Fields) (i : ℕ) (x : Fields)
    → All P xs
    → get_elem? xs i ≡ some x
    → P x
All-get_elem? P [] i x h q = cc
All-get_elem? P (y ∷ xs) zero x h q = (let same : y ≡ x = cc in subst P same h.0)
All-get_elem? P (y ∷ xs) (suc i) x h q = All-get_elem? P xs i x h.1 q

-- In a policy whose methods are accepted, two signals of one priority have one method: the priority of
-- each is its decision's or else its own.
pub methods_of-shared_priority :
    (show : Value → Text) (policy : Fields) (selected : List Text) (signals : List Value)
    (decisions : DecisionRoutes)
    → methods_of show policy ≡ ok selected
    → keyword_signals policy ≡ ok signals
    → decision_keyword_routes show policy ≡ ok decisions
    → (i j : ℕ) (s r : Fields) (p : ℤ) → get_elem? (dict_signals signals) i ≡ some s
    → get_elem? (dict_signals signals) j ≡ some r
    → signal_priority show decisions.priorities s ≡ ok p
    → signal_priority show decisions.priorities r ≡ ok p
    → signal_method show s ≡ signal_method show r
methods_of-shared_priority show policy selected signals decisions h k d i j s r p hs hr ps pr =
    let checked = (methods_of-IsEntered show policy signals decisions k d).at selected h in
    let entered = IsEntered show decisions.priorities checked.0 in
    let first = All-get_elem? entered (dict_signals signals) i s checked.1 hs in
    let second = All-get_elem? entered (dict_signals signals) j r checked.1 hr in
    let p_first : first.0 ≡ p = cc (first.1, ps) in
    let p_second : second.0 ≡ p = cc (second.1, pr) in cc (first.2, second.2, p_first, p_second)
