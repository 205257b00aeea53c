-- ===== src/Modules.antt =====
-- benchmarks/policy/generate_policy_modules.py: which keyword modules a policy selects. A policy is what
-- `load_policy` returns.
pub mod Priorities
pub mod Selection
use xsr.Prelude.{
  Bool, List, Option, Result, Text, [], all, codes, contains, eq_ℤ, err, false, find_key,
  if◌then◌else◌, lower, none, not, ok, refuse, some, text_eq, true, ℤ, ◌&&◌, ◌++◌, ◌||◌, ◌∷◌, ◌>>=◌,
  ◌>>◌,
}
use xsr.Policy.Validate.{get_priority}
use xsr.Policy.Values.{Fields, Value, dict}
use xsr.Policy.Signals.{
  Checked, PolicyError, Table, decision_keyword_routes, get_int, get_str, keyword_signals,
}

pub data ModuleError : Type 0 where
  policy_error : PolicyError → ModuleError
  unsupported_methods no_methods shared_priority unknown_profile contradicting_profile : ModuleError
  mixed_without_method parity_profile no_selection : ModuleError

unfoldable pub from_policy : {A : Type 0} → Checked A → Result ModuleError A
from_policy (ok a) = ok a
from_policy (err e) = err (policy_error e)

-- SUPPORTED
abbrev pub supported : List Text
supported = codes "ngram" ∷ codes "bm25" ∷ []

-- PROFILES
abbrev pub profiles : List Text
profiles = codes "auto" ∷ codes "ngram" ∷ codes "bm25" ∷ codes "intent" ∷ codes "mixed" ∷ []

-- The signals that are dicts.
unfoldable pub dict_signals : List Value → List Fields
dict_signals [] = []
dict_signals (dict fields ∷ vs) = fields ∷ dict_signals vs
dict_signals (_ ∷ vs) = dict_signals vs

-- A set, as the list of its members.
abbrev pub add_member : Text → List Text → List Text
add_member x xs = if contains xs x then xs else x ∷ xs

abbrev pub has_member : List Text → Bool
has_member [] = false
has_member (x ∷ xs) = true

-- priority_methods
abbrev pub PriorityMethods : Type 0
PriorityMethods = List (ℤ × Text)

unfoldable pub find_priority : PriorityMethods → ℤ → Option Text
find_priority [] priority = none
find_priority ((p, method) ∷ table) priority =
    if eq_ℤ p priority then some method else find_priority table priority

abbrev pub default_entry : PriorityMethods → ℤ → Text → Option Text → PriorityMethods × Text
default_entry table priority method (some previous) = (table, previous)
default_entry table priority method none = (table ++ (priority, method) ∷ [], method)

-- priority_methods.setdefault(priority, method), the new table and the value
unfoldable pub set_default : PriorityMethods → ℤ → Text → PriorityMethods × Text
unfolding find_priority
set_default table priority method =
    default_entry table priority method (find_priority table priority)

-- The only method, or "mixed".
abbrev pub inferred_profile : List Text → Text
inferred_profile (m ∷ []) = m
inferred_profile _ = codes "mixed"

module _ (show : Value → Text) where
  unfoldable pub signal_method : Fields → Text
  signal_method signal = lower (get_str show signal (codes "method") [])

  unfoldable pub selected_methods : List Fields → List Text
  unfolding signal_method
  selected_methods [] = []
  selected_methods (s ∷ signals) = add_member (signal_method s) (selected_methods signals)

  unfoldable pub signal_priority : Table ℤ → Fields → Result ModuleError ℤ
  signal_priority priorities signal = do
    own ← from_policy (get_int show signal (codes "priority") 0)
    ok (get_priority (find_key priorities (get_str show signal (codes "name") [])) own)

  -- The second loop of `methods`.
  unfoldable pub check_priorities :
      Table ℤ → PriorityMethods → List Fields → Result ModuleError PriorityMethods
  unfolding signal_priority signal_method set_default
  check_priorities priorities table [] = ok table
  check_priorities priorities table (s ∷ signals) = do
    priority ← signal_priority priorities s
    let found = set_default table priority (signal_method s)
    refuse (not (text_eq found.1 (signal_method s))) shared_priority
    check_priorities priorities found.0 signals

  unfoldable pub methods_of : Fields → Result ModuleError (List Text)
  unfolding dict_signals selected_methods check_priorities
  methods_of policy = do
    signals ← from_policy (keyword_signals policy)
    let selected = selected_methods (dict_signals signals)
    refuse (not (all (contains supported) selected)) unsupported_methods
    refuse (not (has_member selected)) no_methods
    decisions ← from_policy (decision_keyword_routes show policy)
    table ← check_priorities decisions.priorities [] (dict_signals signals)
    ok selected

  -- `selected != {effective}`
  abbrev pub is_only : Text → List Text → Bool
  is_only effective (m ∷ []) = text_eq m effective
  is_only effective _ = false

  unfoldable pub resolve_profile : Fields → Text → Result ModuleError (Text × List Text)
  unfolding methods_of
  resolve_profile policy requested = do
    refuse (not (contains profiles requested)) unknown_profile
    if text_eq requested (codes "intent") then ok (requested, []) else do
      selected ← methods_of policy
      let effective =
          if text_eq requested (codes "auto") then inferred_profile selected else requested
      refuse (contains supported effective && not (is_only effective selected))
          contradicting_profile
      refuse (text_eq effective (codes "mixed") && not (has_member selected)) mixed_without_method
      ok (effective, selected)

abbrev pub get_default_bool : Option Bool → Bool → Bool
get_default_bool (some b) d = b
get_default_bool none d = d

-- The flags of the selection header.
pub record Flags : Type 0 where
  pub enable_ngram : Bool
  pub enable_bm25 : Bool
  pub enable_distill : Bool
  pub parity_debug : Bool

-- A profile's name, or a set of methods in its place.
pub data ProfileChoice : Type 0 where
  named : Text → ProfileChoice
  only_methods : List Text → ProfileChoice

unfoldable pub flags_of : Text → List Text → Bool → Option Bool → Result ModuleError Flags
flags_of profile selected parity_debug enable_distill =
    let distills = text_eq profile (codes "intent") || text_eq profile (codes "mixed") in
    if parity_debug && not distills
    then err parity_profile
    else ok (record {
      enable_ngram =
          (text_eq profile (codes "ngram") || text_eq profile (codes "mixed"))
          && contains selected (codes "ngram");
      enable_bm25 =
          (text_eq profile (codes "bm25") || text_eq profile (codes "mixed"))
          && contains selected (codes "bm25");
      enable_distill = get_default_bool enable_distill distills;
      parity_debug = parity_debug;
    })

-- Without a set the selected methods have to be given, which an `assert` checks.
unfoldable pub selection_flags :
    ProfileChoice → Option (List Text) → Bool → Option Bool → Result ModuleError Flags
unfolding flags_of
selection_flags (only_methods chosen) selected parity_debug enable_distill =
    flags_of (inferred_profile chosen) chosen parity_debug enable_distill
selection_flags (named profile) none parity_debug enable_distill = err no_selection
selection_flags (named profile) (some selected) parity_debug enable_distill =
    flags_of profile selected parity_debug enable_distill
