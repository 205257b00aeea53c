-- ===== src/Modules/Selection.antt =====
-- The effective profile fits the methods of the policy.
use xsr.Prelude.{
  Bool-cases, Ensures, Ensures-bind, Ensures-ok, Ensures-refuse, List, Text, [], ap, arith, codes,
  contains, false, if◌then◌else◌, inl, inr, not, ok, refl, text_eq, text_eq_iff, true, ◌&&◌, ◌∷◌,
  ◌≡◌,
}
use xsr.Policy.Values.{Fields, Value}
use xsr.Modules.{is_only, resolve_profile, supported, inferred_profile}

pub same_text : (x y : Text) → text_eq x y ≡ true → x ≡ y
same_text x y = (text_eq_iff x y).0

-- A profile that is resolved: the effective profile is the one requested, unless that is auto; with no
-- request for intent it is ngram or bm25 for a policy of that method only.
pub record IsResolved (requested effective : Text) (selected : List Text) : Type 0 where
  pub as_requested : text_eq requested (codes "auto") ≡ false → effective ≡ requested
  pub only_method :
      text_eq requested (codes "intent") ≡ false
      → contains supported effective ≡ true
      → selected ≡ effective ∷ []

is_only-eq :
    (show : Value → Text) (effective : Text) (selected : List Text)
    → is_only show effective selected ≡ true
    → selected ≡ effective ∷ []
is_only-eq show effective [] h = cc
is_only-eq show effective (m ∷ []) h = ap (λ x. x ∷ []) (same_text m effective h)
is_only-eq show effective (m ∷ n ∷ ms) h = cc

-- The end of the function, once the methods are known.
IsResolved-of_methods :
    (show : Value → Text) (requested : Text) (selected : List Text)
    → text_eq requested (codes "intent") ≡ false
    → let effective =
        if text_eq requested (codes "auto") then inferred_profile selected else requested in
      (contains supported effective && not (is_only show effective selected)) ≡ false
      → IsResolved requested effective selected
IsResolved-of_methods show requested selected other fits =
    let effective =
      if text_eq requested (codes "auto") then inferred_profile selected else requested in
    record {
      as_requested = λ k. rw k refl;
      only_method = λ k member. is_only-eq show effective selected (ground (arith, fits, member));
    }

resolve_profile-Ensures :
    (show : Value → Text) (policy : Fields) (requested : Text)
    → Ensures (λ r. IsResolved requested r.0 r.1) (resolve_profile show policy requested)
unfolding resolve_profile
resolve_profile-Ensures show policy requested = Ensures-refuse _ _ _ _ λ known.
    elim (Bool-cases (text_eq requested (codes "intent"))) [
      | inl intent ↦ rw intent (
          Ensures-ok _ _
            (record { as_requested = λ k. refl; only_method = λ k. absurd (cc (intent, k)) }))
      | inr other ↦ rw other (
          Ensures-bind _ _ _ λ found eq. Ensures-refuse _ _ _ _ λ fits.
            Ensures-refuse _ _ _ _
              λ some_method. Ensures-ok _ _ (IsResolved-of_methods show requested found other fits))
    ]

-- A profile that is resolved is resolved as the policy's methods allow.
pub resolve_profile-IsResolved :
    (show : Value → Text) (policy : Fields) (requested effective : Text) (selected : List Text)
    → resolve_profile show policy requested ≡ ok (effective, selected)
    → IsResolved requested effective selected
resolve_profile-IsResolved show policy requested effective selected h =
    (resolve_profile-Ensures show policy requested).at (effective, selected) h
