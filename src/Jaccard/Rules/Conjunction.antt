-- ===== src/Jaccard/Rules/Conjunction.antt =====
-- An AND rule: the set is as large as the keyword list only if every keyword is in it.
use xsr.Prelude.{
  All, All-append, All-contains, All-keep, All-weaken, Bool, Bool-cases, DistinctTexts, List, Text,
  [], arith, both_All, contains, contains-append, false, inl, inr, keep, length, ltb, members, not,
  refl, text_eq_iff, true, ◌&&◌, ◌++◌, ◌+◌, ◌||◌, ◌∷◌, ◌≡◌, ◌≤◌,
}
use xsr.Jaccard.Rules.{add_all, matched_set}

-- Pigeonholes: distinct texts, all of them in a list, are no more than the list is long.
length-keep_mono :
    (p q : Text → Bool) (xs : List Text)
    → ((x : Text) → p x ≡ true → q x ≡ true)
    → length (keep p xs) ≤ length (keep q xs)
length-keep_mono p q [] h = omega arith
length-keep_mono p q (x ∷ xs) h = ground (arith, h x, length-keep_mono p q xs h)

length-keep_cons :
    (x : Text) (m ks : List Text)
    → contains m x ≡ false
    → contains ks x ≡ true
    → length (keep (contains m) ks) + 1 ≤ length (keep (contains (x ∷ m)) ks)
unfolding contains
length-keep_cons x m [] h k = cc
length-keep_cons x m (y ∷ ks) h k = ground (
  arith,
  h,
  k,
  text_eq_iff y x,
  text_eq_iff x y,
  length-keep_cons x m ks h,
  length-keep_mono (contains m) (contains (x ∷ m)) ks (λ z e. ground (arith, e)),
)

length-le_keep :
    (m ks : List Text)
    → DistinctTexts m
    → All (λ x. contains ks x ≡ true) m
    → length m ≤ length (keep (contains m) ks)
length-le_keep [] ks d h = omega arith
length-le_keep (x ∷ m) ks d h =
    omega (arith, length-keep_cons x m ks d.0 h.0, length-le_keep m ks d.1 h.1)

length-keep : (p : Text → Bool) (xs : List Text) → length (keep p xs) ≤ length xs
length-keep p [] = omega arith
length-keep p (x ∷ xs) = ground (arith, length-keep p xs)

length-keep_full :
    (p : Text → Bool) (xs : List Text) → length xs ≤ length (keep p xs) → All (λ x. p x ≡ true) xs
length-keep_full p [] h = tt
length-keep_full p (x ∷ xs) h = elim (Bool-cases (p x)) [
  | inl e ↦ (e, length-keep_full p xs (ground (arith, h, e)))
  | inr e ↦ absurd (ground (arith, h, e, length-keep p xs))
]

DistinctTexts-snoc :
    (xs : List Text) (x : Text)
    → DistinctTexts xs
    → contains xs x ≡ false
    → DistinctTexts (xs ++ x ∷ [])
unfolding contains
DistinctTexts-snoc [] x d h = (refl, tt)
DistinctTexts-snoc (y ∷ xs) x d h = (
  ground (arith, d.0, h, contains-append xs x y, text_eq_iff x y, text_eq_iff y x),
  DistinctTexts-snoc xs x d.1 (ground (arith, h)),
)

add_all-DistinctTexts : (set xs : List Text) → DistinctTexts set → DistinctTexts (add_all set xs)
unfolding add_all
add_all-DistinctTexts set [] d = d
add_all-DistinctTexts set (x ∷ xs) d = elim (Bool-cases (contains set x)) [
  | inl old ↦ rw old (add_all-DistinctTexts set xs d)
  | inr new ↦ rw new (add_all-DistinctTexts (set ++ x ∷ []) xs (DistinctTexts-snoc set x d new))
]

add_all-All :
    (P : Text → Type 0) (set xs : List Text) → All P set → All P xs → All P (add_all set xs)
unfolding add_all
add_all-All P set [] p q = p
add_all-All P set (x ∷ xs) p q = elim (Bool-cases (contains set x)) [
  | inl old ↦ rw old (add_all-All P set xs p q.1)
  | inr new ↦ rw new (add_all-All P (set ++ x ∷ []) xs (All-append P set (x ∷ []) p (q.0, tt)) q.1)
]

kept :
    (test : Text → Bool) (P : Text → Type 0) (xs : List Text)
    → ((x : Text) → test x ≡ true → P x)
    → All P (keep test xs)
kept test P [] h = tt
kept test P (x ∷ xs) h = elim (Bool-cases (test x)) [
  | inl e ↦ rw e (h x e, kept test P xs h)
  | inr e ↦ rw e (kept test P xs h)
]

module _ (by_word by_text : Text → Bool) (keywords : List Text) where
  abbrev left_over : List Text → List Text
  left_over m = keep (λ k. not (contains m k) && by_text k) keywords

  abbrev Good : Text → Type 0
  Good k = (contains keywords k ≡ true) × ((by_word k || by_text k) ≡ true)

  Good-keep :
      (test : Text → Bool)
      → ((k : Text) → test k ≡ true → (by_word k || by_text k) ≡ true)
      → All Good (keep test keywords)
  Good-keep test h =
      both_All (λ k. contains keywords k ≡ true) (λ k. (by_word k || by_text k) ≡ true)
        (keep test keywords)
        (All-keep (λ k. contains keywords k ≡ true) test keywords (members keywords))
        (kept test (λ k. (by_word k || by_text k) ≡ true) keywords h)

  matched_set-Good : All Good (matched_set by_word by_text keywords)
  unfolding matched_set
  matched_set-Good =
      let first =
        add_all-All Good [] (keep by_word keywords) tt
          (Good-keep by_word (λ k e. ground (arith, e))) in
      elim (Bool-cases (ltb (length (add_all [] (keep by_word keywords))) (length keywords))) [
        | inl left ↦ rw left (add_all-All Good _ _ first (Good-keep _ (λ k e. ground (arith, e))))
        | inr full ↦ rw full first
      ]

  matched_set-DistinctTexts : DistinctTexts (matched_set by_word by_text keywords)
  unfolding matched_set
  matched_set-DistinctTexts =
      let first = add_all-DistinctTexts [] (keep by_word keywords) tt in
      elim (Bool-cases (ltb (length (add_all [] (keep by_word keywords))) (length keywords))) [
        | inl left ↦
            rw left (add_all-DistinctTexts _ (left_over (add_all [] (keep by_word keywords))) first)
        | inr full ↦ rw full first
      ]

  pub full_set :
      length keywords ≤ length (matched_set by_word by_text keywords)
      → All (λ k. (by_word k || by_text k) ≡ true) keywords
  full_set h =
      let m = matched_set by_word by_text keywords in
      let inside = All-weaken (λ k. contains keywords k ≡ true) (λ k g. g.0) m matched_set-Good in
      let enough = length-le_keep m keywords matched_set-DistinctTexts inside in
      All-weaken (λ k. (by_word k || by_text k) ≡ true)
        (λ k e. (All-contains Good m k matched_set-Good e).1) keywords
        (length-keep_full (contains m) keywords (omega arith))
