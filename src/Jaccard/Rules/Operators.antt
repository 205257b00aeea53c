-- ===== src/Jaccard/Rules/Operators.antt =====
-- What a rule with each operator says of its keywords.
use xsr.Prelude.{
  ==_iff, All, Bool, List, Text, [], any, ap, arith, codes, contains, if◌then◌else◌, keep, length,
  ltb, lt→ltb, not, refl, sym, text_eq, true, upper, ℕ, ◌&&◌, ◌++◌, ◌==◌, ◌||◌, ◌∙◌, ◌∷◌, ◌≡◌,
}
use xsr.Jaccard.Rules.{words}
use xsr.Jaccard.Rules.Conjunction.{full_set}
use xsr.Jaccard.{Decimal, matches}
use xsr.Jaccard.Rules.{add_all, any_member, matched_set, apply_operator, rule_matches, words}

any_member-append : (xs ys : List Text) → any_member (xs ++ ys) ≡ (any_member xs || any_member ys)
any_member-append [] ys = refl
any_member-append (x ∷ xs) ys = refl

any_member-add_all :
    (set xs : List Text) → any_member (add_all set xs) ≡ (any_member set || any_member xs)
unfolding add_all contains
any_member-add_all set [] = ground arith
any_member-add_all [] (x ∷ xs) = rw (any_member-add_all (x ∷ []) xs)
any_member-add_all (s ∷ set) (x ∷ xs) =
    ground (arith, any_member-add_all (s ∷ set) xs, any_member-add_all ((s ∷ set) ++ x ∷ []) xs)

any_member-keep : (test : Text → Bool) (xs : List Text) → any_member (keep test xs) ≡ any test xs
any_member-keep test [] = refl
any_member-keep test (x ∷ xs) = ground (arith, any_member-keep test xs)

any-or : (p q : Text → Bool) (xs : List Text) → any (λ x. p x || q x) xs ≡ (any p xs || any q xs)
any-or p q [] = refl
any-or p q (x ∷ xs) = ground (arith, any-or p q xs)

-- Whether the set has a member: whether some keyword matches a word or the whole text.
any_member-matched_set :
    (by_word by_text : Text → Bool) (keywords : List Text)
    → any_member (matched_set by_word by_text keywords) ≡ any (λ k. by_word k || by_text k) keywords
unfolding matched_set contains
any_member-matched_set by_word by_text [] = unfold add_all in refl
any_member-matched_set by_word by_text (k ∷ ks) =
    go (add_all [] (keep by_word (k ∷ ks)))
      (any_member-add_all [] (keep by_word (k ∷ ks)) ∙ any_member-keep by_word (k ∷ ks))
  where
    go :
        (m : List Text)
        → any_member m ≡ any by_word (k ∷ ks)
        → any_member (
            if ltb (length m) (length (k ∷ ks))
            then add_all m (keep (λ k. not (contains m k) && by_text k) (k ∷ ks))
            else m)
          ≡ any (λ k. by_word k || by_text k) (k ∷ ks)
    go [] e =
        let left = λ (q : Text). not (contains [] q) && by_text q in
        rw (lt→ltb 0 (length (k ∷ ks)) (omega arith)) (
          any_member-add_all [] (keep left (k ∷ ks))
          ∙ any_member-keep left (k ∷ ks)
          ∙ sym (any-or by_word by_text (k ∷ ks) ∙ rw (← e)))
    go (x ∷ xs) e =
        let left = λ (q : Text). not (contains (x ∷ xs) q) && by_text q in
        rw (any-or by_word by_text (k ∷ ks), ← e)
          (ground (arith, any_member-add_all (x ∷ xs) (keep left (k ∷ ks))))

apply_operator_cases :
    (m ks : List Text)
    → (apply_operator (codes "OR") m ks ≡ any_member m)
      × (apply_operator (codes "AND") m ks ≡ (length m == length ks))
      × (apply_operator (codes "NOR") m ks ≡ not (any_member m))
unfolding apply_operator text_eq
apply_operator_cases m ks = (ground arith, ground arith, ground arith)

-- Whether a keyword matches some word of the text or the whole text.
module _ (to_lower : Text → Text) (is_word_char : ℕ → Bool) (arity : ℕ) (threshold : Decimal)
    (case_sensitive : Bool) where
  abbrev pub text_hit : Text → Text → Bool
  text_hit text keyword = matches to_lower text keyword arity threshold case_sensitive

  abbrev pub word_hit : Text → Text → Bool
  word_hit text keyword = any (λ w. text_hit w keyword) (words is_word_char text)

  abbrev pub keyword_matches : Text → Text → Bool
  keyword_matches text keyword = word_hit text keyword || text_hit text keyword

  module _ (text : Text) (keywords : List Text) (operator : Text) where
    -- A rule with the operator OR holds exactly when some keyword matches a word or the whole text.
    pub rule_matches-or :
        upper operator ≡ codes "OR"
        → rule_matches to_lower is_word_char text keywords operator arity threshold case_sensitive
          ≡ any (keyword_matches text) keywords
    unfolding rule_matches
    rule_matches-or e =
        rw (e, (apply_operator_cases _ keywords).0)
          (any_member-matched_set (word_hit text) (text_hit text) keywords)

    -- A rule with the operator NOR holds exactly when no keyword matches a word or the whole text.
    pub rule_matches-nor :
        upper operator ≡ codes "NOR"
        → rule_matches to_lower is_word_char text keywords operator arity threshold case_sensitive
          ≡ not (any (keyword_matches text) keywords)
    unfolding rule_matches
    rule_matches-nor e =
        rw (e, (apply_operator_cases _ keywords).2)
          (ap not (any_member-matched_set (word_hit text) (text_hit text) keywords))

    -- A rule with the operator AND holds only if every keyword matches a word or the whole text.
    pub rule_matches-and :
        upper operator ≡ codes "AND"
        → rule_matches to_lower is_word_char text keywords operator arity threshold case_sensitive
          ≡ true
        → All (λ k. keyword_matches text k ≡ true) keywords
    unfolding rule_matches
    rule_matches-and e h =
        let m = matched_set (word_hit text) (text_hit text) keywords in
        let as_long =
          (==_iff (length m) (length keywords)).0
            (sym (apply_operator_cases m keywords).1 ∙ rw e at h) in
        full_set (word_hit text) (text_hit text) keywords (omega arith)
