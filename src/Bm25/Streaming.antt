-- ===== src/Bm25/Streaming.antt =====
-- Counting the tokens of a query first gives the score of adding them one by one.
use xsr.Prelude.{
  Bool-cases, List, Text, [], ap, ap₂, arith, false, inl, inr, length, map, ok, refl, text_eq,
  text_eq_iff, ℕ, ◌+◌, ◌==◌, ◌>>=◌, ◌∷◌, ◌≡◌,
}
use xsr.Tokenizer.Words.{tokenize_query}
use xsr.Counter.{Counter, bump, tally, tally_onto}
use xsr.Bm25.{counted_score, token_score, fixed_scores, tokenize_all}

module _ (term_weight : ℕ → ℕ → ℕ → ℕ → ℕ → ℕ) (corpus : List (List Text))
    (document : List Text) where
  -- The score of adding the tokens one by one, as the kernel does.
  unfoldable pub streamed_score : List Text → ℕ
  streamed_score [] = 0
  streamed_score (token ∷ tokens) =
      token_score term_weight corpus document token + streamed_score tokens

  counted_score-bump :
      (counts : Counter) (token : Text)
      → counted_score term_weight corpus document (bump counts token)
        ≡ token_score term_weight corpus document token
          + counted_score term_weight corpus document counts
  unfolding counted_score bump
  counted_score-bump [] token = grind arith
  counted_score-bump ((t, n) ∷ counts) token = elim (Bool-cases (text_eq t token)) [
    | inl e ↦ rw e (rw ((text_eq_iff t token).0 e) (grind arith))
    | inr e ↦ rw e (grind (arith, counted_score-bump counts token))
  ]

  counted_score-tally_onto :
      (counts : Counter) (tokens : List Text)
      → counted_score term_weight corpus document (tally_onto counts tokens)
        ≡ streamed_score tokens + counted_score term_weight corpus document counts
  unfolding tally_onto streamed_score
  counted_score-tally_onto counts [] = omega arith
  counted_score-tally_onto counts (token ∷ tokens) =
      omega (
        arith,
        counted_score-tally_onto (bump counts token) tokens,
        counted_score-bump counts token,
      )

  counted_score-tally :
      (tokens : List Text)
      → counted_score term_weight corpus document (tally tokens) ≡ streamed_score tokens
  unfolding tally counted_score
  counted_score-tally tokens = omega (arith, counted_score-tally_onto [] tokens)

map_same : {A : Type 0} (f g : A → ℕ) (xs : List A) → ((x : A) → f x ≡ g x) → map f xs ≡ map g xs
map_same f g [] h = refl
map_same f g (x ∷ xs) h = ap₂ ◌∷◌ (h x) (map_same f g xs h)

-- For keywords with tokens the fixed scores are those of adding up the tokens of the query one by one,
-- whatever the term weights.
pub fixed_scores-streamed_score :
    (term_weight : ℕ → ℕ → ℕ → ℕ → ℕ → ℕ) (query : Text) (keywords : List Text)
    (document : List Text) (corpus : List (List Text))
    → tokenize_all keywords ≡ ok (document ∷ corpus)
    → fixed_scores term_weight query keywords
      ≡ ok (
          map
            (λ d. streamed_score term_weight (document ∷ corpus) d (tokenize_query query))
            (document ∷ corpus))
unfolding fixed_scores ◌>>=◌
fixed_scores-streamed_score term_weight query keywords document corpus h =
    let all_documents = document ∷ corpus in
    let some_document : (length all_documents == 0) ≡ false = ground arith in
    rw (h, some_document)
      (ap ok (
        map_same (λ d. counted_score term_weight all_documents d (tally (tokenize_query query)))
          (λ d. streamed_score term_weight all_documents d (tokenize_query query)) all_documents
          (λ d. counted_score-tally term_weight all_documents d (tokenize_query query))))
