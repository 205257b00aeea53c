-- ===== src/Bm25.antt =====
-- `fixed_scores` of benchmarks/policy/bm25_reference.py: the scores that the kernel accumulates. The
-- rounded weight of a term, a product of floating-point logarithms and quotients, is the parameter
-- `term_weight`, of the corpus size, the document frequency, the term frequency, the length of the
-- document and the tokens of the corpus.
pub mod Streaming
use xsr.Prelude.{
  List, Result, Text, [], contains, err, if◌then◌else◌, length, map, ok, refuse, ℕ, ◌*◌, ◌+◌, ◌==◌,
  ◌∷◌, ◌>>=◌, ◌>>◌,
}
use xsr.Tokenizer.Words.{TokenizerError, tokenize, tokenize_query}
use xsr.Counter.{Counter, count_of, occurrences, tally}

pub data ScoreError : Type 0 where
  bad_keyword : TokenizerError → ScoreError
  empty_corpus : ScoreError

abbrev pub of_tokens : {A : Type 0} → Result TokenizerError A → Result ScoreError A
of_tokens (ok a) = ok a
of_tokens (err e) = err (bad_keyword e)

unfoldable pub tokenize_all : List Text → Result ScoreError (List (List Text))
tokenize_all [] = ok []
tokenize_all (keyword ∷ keywords) = do
  document ← of_tokens (tokenize keyword)
  corpus ← tokenize_all keywords
  ok (document ∷ corpus)

-- `df[token]`: the documents that hold the token.
unfoldable pub document_frequency : List (List Text) → Text → ℕ
document_frequency [] token = 0
document_frequency (document ∷ corpus) token =
    (if contains document token then 1 else 0) + document_frequency corpus token

-- sum(map(len, corpus))
unfoldable pub corpus_tokens : List (List Text) → ℕ
corpus_tokens [] = 0
corpus_tokens (document ∷ corpus) = length document + corpus_tokens corpus

module _ (term_weight : ℕ → ℕ → ℕ → ℕ → ℕ → ℕ) where
  -- What one occurrence of a token in the query adds.
  unfoldable pub token_score : List (List Text) → List Text → Text → ℕ
  unfolding document_frequency corpus_tokens
  token_score corpus document token =
      let tf = count_of (tally document) token in
      if tf == 0
      then 0
      else term_weight (length corpus) (document_frequency corpus token) tf (length document)
          (corpus_tokens corpus)

  -- The loop over query_counts.items().
  unfoldable pub counted_score : List (List Text) → List Text → Counter → ℕ
  unfolding token_score
  counted_score corpus document [] = 0
  counted_score corpus document ((token, occurrences) ∷ counts) =
      token_score corpus document token * occurrences + counted_score corpus document counts

  unfoldable pub fixed_scores : Text → List Text → Result ScoreError (List ℕ)
  unfolding tokenize_all counted_score
  fixed_scores query keywords = do
    corpus ← tokenize_all keywords
    refuse (length corpus == 0) empty_corpus
    ok (map (λ document. counted_score corpus document (tally (tokenize_query query))) corpus)
