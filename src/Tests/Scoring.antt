-- ===== src/Tests/Scoring.antt =====
-- The fixed scores of a query with a repeated token; the weight of a term is its frequency here.
use xsr.Prelude.{
  [], codes, contains, find_key, is_digit, lower_char, map, ok, refl, text_eq, ℕ, ◌>>=◌, ◌∷◌, ◌≡◌,
}
use xsr.Tokenizer.Tables.{english_stop_words, exceptions}
use xsr.Tokenizer.Stem.{stem_english}
use xsr.Tokenizer.Words.{ascii_words, tokenize, tokenize_query, is_alnum, joined}
use xsr.Bm25.Streaming.{fixed_scores-streamed_score, streamed_score}
use xsr.Bm25.{fixed_scores, tokenize_all}

abbrev tf_weight : ℕ → ℕ → ℕ → ℕ → ℕ → ℕ
tf_weight documents frequency tf size tokens = tf

-- A keyword of the corpus and its tokens.
one_keyword : tokenize_all (codes "ox" ∷ []) ≡ ok ((codes "ox" ∷ []) ∷ [])
unfolding tokenize_all tokenize ascii_words lower_char is_digit is_alnum contains english_stop_words
    joined stem_english find_key exceptions text_eq ◌>>=◌
one_keyword = refl

fixed_scores-streamed_score_example :
    fixed_scores tf_weight (codes "ox ox") (codes "ox" ∷ [])
    ≡ ok (
        map
          (λ d.
            streamed_score tf_weight ((codes "ox" ∷ []) ∷ []) d (tokenize_query (codes "ox ox")))
          ((codes "ox" ∷ []) ∷ []))
fixed_scores-streamed_score_example =
    fixed_scores-streamed_score tf_weight (codes "ox ox") (codes "ox" ∷ []) (codes "ox" ∷ []) []
      one_keyword
