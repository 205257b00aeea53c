-- ===== src/Tokenizer/Words/Domain.antt =====
-- The two tokenizers on and outside the ASCII domain.
use xsr.Prelude.{
  Bool-cases, Text, [], arith, err, if◌then◌else◌, inl, inr, is_ascii, map, ok, refl, true, ◌>>=◌,
  ◌∷◌, ◌≡◌,
}
use xsr.Tokenizer.Words.{ascii_words, blank_char, outside_ascii_domain, tokenize, tokenize_query}

blank_of_ascii : (text : Text) → is_ascii text ≡ true → map blank_char text ≡ text
blank_of_ascii [] h = refl
blank_of_ascii (c ∷ cs) h = ground (arith, h, blank_of_ascii cs)

-- The strict tokenizer of policy text returns, for ASCII text, what the tokenizer of queries returns,
-- and raises exactly for text that is not ASCII.
pub tokenize-eq-tokenize_query :
    (text : Text)
    → tokenize text ≡ (if is_ascii text then ok (tokenize_query text) else err outside_ascii_domain)
unfolding tokenize ascii_words tokenize_query ◌>>=◌
tokenize-eq-tokenize_query text = elim (Bool-cases (is_ascii text)) [
  | inl ascii ↦ rw (ascii, blank_of_ascii text ascii)
  | inr other ↦ rw other
]
