-- ===== src/Tokenizer/Words/Boundary.antt =====
-- A character outside ASCII splits a query: no token crosses it.
use xsr.Prelude.{
  Bool, List, Text, [], arith, false, is_digit, keep, length, lower, lower_char, map-append,
  next_is, refl, suc, zero, ℕ, ◌++◌, ◌-◌, ◌==◌, ◌∷◌, ◌≡◌, ◌≤◌,
}
use xsr.Tokenizer.Words.{
  find_words, is_alnum, joined, joined_rest, match_word, blank_char, lowered_words, not_stop_word,
  tokenize_query,
}

module _ (test : ℕ → Bool) (join : ℕ) (blocks : test b' ' ≡ false)
    (apart : (b' ' == join) ≡ false) where
  next_is-blank : (text rest : Text) → next_is test (text ++ (b' ' ∷ rest)) ≡ next_is test text
  next_is-blank [] rest = blocks
  next_is-blank (c ∷ cs) rest = refl

  joined_rest-blank :
      (text rest : Text)
      → joined_rest test join (text ++ (b' ' ∷ rest)) ≡ joined_rest test join text
  unfolding joined_rest
  joined_rest-blank [] rest = ground (arith, blocks, apart)
  joined_rest-blank (c ∷ cs) rest = ground (arith, joined_rest-blank cs rest, next_is-blank cs rest)

  joined-blank :
      (text rest : Text) → joined test join (text ++ (b' ' ∷ rest)) ≡ joined test join text
  unfolding joined
  joined-blank [] rest = ground (arith, blocks)
  joined-blank (c ∷ cs) rest = ground (arith, joined_rest-blank cs rest)

module _ (test : ℕ → Bool) (join : ℕ) where
  length-joined_rest : (text : Text) → length (joined_rest test join text) ≤ length text
  unfolding joined_rest
  length-joined_rest [] = omega arith
  length-joined_rest (c ∷ cs) = ground (arith, length-joined_rest cs)

  length-joined : (text : Text) → length (joined test join text) ≤ length text
  unfolding joined
  length-joined [] = omega arith
  length-joined (c ∷ cs) = ground (arith, length-joined_rest cs)

match_word-blank : (text rest : Text) → match_word (text ++ (b' ' ∷ rest)) ≡ match_word text
unfolding match_word is_digit is_alnum
match_word-blank text rest = rw (
  joined-blank is_digit b'.' refl refl text rest,
  joined-blank is_alnum b'_' refl refl text rest,
  joined-blank is_alnum b'\'' refl refl text rest,
)

length-match_word : (text : Text) → length (match_word text) ≤ length text
unfolding match_word is_digit is_alnum
length-match_word text = ground (
  arith,
  length-joined is_digit b'.' text,
  length-joined is_alnum b'_' text,
  length-joined is_alnum b'\'' text,
)

find_words-blank :
    (skip : ℕ) (text rest : Text)
    → skip ≤ length text
    → find_words skip (text ++ (b' ' ∷ rest)) ≡ find_words skip text ++ find_words 0 rest
unfolding find_words
find_words-blank zero [] rest h = rw (match_word-blank [] rest) (unfold match_word joined in refl)
find_words-blank (suc skip) [] rest h = elim h [ ]
find_words-blank (suc skip) (c ∷ cs) rest h = find_words-blank skip cs rest (omega arith)
find_words-blank zero (c ∷ cs) rest h =
    let fits : length (match_word (c ∷ cs)) - 1 ≤ length cs =
      omega (arith, length-match_word (c ∷ cs)) in
    ground (
      arith,
      match_word-blank (c ∷ cs) rest,
      find_words-blank (length (match_word (c ∷ cs)) - 1) cs rest fits,
    )

keep-append :
    (test : Text → Bool) (xs ys : List Text) → keep test (xs ++ ys) ≡ keep test xs ++ keep test ys
keep-append test [] ys = refl
keep-append test (x ∷ xs) ys = ground (arith, keep-append test xs ys)

lowered_words-blank :
    (text rest : Text)
    → lowered_words (text ++ (b' ' ∷ rest)) ≡ lowered_words text ++ lowered_words rest
unfolding lowered_words lower_char
lowered_words-blank text rest = rw (
  map-append,
  find_words-blank 0 (lower text) (lower rest) (omega arith),
  keep-append not_stop_word,
)

-- A code point outside ASCII is a word boundary: the tokens of a query that holds one are the tokens
-- of what stands before it, followed by the tokens of what stands behind it.
pub tokenize_query-boundary :
    (before : Text) (c : ℕ) (behind : Text)
    → 128 ≤ c
    → tokenize_query (before ++ (c ∷ behind)) ≡ tokenize_query before ++ tokenize_query behind
unfolding tokenize_query
tokenize_query-boundary before c behind h =
    let blank : blank_char c ≡ b' ' = ground arith in
    rw (map-append, blank, lowered_words-blank, map-append)
