-- ===== src/Tokenizer/Words.antt =====
-- The word patterns and the tokenizers of benchmarks/policy/vsr_bm25_tokenizer.py. `_ASCII_WORD` has
-- three alternatives, which the engine tries in their order: numbers joined by dots, words joined
-- by underscores, and a word with its contractions. In each the joining character is none of the
-- joined ones, so the greedy match is the only longest one and no backtracking shortens it.
pub mod Shape
pub mod Boundary
pub mod Domain
use xsr.Prelude.{
  Bool, List, Result, Text, [], contains, err, has_char, if◌then◌else◌, is_ascii, is_digit, keep,
  leb, length, lower, ltb, map, next_is, non_empty, not, ok, suc, text_eq, zero, ℕ, ◌&&◌, ◌-◌, ◌==◌,
  ◌||◌, ◌∷◌, ◌>>=◌,
}
use xsr.Tokenizer.Tables.{english_stop_words}
use xsr.Tokenizer.Stem.{stem_english}

unfoldable pub is_alnum : ℕ → Bool
is_alnum c = (leb b'a' c && leb c b'z') || (leb b'0' c && leb c b'9')

-- What `C*(?:J C+)*` matches at the head of the text, for a class `C` and a joining character.
unfoldable pub joined_rest : (ℕ → Bool) → ℕ → Text → Text
joined_rest test join [] = []
joined_rest test join (c ∷ cs) =
    if test c || (c == join && next_is test cs) then c ∷ joined_rest test join cs else []

-- What `C+(?:J C+)*` matches, and nothing where it does not match.
unfoldable pub joined : (ℕ → Bool) → ℕ → Text → Text
unfolding joined_rest
joined test join [] = []
joined test join (c ∷ cs) = if test c then c ∷ joined_rest test join cs else []

-- `_ASCII_WORD.match(text)`: the first alternative that matches.
unfoldable pub match_word : Text → Text
match_word text =
    if has_char b'.' (joined is_digit b'.' text)
    then joined is_digit b'.' text
    else if has_char b'_' (joined is_alnum b'_' text)
    then joined is_alnum b'_' text
    else joined is_alnum b'\'' text

-- `_ASCII_WORD.findall(text)`, where the first characters, that many, belong to the last match.
unfoldable pub find_words : ℕ → Text → List Text
find_words skip [] = []
find_words (suc skip) (c ∷ cs) = find_words skip cs
find_words zero (c ∷ cs) =
    let later = find_words (length (match_word (c ∷ cs)) - 1) cs in
    if non_empty (match_word (c ∷ cs)) then match_word (c ∷ cs) ∷ later else later

-- `_ASCII_WORD.fullmatch(text) is not None`
unfoldable pub is_word : Text → Bool
is_word text =
    (has_char b'.' text && text_eq (joined is_digit b'.' text) text)
    || (has_char b'_' text && text_eq (joined is_alnum b'_' text) text)
    || (non_empty text && text_eq (joined is_alnum b'\'' text) text)

unfoldable pub is_ascii_word : Text → Bool
unfolding is_word joined
is_ascii_word text = is_ascii text && is_word (lower text)

unfoldable pub not_stop_word : Text → Bool
not_stop_word token = not (contains english_stop_words token)

-- The one `raise` of the module.
pub data TokenizerError : Type 0 where
  outside_ascii_domain : TokenizerError

unfoldable pub lowered_words : Text → List Text
unfolding find_words match_word not_stop_word
lowered_words text = keep not_stop_word (find_words 0 (lower text))

unfoldable pub ascii_words : Text → Result TokenizerError (List Text)
unfolding lowered_words
ascii_words text = if is_ascii text then ok (lowered_words text) else err outside_ascii_domain

unfoldable pub tokenize : Text → Result TokenizerError (List Text)
unfolding ascii_words stem_english
tokenize text = do words ← ascii_words text; ok (map stem_english words)

-- `character if ord(character) < 128 else " "`
abbrev pub blank_char : ℕ → ℕ
blank_char c = if ltb c 128 then c else b' '

unfoldable pub tokenize_query : Text → List Text
unfolding lowered_words stem_english
tokenize_query text = map stem_english (lowered_words (map blank_char text))
