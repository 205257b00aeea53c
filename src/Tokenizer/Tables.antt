-- ===== src/Tokenizer/Tables.antt =====
-- The word tables of benchmarks/policy/vsr_bm25_tokenizer.py.
use xsr.Prelude.{Bool, List, Text, [], codes, false, map, true, ℕ, ◌==◌, ◌||◌, ◌∷◌}
use Prim.Native.String.{String}

abbrev quoted : List String → List Text
quoted = map codes

abbrev pair_of : String × String → Text × Text
pair_of (a, b) = (codes a, codes b)

unfoldable pub english_stop_words : List Text
english_stop_words = quoted (
    "i" ∷ "me" ∷ "my" ∷ "myself" ∷ "we" ∷ "our" ∷ "ours" ∷ "ourselves" ∷ "you" ∷ "you're" ∷ "you've"
    ∷ "you'll" ∷ "you'd" ∷ "your" ∷ "yours" ∷ "yourself" ∷ "yourselves" ∷ "he" ∷ "him" ∷ "his"
    ∷ "himself" ∷ "she" ∷ "she's" ∷ "her" ∷ "hers" ∷ "herself" ∷ "it" ∷ "it's" ∷ "its" ∷ "itself"
    ∷ "they" ∷ "them" ∷ "their" ∷ "theirs" ∷ "themselves" ∷ "what" ∷ "which" ∷ "who" ∷ "whom"
    ∷ "this" ∷ "that" ∷ "that'll" ∷ "these" ∷ "those" ∷ "am" ∷ "is" ∷ "are" ∷ "was" ∷ "were" ∷ "be"
    ∷ "been" ∷ "being" ∷ "have" ∷ "has" ∷ "had" ∷ "having" ∷ "do" ∷ "does" ∷ "did" ∷ "doing" ∷ "a"
    ∷ "an" ∷ "the" ∷ "and" ∷ "but" ∷ "if" ∷ "or" ∷ "because" ∷ "as" ∷ "until" ∷ "while" ∷ "of"
    ∷ "at" ∷ "by" ∷ "for" ∷ "with" ∷ "about" ∷ "against" ∷ "between" ∷ "into" ∷ "through" ∷ "during"
    ∷ "before" ∷ "after" ∷ "above" ∷ "below" ∷ "to" ∷ "from" ∷ "up" ∷ "down" ∷ "in" ∷ "out" ∷ "on"
    ∷ "off" ∷ "over" ∷ "under" ∷ "again" ∷ "further" ∷ "then" ∷ "once" ∷ "here" ∷ "there" ∷ "when"
    ∷ "where" ∷ "why" ∷ "how" ∷ "all" ∷ "any" ∷ "both" ∷ "each" ∷ "few" ∷ "more" ∷ "most" ∷ "other"
    ∷ "some" ∷ "such" ∷ "no" ∷ "nor" ∷ "not" ∷ "only" ∷ "own" ∷ "same" ∷ "so" ∷ "than" ∷ "too"
    ∷ "very" ∷ "s" ∷ "t" ∷ "can" ∷ "will" ∷ "just" ∷ "don" ∷ "don't" ∷ "should" ∷ "should've"
    ∷ "now" ∷ "d" ∷ "ll" ∷ "m" ∷ "o" ∷ "re" ∷ "ve" ∷ "y" ∷ "ain" ∷ "aren" ∷ "aren't" ∷ "couldn"
    ∷ "couldn't" ∷ "didn" ∷ "didn't" ∷ "doesn" ∷ "doesn't" ∷ "hadn" ∷ "hadn't" ∷ "hasn" ∷ "hasn't"
    ∷ "haven" ∷ "haven't" ∷ "isn" ∷ "isn't" ∷ "ma" ∷ "mightn" ∷ "mightn't" ∷ "mustn" ∷ "mustn't"
    ∷ "needn" ∷ "needn't" ∷ "shan" ∷ "shan't" ∷ "shouldn" ∷ "shouldn't" ∷ "wasn" ∷ "wasn't"
    ∷ "weren" ∷ "weren't" ∷ "won" ∷ "won't" ∷ "wouldn" ∷ "wouldn't" ∷ [])

unfoldable pub exceptions : List (Text × Text)
exceptions = map pair_of (
    ("skis", "ski")
    ∷ ("skies", "sky")
    ∷ ("dying", "die")
    ∷ ("lying", "lie")
    ∷ ("tying", "tie")
    ∷ ("idly", "idl")
    ∷ ("gently", "gentl")
    ∷ ("ugly", "ugli")
    ∷ ("early", "earli")
    ∷ ("only", "onli")
    ∷ ("singly", "singl")
    ∷ ("sky", "sky")
    ∷ ("news", "news")
    ∷ ("howe", "howe")
    ∷ ("atlas", "atlas")
    ∷ ("cosmos", "cosmos")
    ∷ ("bias", "bias")
    ∷ ("andes", "andes")
    ∷ [])

unfoldable pub post_1a_exceptions : List Text
post_1a_exceptions = quoted (
    "inning" ∷ "outing" ∷ "canning" ∷ "herring" ∷ "earring" ∷ "proceed" ∷ "exceed" ∷ "succeed" ∷ [])

unfoldable pub doubles : List Text
doubles = quoted ("bb" ∷ "dd" ∷ "ff" ∷ "gg" ∷ "mm" ∷ "nn" ∷ "pp" ∷ "rr" ∷ "tt" ∷ [])

-- character in _VOWELS
unfoldable pub is_vowel : ℕ → Bool
is_vowel c = c == b'a' || c == b'e' || c == b'i' || c == b'o' || c == b'u' || c == b'y'

-- character in _VALID_LI
unfoldable pub is_valid_li : ℕ → Bool
is_valid_li c =
    c == b'c'
    || c == b'd'
    || c == b'e'
    || c == b'g'
    || c == b'h'
    || c == b'k'
    || c == b'm'
    || c == b'n'
    || c == b'r'
    || c == b't'

unfoldable pub step_2_table : List (Text × Text)
step_2_table = map pair_of (
    ("ization", "ize")
    ∷ ("ational", "ate")
    ∷ ("fulness", "ful")
    ∷ ("ousness", "ous")
    ∷ ("iveness", "ive")
    ∷ ("tional", "tion")
    ∷ ("biliti", "ble")
    ∷ ("lessli", "less")
    ∷ ("entli", "ent")
    ∷ ("ation", "ate")
    ∷ ("alism", "al")
    ∷ ("aliti", "al")
    ∷ ("ousli", "ous")
    ∷ ("iviti", "ive")
    ∷ ("fulli", "ful")
    ∷ ("enci", "ence")
    ∷ ("anci", "ance")
    ∷ ("abli", "able")
    ∷ ("izer", "ize")
    ∷ ("ator", "ate")
    ∷ ("alli", "al")
    ∷ ("bli", "ble")
    ∷ [])

abbrev triple_of : String × String × Bool → Text × Text × Bool
triple_of (a, b, needs_r2) = (codes a, codes b, needs_r2)

unfoldable pub step_3_table : List (Text × Text × Bool)
step_3_table = map triple_of (
    ("ational", "ate", false)
    ∷ ("tional", "tion", false)
    ∷ ("alize", "al", false)
    ∷ ("icate", "ic", false)
    ∷ ("iciti", "ic", false)
    ∷ ("ative", "", true)
    ∷ ("ical", "ic", false)
    ∷ ("ness", "", false)
    ∷ ("ful", "", false)
    ∷ [])

unfoldable pub step_4_table : List Text
step_4_table = quoted (
    "ement" ∷ "ance" ∷ "ence" ∷ "able" ∷ "ible" ∷ "ment" ∷ "ant" ∷ "ent" ∷ "ism" ∷ "ate" ∷ "iti"
    ∷ "ous" ∷ "ive" ∷ "ize" ∷ "al" ∷ "er" ∷ "ic" ∷ [])
