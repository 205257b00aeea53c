-- ===== src/Tokenizer/Stem.antt =====
-- `stem_english` of benchmarks/policy/vsr_bm25_tokenizer.py: the Snowball English stemmer, one
-- function for each of its steps. A word is the list of its code points.
pub mod Regions
pub mod Length
pub mod Marks
use xsr.Prelude.{
  Bool, List, Option, Text, [], any, codes, contains, drop, drop_last, ends_with, false, find_key,
  get_or, if◌then◌else◌, leb, length, ltb, map, none, not, some, starts_with, take, true, ℕ, ◌&&◌,
  ◌++◌, ◌+◌, ◌-◌, ◌==◌, ◌||◌, ◌∷◌,
}
use xsr.Tokenizer.Tables.{
  exceptions, post_1a_exceptions, doubles, is_vowel, is_valid_li, step_2_table, step_3_table,
  step_4_table,
}

-- The scan of `_regions`: one past the first consonant that follows a vowel, from `index` on. `prev`
-- is `word[index - 1]`, and past the end the result is the length of the word.
unfoldable pub scan_boundary : ℕ → ℕ → Text → ℕ
scan_boundary index prev [] = index
scan_boundary index prev (c ∷ cs) =
    if is_vowel prev && not (is_vowel c) then index + 1 else scan_boundary (index + 1) c cs

abbrev pub boundary_in : ℕ → ℕ → Text → ℕ
boundary_in size start [] = size
boundary_in size start (prev ∷ rest) = scan_boundary start prev rest

-- `for index in range(start, len(word))` with `start` at least 1.
unfoldable pub boundary_after : ℕ → Text → ℕ
unfolding scan_boundary
boundary_after start word = boundary_in (length word) start (drop (start - 1) word)

unfoldable pub region_1 : Text → ℕ
unfolding boundary_after
region_1 word =
    if starts_with word (codes "gener") || starts_with word (codes "arsen")
    then 5
    else if starts_with word (codes "commun")
    then 6
    else boundary_after 1 word

unfoldable pub regions : Text → ℕ × ℕ
unfolding region_1
regions word = (region_1 word, boundary_after (region_1 word + 1) word)

-- `word[-k]`, where the word has that many characters.
abbrev from_end : ℕ → Text → ℕ
from_end k word = get_or word (length word - k) 0

unfoldable pub short_syllable : Text → Bool
short_syllable word =
    if length word == 2
    then is_vowel (get_or word 0 0) && not (is_vowel (get_or word 1 0))
    else leb 3 (length word)
      && not (is_vowel (from_end 3 word))
      && is_vowel (from_end 2 word)
      && not (is_vowel (from_end 1 word))
      && not (
          from_end 1 word == b'w'
          || from_end 1 word == b'x'
          || from_end 1 word == b'y'
          || from_end 1 word == b'Y')

unfoldable pub has_vowel : Text → Bool
has_vowel = any is_vowel

-- The loop that marks a consonantal y; the flag is `index == 0 or marked[index - 1] in _VOWELS`.
unfoldable pub mark_y : Bool → Text → Text
mark_y after [] = []
mark_y after (c ∷ cs) =
    let marked = if c == b'y' && after then b'Y' else c in marked ∷ mark_y (is_vowel marked) cs

-- `word.replace("Y", "y")`
abbrev pub unmark_char : ℕ → ℕ
unmark_char c = if c == b'Y' then b'y' else c

abbrev pub unmark : Text → Text
unmark = map unmark_char

-- `word[: -len(suffix)] + replacement`
abbrev pub replace_end : Text → Text → Text → Text
replace_end word suffix replacement = drop_last (length suffix) word ++ replacement

unfoldable pub step_0 : Text → Text
step_0 word =
    if ends_with word (codes "'s'")
    then drop_last 3 word
    else if ends_with word (codes "'s")
    then drop_last 2 word
    else if ends_with word (codes "'")
    then drop_last 1 word
    else word

unfoldable pub step_1a : Text → Text
step_1a word =
    if ends_with word (codes "sses")
    then drop_last 2 word
    else if ends_with word (codes "ied") || ends_with word (codes "ies")
    then (if ltb 4 (length word) then drop_last 2 word else drop_last 1 word)
    else if not (ends_with word (codes "us") || ends_with word (codes "ss"))
        && ends_with word (codes "s")
    then (if any is_vowel (drop_last 2 word) then drop_last 1 word else word)
    else word

-- What follows the removal of -ing, -ed, -ingly or -edly.
unfoldable pub repair_1b : ℕ → Text → Text
repair_1b r1 word =
    if ends_with word (codes "at") || ends_with word (codes "bl") || ends_with word (codes "iz")
    then word ++ codes "e"
    else if any (ends_with word) doubles
    then drop_last 1 word
    else if leb (length word) r1 && short_syllable word
    then word ++ codes "e"
    else word

abbrev removes_1b : Text → Text → Bool
removes_1b word suffix = ends_with word suffix && has_vowel (drop_last (length suffix) word)

-- The loop over the suffixes of step 1b.
unfoldable pub strip_1b : ℕ → Text → List Text → Text
strip_1b r1 word [] = word
strip_1b r1 word (suffix ∷ suffixes) =
    if removes_1b word suffix
    then repair_1b r1 (drop_last (length suffix) word)
    else strip_1b r1 word suffixes

abbrev pub suffixes_1b : List Text
suffixes_1b = codes "ingly" ∷ codes "edly" ∷ codes "ing" ∷ codes "ed" ∷ []

unfoldable pub step_1b : ℕ → Text → Text
step_1b r1 word =
    if ends_with word (codes "eedly")
    then (if leb r1 (length word - 5) then drop_last 3 word else word)
    else if ends_with word (codes "eed")
    then (if leb r1 (length word - 3) then drop_last 1 word else word)
    else strip_1b r1 word suffixes_1b

unfoldable pub step_1c : Text → Text
step_1c word =
    if ltb 2 (length word)
      && (ends_with word (codes "y") || ends_with word (codes "Y"))
      && not (is_vowel (from_end 2 word))
    then drop_last 1 word ++ codes "i"
    else word

-- The loop of step 2. The flag is `replaced`, set by the first suffix that fits.
unfoldable pub replace_2 : ℕ → Text → List (Text × Text) → Text × Bool
replace_2 r1 word [] = (word, false)
replace_2 r1 word ((suffix, replacement) ∷ table) =
    if ends_with word suffix
    then (
      if leb r1 (length word - length suffix) then replace_end word suffix replacement else word,
      true,
    )
    else replace_2 r1 word table

-- `word[-4:-3] == "l"` and `word[-3:-2] in _VALID_LI`: a slice of at most one character.
abbrev slice_is : ℕ → (ℕ → Bool) → Text → Bool
slice_is k test word = any test (drop (length word - k) (take (length word - (k - 1)) word))

unfoldable pub finish_2 : ℕ → Text × Bool → Text
finish_2 r1 (word, replaced) =
    if not replaced && ends_with word (codes "ogi")
    then (if leb r1 (length word - 3) && slice_is 4 (λ c. c == b'l') word
        then drop_last 1 word
        else word)
    else if not replaced && ends_with word (codes "li")
    then (if leb r1 (length word - 2) && slice_is 3 is_valid_li word
        then drop_last 2 word
        else word)
    else word

unfoldable pub step_2 : ℕ → Text → Text
step_2 r1 word = finish_2 r1 (replace_2 r1 word step_2_table)

unfoldable pub replace_3 : ℕ → ℕ → Text → List (Text × Text × Bool) → Text
replace_3 r1 r2 word [] = word
replace_3 r1 r2 word ((suffix, replacement, needs_r2) ∷ table) =
    if ends_with word suffix
    then (if leb (if needs_r2 then r2 else r1) (length word - length suffix)
        then replace_end word suffix replacement
        else word)
    else replace_3 r1 r2 word table

unfoldable pub step_3 : ℕ → ℕ → Text → Text
step_3 r1 r2 word = replace_3 r1 r2 word step_3_table

-- The loop of step 4. The flag is `removed`, set by the first suffix that fits.
unfoldable pub remove_4 : ℕ → Text → List Text → Text × Bool
remove_4 r2 word [] = (word, false)
remove_4 r2 word (suffix ∷ suffixes) =
    if ends_with word suffix
    then (
      if leb r2 (length word - length suffix) then drop_last (length suffix) word else word,
      true,
    )
    else remove_4 r2 word suffixes

unfoldable pub finish_4 : ℕ → Text × Bool → Text
finish_4 r2 (word, removed) =
    if not removed
      && (ends_with word (codes "sion") || ends_with word (codes "tion"))
      && leb r2 (length word - 3)
    then drop_last 3 word
    else word

unfoldable pub step_4 : ℕ → Text → Text
step_4 r2 word = finish_4 r2 (remove_4 r2 word step_4_table)

unfoldable pub step_5 : ℕ → ℕ → Text → Text
step_5 r1 r2 word =
    if ends_with word (codes "e")
    then (let base = drop_last 1 word in
        if leb r2 (length base) || (leb r1 (length base) && not (short_syllable base))
        then base
        else word)
    else if ends_with word (codes "ll") && leb r2 (length word - 1)
    then drop_last 1 word
    else word

-- Steps 1b to 5, with the regions of the marked word.
unfoldable pub late_steps : ℕ → ℕ → Text → Text
late_steps r1 r2 word =
    step_5 r1 r2 (step_4 r2 (step_3 r1 r2 (step_2 r1 (step_1c (step_1b r1 word)))))

unfoldable pub stem_marked : Text → Text
unfolding late_steps
stem_marked word =
    let (r1, r2) = regions word in
    let stripped = step_1a (step_0 word) in
    if contains post_1a_exceptions stripped
    then unmark stripped
    else unmark (late_steps r1 r2 stripped)

abbrev pub or_else : Option Text → Text → Text
or_else (some a) b = a
or_else none b = b

-- `if word.startswith("'"): word = word[1:]`
abbrev pub drop_quote : Text → Text
drop_quote word = if starts_with word (codes "'") then drop 1 word else word

unfoldable pub stem_english : Text → Text
unfolding stem_marked
stem_english word =
    if leb (length word) 2
    then word
    else or_else (find_key exceptions (drop_quote word))
        (stem_marked (mark_y true (drop_quote word)))
