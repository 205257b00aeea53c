-- ===== src/Tokenizer/Stem/Length.antt =====
-- No step makes a word longer.
use xsr.Prelude.{
  All, Bool, List, Option-cases, Text, [], ap, arith, codes, drop_last, ends_with-le, find_key,
  if◌then◌else◌, inl, inr, length, length-append, length-drop, length-map, length-take, refl, some,
  suc, text_eq_iff, true, ℕ, ◌&&◌, ◌+◌, ◌-◌, ◌==◌, ◌∷◌, ◌≡◌, ◌≤◌,
}
use xsr.Tokenizer.Tables.{is_vowel, exceptions, step_2_table, step_3_table, step_4_table}
use xsr.Tokenizer.Stem.{
  mark_y, replace_end, step_0, step_1a, repair_1b, strip_1b, suffixes_1b, step_1b, step_1c,
  replace_2, finish_2, step_2, replace_3, step_3, remove_4, finish_4, step_4, step_5, late_steps,
  stem_marked, stem_english, drop_quote, regions, unmark_char,
}

length-drop_last : (n : ℕ) (s : Text) → length (drop_last n s) ≡ length s - n
length-drop_last n s = omega (arith, length-take (length s - n) s)

-- A word that ends in the suffix gets no longer by a replacement that is no longer.
length-replace_end :
    (word suffix replacement : Text)
    → length replacement ≤ length suffix
    → length suffix ≤ length word
    → length (replace_end word suffix replacement) ≤ length word
length-replace_end word suffix replacement h k = omega (
  arith,
  length-append (drop_last (length suffix) word) replacement,
  length-drop_last (length suffix) word,
)

length-step_0 : (word : Text) → length (step_0 word) ≤ length word
unfolding step_0
length-step_0 word =
    ground (arith, length-drop_last 3 word, length-drop_last 2 word, length-drop_last 1 word)

length-step_1a : (word : Text) → length (step_1a word) ≤ length word
unfolding step_1a
length-step_1a word = ground (arith, length-drop_last 2 word, length-drop_last 1 word)

length-repair_1b : (r1 : ℕ) (word : Text) → length (repair_1b r1 word) ≤ length word + 1
unfolding repair_1b
length-repair_1b r1 word = ground (arith, length-append word (codes "e"), length-drop_last 1 word)

length-strip_1b :
    (r1 : ℕ) (word : Text) (suffixes : List Text)
    → All (λ s. 2 ≤ length s) suffixes
    → length (strip_1b r1 word suffixes) ≤ length word
unfolding strip_1b
length-strip_1b r1 word [] h = omega arith
length-strip_1b r1 word (suffix ∷ suffixes) h = ground (
  arith,
  length-strip_1b r1 word suffixes h.1,
  length-repair_1b r1 (drop_last (length suffix) word),
  length-drop_last (length suffix) word,
  ends_with-le word suffix,
  h.0,
)

length-step_1b : (r1 : ℕ) (word : Text) → length (step_1b r1 word) ≤ length word
unfolding step_1b
length-step_1b r1 word = ground (
  arith,
  length-drop_last 3 word,
  length-drop_last 1 word,
  length-strip_1b r1 word suffixes_1b (omega arith),
)

length-step_1c : (word : Text) → length (step_1c word) ≤ length word
unfolding step_1c
length-step_1c word =
    ground (arith, length-append (drop_last 1 word) (codes "i"), length-drop_last 1 word)

length-replace_2 :
    (r1 : ℕ) (word : Text) (table : List (Text × Text))
    → All (λ p. length p.1 ≤ length p.0) table
    → length (replace_2 r1 word table).0 ≤ length word
unfolding replace_2
length-replace_2 r1 word [] h = omega arith
length-replace_2 r1 word ((suffix, replacement) ∷ table) h = ground (
  arith,
  length-replace_2 r1 word table h.1,
  length-replace_end word suffix replacement h.0,
  ends_with-le word suffix,
)

length-finish_2 : (r1 : ℕ) (p : Text × Bool) → length (finish_2 r1 p) ≤ length p.0
unfolding finish_2
length-finish_2 r1 (word, replaced) =
    ground (arith, length-drop_last 1 word, length-drop_last 2 word)

step_2_table_shrinks : All (λ p. length p.1 ≤ length p.0) step_2_table
unfolding step_2_table
step_2_table_shrinks = omega arith

length-step_2 : (r1 : ℕ) (word : Text) → length (step_2 r1 word) ≤ length word
unfolding step_2
length-step_2 r1 word = omega (
  arith,
  length-finish_2 r1 (replace_2 r1 word step_2_table),
  length-replace_2 r1 word step_2_table step_2_table_shrinks,
)

length-replace_3 :
    (r1 r2 : ℕ) (word : Text) (table : List (Text × Text × Bool))
    → All (λ p. length p.1 ≤ length p.0) table
    → length (replace_3 r1 r2 word table) ≤ length word
unfolding replace_3
length-replace_3 r1 r2 word [] h = omega arith
length-replace_3 r1 r2 word ((suffix, replacement, needs_r2) ∷ table) h = ground (
  arith,
  length-replace_3 r1 r2 word table h.1,
  length-replace_end word suffix replacement h.0,
  ends_with-le word suffix,
)

step_3_table_shrinks : All (λ p. length p.1 ≤ length p.0) step_3_table
unfolding step_3_table
step_3_table_shrinks = omega arith

length-step_3 : (r1 r2 : ℕ) (word : Text) → length (step_3 r1 r2 word) ≤ length word
unfolding step_3
length-step_3 r1 r2 word = length-replace_3 r1 r2 word step_3_table step_3_table_shrinks

length-remove_4 :
    (r2 : ℕ) (word : Text) (suffixes : List Text)
    → length (remove_4 r2 word suffixes).0 ≤ length word
unfolding remove_4
length-remove_4 r2 word [] = omega arith
length-remove_4 r2 word (suffix ∷ suffixes) =
    ground (arith, length-remove_4 r2 word suffixes, length-drop_last (length suffix) word)

length-finish_4 : (r2 : ℕ) (p : Text × Bool) → length (finish_4 r2 p) ≤ length p.0
unfolding finish_4
length-finish_4 r2 (word, removed) = ground (arith, length-drop_last 3 word)

length-step_4 : (r2 : ℕ) (word : Text) → length (step_4 r2 word) ≤ length word
unfolding step_4
length-step_4 r2 word = omega (
  arith,
  length-finish_4 r2 (remove_4 r2 word step_4_table),
  length-remove_4 r2 word step_4_table,
)

length-step_5 : (r1 r2 : ℕ) (word : Text) → length (step_5 r1 r2 word) ≤ length word
unfolding step_5
length-step_5 r1 r2 word = ground (arith, length-drop_last 1 word)

length-late_steps : (r1 r2 : ℕ) (word : Text) → length (late_steps r1 r2 word) ≤ length word
unfolding late_steps
length-late_steps r1 r2 word =
    let b = step_1b r1 word in
    let c = step_1c b in
    let d = step_2 r1 c in
    let e = step_3 r1 r2 d in
    omega (
      arith,
      length-step_1b r1 word,
      length-step_1c b,
      length-step_2 r1 c,
      length-step_3 r1 r2 d,
      length-step_4 r2 e,
      length-step_5 r1 r2 (step_4 r2 e),
    )

length-mark_y : (after : Bool) (word : Text) → length (mark_y after word) ≡ length word
unfolding mark_y
length-mark_y after [] = refl
length-mark_y after (c ∷ cs) =
    ap suc (length-mark_y (is_vowel (if c == b'y' && after then b'Y' else c)) cs)

length-stem_marked : (word : Text) → length (stem_marked word) ≤ length word
unfolding stem_marked
length-stem_marked word =
    let stripped = step_1a (step_0 word) in
    let late = late_steps (regions word).0 (regions word).1 stripped in
    ground (
      arith,
      length-step_0 word,
      length-step_1a (step_0 word),
      length-map stripped unmark_char,
      length-map late unmark_char,
      length-late_steps (regions word).0 (regions word).1 stripped,
    )

find_key-shrinks :
    (table : List (Text × Text)) (word stem : Text)
    → All (λ p. length p.1 ≤ length p.0) table
    → find_key table word ≡ some stem
    → length stem ≤ length word
unfolding find_key
find_key-shrinks [] word stem h e = cc
find_key-shrinks ((k, v) ∷ table) word stem h e = ground (
  arith,
  h.0,
  text_eq_iff k word,
  ap {B = ℕ} (length {A = ℕ}),
  find_key-shrinks table word stem h.1,
)

exceptions_shrink : All (λ p. length p.1 ≤ length p.0) exceptions
unfolding exceptions
exceptions_shrink = omega arith

length-drop_quote : (word : Text) → length (drop_quote word) ≤ length word
length-drop_quote word = ground (arith, length-drop 1 word)

-- A stem is never longer than the word that it is the stem of.
pub length-stem_english : (word : Text) → length (stem_english word) ≤ length word
unfolding stem_english
length-stem_english word = elim (Option-cases (find_key exceptions (drop_quote word))) [
  | inl e ↦ ground (
    arith,
    e,
    length-drop_quote word,
    length-mark_y true (drop_quote word),
    length-stem_marked (mark_y true (drop_quote word)),
  )
  | inr (s, e) ↦ ground (
    arith,
    e,
    length-drop_quote word,
    find_key-shrinks exceptions (drop_quote word) s exceptions_shrink e,
  )
]
