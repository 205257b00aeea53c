-- ===== src/Tokenizer/Words/Shape.antt =====
-- What the word patterns match, and what a tokenizer returns.
use xsr.Prelude.{
  &&-eq-true, ==_iff, All, All-keep, All-weaken, Bool, Bool-cases, List, Text, [], ap, ap₂, arith,
  both_All, contains, false, has_char, inl, inr, is_ascii, is_digit, keep, length, lower,
  lower_char, ltb, next_is, non_empty, ok, refl, subst, suc, sym, text_eq, text_eq_refl, true, zero,
  ℕ, ◌&&◌, ◌-◌, ◌==◌, ◌||◌, ◌∷◌, ◌≡◌,
}
use xsr.Tokenizer.Tables.{english_stop_words}
use xsr.Tokenizer.Words.{
  is_alnum, is_word, joined, joined_rest, match_word, ascii_words, find_words, is_ascii_word,
  lowered_words, not_stop_word,
}

module _ (test : ℕ → Bool) (join : ℕ) where
  next_is-joined_rest :
      (text : Text) → next_is test (joined_rest test join text) ≡ next_is test text
  unfolding joined_rest
  next_is-joined_rest [] = refl
  next_is-joined_rest (c ∷ cs) = ground arith

  joined_rest_idem :
      (text : Text)
      → joined_rest test join (joined_rest test join text) ≡ joined_rest test join text
  unfolding joined_rest
  joined_rest_idem [] = refl
  joined_rest_idem (c ∷ cs) = elim (Bool-cases (test c || (c == join && next_is test cs))) [
    | inl more ↦ ground (arith, more, joined_rest_idem cs, next_is-joined_rest cs)
    | inr done ↦ rw done
  ]

  pub joined_idem : (text : Text) → joined test join (joined test join text) ≡ joined test join text
  unfolding joined
  joined_idem [] = refl
  joined_idem (c ∷ cs) = elim (Bool-cases (test c)) [
    | inl first ↦ rw first (rw first (ap (◌∷◌ c) (joined_rest_idem cs)))
    | inr other ↦ rw other
  ]

  module _ (P : ℕ → Type 0) (member : (c : ℕ) → test c ≡ true → P c) (connector : P join) where
    joined_rest-All : (text : Text) → All P (joined_rest test join text)
    unfolding joined_rest
    joined_rest-All [] = tt
    joined_rest-All (c ∷ cs) = elim (Bool-cases (test c)) [
      | inl first ↦ rw first (member c first, joined_rest-All cs)
      | inr other ↦ elim (Bool-cases (c == join && next_is test cs)) [
        | inl more ↦
            rw (other, more)
              (
                subst P (sym ((==_iff c join).0 (&&-eq-true (c == join) _ more).0)) connector,
                joined_rest-All cs,
              )
        | inr done ↦ rw (other, done) tt
      ]
    ]

    pub joined-All : (text : Text) → All P (joined test join text)
    unfolding joined
    joined-All [] = tt
    joined-All (c ∷ cs) = elim (Bool-cases (test c)) [
      | inl first ↦ rw first (member c first, joined_rest-All cs)
      | inr other ↦ rw other tt
    ]

-- An ASCII character that `lower` leaves alone.
abbrev Plain : ℕ → Type 0
Plain c = (ltb c 128 ≡ true) × (lower_char c ≡ c)

digit-Plain : (c : ℕ) → is_digit c ≡ true → Plain c
unfolding is_digit lower_char
digit-Plain c h = ground arith

alnum-Plain : (c : ℕ) → is_alnum c ≡ true → Plain c
unfolding is_alnum lower_char
alnum-Plain c h = ground arith

connector-Plain : Plain b'.' × Plain b'_' × Plain b'\''
unfolding lower_char
connector-Plain = ((refl, refl), (refl, refl), (refl, refl))

match_word-Plain : (text : Text) → All Plain (match_word text)
unfolding match_word
match_word-Plain text = elim (Bool-cases (has_char b'.' (joined is_digit b'.' text))) [
  | inl dots ↦ rw dots (joined-All is_digit b'.' Plain digit-Plain connector-Plain.0 text)
  | inr plain ↦ rw plain (elim (Bool-cases (has_char b'_' (joined is_alnum b'_' text))) [
    | inl unders ↦ rw unders (joined-All is_alnum b'_' Plain alnum-Plain connector-Plain.1 text)
    | inr others ↦ rw others (joined-All is_alnum b'\'' Plain alnum-Plain connector-Plain.2 text)
  ])
]

self_eq :
    (test : ℕ → Bool) (join : ℕ) (text : Text)
    → text_eq (joined test join (joined test join text)) (joined test join text) ≡ true
self_eq test join text = rw joined_idem (text_eq_refl (joined test join text))

-- What the pattern matches somewhere it matches in full.
match_word-is_word :
    (text : Text) → non_empty (match_word text) ≡ true → is_word (match_word text) ≡ true
unfolding match_word is_word
match_word-is_word text h =
    ground (
      arith,
      h,
      self_eq is_digit b'.' text,
      self_eq is_alnum b'_' text,
      self_eq is_alnum b'\'' text,
    )

All-is_ascii : (word : Text) → All Plain word → is_ascii word ≡ true
All-is_ascii [] h = refl
All-is_ascii (c ∷ cs) h = rw (h.0.0, All-is_ascii cs h.1)

lower_of_All : (word : Text) → All Plain word → lower word ≡ word
lower_of_All [] h = refl
lower_of_All (c ∷ cs) h = ap₂ ◌∷◌ h.0.1 (lower_of_All cs h.1)

match_word-is_ascii_word :
    (text : Text) → non_empty (match_word text) ≡ true → is_ascii_word (match_word text) ≡ true
unfolding is_ascii_word
match_word-is_ascii_word text h = rw (
  All-is_ascii (match_word text) (match_word-Plain text),
  lower_of_All (match_word text) (match_word-Plain text),
  match_word-is_word text h,
)

abbrev IsToken : Text → Type 0
IsToken word = is_ascii_word word ≡ true

find_words-IsToken : (skip : ℕ) (text : Text) → All IsToken (find_words skip text)
unfolding find_words
find_words-IsToken skip [] = tt
find_words-IsToken (suc skip) (c ∷ cs) = find_words-IsToken skip cs
find_words-IsToken zero (c ∷ cs) =
    let later = find_words-IsToken (length (match_word (c ∷ cs)) - 1) cs in
    elim (Bool-cases (non_empty (match_word (c ∷ cs)))) [
      | inl found ↦ rw found (match_word-is_ascii_word (c ∷ cs) found, later)
      | inr missing ↦ rw missing later
    ]

keep_passing : (test : Text → Bool) (words : List Text) → All (λ w. test w ≡ true) (keep test words)
keep_passing test [] = tt
keep_passing test (w ∷ ws) = elim (Bool-cases (test w)) [
  | inl e ↦ rw e (e, keep_passing test ws)
  | inr e ↦ rw e (keep_passing test ws)
]

-- Each word that `ascii_words` returns is exactly one supported word token, and none is a stop word.
pub ascii_words-IsToken :
    (text : Text) (words : List Text)
    → ascii_words text ≡ ok words
    → All (λ w. (is_ascii_word w ≡ true) × (contains english_stop_words w ≡ false)) words
unfolding ascii_words lowered_words not_stop_word
ascii_words-IsToken text words h =
    let kept = keep not_stop_word (find_words 0 (lower text)) in
    let same : kept ≡ words = ground (arith, h) in
    subst (All (λ w. (is_ascii_word w ≡ true) × (contains english_stop_words w ≡ false))) same (
      both_All IsToken (λ w. contains english_stop_words w ≡ false) kept
        (All-keep IsToken not_stop_word _ (find_words-IsToken 0 (lower text)))
        (All-weaken (λ w. contains english_stop_words w ≡ false) (λ w e. ground (arith, e)) kept
          (keep_passing not_stop_word (find_words 0 (lower text)))))
