-- ===== src/Jaccard/Counts.antt =====
-- The score of two gram counters.
use xsr.Prelude.{
  Bool, Bool-cases, Text, [], ap, arith, inl, inr, min, refl, subst, suc, sym, text_eq, text_eq_iff,
  text_eq_refl, true, zero, ℕ, ◌*◌, ◌+◌, ◌/◌, ◌<◌, ◌^◌, ◌∙◌, ◌∷◌, ◌≡◌, ◌≤◌,
}
use xsr.Counter.Laws.{Distinct, Fresh, text_eq_symm, tally-Distinct}
use xsr.Jaccard.{
  similarity, Decimal, matches, score_matches, similarity_counts, word_grams, milli_of, reaches,
}
use xsr.Counter.{Counter, count_of, total}

pub similarity-le-total : (left right : Counter) → similarity left right ≤ total left
unfolding similarity total
similarity-le-total [] right = omega arith
similarity-le-total ((g, n) ∷ left) right = omega (arith, similarity-le-total left right)

-- `left == right` of two `Counter`s: a key that is missing counts 0.
abbrev pub SameCounts : Counter → Counter → Type 0
SameCounts left right = (gram : Text) → count_of left gram ≡ count_of right gram

similarity-Fresh :
    (left right : Counter) (key : Text) (n : ℕ)
    → Fresh key left
    → similarity left ((key, n) ∷ right) ≡ similarity left right
unfolding similarity count_of
similarity-Fresh [] right key n f = refl
similarity-Fresh ((g, m) ∷ left) right key n f =
    rw (text_eq_symm key g ∙ f.0, similarity-Fresh left right key n f.1)

-- A counter shares all its grams with itself.
pub similarity_self :
    (counter : Counter) → Distinct counter → similarity counter counter ≡ total counter
unfolding similarity count_of total
similarity_self [] d = refl
similarity_self ((g, n) ∷ entries) d =
    rw (text_eq_refl g, similarity-Fresh entries entries g n d.0, similarity_self entries d.1)
      (omega arith)

count_of-Fresh : (counter : Counter) (key : Text) → Fresh key counter → count_of counter key ≡ 0
unfolding count_of
count_of-Fresh [] key f = refl
count_of-Fresh ((g, m) ∷ counter) key f = rw f.0 (count_of-Fresh counter key f.1)

similarity-cons :
    (right left : Counter) (key : Text) (n : ℕ)
    → Distinct right
    → Fresh key left
    → similarity right ((key, n) ∷ left) ≡ min n (count_of right key) + similarity right left
unfolding similarity count_of
similarity-cons [] left key n d f = omega arith
similarity-cons ((k, m) ∷ right) left key n d f = elim (Bool-cases (text_eq key k)) [
  | inl hit ↦
      let same = (text_eq_iff key k).0 hit in
      ground (
        arith,
        hit,
        text_eq_symm key k,
        count_of-Fresh left k (subst (λ x. Fresh x left) same f),
        similarity-Fresh right left key n (subst (λ x. Fresh x right) (sym same) d.0),
      )
  | inr miss ↦ ground (arith, miss, text_eq_symm key k, similarity-cons right left key n d.1 f)
]

similarity_nil : (right : Counter) → similarity right [] ≡ 0
unfolding similarity count_of
similarity_nil [] = refl
similarity_nil ((k, m) ∷ right) = omega (arith, similarity_nil right)

pub similarity_comm :
    (left right : Counter)
    → Distinct left
    → Distinct right
    → similarity left right ≡ similarity right left
unfolding similarity
similarity_comm [] right d e = sym (similarity_nil right)
similarity_comm ((g, n) ∷ left) right d e =
    omega (arith, similarity-cons right left g n e d.0, similarity_comm left right d.1 e)

-- A score is at most 1: the numerator is the square of the allgram count less another square, and
-- the samegram count is at most the grams of either side.
pub similarity_counts_bounds :
    (left right : Counter)
    → Distinct left
    → Distinct right
    → ((similarity_counts left right).0 ≤ total left)
      × ((similarity_counts left right).0 ≤ total right)
      × ((similarity_counts left right).2
          ≤ (similarity_counts left right).1 * (similarity_counts left right).1)
unfolding similarity_counts
similarity_counts_bounds left right d e = omega (
  arith,
  similarity-le-total left right,
  similarity-le-total right left,
  similarity_comm left right d e,
)

similarity_counts_comm :
    (left right : Counter)
    → Distinct left
    → Distinct right
    → similarity_counts left right ≡ similarity_counts right left
unfolding similarity_counts
similarity_counts_comm left right d e = ground (arith, similarity_comm left right d e)

-- The grams of a word are counted in distinct entries.
word_grams-Distinct :
    (to_lower : Text → Text) (word : Text) (arity : ℕ) (case_sensitive : Bool)
    → Distinct (word_grams to_lower word arity case_sensitive)
unfolding word_grams
word_grams-Distinct to_lower word arity case_sensitive = tally-Distinct _

pub milli_of-le : (digits places : ℕ) → digits ≤ 10 ^ places → milli_of digits places ≤ 1000
unfolding milli_of
milli_of-le digits places h = thousand digits (10 ^ places) h
  where
    thousand : (d q : ℕ) → d ≤ q → (2 * (d * 1000) + q) / (2 * q) ≤ 1000
    thousand d zero h = omega arith
    thousand d (suc q) h = grind arith

score_matches_full :
    (threshold : Decimal) (t : ℕ)
    → 0 < t
    → threshold.digits ≤ 10 ^ threshold.places
    → score_matches threshold (t, t, t * t) ≡ true
unfolding score_matches reaches
score_matches_full threshold t some_gram bounded =
    let small = milli_of-le threshold.digits threshold.places bounded in
    let scaled : t * t * milli_of threshold.digits threshold.places ≤ t * t * 1000 = grind arith in
    ground arith

-- The counts of the right counter are all that matters of it.
similarity-SameCounts :
    (counter left right : Counter)
    → SameCounts left right
    → similarity counter left ≡ similarity counter right
unfolding similarity
similarity-SameCounts [] left right same = refl
similarity-SameCounts ((g, n) ∷ counter) left right same =
    omega (arith, same g, similarity-SameCounts counter left right same)

shared-SameCounts :
    (left right : Counter)
    → Distinct left
    → SameCounts left right
    → similarity left right ≡ total left
shared-SameCounts left right d same =
    sym (similarity-SameCounts left left right same) ∙ similarity_self left d

similarity_counts-SameCounts :
    (left right : Counter)
    → Distinct left
    → Distinct right
    → SameCounts left right
    → similarity_counts left right ≡ (total left, total left, total left * total left)
unfolding similarity_counts
similarity_counts-SameCounts left right d e same =
    let shared = shared-SameCounts left right d same in
    let back = shared-SameCounts right left e (λ gram. sym (same gram)) in
    let totals : total right ≡ total left =
      omega (arith, shared, back, similarity_comm left right d e) in
    ground (arith, shared, totals)

module _ (to_lower : Text → Text) (arity : ℕ) (threshold : Decimal) (case_sensitive : Bool) where
  -- Matching does not depend on which text is the keyword.
  pub matches_comm :
      (word keyword : Text)
      → matches to_lower word keyword arity threshold case_sensitive
        ≡ matches to_lower keyword word arity threshold case_sensitive
  unfolding matches
  matches_comm word keyword = ap (score_matches threshold) (
      similarity_counts_comm _ _ (word_grams-Distinct to_lower word arity case_sensitive)
        (word_grams-Distinct to_lower keyword arity case_sensitive))

  -- Two texts with as many of each gram, and one gram at least, match at every threshold up to 1, in
  -- whatever order the grams stand.
  pub matches_same :
      (word keyword : Text)
      → SameCounts
          (word_grams to_lower word arity case_sensitive)
          (word_grams to_lower keyword arity case_sensitive)
      → 0 < total (word_grams to_lower word arity case_sensitive)
      → threshold.digits ≤ 10 ^ threshold.places
      → matches to_lower word keyword arity threshold case_sensitive ≡ true
  unfolding matches
  matches_same word keyword same some_gram bounded =
      rw
        (similarity_counts-SameCounts _ _ (word_grams-Distinct to_lower word arity case_sensitive)
          (word_grams-Distinct to_lower keyword arity case_sensitive) same)
        (score_matches_full threshold (total (word_grams to_lower word arity case_sensitive))
          some_gram bounded)
