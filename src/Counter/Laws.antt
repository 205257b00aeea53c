-- ===== src/Counter/Laws.antt =====
-- What counting keys gives.
use xsr.Prelude.{
  All, Bool-cases, List, Text, [], arith, false, if◌then◌else◌, inl, inr, length, text_eq,
  text_eq_iff, ◌+◌, ◌∙◌, ◌∷◌, ◌≡◌,
}
use xsr.Counter.{Counter, bump, count_of, occurrences, tally, tally_onto, total}

count_of-bump :
    (counter : Counter) (key other : Text)
    → count_of (bump counter key) other
      ≡ (if text_eq key other then count_of counter other + 1 else count_of counter other)
unfolding count_of bump
count_of-bump [] key other = ground arith
count_of-bump ((k, n) ∷ entries) key other = ground (
  arith,
  count_of-bump entries key other,
  text_eq_iff k key,
  text_eq_iff k other,
  text_eq_iff key other,
)

count_of-tally_onto :
    (keys : List Text) (counter : Counter) (key : Text)
    → count_of (tally_onto counter keys) key ≡ count_of counter key + occurrences key keys
unfolding tally_onto occurrences
count_of-tally_onto [] counter key = omega arith
count_of-tally_onto (k ∷ keys) counter key =
    ground (arith, count_of-tally_onto keys (bump counter k) key, count_of-bump counter k key)

-- A counter holds, for each key, how often it stands in the list.
pub count_of-tally :
    (keys : List Text) (key : Text) → count_of (tally keys) key ≡ occurrences key keys
unfolding tally count_of
count_of-tally keys key = omega (arith, count_of-tally_onto keys [] key)

total-bump : (counter : Counter) (key : Text) → total (bump counter key) ≡ total counter + 1
unfolding total bump
total-bump [] key = omega arith
total-bump ((k, n) ∷ entries) key = ground (arith, total-bump entries key)

total-tally_onto :
    (keys : List Text) (counter : Counter)
    → total (tally_onto counter keys) ≡ total counter + length keys
unfolding tally_onto
total-tally_onto [] counter = omega arith
total-tally_onto (k ∷ keys) counter =
    omega (arith, total-tally_onto keys (bump counter k), total-bump counter k)

-- The counts add up to the number of keys counted.
pub total-tally : (keys : List Text) → total (tally keys) ≡ length keys
unfolding tally total
total-tally keys = omega (arith, total-tally_onto keys [])

-- No key stands in two entries.
abbrev pub Fresh : Text → Counter → Type 0
Fresh key = All (λ e. text_eq e.0 key ≡ false)

abbrev pub Distinct : Counter → Type 0
Distinct [] = Unit
Distinct ((k, n) ∷ entries) = Fresh k entries × Distinct entries

bump-Fresh :
    (counter : Counter) (key other : Text)
    → text_eq key other ≡ false
    → Fresh other counter
    → Fresh other (bump counter key)
unfolding bump
bump-Fresh [] key other h f = (h, tt)
bump-Fresh ((k, n) ∷ entries) key other h f = elim (Bool-cases (text_eq k key)) [
  | inl hit ↦ rw hit f
  | inr miss ↦ rw miss (f.0, bump-Fresh entries key other h f.1)
]

pub text_eq_symm : (a b : Text) → text_eq a b ≡ text_eq b a
text_eq_symm a b = ground (arith, text_eq_iff a b, text_eq_iff b a)

bump-Distinct : (counter : Counter) (key : Text) → Distinct counter → Distinct (bump counter key)
unfolding bump
bump-Distinct [] key d = (tt, tt)
bump-Distinct ((k, n) ∷ entries) key d = elim (Bool-cases (text_eq k key)) [
  | inl hit ↦ rw hit d
  | inr miss ↦
      rw miss
        (bump-Fresh entries key k (text_eq_symm key k ∙ miss) d.0, bump-Distinct entries key d.1)
]

tally_onto-Distinct :
    (keys : List Text) (counter : Counter) → Distinct counter → Distinct (tally_onto counter keys)
unfolding tally_onto
tally_onto-Distinct [] counter d = d
tally_onto-Distinct (k ∷ keys) counter d =
    tally_onto-Distinct keys (bump counter k) (bump-Distinct counter k d)

pub tally-Distinct : (keys : List Text) → Distinct (tally keys)
unfolding tally
tally-Distinct keys = tally_onto-Distinct keys [] tt
