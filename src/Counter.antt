-- ===== src/Counter.antt =====
-- Python's `collections.Counter` over texts (a gram is the text of its characters), with its entries
-- in the order of their first occurrence. benchmarks/policy/jaccard_reference.py,
-- generate_jaccard_policy_header.py and bm25_reference.py count with it.
pub mod Laws
use xsr.Prelude.{List, Text, [], if◌then◌else◌, text_eq, ℕ, ◌+◌, ◌∷◌}

abbrev pub Counter : Type 0
Counter = List (Text × ℕ)

-- counter[key] += 1
unfoldable pub bump : Counter → Text → Counter
bump [] key = (key, 1) ∷ []
bump ((k, n) ∷ entries) key =
    if text_eq k key then (k, n + 1) ∷ entries else (k, n) ∷ bump entries key

unfoldable pub tally_onto : Counter → List Text → Counter
unfolding bump
tally_onto counter [] = counter
tally_onto counter (key ∷ keys) = tally_onto (bump counter key) keys

-- Counter(keys)
unfoldable pub tally : List Text → Counter
unfolding tally_onto
tally = tally_onto []

-- counter[key]: 0 for a key that was not counted
unfoldable pub count_of : Counter → Text → ℕ
count_of [] key = 0
count_of ((k, n) ∷ entries) key = if text_eq k key then n else count_of entries key

-- sum(counter.values())
unfoldable pub total : Counter → ℕ
total [] = 0
total ((k, n) ∷ entries) = n + total entries

-- How often a key stands in a list.
pub occurrences : Text → List Text → ℕ
occurrences key [] = 0
occurrences key (k ∷ keys) = (if text_eq k key then 1 else 0) + occurrences key keys
