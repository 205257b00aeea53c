-- ===== src/Tests/Headers.antt =====
-- The generated keyword matcher on two keywords.
use xsr.Prelude.{
  List, [], arith, bit_and, codes, ends_with, false, get_elem?, get_or, if◌then◌else◌, is_digit,
  length, refl, some, suc, text_eq, true, upper_char, zero, ℕ, ◌-◌, ◌<◌, ◌∷◌, ◌≡◌, ◌≤◌,
}
use xsr.Policy.Header.Occurrence.{score_text-Found, Found}
use xsr.Policy.Header.Lookup.{IsSmall, keyword_char-lookup, keyword_route_for_id-listed}
use xsr.Policy.Header.{
  Entry, chars_of, cleared, coding, general, header_tables, join_names, keyword_char,
  keyword_route_for_id, keyword_score_generated, macro_name, math, max_len_of, offsets_from,
  score_keyword, score_loop, score_text, set_match, tables_of,
}

abbrev two_entries : List Entry
two_entries =
    record { keyword = codes "sum"; route_name = codes "math" }
    ∷ record { keyword = codes "def"; route_name = codes "coding" }
    ∷ []

masked_2 : (i : ℕ) → i < 2 → bit_and i (2 - 1) ≡ i
masked_2 zero h = refl
masked_2 (suc zero) h = refl
masked_2 (suc (suc i)) h = absurd (omega arith)

two_entries-IsSmall : IsSmall two_entries
unfolding chars_of
two_entries-IsSmall = record { short = (omega arith, (omega arith, tt)); together = omega arith }

two_tables : header_tables two_entries ≡ some (tables_of two_entries)
unfolding header_tables
two_tables = refl

macro_run :
    (macro_name (codes "c++ (new)") ≡ codes "XDP_KEYWORD_C_NEW")
    × (macro_name (codes "3d") ≡ codes "XDP_KEYWORD_KEYWORD_3D")
unfolding macro_name join_names text_eq ends_with is_digit upper_char
macro_run = (refl, refl)

score_run :
    ((score_text 2 (tables_of two_entries) (codes "a sum.") cleared).matched_math ≡ true)
    × ((score_text 2 (tables_of two_entries) (codes "a sum.") cleared).matched_coding ≡ false)
unfolding score_text keyword_score_generated score_loop score_keyword keyword_char set_match
    tables_of offsets_from chars_of max_len_of text_eq
score_run = (refl, refl)

-- After a mismatch the matcher starts again, so that it misses an occurrence that overlaps.
overlap_missed :
    (score_text 2
      (tables_of (record { keyword = codes "aab"; route_name = codes "math" } ∷ []))
      (codes "aaab")
      cleared).matched_math
    ≡ false
unfolding score_text keyword_score_generated score_loop score_keyword keyword_char set_match
    tables_of offsets_from chars_of max_len_of text_eq
overlap_missed = refl

score_text-Found_example :
    ((score_text 2 (tables_of two_entries) (codes "a sum.") cleared).matched_math ≡ true
      → Found two_entries false (codes "a sum."))
    × ((score_text 2 (tables_of two_entries) (codes "a sum.") cleared).matched_coding ≡ true
        → Found two_entries true (codes "a sum."))
score_text-Found_example =
    score_text-Found 2 two_entries (tables_of two_entries) (codes "a sum.") masked_2
      two_entries-IsSmall two_tables

keyword_char-lookup_example : keyword_char 2 (tables_of two_entries) 1 2 ≡ get_or (codes "def") 2 0
keyword_char-lookup_example =
    keyword_char-lookup 2 two_entries two_entries-IsSmall 1
      (record { keyword = codes "def"; route_name = codes "coding" }) 2 (omega arith) refl
      (omega arith)

keyword_route_for_id-listed_example :
    ((e : Entry)
      → 0 < 2
      → get_elem? two_entries 0 ≡ some e
      → keyword_route_for_id 2 (tables_of two_entries) 0
        ≡ (if text_eq e.route_name (codes "coding") then coding else math))
    × (2 ≤ 0 → keyword_route_for_id 2 (tables_of two_entries) 0 ≡ general)
    × (length two_entries ≤ 0 → keyword_route_for_id 2 (tables_of two_entries) 0 ≡ general)
keyword_route_for_id-listed_example = keyword_route_for_id-listed 2 two_entries 0
