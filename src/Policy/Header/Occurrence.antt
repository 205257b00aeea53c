-- ===== src/Policy/Header/Occurrence.antt =====
-- A match of the generated matcher is an occurrence of a keyword.
use xsr.Prelude.{
  Bool, Bool-cases, List, Text, [], ap, append-nil, append_assoc, ap₂, arith, bit_and, codes, drop,
  false, get_elem?, get_or, inl, inr, length, refl, some, subst, suc, sym, take, take-append-drop,
  text_eq, true, zero, ℕ, ◌++◌, ◌-◌, ◌<◌, ◌==◌, ◌∙◌, ◌∷◌, ◌≡◌, ◌≤◌,
}
use xsr.Policy.Header.Lookup.{
  IsSmall, get_elem?-some, keyword_char-lookup, tables_of-lens, header_tables-tables_of,
  tables_of-is_math, tables_of-narrow,
}
use xsr.Policy.Header.Scan.{reverse_onto, Ends, WasRead, cleared-Fits, score_text-Fits}
use xsr.Policy.Header.{Entry, Tables, tables_of, cleared, header_tables, math_flag, score_text}

pub reverse_onto-append :
    (xs ys acc : Text) → reverse_onto (xs ++ ys) acc ≡ reverse_onto ys (reverse_onto xs acc)
reverse_onto-append [] ys acc = refl
reverse_onto-append (x ∷ xs) ys acc = reverse_onto-append xs ys (x ∷ acc)

reverse_onto_twice :
    (xs acc onto : Text) → reverse_onto (reverse_onto xs acc) onto ≡ reverse_onto acc (xs ++ onto)
reverse_onto_twice [] acc onto = refl
reverse_onto_twice (x ∷ xs) acc onto = reverse_onto_twice xs (x ∷ acc) onto

reverse_onto-base : (xs acc : Text) → reverse_onto xs acc ≡ reverse_onto xs [] ++ acc
reverse_onto-base [] acc = refl
reverse_onto-base (x ∷ xs) acc =
    reverse_onto-base xs (x ∷ acc)
    ∙ (sym (append_assoc (reverse_onto xs []) (x ∷ []) acc)
        ∙ ap (λ ys. ys ++ acc) (sym (reverse_onto-base xs (x ∷ []))))

reverse_onto-take :
    (keyword rest : Text) (p : ℕ)
    → p < length keyword
    → reverse_onto (take (suc p) keyword) rest
      ≡ get_or keyword p 0 ∷ reverse_onto (take p keyword) rest
reverse_onto-take [] rest p h = absurd (omega arith)
reverse_onto-take (c ∷ keyword) rest zero h = refl
reverse_onto-take (c ∷ keyword) rest (suc p) h =
    reverse_onto-take keyword (c ∷ rest) p (omega arith)

-- `keyword` stands in `bytes`.
pub record StandsIn (keyword bytes : Text) : Type 0 where
  pub before : Text
  pub after : Text
  pub split : bytes ≡ before ++ (keyword ++ after)

-- A keyword of a route stands in the bytes.
pub record Found (entries : List Entry) (is_coding : Bool) (bytes : Text) : Type 0 where
  pub entry : Entry
  pub position : ℕ
  pub listed : get_elem? entries position ≡ some entry
  pub of_route : text_eq entry.route_name (codes "coding") ≡ is_coding
  pub some_byte : 0 < length entry.keyword
  pub stands : StandsIn entry.keyword bytes

take_all : (xs : Text) → take (length xs) xs ≡ xs
take_all [] = refl
take_all (x ∷ xs) = ap (◌∷◌ x) (take_all xs)

-- Bytes whose latest, less `n` of them, are the keyword.
stands_of_past :
    (keyword bytes rest : Text) (n : ℕ)
    → drop n (reverse_onto bytes []) ≡ reverse_onto keyword rest
    → StandsIn keyword bytes
stands_of_past keyword bytes rest n h =
    let past = reverse_onto bytes [] in
    let after = reverse_onto (take n past) [] in
    record {
      before = reverse_onto rest [];
      after = after;
      split =
          sym (append-nil bytes)
          ∙ (sym (reverse_onto_twice bytes [] [])
              ∙ (ap (λ p. reverse_onto p []) (sym (take-append-drop n past))
                  ∙ (reverse_onto-append (take n past) (drop n past) []
                      ∙ (ap (λ p. reverse_onto p after) h
                          ∙ (reverse_onto_twice keyword rest after
                              ∙ reverse_onto-base rest (keyword ++ after))))));
    }

math_flag-coding :
    (e : Entry) (is_coding : Bool)
    → (math_flag e == 0) ≡ is_coding
    → text_eq e.route_name (codes "coding") ≡ is_coding
math_flag-coding e is_coding h = elim (Bool-cases (text_eq e.route_name (codes "coding"))) [
  | inl q ↦ q ∙ (rw q at h)
  | inr q ↦ q ∙ (rw q at h)
]

module _ (max_keywords : ℕ) (entries : List Entry) (small : IsSmall entries) where
  abbrev t : Tables
  t = tables_of entries

  tables_of-count : t.count ≡ length entries
  unfolding tables_of
  tables_of-count = refl

  -- Bytes that end like the keyword, up to its character `p`.
  Ends-split :
      (i : ℕ) (e : Entry) (p : ℕ) (past : Text)
      → i < max_keywords
      → get_elem? entries i ≡ some e
      → p ≤ length e.keyword
      → Ends max_keywords t i p past
      → (rest : Text) × (past ≡ reverse_onto (take p e.keyword) rest)
  Ends-split i e zero past m h fit ends = (past, refl)
  Ends-split i e (suc p) [] m h fit ends = absurd ends
  Ends-split i e (suc p) (c ∷ past) m h fit ends =
      let before = Ends-split i e p past m h (omega arith) ends.1 in
      (
        before.0,
        ap₂ ◌∷◌ (ends.0 ∙ keyword_char-lookup max_keywords entries small i e p m h (omega arith))
              before.1
            ∙ sym (reverse_onto-take e.keyword before.0 p (omega arith)),
      )

  found :
      (is_coding : Bool) (bytes : Text)
      → WasRead max_keywords t is_coding (reverse_onto bytes [])
      → Found entries is_coding bytes
  found is_coding bytes w =
      let listed =
        get_elem?-some entries w.index (subst (λ n. w.index < n) tables_of-count w.in_count) in
      let e = listed.0 in
      let size = tables_of-lens entries small w.index e listed.1 in
      let split =
        Ends-split w.index e (length e.keyword) (drop w.since (reverse_onto bytes [])) w.in_map
          listed.1 (omega arith)
          (subst (λ p. Ends max_keywords t w.index p (drop w.since (reverse_onto bytes []))) size
            w.ended) in
      record {
        entry = e;
        position = w.index;
        listed = listed.1;
        of_route =
            math_flag-coding e is_coding
              (rw (tables_of-is_math entries w.index e listed.1) at w.route);
        some_byte = omega (arith, size, w.non_empty_length);
        stands =
            stands_of_past e.keyword bytes split.0 w.since
              (split.1 ∙ ap (λ k. reverse_onto k split.0) (take_all e.keyword));
      }

-- In a map whose mask keeps its indices, with keywords of less than 2^8 bytes each and less than 2^16
-- together, the generated matcher that starts from the cleared state reports math only if a keyword of
-- a route other than coding stands in the bytes it was given, and coding only if a coding keyword does.
pub score_text-Found :
    (max_keywords : ℕ) (entries : List Entry) (tables : Tables) (bytes : Text)
    → ((i : ℕ) → i < max_keywords → bit_and i (max_keywords - 1) ≡ i)
    → IsSmall entries
    → header_tables entries ≡ some tables
    → ((score_text max_keywords tables bytes cleared).matched_math ≡ true
        → Found entries false bytes)
      × ((score_text max_keywords tables bytes cleared).matched_coding ≡ true
          → Found entries true bytes)
score_text-Found max_keywords entries tables bytes masked small built =
    rw (header_tables-tables_of entries tables built) (
      let fits =
        score_text-Fits max_keywords (tables_of entries) (tables_of-narrow entries) masked bytes []
          cleared (cleared-Fits max_keywords (tables_of entries)) in
      (
        λ h. found max_keywords entries small false bytes (fits.owed.math_read h),
        λ h. found max_keywords entries small true bytes (fits.owed.coding_read h),
      ))
