-- ===== src/Policy/Header/Lookup.antt =====
-- The tables of the header hold the keywords.
use xsr.Prelude.{
  All, List, [], ap, arith, codes, false, get_elem?, get_or, if◌then◌else◌, leb, length,
  length-append, length-map, map, refl, replicate, some, suc, text_eq, zero, ℕ, ◌%◌, ◌++◌, ◌+◌, ◌-◌,
  ◌<◌, ◌^◌, ◌∙◌, ◌∷◌, ◌≡◌, ◌≤◌,
}
use xsr.Policy.Header.{
  Entry, chars_of, max_len_of, offsets_from, pad_to_32, Tables, header_tables, keyword_char,
  math_flag, tables_of, coding, general, keyword_route_for_id, math,
}

zero_add : (n : ℕ) → 0 + n ≡ n
zero_add n = omega arith

suc_add : (m n : ℕ) → suc m + n ≡ suc (m + n)
suc_add m n = omega arith

module _ {ℓ} {A : Type ℓ} where
  get_or-append_left :
      (xs ys : List A) (i : ℕ) (d : A) → i < length xs → get_or (xs ++ ys) i d ≡ get_or xs i d
  get_or-append_left [] ys i d h = absurd (omega arith)
  get_or-append_left (x ∷ xs) ys zero d h = refl
  get_or-append_left (x ∷ xs) ys (suc i) d h = get_or-append_left xs ys i d (omega arith)

  get_or-append_right :
      (xs ys : List A) (i : ℕ) (d : A) → get_or (xs ++ ys) (length xs + i) d ≡ get_or ys i d
  get_or-append_right [] ys i d = ap (λ j. get_or ys j d) (zero_add i)
  get_or-append_right (x ∷ xs) ys i d = rw (suc_add (length xs) i) (get_or-append_right xs ys i d)

  get_or-map {κ} :
      {B : Type κ} (f : A → B) (xs : List A) (i : ℕ) (d : A)
      → get_or (map f xs) i (f d) ≡ f (get_or xs i d)
  get_or-map f [] i d = refl
  get_or-map f (x ∷ xs) zero d = refl
  get_or-map f (x ∷ xs) (suc i) d = get_or-map f xs i d

  get_or-map_elem {κ} :
      {B : Type κ} (f : A → B) (xs : List A) (i : ℕ) (d : B) {x : A}
      → get_elem? xs i ≡ some x
      → get_or (map f xs) i d ≡ f x
  get_or-map_elem f [] i d h = cc
  get_or-map_elem f (x ∷ xs) zero d h = cc
  get_or-map_elem f (x ∷ xs) (suc i) d h = get_or-map_elem f xs i d h

  get_elem?-lt : (xs : List A) (i : ℕ) {x : A} → get_elem? xs i ≡ some x → i < length xs
  get_elem?-lt [] i h = cc
  get_elem?-lt (x ∷ xs) zero h = omega arith
  get_elem?-lt (x ∷ xs) (suc i) h = omega (arith, get_elem?-lt xs i h)

  pub get_elem?-some : (xs : List A) (i : ℕ) → i < length xs → (x : A) × (get_elem? xs i ≡ some x)
  get_elem?-some [] i h = absurd (omega arith)
  get_elem?-some (x ∷ xs) zero h = (x, refl)
  get_elem?-some (x ∷ xs) (suc i) h = get_elem?-some xs i (omega arith)

-- Where the characters of a keyword lie.
record Located (entries : List Entry) (i : ℕ) (e : Entry) : Type 0 where
  offset : ℕ
  at_offset : (n : ℕ) → get_or (offsets_from n entries) i 0 ≡ n + offset
  inside : offset + length e.keyword ≤ length (chars_of entries)
  no_longer : length e.keyword ≤ max_len_of entries
  spells :
      (place : ℕ)
      → place < length e.keyword
      → get_or (chars_of entries) (offset + place) 0 ≡ get_or e.keyword place 0

locate :
    (entries : List Entry) (i : ℕ) (e : Entry) → get_elem? entries i ≡ some e → Located entries i e
unfolding offsets_from chars_of max_len_of
locate [] i e h = cc
locate (x ∷ entries) zero e h =
    let same : x ≡ e = cc in
    rw (← same) (record {
      offset = 0;
      at_offset = λ n. omega arith;
      inside = omega (arith, length-append x.keyword (chars_of entries));
      no_longer = omega arith;
      spells = λ place below.
          rw (zero_add place) (get_or-append_left x.keyword (chars_of entries) place 0 below);
    })
locate (x ∷ entries) (suc i) e h =
    let rest = locate entries i e h in
    record {
      offset = length x.keyword + rest.offset;
      at_offset = λ n. omega (arith, rest.at_offset (n + length x.keyword));
      inside = omega (arith, rest.inside, length-append x.keyword (chars_of entries));
      no_longer = omega (arith, rest.no_longer);
      spells = λ place below.
          let sum : length x.keyword + rest.offset + place
              ≡ length x.keyword + (rest.offset + place) =
            omega arith in
          rw sum (
            get_or-append_right x.keyword (chars_of entries) (rest.offset + place) 0
            ∙ rest.spells place below);
    }

-- What the lookup needs: keywords of less than 2^8 bytes, and less than 2^16 bytes of them together.
pub record IsSmall (entries : List Entry) : Type 0 where
  pub short : All (λ e. length e.keyword < 2 ^ 8) entries
  pub together : length (chars_of entries) < 2 ^ 16

All-get_elem? :
    (entries : List Entry) (i : ℕ) (e : Entry)
    → All (λ x. length x.keyword < 2 ^ 8) entries
    → get_elem? entries i ≡ some e
    → length e.keyword < 2 ^ 8
All-get_elem? [] i e h q = cc
All-get_elem? (x ∷ entries) zero e h q = (let same : x ≡ e = cc in rw (← same) h.0)
All-get_elem? (x ∷ entries) (suc i) e h q = All-get_elem? entries i e h.1 q

length-offsets_from :
    (n : ℕ) (entries : List Entry) → length (offsets_from n entries) ≡ length entries
unfolding offsets_from
length-offsets_from n [] = refl
length-offsets_from n (e ∷ entries) = ap suc (length-offsets_from (n + length e.keyword) entries)

-- An entry of a padded array of `bits` bits.
padded :
    (values : List ℕ) (size i : ℕ)
    → i < length values
    → get_or (map (λ n. n % size) (pad_to_32 values)) i (0 % size) ≡ get_or values i 0 % size
padded values size i h =
    get_or-map (λ n. n % size) (pad_to_32 values) i 0
    ∙ ap (λ n. n % size) (get_or-append_left values (replicate (32 - length values) 0) i 0 h)

-- The tables that are built are those of the entries.
pub header_tables-tables_of :
    (entries : List Entry) (t : Tables) → header_tables entries ≡ some t → t ≡ tables_of entries
unfolding header_tables
header_tables-tables_of [] t h = cc
header_tables-tables_of (e ∷ entries) t h = cc

pub tables_of-is_math :
    (entries : List Entry) (i : ℕ) (e : Entry)
    → get_elem? entries i ≡ some e
    → get_or (tables_of entries).is_math i 0 ≡ math_flag e
unfolding tables_of
tables_of-is_math entries i e h =
    get_or-append_left (map math_flag entries) (replicate (32 - length (map math_flag entries)) 0) i
      0 (omega (arith, length-map entries math_flag, get_elem?-lt entries i h))
    ∙ get_or-map_elem math_flag entries i 0 h

pub tables_of-lens :
    (entries : List Entry)
    → IsSmall entries
    → (i : ℕ) (e : Entry) → get_elem? entries i ≡ some e
    → get_or (tables_of entries).lens i 0 ≡ length e.keyword
unfolding tables_of
tables_of-lens entries small i e h =
    let size : Entry → ℕ = λ k. length k.keyword in
    padded (map size entries) (2 ^ 8) i
      (omega (arith, length-map entries size, get_elem?-lt entries i h))
    ∙ (ap (λ n. n % 2 ^ 8) (get_or-map_elem size entries i 0 h)
        ∙ omega (arith, All-get_elem? entries i e small.short h))

pub tables_of-narrow : (entries : List Entry) (i : ℕ) → get_or (tables_of entries).lens i 0 < 2 ^ 8
unfolding tables_of
tables_of-narrow entries i =
    omega (arith, get_or-map (λ n. n % 2 ^ 8) (pad_to_32 (map (λ k. length k.keyword) entries)) i 0)

leb-lt : (a b : ℕ) → b < a → leb a b ≡ false
leb-lt a b h = ground arith

-- In a map of `max_keywords` entries the lookup of the generated header reads the characters of the
-- keywords, when these have less than 2^8 bytes each and less than 2^16 together.
pub keyword_char-lookup :
    (max_keywords : ℕ) (entries : List Entry)
    → IsSmall entries
    → (i : ℕ) (e : Entry) (place : ℕ) → i < max_keywords
    → get_elem? entries i ≡ some e
    → place < length e.keyword
    → keyword_char max_keywords (tables_of entries) i place ≡ get_or e.keyword place 0
unfolding keyword_char
keyword_char-lookup max_keywords entries small i e place m h below =
    let l = locate entries i e h in
    let starts : get_or (tables_of entries).offsets i 0 ≡ l.offset =
      unfold tables_of in
      (padded (offsets_from 0 entries) (2 ^ 16) i
          (omega (arith, length-offsets_from 0 entries, get_elem?-lt entries i h))
        ∙ (ap (λ n. n % 2 ^ 16) (l.at_offset 0) ∙ omega (arith, l.inside, small.together))) in
    let longest : (tables_of entries).max_len ≡ max_len_of entries = unfold tables_of in refl in
    let size : (tables_of entries).chars_len ≡ length (chars_of entries) =
      unfold tables_of in refl in
    let held : (tables_of entries).chars ≡ chars_of entries = unfold tables_of in refl in
    rw
      (
        starts,
        tables_of-lens entries small i e h,
        longest,
        size,
        held,
        leb-lt max_keywords i m,
        leb-lt (length e.keyword) place below,
        leb-lt (max_len_of entries) place (omega (arith, l.no_longer)),
        leb-lt (length (chars_of entries)) l.offset (omega (arith, l.inside)),
        leb-lt (length (chars_of entries)) (l.offset + place) (omega (arith, l.inside)),
      )
      (l.spells place below)

-- The generated header gives a listed keyword the route coding when its route is named so, and math
-- whatever else it is; an index behind the keywords or the map has the general route.
pub keyword_route_for_id-listed :
    (max_keywords : ℕ) (entries : List Entry) (i : ℕ)
    → ((e : Entry)
        → i < max_keywords
        → get_elem? entries i ≡ some e
        → keyword_route_for_id max_keywords (tables_of entries) i
          ≡ (if text_eq e.route_name (codes "coding") then coding else math))
      × (max_keywords ≤ i → keyword_route_for_id max_keywords (tables_of entries) i ≡ general)
      × (length entries ≤ i → keyword_route_for_id max_keywords (tables_of entries) i ≡ general)
unfolding keyword_route_for_id
keyword_route_for_id-listed max_keywords entries i =
    let count : (tables_of entries).count ≡ length entries = unfold tables_of in refl in
    (
      λ e m h.
          rw
            (
              count,
              leb-lt max_keywords i m,
              leb-lt (length entries) i (get_elem?-lt entries i h),
              tables_of-is_math entries i e h,
            )
            (ground arith),
      λ m. ground (arith, m),
      λ m. rw count (ground (arith, m)),
    )
