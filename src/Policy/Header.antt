-- ===== src/Policy/Header.antt =====
-- `macro_name` and `emit_header` of benchmarks/policy/generate_keyword_header.py: the keyword tables of
-- the generated header, and the C functions that the header defines over them. The includer of the
-- header defines MAX_KEYWORDS, a parameter here.
pub mod Lookup
pub mod Scan
pub mod Occurrence
use xsr.Prelude.{
  Bool, List, Option, Text, [], bit_and, codes, drop_last, ends_with, false, get_or, if◌then◌else◌,
  is_digit, leb, length, ltb, map, max, none, replicate, some, suc, text_eq, true, upper, zero, ℕ,
  ◌%◌, ◌&&◌, ◌++◌, ◌+◌, ◌-◌, ◌==◌, ◌^◌, ◌||◌, ◌∷◌,
}
use xsr.Policy.Validate.{Route}

-- [A-Za-z0-9]
abbrev is_name_char : ℕ → Bool
is_name_char c = is_digit c || (leb b'a' c && leb c b'z') || (leb b'A' c && leb c b'Z')

-- re.sub(r"[^A-Za-z0-9]+", "_", keyword), where `inside` says that the character before was replaced.
unfoldable pub join_names : Bool → Text → Text
join_names inside [] = []
join_names inside (c ∷ cs) =
    let named = join_names false cs in
    let replaced = join_names true cs in
    if is_name_char c then c ∷ named else if inside then replaced else b'_' ∷ replaced

-- .strip("_"), on a text where no two underscores stand together
abbrev drop_leading : Text → Text
drop_leading [] = []
drop_leading (c ∷ cs) = if c == b'_' then cs else c ∷ cs

abbrev drop_trailing : Text → Text
drop_trailing name = if ends_with name (codes "_") then drop_last 1 name else name

abbrev starts_with_digit : Text → Bool
starts_with_digit [] = true
starts_with_digit (c ∷ cs) = is_digit c

unfoldable pub macro_name : Text → Text
unfolding join_names
macro_name keyword =
    let name = upper (drop_trailing (drop_leading (join_names false keyword))) in
    codes "XDP_KEYWORD_" ++ (if starts_with_digit name then codes "KEYWORD_" ++ name else name)

pub record Entry : Type 0 where
  pub keyword : Text
  pub route_name : Text

-- The first loop of `emit_header`, less the macro names.
unfoldable pub entries_of : List Route → List Entry
entries_of [] = []
entries_of (r ∷ routes) =
    map (λ k. record { keyword = k; route_name = r.name }) r.keywords ++ entries_of routes

-- Where each keyword starts, behind `n` characters.
unfoldable pub offsets_from : ℕ → List Entry → List ℕ
offsets_from n [] = []
offsets_from n (e ∷ entries) = n ∷ offsets_from (n + length e.keyword) entries

unfoldable pub chars_of : List Entry → Text
chars_of [] = []
chars_of (e ∷ entries) = e.keyword ++ chars_of entries

unfoldable pub max_len_of : List Entry → ℕ
max_len_of [] = 0
max_len_of (e ∷ entries) = max (length e.keyword) (max_len_of entries)

abbrev pub math_flag : Entry → ℕ
math_flag e = if text_eq e.route_name (codes "coding") then 0 else 1

-- `values + [0] * (32 - len(keywords))`
abbrev pub pad_to_32 : List ℕ → List ℕ
pad_to_32 values = values ++ replicate (32 - length values) 0

-- The constants and the arrays of the header, the arrays as the C types hold them.
pub record Tables : Type 0 where
  pub count : ℕ
  pub max_len : ℕ
  pub chars_len : ℕ
  pub offsets : List ℕ
  pub lens : List ℕ
  pub is_math : List ℕ
  pub chars : Text

unfoldable pub tables_of : List Entry → Tables
unfolding offsets_from chars_of max_len_of
tables_of entries = record {
  count = length entries;
  max_len = max_len_of entries;
  chars_len = length (chars_of entries);
  offsets = map (λ n. n % 2 ^ 16) (pad_to_32 (offsets_from 0 entries));
  lens = map (λ n. n % 2 ^ 8) (pad_to_32 (map (λ k. length k.keyword) entries));
  is_math = pad_to_32 (map math_flag entries);
  chars = chars_of entries;
}

-- `max` of no keyword raises.
unfoldable pub header_tables : List Entry → Option Tables
unfolding tables_of
header_tables [] = none
header_tables (e ∷ rest) = some (tables_of (e ∷ rest))

-- struct xdp_keyword_state, an array as a function of the index.
pub record State : Type 0 where
  pub positions : ℕ → ℕ
  pub matched_math : Bool
  pub matched_coding : Bool

pub data KeywordRoute : Type 0 where
  general coding math : KeywordRoute

-- XDP_KEYWORD_CLEAR_ALL, and no match
abbrev pub cleared : State
cleared = record { positions = λ i. 0; matched_math = false; matched_coding = false }

abbrev pub set_pos : (ℕ → ℕ) → ℕ → ℕ → ℕ → ℕ
set_pos positions idx value i = if i == idx then value else positions i

module _ (max_keywords : ℕ) (t : Tables) where
  unfoldable pub keyword_len : ℕ → ℕ
  keyword_len id = if leb max_keywords id then 0 else get_or t.lens id 0

  unfoldable pub keyword_route_for_id : ℕ → KeywordRoute
  keyword_route_for_id id =
      if leb max_keywords id || leb t.count id
      then general
      else if get_or t.is_math id 0 == 0
      then coding
      else math

  unfoldable pub keyword_char : ℕ → ℕ → ℕ
  keyword_char id place =
      let offset = get_or t.offsets id 0 in
      if leb max_keywords id || leb (get_or t.lens id 0) place
      then 0
      else if leb t.max_len place
      then 0
      else if leb t.chars_len offset || leb t.chars_len (offset + place)
      then 0
      else get_or t.chars (offset + place) 0

  -- Setting the match of a keyword.
  unfoldable pub set_match : ℕ → State → State
  set_match idx s =
      if get_or t.is_math idx 0 == 0
      then record { positions = s.positions; matched_math = s.matched_math; matched_coding = true }
      else record {
        positions = s.positions;
        matched_math = true;
        matched_coding = s.matched_coding;
      }

  abbrev pub store : ℕ → ℕ → State → State
  store idx place s = record {
    positions = set_pos s.positions idx place;
    matched_math = s.matched_math;
    matched_coding = s.matched_coding;
  }

  -- xdp_keyword_score_callback for an index below the count.
  unfoldable pub score_keyword : ℕ → ℕ → State → State
  unfolding keyword_char set_match
  score_keyword idx c s =
      let len = get_or t.lens idx 0 in
      let place = s.positions idx in
      let next = (place + 1) % 2 ^ 8 in
      if len == 0 || ltb t.max_len len
      then s
      else if ltb place len && c == keyword_char idx place
      then if next == len then store idx 0 (set_match idx s) else store idx next s
      else store idx (if c == keyword_char idx 0 then 1 else 0) s

  -- `bpf_loop` from `id` on, `times` more times, until the callback returns 1.
  unfoldable pub score_loop : ℕ → ℕ → ℕ → State → State
  unfolding score_keyword
  score_loop zero id c s = s
  score_loop (suc times) id c s =
      let idx = bit_and id (max_keywords - 1) in
      let next = score_loop times (id + 1) c (score_keyword idx c s) in
      if leb t.count idx then s else next

  unfoldable pub keyword_score_generated : ℕ → State → State
  unfolding score_loop
  keyword_score_generated c s = score_loop max_keywords 0 c s

  -- The bytes of a text, one after the other.
  unfoldable pub score_text : Text → State → State
  unfolding keyword_score_generated
  score_text [] s = s
  score_text (c ∷ cs) s = score_text cs (keyword_score_generated c s)
