-- ===== src/Policy/Reader/Written.antt =====
-- Policies as people write them: keys with scalars, and dicts and lists below keys, by indentation. What
-- `load_policy` of benchmarks/policy/generate_keyword_header.py should make of them goes by recursion.
pub mod Contents
pub mod Filled
pub mod Loading
pub mod Children
pub mod ReadBack
pub mod Appended
pub mod Resolved
pub mod RoundTrip
use xsr.Prelude.{
  All, Bool, List, Text, [], codes, contains, false, has_char, next_is, non_empty, not, replicate,
  true, ℕ, ◌++◌, ◌+◌, ◌==◌, ◌||◌, ◌∷◌, ◌≡◌,
}
use xsr.Policy.Reader.Lines.{list_keys}
use xsr.Policy.Reader.Scalar.{parse_scalar}
use xsr.Policy.Values.{Fields, Items, dict, end, field, is_space, item, list, nil, put, strip_right}

mutual
  pub data Body : Type 0 where
    no_entries : Body
    scalar_entry : Text → Text → Body → Body
    dict_entry : Text → Body → Body → Body
    list_entry : Text → RowList → Body → Body

  pub data RowList : Type 0 where
    no_rows : RowList
    scalar_row : Text → RowList → RowList
    dict_row : Text → Text → Body → RowList → RowList

-- The fields that a body adds to some, and the items that rows stand for.
unfoldable mutual
  pub fields_of : Fields → Body → Fields
  fields_of fields no_entries = fields
  fields_of fields (scalar_entry key raw rest) = fields_of (put fields key (parse_scalar raw)) rest
  fields_of fields (dict_entry key body rest) =
      fields_of (put fields key (dict (fields_of end body))) rest
  fields_of fields (list_entry key rows rest) =
      fields_of (put fields key (list (items_in rows))) rest

  pub items_in : RowList → Items
  items_in no_rows = nil
  items_in (scalar_row raw rows) = item (parse_scalar raw) (items_in rows)
  items_in (dict_row key raw body rows) =
      item (dict (fields_of (field key (parse_scalar raw) end) body)) (items_in rows)

abbrev pub indented : ℕ → Text → Text
indented n content = replicate n b' ' ++ content

-- "key: value", "key:", "- value" and "- key: value"
abbrev pub entry_text : Text → Text → Text
entry_text key raw = key ++ (codes ": " ++ raw)

abbrev pub header_text : Text → Text
header_text key = key ++ codes ":"

abbrev pub row_text : Text → Text
row_text content = codes "- " ++ content

-- The lines of a body and of rows that are indented by `n`; what is below them by `width` more.
module _ (width : ℕ) where
  unfoldable mutual
    pub body_lines : ℕ → Body → List Text
    body_lines n no_entries = []
    body_lines n (scalar_entry key raw rest) = indented n (entry_text key raw) ∷ body_lines n rest
    body_lines n (dict_entry key body rest) =
        indented n (header_text key) ∷ body_lines (n + width) body ++ body_lines n rest
    body_lines n (list_entry key rows rest) =
        indented n (header_text key) ∷ row_lines (n + width) rows ++ body_lines n rest

    pub row_lines : ℕ → RowList → List Text
    row_lines n no_rows = []
    row_lines n (scalar_row raw rows) = indented n (row_text raw) ∷ row_lines n rows
    row_lines n (dict_row key raw body rows) =
        indented n (row_text (entry_text key raw)) ∷ body_lines (n + width) body ++ row_lines n rows

unfoldable pub file_text : List Text → Text
file_text [] = []
file_text (line ∷ lines) = line ++ 10 ∷ file_text lines

abbrev pub is_key_char : ℕ → Bool
is_key_char c = not (is_space c || c == b':' || c == b'#')

abbrev pub is_raw_char : ℕ → Bool
is_raw_char c = not (c == b'#' || c == 10)

-- A key without blanks; a value on one line without a comment or blanks around it.
abbrev pub IsKey : Text → Type 0
IsKey key = (non_empty key ≡ true) × All (λ c. is_key_char c ≡ true) key

abbrev pub IsRaw : Text → Type 0
IsRaw raw =
    (non_empty raw ≡ true)
    × (next_is is_space raw ≡ false)
    × (strip_right is_space raw ≡ raw)
    × All (λ c. is_raw_char c ≡ true) raw

unfoldable mutual
  pub BodyIsWritten : Body → Type 0
  BodyIsWritten no_entries = Unit
  BodyIsWritten (scalar_entry key raw rest) = IsKey key × IsRaw raw × BodyIsWritten rest
  BodyIsWritten (dict_entry key body rest) =
      IsKey key × (contains list_keys key ≡ false) × BodyIsWritten body × BodyIsWritten rest
  BodyIsWritten (list_entry key rows rest) =
      IsKey key × (contains list_keys key ≡ true) × RowsAreWritten rows × BodyIsWritten rest

  pub RowsAreWritten : RowList → Type 0
  RowsAreWritten no_rows = Unit
  RowsAreWritten (scalar_row raw rows) =
      IsRaw raw × (has_char b':' raw ≡ false) × RowsAreWritten rows
  RowsAreWritten (dict_row key raw body rows) =
      IsKey key × IsRaw raw × BodyIsWritten body × RowsAreWritten rows
