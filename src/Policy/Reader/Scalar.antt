-- ===== src/Policy/Reader/Scalar.antt =====
-- `parse_scalar` of benchmarks/policy/generate_keyword_header.py.
pub mod Fuel
pub mod Plain
pub mod Inline
pub mod Bracketed
use xsr.Prelude.{
  Bool, List, Option, Text, [], all, codes, drop, drop_last, ends_with, false, if◌then◌else◌,
  is_digit, keep, length, map, non_empty, none, not, some, starts_with, suc, text_eq, true, zero, ℕ,
  ℤ, ◌&&◌, ◌+◌, ◌==◌, ◌||◌, ◌∷◌,
}
use xsr.Policy.Values.{Value, flag, from_list, is_space, list, nil, num, read_signed, strip, text}

-- Every character in front of a comma that an even number of quotes follows, and those behind it.
abbrev pub even_quotes : Text → Bool
even_quotes [] = true
even_quotes (c ∷ cs) = if c == b'"' then not (even_quotes cs) else even_quotes cs

abbrev pub prepend_first : ℕ → List Text → List Text
prepend_first c [] = (c ∷ []) ∷ []
prepend_first c (part ∷ parts) = (c ∷ part) ∷ parts

-- The parts between the commas that an even number of quotes follows.
unfoldable pub split_items : Text → List Text
split_items [] = [] ∷ []
split_items (c ∷ cs) =
    let later = split_items cs in
    if c == b',' && even_quotes cs then [] ∷ later else prepend_first c later

-- re.fullmatch(r"-?[0-9]+", value)
unfoldable pub is_integer : Text → Bool
unfolding is_digit
is_integer [] = false
is_integer (c ∷ cs) = if c == b'-' then non_empty cs && all is_digit cs else all is_digit (c ∷ cs)

abbrev pub is_quote : ℕ → Bool
is_quote c = c == b'"' || c == b'\''

abbrev pub integer_or : Text → Option ℤ → Value
integer_or value none = text value
integer_or value (some n) = num n

-- A value that is no list in brackets.
unfoldable pub parse_plain : Text → Value
unfolding is_integer read_signed strip
parse_plain value =
    if text_eq value (codes "true") || text_eq value (codes "false")
    then flag (text_eq value (codes "true"))
    else if is_integer value
    then integer_or value (read_signed value)
    else text (strip is_quote value)

abbrev pub is_bracketed : Text → Bool
is_bracketed value = starts_with value (codes "[") && ends_with value (codes "]")

-- value[1:-1].strip()
abbrev pub bracket_body : Text → Text
bracket_body value = strip is_space (drop 1 (drop_last 1 value))

abbrev pub items_of : Text → List Text
items_of body = keep (λ part. non_empty (strip is_space part)) (split_items body)

unfoldable pub scalar_fuel : ℕ → Text → Value
unfolding parse_plain strip is_space split_items starts_with ends_with
scalar_fuel zero raw = text raw
scalar_fuel (suc fuel) raw =
    let value = strip is_space raw in
    let body = bracket_body value in
    let items = map (scalar_fuel fuel) (items_of body) in
    if is_bracketed value
    then list (if non_empty body then from_list items else nil)
    else parse_plain value

-- Each list in brackets is shorter than the value that holds it.
unfoldable pub parse_scalar : Text → Value
unfolding scalar_fuel
parse_scalar raw = scalar_fuel (length raw + 1) raw
