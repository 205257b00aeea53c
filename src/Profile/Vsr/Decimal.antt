-- ===== src/Profile/Vsr/Decimal.antt =====
-- `_parse_nonnegative_integer` of scripts/vsr_profile_components.py, with what `decimal.Decimal` reads of
-- ASCII text. Exponents beyond the range of `decimal` are not refused.
use xsr.Prelude.{
  Bool, Option, Result, Text, [], all, codes, drop, err, false, if◌then◌else◌, is_digit, keep,
  length, lower, ltb, negsuc, non_empty, none, not, ok, pos, some, starts_with, sub_ℕ, suc, text_eq,
  true, ℕ, ℤ, ◌%◌, ◌&&◌, ◌*◌, ◌++◌, ◌+ℤ◌, ◌+◌, ◌-◌, ◌/◌, ◌==◌, ◌^◌, ◌||◌, ◌∷◌,
}

pub data SnapshotError : Type 0 where
  invalid_value not_natural malformed_sample unexpected_stage duplicate_sample : SnapshotError
  missing_sample decreased counts_differ no_requests unexpected_count too_large : SnapshotError

-- (-1) ^ negative * digits * 10 ^ exponent, or a number that is not finite
pub data Number : Type 0 where
  finite : Bool → ℕ → ℤ → Number
  not_finite : Number

-- The digits in front of a text, and the text behind them.
unfoldable pub span_digits : Text → Text × Text
span_digits [] = ([], [])
span_digits (c ∷ cs) =
    let later = span_digits cs in if is_digit c then (c ∷ later.0, later.1) else ([], c ∷ cs)

-- The number that digits spell behind `n`.
unfoldable pub digits_value : ℕ → Text → ℕ
digits_value n [] = n
digits_value n (c ∷ cs) = digits_value (n * 10 + (c - b'0')) cs

abbrev pub whole : Text × Text → Option ℕ
whole ([], rest) = none
whole (d ∷ ds, []) = some (digits_value 0 (d ∷ ds))
whole (d ∷ ds, c ∷ rest) = none

abbrev pub with_sign : Bool → Option ℕ → Option ℤ
with_sign negative none = none
with_sign negative (some n) = some (sub_ℕ (if negative then 0 else n) (if negative then n else 0))

-- What stands behind an `E`: a sign or none, and digits to the end.
unfoldable pub read_exponent : Text → Option ℤ
unfolding span_digits digits_value
read_exponent [] = none
read_exponent (c ∷ cs) =
    if c == b'-'
    then with_sign true (whole (span_digits cs))
    else with_sign false (whole (span_digits (if c == b'+' then cs else c ∷ cs)))

-- What stands behind the digits: nothing, or an exponent.
abbrev pub exponent_part : Text → Option ℤ
exponent_part [] = some (pos 0)
exponent_part (c ∷ cs) = if c == b'e' || c == b'E' then read_exponent cs else none

-- The digits behind a point, and the text behind them.
abbrev pub fraction_part : Text → Text × Text
fraction_part [] = ([], [])
fraction_part (c ∷ cs) = if c == b'.' then span_digits cs else ([], c ∷ cs)

abbrev finite_number : Bool → Text → Text → Option ℤ → Option Number
finite_number negative int_digits fraction none = none
finite_number negative int_digits fraction (some e) =
    if non_empty (int_digits ++ fraction)
    then some
        (finite negative (digits_value 0 (int_digits ++ fraction)) (e +ℤ sub_ℕ 0 (length fraction)))
    else none

-- `Inf`, `Infinity`, `NaN` and `sNaN` with digits, in lower case
abbrev pub is_special : Text → Bool
is_special t =
    text_eq t (codes "inf")
    || text_eq t (codes "infinity")
    || (starts_with t (codes "nan") && all is_digit (drop 3 t))
    || (starts_with t (codes "snan") && all is_digit (drop 4 t))

unfoldable pub read_unsigned : Bool → Text → Option Number
unfolding span_digits digits_value read_exponent
read_unsigned negative t =
    if is_special (lower t)
    then some not_finite
    else let int_part = span_digits t in
      let fraction = fraction_part int_part.1 in
      finite_number negative int_part.0 fraction.0 (exponent_part fraction.1)

abbrev pub read_signed_number : Text → Option Number
read_signed_number [] = none
read_signed_number (c ∷ cs) =
    if c == b'-'
    then read_unsigned true cs
    else read_unsigned false (if c == b'+' then cs else c ∷ cs)

-- Decimal(raw), for a text without blanks; underscores do not count.
unfoldable pub read_decimal : Text → Option Number
unfolding read_unsigned
read_decimal raw = read_signed_number (keep (λ c. not (c == b'_')) raw)

-- digits * 10 ^ exponent where it is an integer
unfoldable pub integral_value : ℕ → ℤ → Option ℕ
integral_value digits (pos e) = some (digits * 10 ^ e)
integral_value digits (negsuc e) =
    if digits % 10 ^ suc e == 0 then some (digits / 10 ^ suc e) else none

abbrev pub some_integer : Option ℕ → Result SnapshotError ℕ
some_integer none = err not_natural
some_integer (some n) = ok n

abbrev pub natural_number : Option Number → Result SnapshotError ℕ
natural_number none = err invalid_value
natural_number (some not_finite) = err not_natural
natural_number (some (finite negative digits exponent)) =
    if negative && ltb 0 digits
    then err not_natural
    else some_integer (integral_value digits exponent)

unfoldable pub parse_nonnegative_integer : Text → Result SnapshotError ℕ
unfolding read_decimal integral_value
parse_nonnegative_integer raw = natural_number (read_decimal raw)
