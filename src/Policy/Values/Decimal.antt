-- ===== src/Policy/Values/Decimal.antt =====
-- What `int` reads of the decimal digits that `str` writes.
use xsr.Prelude.{
  All, Bool-cases, Text, [], arith, inl, inr, is_digit, ltb, ltb→lt, non_empty, pos, refl, some,
  suc, true, zero, ℕ, ◌%◌, ◌+◌, ◌/◌, ◌<◌, ◌∙◌, ◌∷◌, ◌≡◌,
}
use xsr.Policy.Values.{show_nat, digit_fuel, read_digits, read_signed}

abbrev pub Digits : Text → Type 0
Digits t = All (λ c. is_digit c ≡ true) t

digit-Digits : (n : ℕ) → n < 10 → is_digit (b'0' + n) ≡ true
unfolding is_digit
digit-Digits n h = ground arith

digit_fuel-Digits : (fuel n : ℕ) (shown : Text) → Digits shown → Digits (digit_fuel fuel n shown)
digit_fuel-Digits zero n shown h = h
digit_fuel-Digits (suc fuel) n shown h = elim (Bool-cases (ltb n 10)) [
  | inl e ↦ rw e (digit-Digits n (ltb→lt n 10 e), h)
  | inr e ↦ rw e (digit_fuel-Digits fuel (n / 10) _ (digit-Digits (n % 10) (omega arith), h))
]

pub show_nat-Digits : (n : ℕ) → Digits (show_nat n)
unfolding show_nat
show_nat-Digits n = digit_fuel-Digits (n + 1) n [] tt

digit_fuel-read :
    (fuel n : ℕ) (shown : Text)
    → n < fuel
    → read_digits 0 (digit_fuel fuel n shown) ≡ read_digits n shown
unfolding read_digits is_digit
digit_fuel-read zero n shown h = absurd (omega (arith, h))
digit_fuel-read (suc fuel) n shown h = elim (Bool-cases (ltb n 10)) [
  | inl e ↦ rw e (ground arith)
  | inr e ↦ rw e (digit_fuel-read fuel (n / 10) _ (ground arith) ∙ ground arith)
]

pub read_digits-show_nat : (n : ℕ) → read_digits 0 (show_nat n) ≡ some n
unfolding show_nat read_digits
read_digits-show_nat n = digit_fuel-read (n + 1) n [] (omega arith)

digit_fuel-non_empty :
    (fuel n : ℕ) (shown : Text)
    → non_empty shown ≡ true
    → non_empty (digit_fuel fuel n shown) ≡ true
digit_fuel-non_empty zero n shown h = h
digit_fuel-non_empty (suc fuel) n shown h = elim (Bool-cases (ltb n 10)) [
  | inl e ↦ rw e refl
  | inr e ↦ rw e (digit_fuel-non_empty fuel (n / 10) _ refl)
]

digit_fuel-started : (fuel n : ℕ) → 0 < fuel → non_empty (digit_fuel fuel n []) ≡ true
digit_fuel-started zero n h = absurd (omega (arith, h))
digit_fuel-started (suc fuel) n h = elim (Bool-cases (ltb n 10)) [
  | inl e ↦ rw e refl
  | inr e ↦ rw e (digit_fuel-non_empty fuel (n / 10) _ refl)
]

pub show_nat-non_empty : (n : ℕ) → non_empty (show_nat n) ≡ true
unfolding show_nat
show_nat-non_empty n = digit_fuel-started (n + 1) n (omega arith)

read_magnitude_lem :
    (t : Text) (n : ℕ)
    → Digits t
    → non_empty t ≡ true
    → read_digits 0 t ≡ some n
    → read_signed t ≡ some (pos n)
unfolding read_signed is_digit
read_magnitude_lem [] n d e h = cc
read_magnitude_lem (c ∷ cs) n d e h = ground (arith, d.0, h)

-- `int` reads back the digits that `str` writes.
pub read_signed-show_nat : (n : ℕ) → read_signed (show_nat n) ≡ some (pos n)
read_signed-show_nat n =
    read_magnitude_lem (show_nat n) n (show_nat-Digits n) (show_nat-non_empty n)
      (read_digits-show_nat n)
