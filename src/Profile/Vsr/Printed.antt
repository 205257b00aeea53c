-- ===== src/Profile/Vsr/Printed.antt =====
-- `_parse_nonnegative_integer` of scripts/vsr_profile_components.py, on integers as they are printed.
use xsr.Prelude.{
  All, All-append, All-weaken, Bool, Bool-cases, Text, [], ap, append-nil, arith, false, inl, inr,
  is_digit, keep, le→leb, lower, lower_char, ltb, next_is, non_empty, not, ok, pos, refl, some,
  starts_with, sub_ℕ, suc, sym, text_eq, true, zero, ℕ, ◌*◌, ◌++◌, ◌+ℤ◌, ◌+◌, ◌/◌, ◌<◌, ◌==◌, ◌^◌,
  ◌∙◌, ◌∷◌, ◌≡◌,
}
use xsr.Profile.Vsr.Decimal.{
  parse_nonnegative_integer, span_digits, digits_value, read_exponent, is_special, whole,
  exponent_part, finite, fraction_part, integral_value, read_decimal, read_unsigned,
}
use xsr.Policy.Values.{show_nat, digit_fuel}
use xsr.Policy.Values.Decimal.{Digits, show_nat-Digits, show_nat-non_empty}

-- A text that no digit begins.
abbrev Ended : Text → Type 0
Ended rest = next_is is_digit rest ≡ false

span_digits-Digits : (t rest : Text) → Digits t → Ended rest → span_digits (t ++ rest) ≡ (t, rest)
unfolding span_digits
span_digits-Digits [] [] d e = refl
span_digits-Digits [] (c ∷ rest) d e = rw e refl
span_digits-Digits (c ∷ t) rest d e = rw d.0 (rw (span_digits-Digits t rest d.1 e) refl)

digit_fuel-value :
    (fuel n : ℕ) (shown : Text)
    → n < fuel
    → digits_value 0 (digit_fuel fuel n shown) ≡ digits_value n shown
unfolding digits_value
digit_fuel-value zero n shown h = absurd (omega (arith, h))
digit_fuel-value (suc fuel) n shown h = elim (Bool-cases (ltb n 10)) [
  | inl e ↦ rw e (ground arith)
  | inr e ↦ rw e (digit_fuel-value fuel (n / 10) _ (ground arith) ∙ ground arith)
]

digits_value-show_nat : (n : ℕ) → digits_value 0 (show_nat n) ≡ n
unfolding show_nat digits_value
digits_value-show_nat n = digit_fuel-value (n + 1) n [] (omega arith)

-- A digit begins no special number.
digit-not_special : (c : ℕ) (t : Text) → is_digit c ≡ true → is_special (lower (c ∷ t)) ≡ false
unfolding is_digit lower_char starts_with text_eq
digit-not_special c t d = ground arith

whole_lem :
    (t : Text) → Digits t → non_empty t ≡ true → whole (span_digits t) ≡ some (digits_value 0 t)
whole_lem [] d e = cc
whole_lem (c ∷ t) d e =
    rw (ap span_digits (sym (append-nil (c ∷ t))) ∙ span_digits-Digits (c ∷ t) [] d refl) refl

-- The digits of an integer and the exponent behind an `e`.
abbrev pub scientific : ℕ → ℕ → Text
scientific n e = show_nat n ++ (b'e' ∷ b'+' ∷ show_nat e)

plus_zero : (e : ℕ) → e + 0 ≡ e
plus_zero e = omega arith

sub_zero : (e : ℕ) → sub_ℕ e 0 ≡ pos e
sub_zero e = rw (le→leb 0 e (omega arith)) (ap pos (omega arith))

read_exponent-show_nat : (e : ℕ) → read_exponent (b'+' ∷ show_nat e) ≡ some (pos e)
unfolding read_exponent
read_exponent-show_nat e =
    rw (whole_lem (show_nat e) (show_nat-Digits e) (show_nat-non_empty e))
      (rw (digits_value-show_nat e) (ap some (sub_zero e)))

read_unsigned_lem :
    (t rest : Text) (e : ℕ)
    → Digits t
    → non_empty t ≡ true
    → Ended rest
    → fraction_part rest ≡ ([], rest)
    → exponent_part rest ≡ some (pos e)
    → read_unsigned false (t ++ rest) ≡ some (finite false (digits_value 0 t) (pos e))
unfolding read_unsigned ◌+ℤ◌
read_unsigned_lem [] rest e d n r f x = cc
read_unsigned_lem (c ∷ t) rest e d n r f x = rw (digit-not_special c (t ++ rest) d.0) (
    rw (span_digits-Digits (c ∷ t) rest d r) (
      rw f (
        rw x (
          rw (append-nil t) (
            ap (λ z. some (finite false (digits_value 0 (c ∷ t)) z))
              (ap (λ k. sub_ℕ k 0) (plus_zero e) ∙ sub_zero e))))))

keep-All : (p : ℕ → Bool) (t : Text) → All (λ c. p c ≡ true) t → keep p t ≡ t
keep-All p [] h = refl
keep-All p (c ∷ t) h = rw h.0 (ap (λ x. c ∷ x) (keep-All p t h.1))

no_underscore : (c : ℕ) → is_digit c ≡ true → not (c == b'_') ≡ true
unfolding is_digit
no_underscore c d = ground arith

digit-minus : (c : ℕ) → is_digit c ≡ true → (c == b'-') ≡ false
unfolding is_digit
digit-minus c d = ground arith

digit-plus : (c : ℕ) → is_digit c ≡ true → (c == b'+') ≡ false
unfolding is_digit
digit-plus c d = ground arith

read_decimal_lem :
    (t rest : Text) (e : ℕ)
    → Digits t
    → non_empty t ≡ true
    → Ended rest
    → All (λ c. not (c == b'_') ≡ true) rest
    → fraction_part rest ≡ ([], rest)
    → exponent_part rest ≡ some (pos e)
    → read_decimal (t ++ rest) ≡ some (finite false (digits_value 0 t) (pos e))
unfolding read_decimal is_digit
read_decimal_lem [] rest e d n r u f x = cc
read_decimal_lem (c ∷ t) rest e d n r u f x =
    rw
      (keep-All (λ c. not (c == b'_')) (c ∷ t ++ rest)
        (All-append _ (c ∷ t) rest (All-weaken _ no_underscore (c ∷ t) d) u))
      (rw (digit-minus c d.0) (rw (digit-plus c d.0) (read_unsigned_lem (c ∷ t) rest e d n r f x)))

read_plain : (n : ℕ) → read_decimal (show_nat n) ≡ some (finite false n (pos 0))
read_plain n =
    ap read_decimal (sym (append-nil (show_nat n)))
    ∙ read_decimal_lem (show_nat n) [] 0 (show_nat-Digits n) (show_nat-non_empty n) refl tt refl
        refl
    ∙ ap (λ m. some (finite false m (pos 0))) (digits_value-show_nat n)

read_scientific : (n e : ℕ) → read_decimal (scientific n e) ≡ some (finite false n (pos e))
unfolding is_digit
read_scientific n e =
    read_decimal_lem (show_nat n) (b'e' ∷ b'+' ∷ show_nat e) e (show_nat-Digits n)
      (show_nat-non_empty n) refl
      (refl, (refl, All-weaken _ no_underscore (show_nat e) (show_nat-Digits e))) refl
      (read_exponent-show_nat e)
    ∙ ap (λ m. some (finite false m (pos e))) (digits_value-show_nat n)

-- An integer is read back as it is printed, and so is one that is printed with an exponent, as in 12e+6.
pub parse_nonnegative_integer-printed :
    (n e : ℕ)
    → (parse_nonnegative_integer (show_nat n) ≡ ok n)
      × (parse_nonnegative_integer (scientific n e) ≡ ok (n * 10 ^ e))
unfolding parse_nonnegative_integer integral_value
parse_nonnegative_integer-printed n e =
    (rw (read_plain n) (ap ok (omega arith)), rw (read_scientific n e) refl)
