-- ===== src/Policy/Reader/Scalar/Plain.antt =====
-- Texts in quotes, integers and Booleans in `parse_scalar` of
-- benchmarks/policy/generate_keyword_header.py.
use xsr.Prelude.{
  All, All-weaken, Bool, Text, [], all, ap, append-nil, arith, codes, false, is_digit, negsuc,
  next_is, non_empty, pos, refl, some, starts_with, subst, suc, text_eq, true, ℕ, ℤ, ◌++◌, ◌∙◌, ◌∷◌,
  ◌≡◌,
}
use xsr.Policy.Values.Strip.{Unbroken-Closed, strip_right-keeps}
use xsr.Policy.Reader.Scalar.{is_integer, is_quote, parse_plain}
use xsr.Policy.Values.{
  Value, flag, num, read_digits, read_signed, show_int, show_nat, strip, strip_left, strip_right,
  text, is_space,
}
use xsr.Policy.Values.Decimal.{
  Digits, read_digits-show_nat, read_signed-show_nat, show_nat-Digits, show_nat-non_empty,
}

pub data Plain : Type 0 where
  quoted : Text → Plain
  integer : ℤ → Plain
  boolean : Bool → Plain

abbrev pub plain_text : Plain → Text
plain_text (quoted t) = b'"' ∷ t ++ b'"' ∷ []
plain_text (integer n) = show_int n
plain_text (boolean true) = codes "true"
plain_text (boolean false) = codes "false"

abbrev pub plain_value : Plain → Value
plain_value (quoted t) = text t
plain_value (integer n) = num n
plain_value (boolean b) = flag b

-- A text in quotes holds neither kind of quote.
abbrev pub IsPlain : Plain → Type 0
IsPlain (quoted t) = All (λ c. is_quote c ≡ false) t
IsPlain (integer n) = Unit
IsPlain (boolean b) = Unit

strip_right-front :
    (test : ℕ → Bool) (t rest : Text)
    → All (λ c. test c ≡ false) t
    → all test rest ≡ true
    → strip_right test (t ++ rest) ≡ t
unfolding strip_right
strip_right-front test [] [] h e = refl
strip_right-front test [] (c ∷ rest) h e = rw e refl
strip_right-front test (c ∷ t) rest h e =
    rw h.0 (ap (λ x. c ∷ x) (strip_right-front test t rest h.1 e))

strip-quoted :
    (t : Text) → All (λ c. is_quote c ≡ false) t → strip is_quote (b'"' ∷ t ++ b'"' ∷ []) ≡ t
unfolding strip strip_left strip_right
strip-quoted [] h = refl
strip-quoted (c ∷ t) h = rw h.0 (strip_right-front is_quote (c ∷ t) (b'"' ∷ []) h refl)

digit-text : (c : ℕ) (cs other : Text) → is_digit c ≡ true → text_eq (c ∷ cs) (b't' ∷ other) ≡ false
unfolding is_digit text_eq
digit-text c cs other h = ground (arith, h)

digit-flag : (c : ℕ) (cs other : Text) → is_digit c ≡ true → text_eq (c ∷ cs) (b'f' ∷ other) ≡ false
unfolding is_digit text_eq
digit-flag c cs other h = ground (arith, h)

all-Digits : (t : Text) → Digits t → all is_digit t ≡ true
all-Digits [] h = refl
all-Digits (c ∷ cs) h = rw h.0 (all-Digits cs h.1)

Digits-is_integer : (t : Text) → Digits t → non_empty t ≡ true → is_integer t ≡ true
unfolding is_integer is_digit
Digits-is_integer [] h e = cc
Digits-is_integer (c ∷ cs) h e = ground (arith, h.0, all-Digits cs h.1)

parse_plain-Digits :
    (t : Text) (n : ℕ)
    → Digits t
    → non_empty t ≡ true
    → read_signed t ≡ some (pos n)
    → parse_plain t ≡ num (pos n)
unfolding parse_plain
parse_plain-Digits [] n h e r = cc
parse_plain-Digits (c ∷ cs) n h e r =
    rw (digit-text c cs (codes "rue") h.0)
      (rw (digit-flag c cs (codes "alse") h.0) (rw (Digits-is_integer (c ∷ cs) h e) (rw r refl)))

read_signed-negative :
    (t : Text) (n : ℕ)
    → Digits t
    → non_empty t ≡ true
    → read_digits 0 t ≡ some (suc n)
    → read_signed (b'-' ∷ t) ≡ some (negsuc n)
unfolding read_signed
read_signed-negative [] n h e r = cc
read_signed-negative (c ∷ cs) n h e r = rw h.0 (rw (rw h.0 at r) refl)

parse_plain-negative : (n : ℕ) → parse_plain (b'-' ∷ show_nat (suc n)) ≡ num (negsuc n)
unfolding parse_plain is_integer text_eq
parse_plain-negative n = rw (show_nat-non_empty (suc n)) (
    rw (all-Digits (show_nat (suc n)) (show_nat-Digits (suc n))) (
      rw
        (read_signed-negative (show_nat (suc n)) n (show_nat-Digits (suc n))
          (show_nat-non_empty (suc n)) (read_digits-show_nat (suc n)))
        refl))

pub parse_plain-plain_text : (p : Plain) → IsPlain p → parse_plain (plain_text p) ≡ plain_value p
unfolding parse_plain is_integer is_digit text_eq show_int
parse_plain-plain_text (quoted t) h = ap text (strip-quoted t h)
parse_plain-plain_text (integer (pos n)) h =
    parse_plain-Digits (show_nat n) n (show_nat-Digits n) (show_nat-non_empty n)
      (read_signed-show_nat n)
parse_plain-plain_text (integer (negsuc n)) h = parse_plain-negative n
parse_plain-plain_text (boolean true) h = refl
parse_plain-plain_text (boolean false) h = refl

-- A text with no blank at its ends, which no bracket opens.
pub record IsToken (t : Text) : Type 0 where
  pub first : next_is is_space t ≡ false
  pub filled : non_empty t ≡ true
  pub last : strip_right is_space t ≡ t
  pub unbracketed : starts_with t (codes "[") ≡ false

digit-shown : (c : ℕ) → is_digit c ≡ true → is_space c ≡ false
unfolding is_digit is_space
digit-shown c h = ground (arith, h)

Digits-shown : (t : Text) → Digits t → strip_right is_space t ≡ t
Digits-shown t h =
    let closed = Unbroken-Closed t (All-weaken (λ c. is_space c ≡ false) digit-shown t h) [] refl in
    subst (λ x. strip_right is_space x ≡ t) (append-nil t) closed

digit-unbracketed :
    (c : ℕ) (cs : Text) → is_digit c ≡ true → starts_with (c ∷ cs) (codes "[") ≡ false
unfolding is_digit starts_with
digit-unbracketed c cs h = ground (arith, h)

Digits-IsToken : (t : Text) → Digits t → non_empty t ≡ true → IsToken t
Digits-IsToken [] h e = cc
Digits-IsToken (c ∷ cs) h e = record {
  first = digit-shown c h.0;
  filled = refl;
  last = Digits-shown (c ∷ cs) h;
  unbracketed = digit-unbracketed c cs h.0;
}

negative-IsToken : (t : Text) → Digits t → non_empty t ≡ true → IsToken (b'-' ∷ t)
unfolding is_space starts_with
negative-IsToken [] h e = cc
negative-IsToken (c ∷ cs) h e = record {
  first = refl;
  filled = refl;
  last =
      strip_right-keeps (codes "-") (c ∷ cs) (rw (digit-shown c h.0) refl)
      ∙ ap (λ x. b'-' ∷ x) (Digits-shown (c ∷ cs) h);
  unbracketed = refl;
}

pub plain_text-IsToken : (p : Plain) → IsToken (plain_text p)
unfolding is_space starts_with show_int strip_right
plain_text-IsToken (quoted t) = record {
  first = refl;
  filled = refl;
  last = strip_right-keeps (b'"' ∷ t) (b'"' ∷ []) refl;
  unbracketed = refl;
}
plain_text-IsToken (integer (pos n)) =
    Digits-IsToken (show_nat n) (show_nat-Digits n) (show_nat-non_empty n)
plain_text-IsToken (integer (negsuc n)) =
    negative-IsToken (show_nat (suc n)) (show_nat-Digits (suc n)) (show_nat-non_empty (suc n))
plain_text-IsToken (boolean true) = record {
  first = refl;
  filled = refl;
  last = refl;
  unbracketed = refl;
}
plain_text-IsToken (boolean false) = record {
  first = refl;
  filled = refl;
  last = refl;
  unbracketed = refl;
}
