-- ===== src/Policy/Reader/Scalar/Bracketed.antt =====
-- Lists in brackets in `parse_scalar` of benchmarks/policy/generate_keyword_header.py: what is read.
use xsr.Prelude.{
  All, List, Text, [], ap, append-nil, ap₂, arith, codes, drop-append_length, ends_with, false,
  keep, length, length-append, map, next_is, non_empty, refl, starts_with, suc, sym,
  take-append_length, text_eq_refl, true, ℕ, ◌++◌, ◌-◌, ◌∙◌, ◌∷◌, ◌≡◌,
}
use xsr.Policy.Reader.Written.Contents.{not_all_spaces}
use xsr.Policy.Reader.Scalar.Fuel.{scalar_fuel_enough}
use xsr.Policy.Reader.Scalar.Inline.{behind_blank, body_text, split_items-body_text, tail_text}
use xsr.Policy.Reader.Scalar.Plain.{
  IsPlain, IsToken, Plain, parse_plain-plain_text, plain_text, plain_text-IsToken, plain_value,
}
use xsr.Policy.Reader.Scalar.{
  bracket_body, is_bracketed, items_of, parse_plain, parse_scalar, scalar_fuel,
}
use xsr.Policy.Values.{from_list, is_space, list, strip, strip_left, strip_right, nil}
use xsr.Policy.Values.Strip.{all-before, strip_right-keeps}

strip-token :
    (t : Text) → next_is is_space t ≡ false → strip_right is_space t ≡ t → strip is_space t ≡ t
unfolding strip strip_left
strip-token [] h e = refl
strip-token (c ∷ cs) h e = rw h e

scalar_fuel-token : (fuel : ℕ) (t : Text) → IsToken t → scalar_fuel (suc fuel) t ≡ parse_plain t
unfolding scalar_fuel
scalar_fuel-token fuel t token =
    rw (strip-token t token.first token.last) (rw token.unbracketed refl)

behind_blank-strip : (p : Plain) → strip is_space (behind_blank p) ≡ strip is_space (plain_text p)
unfolding strip strip_left is_space
behind_blank-strip p = refl

scalar_fuel-behind_blank :
    (fuel : ℕ) (p : Plain)
    → scalar_fuel (suc fuel) (behind_blank p) ≡ scalar_fuel (suc fuel) (plain_text p)
unfolding scalar_fuel
scalar_fuel-behind_blank fuel p = refl

value_read :
    (fuel : ℕ) (p : Plain) → IsPlain p → scalar_fuel (suc fuel) (plain_text p) ≡ plain_value p
value_read fuel p h =
    scalar_fuel-token fuel (plain_text p) (plain_text-IsToken p) ∙ parse_plain-plain_text p h

-- A part that is not blank.
value_shown : (p : Plain) → non_empty (strip is_space (plain_text p)) ≡ true
value_shown p =
    let token = plain_text-IsToken p in
    rw (strip-token (plain_text p) token.first token.last) token.filled

values_read :
    (fuel : ℕ) (ps : List Plain)
    → All IsPlain ps
    → map
        (scalar_fuel (suc fuel))
        (keep (λ part. non_empty (strip is_space part)) (map behind_blank ps))
      ≡ map plain_value ps
values_read fuel [] h = refl
values_read fuel (p ∷ ps) h = rw (behind_blank-strip p) (
    rw (value_shown p) (
      ap₂ (λ v vs. v ∷ vs) (scalar_fuel-behind_blank fuel p ∙ value_read fuel p h.0)
        (values_read fuel ps h.1)))

items_read :
    (fuel : ℕ) (p : Plain) (ps : List Plain)
    → IsPlain p
    → All IsPlain ps
    → map (scalar_fuel (suc fuel)) (items_of (body_text (p ∷ ps))) ≡ map plain_value (p ∷ ps)
items_read fuel p ps h k =
    rw (split_items-body_text p ps h k)
      (rw (value_shown p) (ap₂ (λ v vs. v ∷ vs) (value_read fuel p h) (values_read fuel ps k)))

body_last :
    (p : Plain) (ps : List Plain) → strip_right is_space (body_text (p ∷ ps)) ≡ body_text (p ∷ ps)
unfolding is_space
body_last p [] = rw (append-nil (plain_text p)) (plain_text-IsToken p).last
body_last p (q ∷ ps) =
    let token = plain_text-IsToken q in
    let shown =
      all-before (plain_text q) (tail_text ps)
        (not_all_spaces (plain_text q) token.first token.filled) in
    strip_right-keeps (plain_text p) (tail_text (q ∷ ps)) refl
    ∙ ap (λ x. plain_text p ++ x)
        (strip_right-keeps (codes ", ") (body_text (q ∷ ps)) shown
          ∙ ap (λ x. codes ", " ++ x) (body_last q ps))

first_of :
    (t rest : Text)
    → next_is is_space t ≡ false
    → non_empty t ≡ true
    → next_is is_space (t ++ rest) ≡ false
first_of [] rest h e = cc
first_of (c ∷ cs) rest h e = h

filled_of : (t rest : Text) → non_empty t ≡ true → non_empty (t ++ rest) ≡ true
filled_of [] rest e = cc
filled_of (c ∷ cs) rest e = refl

-- What stands between the brackets.
abbrev pub inline_text : List Plain → Text
inline_text ps = b'[' ∷ body_text ps ++ codes "]"

one_less : (t : Text) → length (t ++ codes "]") - 1 ≡ length t
one_less t = omega (arith, length-append t (codes "]"))

is_bracketed-inline_text : (ps : List Plain) → is_bracketed (inline_text ps) ≡ true
unfolding starts_with ends_with
is_bracketed-inline_text ps =
    let opened = b'[' ∷ body_text ps in
    rw (one_less opened) (rw (drop-append_length opened (codes "]")) (text_eq_refl (codes "]")))

bracket_body-inline_text :
    (ps : List Plain) → bracket_body (inline_text ps) ≡ strip is_space (body_text ps)
bracket_body-inline_text ps =
    let opened = b'[' ∷ body_text ps in
    rw (one_less opened) (rw (take-append_length opened (codes "]")) refl)

strip-inline_text : (ps : List Plain) → strip is_space (inline_text ps) ≡ inline_text ps
unfolding is_space strip_right
strip-inline_text ps =
    strip-token (inline_text ps) refl (strip_right-keeps (b'[' ∷ body_text ps) (codes "]") refl)

scalar_fuel-no_values : (fuel : ℕ) → scalar_fuel (suc (suc fuel)) (inline_text []) ≡ list nil
unfolding scalar_fuel
scalar_fuel-no_values fuel = refl

scalar_fuel-listed :
    (fuel : ℕ) (raw value body : Text)
    → strip is_space raw ≡ value
    → is_bracketed value ≡ true
    → bracket_body value ≡ body
    → non_empty body ≡ true
    → scalar_fuel (suc fuel) raw ≡ list (from_list (map (scalar_fuel fuel) (items_of body)))
unfolding scalar_fuel
scalar_fuel-listed fuel raw value body s b c d = rw s (rw b (rw c (rw d refl)))

scalar_fuel-inline_text :
    (fuel : ℕ) (ps : List Plain)
    → All IsPlain ps
    → scalar_fuel (suc (suc fuel)) (inline_text ps) ≡ list (from_list (map plain_value ps))
scalar_fuel-inline_text fuel [] h = scalar_fuel-no_values fuel
scalar_fuel-inline_text fuel (p ∷ ps) h =
    let token = plain_text-IsToken p in
    let trimmed =
      strip-token (body_text (p ∷ ps))
        (first_of (plain_text p) (tail_text ps) token.first token.filled) (body_last p ps) in
    scalar_fuel-listed (suc fuel) (inline_text (p ∷ ps)) (inline_text (p ∷ ps)) (body_text (p ∷ ps))
      (strip-inline_text (p ∷ ps)) (is_bracketed-inline_text (p ∷ ps))
      (bracket_body-inline_text (p ∷ ps) ∙ trimmed)
      (filled_of (plain_text p) (tail_text ps) token.filled)
    ∙ ap (λ vs. list (from_list vs)) (items_read fuel p ps h.0 h.1)

-- A list in brackets of integers, Booleans and texts in quotes, with commas between them, is read as
-- the list of these values: commas, brackets and blanks in the quotes stay in the text, which must
-- not hold quotes.
pub parse_scalar-inline_text :
    (ps : List Plain)
    → All IsPlain ps
    → parse_scalar (inline_text ps) ≡ list (from_list (map plain_value ps))
parse_scalar-inline_text ps h =
    let fuel = length (inline_text ps) in
    sym (scalar_fuel_enough (suc (suc fuel)) (inline_text ps) (omega arith))
    ∙ scalar_fuel-inline_text fuel ps h
