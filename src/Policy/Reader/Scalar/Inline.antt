-- ===== src/Policy/Reader/Scalar/Inline.antt =====
-- Lists in brackets in `parse_scalar` of benchmarks/policy/generate_keyword_header.py: where the commas
-- of `split_items` divide them.
use xsr.Prelude.{
  All, All-weaken, Bool, List, Text, [], ap, append-nil, append_assoc, arith, codes, false,
  is_digit, map, negsuc, not, pos, refl, suc, true, ℕ, ◌&&◌, ◌++◌, ◌==◌, ◌||◌, ◌∙◌, ◌∷◌, ◌≡◌,
}
use xsr.Policy.Reader.Scalar.Plain.{integer, IsPlain, Plain, boolean, plain_text, quoted}
use xsr.Policy.Values.{show_int, show_nat}
use xsr.Policy.Reader.Scalar.{even_quotes, prepend_first, split_items, is_quote}
use xsr.Policy.Values.Decimal.{Digits, show_nat-Digits}

abbrev prefix : Text → List Text → List Text
prefix [] parts = parts
prefix (c ∷ t) parts = prepend_first c (prefix t parts)

prefix-cons : (t part : Text) (parts : List Text) → prefix t (part ∷ parts) ≡ (t ++ part) ∷ parts
prefix-cons [] part parts = refl
prefix-cons (c ∷ t) part parts = ap (prepend_first c) (prefix-cons t part parts)

prefix-append : (t u : Text) (parts : List Text) → prefix (t ++ u) parts ≡ prefix t (prefix u parts)
prefix-append [] u parts = refl
prefix-append (c ∷ t) u parts = ap (prepend_first c) (prefix-append t u parts)

-- Neither a quote nor a comma.
abbrev Bare : Text → Type 0
Bare t = All (λ c. (c == b'"' || c == b',') ≡ false) t

and_false : (b : Bool) → (b && false) ≡ false
and_false true = refl
and_false false = refl

not_twice : (b : Bool) → not (not b) ≡ b
not_twice true = refl
not_twice false = refl

even_quotes-front :
    (t rest : Text) → All (λ c. (c == b'"') ≡ false) t → even_quotes (t ++ rest) ≡ even_quotes rest
even_quotes-front [] rest h = refl
even_quotes-front (c ∷ t) rest h = rw h.0 (even_quotes-front t rest h.1)

-- No comma of a text in quotes divides, and none is in a bare text.
split_items-inside :
    (t rest : Text)
    → All (λ c. (c == b'"') ≡ false) t
    → even_quotes rest ≡ false
    → split_items (t ++ rest) ≡ prefix t (split_items rest)
unfolding split_items
split_items-inside [] rest h odd = refl
split_items-inside (c ∷ t) rest h odd =
    rw (even_quotes-front t rest h.1) (
      rw odd
        (rw (and_false (c == b',')) (ap (prepend_first c) (split_items-inside t rest h.1 odd))))

split_items-Bare : (t rest : Text) → Bare t → split_items (t ++ rest) ≡ prefix t (split_items rest)
unfolding split_items
split_items-Bare [] rest h = refl
split_items-Bare (c ∷ t) rest h =
    let no_comma : (c == b',') ≡ false = ground (arith, h.0) in
    rw no_comma (ap (prepend_first c) (split_items-Bare t rest h.1))

digit-bare : (c : ℕ) → is_digit c ≡ true → (c == b'"' || c == b',') ≡ false
unfolding is_digit
digit-bare c h = ground (arith, h)

Digits-Bare : (t : Text) → Digits t → Bare t
Digits-Bare t h = All-weaken (λ c. (c == b'"' || c == b',') ≡ false) digit-bare t h

Bare-no_quote : (t : Text) → Bare t → All (λ c. (c == b'"') ≡ false) t
Bare-no_quote t h = All-weaken (λ c. (c == b'"') ≡ false) (λ c e. ground (arith, e)) t h

-- In front of an even number of quotes a plain value is divided nowhere, and keeps their number even.
abbrev IsUndivided : Text → Type 0
IsUndivided t =
    (rest : Text)
    → even_quotes rest ≡ true
    → (split_items (t ++ rest) ≡ prefix t (split_items rest)) × (even_quotes (t ++ rest) ≡ true)

Bare-IsUndivided : (t : Text) → Bare t → IsUndivided t
Bare-IsUndivided t h rest even =
    (split_items-Bare t rest h, even_quotes-front t rest (Bare-no_quote t h) ∙ even)

quoted-IsUndivided :
    (t : Text) → All (λ c. is_quote c ≡ false) t → IsUndivided (plain_text (quoted t))
unfolding split_items
quoted-IsUndivided t h rest even =
    let inside : All (λ c. (c == b'"') ≡ false) t =
      All-weaken (λ c. (c == b'"') ≡ false) (λ c e. ground (arith, e)) t h in
    rw (append_assoc t (b'"' ∷ []) rest) (
      rw (split_items-inside t (b'"' ∷ rest) inside (rw even refl))
          (rw (prefix-append t (b'"' ∷ []) (split_items rest)) refl),
      rw (even_quotes-front t (b'"' ∷ rest) inside) (rw even refl),
    )

pub plain_text-IsUndivided : (p : Plain) → IsPlain p → IsUndivided (plain_text p)
unfolding show_int
plain_text-IsUndivided (quoted t) h = quoted-IsUndivided t h
plain_text-IsUndivided (integer (pos n)) h =
    Bare-IsUndivided (show_nat n) (Digits-Bare (show_nat n) (show_nat-Digits n))
plain_text-IsUndivided (integer (negsuc n)) h =
    Bare-IsUndivided (b'-' ∷ show_nat (suc n))
      (refl, Digits-Bare (show_nat (suc n)) (show_nat-Digits (suc n)))
plain_text-IsUndivided (boolean true) h =
    Bare-IsUndivided (codes "true") (refl, (refl, (refl, (refl, tt))))
plain_text-IsUndivided (boolean false) h =
    Bare-IsUndivided (codes "false") (refl, (refl, (refl, (refl, (refl, tt)))))

-- ", " before each value
abbrev pub tail_text : List Plain → Text
tail_text [] = []
tail_text (p ∷ ps) = codes ", " ++ (plain_text p ++ tail_text ps)

abbrev pub body_text : List Plain → Text
body_text [] = []
body_text (p ∷ ps) = plain_text p ++ tail_text ps

abbrev pub behind_blank : Plain → Text
behind_blank p = b' ' ∷ plain_text p

even_quotes-tail_text : (ps : List Plain) → All IsPlain ps → even_quotes (tail_text ps) ≡ true
even_quotes-tail_text [] h = refl
even_quotes-tail_text (p ∷ ps) h =
    (plain_text-IsUndivided p h.0 (tail_text ps) (even_quotes-tail_text ps h.1)).1

-- The parts of a value with a list behind it.
value_parts :
    (p : Plain) (ps : List Plain) (parts : List Text)
    → IsPlain p
    → even_quotes (tail_text ps) ≡ true
    → split_items (tail_text ps) ≡ [] ∷ parts
    → split_items (plain_text p ++ tail_text ps) ≡ plain_text p ∷ parts
value_parts p ps parts h even split =
    (plain_text-IsUndivided p h (tail_text ps) even).0
    ∙ ap (prefix (plain_text p)) split
    ∙ prefix-cons (plain_text p) [] parts
    ∙ ap (λ x. x ∷ parts) (append-nil (plain_text p))

split_items-tail_text :
    (ps : List Plain) → All IsPlain ps → split_items (tail_text ps) ≡ [] ∷ map behind_blank ps
unfolding split_items
split_items-tail_text [] h = refl
split_items-tail_text (p ∷ ps) h =
    let even = even_quotes-tail_text ps h.1 in
    let parts = value_parts p ps (map behind_blank ps) h.0 even (split_items-tail_text ps h.1) in
    rw (plain_text-IsUndivided p h.0 (tail_text ps) even).1 (rw parts refl)

-- A list in brackets is divided between its values, at no comma in a text in quotes.
pub split_items-body_text :
    (p : Plain) (ps : List Plain)
    → IsPlain p
    → All IsPlain ps
    → split_items (body_text (p ∷ ps)) ≡ plain_text p ∷ map behind_blank ps
split_items-body_text p ps h k =
    value_parts p ps (map behind_blank ps) h (even_quotes-tail_text ps k)
      (split_items-tail_text ps k)
