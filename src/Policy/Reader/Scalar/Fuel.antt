-- ===== src/Policy/Reader/Scalar/Fuel.antt =====
-- The recursion of `parse_scalar` into the parts of a list in brackets ends.
use xsr.Prelude.{
  &&-eq-true, All, All-keep, All-weaken, Bool, Bool-cases, List, Text, [], ap, ap₂, arith, codes,
  drop, drop_last, if◌then◌else◌, inl, inr, length, length-drop, length-take, map, non_empty, refl,
  starts_with, suc, true, zero, ℕ, ◌&&◌, ◌+◌, ◌-◌, ◌<◌, ◌==◌, ◌∷◌, ◌≡◌, ◌≤◌,
}
use xsr.Policy.Reader.Cells.Store.{is_list}
use xsr.Policy.Reader.Scalar.{
  bracket_body, even_quotes, is_bracketed, items_of, parse_scalar, prepend_first, scalar_fuel,
  split_items,
}
use xsr.Policy.Values.{from_list, is_space, strip, strip_left, strip_right, list, nil}

length-strip_left : (test : ℕ → Bool) (t : Text) → length (strip_left test t) ≤ length t
unfolding strip_left
length-strip_left test [] = omega arith
length-strip_left test (c ∷ cs) = ground (arith, length-strip_left test cs)

length-strip_right : (test : ℕ → Bool) (t : Text) → length (strip_right test t) ≤ length t
unfolding strip_right
length-strip_right test [] = omega arith
length-strip_right test (c ∷ cs) = ground (arith, length-strip_right test cs)

pub length-strip : (test : ℕ → Bool) (t : Text) → length (strip test t) ≤ length t
unfolding strip
length-strip test t =
    omega (arith, length-strip_left test t, length-strip_right test (strip_left test t))

abbrev AtMost : ℕ → List Text → Type 0
AtMost n parts = All (λ part. length part ≤ n) parts

prepend_first-AtMost :
    (c n : ℕ) (parts : List Text) → AtMost n parts → AtMost (suc n) (prepend_first c parts)
prepend_first-AtMost c n [] h = (omega arith, tt)
prepend_first-AtMost c n (part ∷ parts) h =
    (omega (arith, h.0), All-weaken (λ x. length x ≤ suc n) (λ x e. omega (arith, e)) parts h.1)

split_items-AtMost : (t : Text) → AtMost (length t) (split_items t)
unfolding split_items
split_items-AtMost [] = (omega arith, tt)
split_items-AtMost (c ∷ cs) = elim (Bool-cases (c == b',' && even_quotes cs)) [
  | inl cut ↦ rw cut (
    omega arith,
    All-weaken (λ x. length x ≤ suc (length cs)) (λ x e. omega (arith, e)) (split_items cs)
        (split_items-AtMost cs),
  )
  | inr no_cut ↦
      rw no_cut (prepend_first-AtMost c (length cs) (split_items cs) (split_items-AtMost cs))
]

abbrev ShorterThan : ℕ → List Text → Type 0
ShorterThan n parts = All (λ part. length part < n) parts

starts_with-length : (t : Text) → starts_with t (codes "[") ≡ true → 0 < length t
unfolding starts_with
starts_with-length [] h = cc
starts_with-length (c ∷ cs) h = omega arith

length-bracket_body :
    (value : Text) → is_bracketed value ≡ true → length (bracket_body value) < length value
length-bracket_body value h = omega (
  arith,
  starts_with-length value (&&-eq-true _ _ h).0,
  length-strip is_space (drop 1 (drop_last 1 value)),
  length-drop {0} 1 (drop_last 1 value),
  length-take {0} (length value - 1) value,
)

-- The parts of a list in brackets are shorter than the text that holds it.
items_of-ShorterThan :
    (raw : Text)
    → is_bracketed (strip is_space raw) ≡ true
    → ShorterThan (length raw) (items_of (bracket_body (strip is_space raw)))
items_of-ShorterThan raw h =
    let value = strip is_space raw in
    let body = bracket_body value in
    All-keep (λ x. length x < length raw) (λ part. non_empty (strip is_space part))
      (split_items body)
      (All-weaken (λ x. length x < length raw)
        (λ x e. omega (arith, e, length-bracket_body value h, length-strip is_space raw))
        (split_items body) (split_items-AtMost body))

map-agrees :
    {A B : Type 0} (P : A → Type 0) (f g : A → B)
    → ((a : A) → P a → f a ≡ g a)
    → (xs : List A) → All P xs
    → map f xs ≡ map g xs
map-agrees P f g h [] p = refl
map-agrees P f g h (x ∷ xs) p = ap₂ (λ y ys. y ∷ ys) (h x p.0) (map-agrees P f g h xs p.1)

scalar_fuel-agrees :
    (fuel more : ℕ) (raw : Text)
    → length raw < fuel
    → length raw < more
    → scalar_fuel fuel raw ≡ scalar_fuel more raw
unfolding scalar_fuel
scalar_fuel-agrees zero more raw h k = absurd (omega (arith, h))
scalar_fuel-agrees (suc fuel) zero raw h k = absurd (omega (arith, k))
scalar_fuel-agrees (suc fuel) (suc more) raw h k =
    let value = strip is_space raw in
    elim (Bool-cases (is_bracketed value)) [
      | inl is_list ↦ rw is_list (
          ap (λ items. list (if non_empty (bracket_body value) then from_list items else nil))
            (map-agrees (λ part. length part < length raw) (scalar_fuel fuel) (scalar_fuel more)
              (λ part e.
                scalar_fuel-agrees fuel more part (omega (arith, e, h)) (omega (arith, e, k)))
              (items_of (bracket_body value)) (items_of-ShorterThan raw is_list)))
      | inr plain ↦ rw plain refl
    ]

-- Fuel above the length of a text is enough to read it as a scalar or a list in brackets: more does
-- not change what is read.
pub scalar_fuel_enough :
    (fuel : ℕ) (raw : Text) → length raw < fuel → scalar_fuel fuel raw ≡ parse_scalar raw
unfolding parse_scalar
scalar_fuel_enough fuel raw h = scalar_fuel-agrees fuel (length raw + 1) raw h (omega arith)
