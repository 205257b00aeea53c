-- ===== src/Policy/Reader/Lines/Stack.antt =====
-- The stack of `load_policy` of benchmarks/policy/generate_keyword_header.py.
use xsr.Prelude.{
  Bool-cases, List, [], arith, false, inl, inr, leb_ℤ, ltb_ℤ, negsuc, pos, refl, subst, true, ℕ, ℤ,
  ◌<◌, ◌∷◌, ◌≡◌, ◌≤◌,
}
use xsr.Policy.Reader.Lines.{pop}

-- The root is at the bottom, and the indentations grow above it.
abbrev pub Nested : ℕ → List (ℤ × ℕ) → Type 0
Nested n [] = ⊥
Nested n ((i, a) ∷ []) = (i ≡ negsuc 0) × (a ≡ 0) × (0 < n)
Nested n ((i, a) ∷ (j, b) ∷ stack) = (a < n) × (ltb_ℤ j i ≡ true) × Nested n ((j, b) ∷ stack)

-- The top has less indentation than the line.
abbrev pub Below : ℕ → List (ℤ × ℕ) → Type 0
Below indent [] = ⊥
Below indent ((i, a) ∷ stack) = ltb_ℤ i (pos indent) ≡ true

pub Nested-more : (n m : ℕ) (stack : List (ℤ × ℕ)) → n ≤ m → Nested n stack → Nested m stack
Nested-more n m [] le h = h
Nested-more n m ((i, a) ∷ []) le h = (h.0, h.1, omega (arith, le, h.2))
Nested-more n m ((i, a) ∷ (j, b) ∷ stack) le h =
    (omega (arith, le, h.0), h.1, Nested-more n m ((j, b) ∷ stack) le h.2)

root_stays : (i : ℤ) (indent : ℕ) → i ≡ negsuc 0 → leb_ℤ (pos indent) i ≡ false
root_stays i indent h = rw h (ground arith)

is_below : (i : ℤ) (indent : ℕ) → leb_ℤ (pos indent) i ≡ false → ltb_ℤ i (pos indent) ≡ true
is_below i indent h = ground (arith, h)

pub pop-Nested :
    (n indent : ℕ) (stack : List (ℤ × ℕ))
    → Nested n stack
    → Nested n (pop indent stack) × Below indent (pop indent stack)
unfolding pop
pop-Nested n indent [] h = absurd h
pop-Nested n indent ((i, a) ∷ []) h =
    let stays = root_stays i indent h.0 in rw stays (h, is_below i indent stays)
pop-Nested n indent ((i, a) ∷ (j, b) ∷ stack) h = elim (Bool-cases (leb_ℤ (pos indent) i)) [
  | inl goes ↦ rw goes (pop-Nested n indent ((j, b) ∷ stack) h.2)
  | inr stays ↦ rw stays (h, is_below i indent stays)
]

pub push-Nested :
    (n m indent a : ℕ) (stack : List (ℤ × ℕ))
    → n ≤ m
    → a < m
    → Nested n stack
    → Below indent stack
    → Nested m ((pos indent, a) ∷ stack)
push-Nested n m indent a [] le lt h below = absurd h
push-Nested n m indent a ((i, b) ∷ stack) le lt h below =
    (lt, below, Nested-more n m ((i, b) ∷ stack) le h)

-- What stands on top refers to a container.
pub top_lt : (n a : ℕ) (i : ℤ) (stack : List (ℤ × ℕ)) → Nested n ((i, a) ∷ stack) → a < n
top_lt n a i [] h = omega (arith, h.1, h.2)
top_lt n a i ((j, b) ∷ stack) h = h.0

-- Leaving the containers of two indentations is leaving those of the smaller one.
pub pop-pop : (n m : ℕ) (stack : List (ℤ × ℕ)) → n ≤ m → pop n (pop m stack) ≡ pop n stack
unfolding pop
pop-pop n m [] le = refl
pop-pop n m ((i, a) ∷ stack) le = elim (Bool-cases (leb_ℤ (pos m) i)) [
  | inl goes ↦
      let deeper : leb_ℤ (pos n) i ≡ true = ground (arith, goes, le) in
      rw goes (rw deeper (pop-pop n m stack le))
  | inr stays ↦ rw stays refl
]

pub pop-top :
    (n : ℕ) (stack : List (ℤ × ℕ)) (i : ℤ) (a : ℕ) (rest : List (ℤ × ℕ))
    → pop n stack ≡ (i, a) ∷ rest
    → leb_ℤ (pos n) i ≡ false
unfolding pop
pop-top n [] i a rest h = cc
pop-top n ((j, b) ∷ stack) i a rest h = elim (Bool-cases (leb_ℤ (pos n) j)) [
  | inl goes ↦ pop-top n stack i a rest (rw goes at h)
  | inr stays ↦
      let same : j ≡ i = ground (arith, rw stays at h) in
      subst (λ x. leb_ℤ (pos n) x ≡ false) same stays
]

-- What is left stays when the same indentation comes again.
pub pop_again :
    (n : ℕ) (stack : List (ℤ × ℕ)) (i : ℤ) (a : ℕ) (rest : List (ℤ × ℕ))
    → pop n stack ≡ (i, a) ∷ rest
    → pop n ((i, a) ∷ rest) ≡ (i, a) ∷ rest
unfolding pop
pop_again n stack i a rest h = rw (pop-top n stack i a rest h) refl
