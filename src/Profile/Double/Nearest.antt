-- ===== src/Profile/Double/Nearest.antt =====
-- What rounding to a double keeps of a quotient.
use xsr.Prelude.{
  Bool-cases, ap, arith, false, inl, inr, ltb, ltb→lt, min, refl, suc, sym, zero, ℕ, ◌%◌, ◌*◌, ◌+◌,
  ◌-◌, ◌/◌, ◌<◌, ◌==◌, ◌^◌, ◌∙◌, ◌≡◌, ◌≤◌, ◌⊎◌,
}
use native.Mathlib.Numerals.{towards_suc, unary_clauses}
use native.Mathlib.Nat.{
  mod-lt, add-mul, div-add-mod', mul-le-mul, mul_assoc, mul_comm, le_of_mul-le-mul_right,
  mul-le-mul_right,
}
use xsr.Profile.Double.{
  log2, log2_fuel, round_half_even, below_one, Double, down_shift, to_double, up_shift,
}

pow_step : (k : ℕ) → 2 ^ (k + 1) ≡ 2 * 2 ^ k
pow_step k = simp towards_suc (omega arith)

-- The k with 2 ^ k ≤ n < 2 ^ (k + 1).
abbrev pub IsLog2 : ℕ → ℕ → Type 0
IsLog2 n k = (2 ^ k ≤ n) × (n < 2 ^ (k + 1))

log2_fuel-IsLog2 : (fuel n : ℕ) → n ≤ fuel → 0 < n → IsLog2 n (log2_fuel fuel n)
unfolding log2_fuel
log2_fuel-IsLog2 zero n h p = absurd (omega (arith, h, p))
log2_fuel-IsLog2 (suc fuel) n h p = elim (Bool-cases (ltb n 2)) [
  | inl e ↦ rw e (omega (arith, p), omega (arith, ltb→lt n 2 e))
  | inr e ↦
      (let large : 2 ≤ n = ground (arith, e) in
        let half = log2_fuel-IsLog2 fuel (n / 2) (omega (arith, h, large)) (omega (arith, large)) in
        let k = log2_fuel fuel (n / 2) in
        rw e
          (omega (arith, half.0, pow_step k), omega (arith, half.1, pow_step (k + 1), pow_step k)))
]

-- For a positive n the fuel n is enough: `log2 n` is the k with 2 ^ k ≤ n < 2 ^ (k + 1).
pub log2-IsLog2 : (n : ℕ) → 0 < n → IsLog2 n (log2 n)
unfolding log2
log2-IsLog2 n p = log2_fuel-IsLog2 n n (omega arith) p

-- The rounded quotient, times d, is at most half of d away from n.
abbrev pub IsHalfAway : ℕ → ℕ → ℕ → Type 0
IsHalfAway n d q = (2 * (q * d) ≤ 2 * n + d) × (2 * n ≤ 2 * (q * d) + d)

rounded_down : (n d q r : ℕ) → q * d + r ≡ n → 2 * r ≤ d → IsHalfAway n d q
rounded_down n d q r e h = (omega (arith, e, h), omega (arith, e, h))

rounded_up : (n d q r : ℕ) → q * d + r ≡ n → r < d → d ≤ 2 * r → IsHalfAway n d (q + 1)
rounded_up n d q r e h k =
    let step : (q + 1) * d ≡ q * d + 1 * d = add-mul q 1 d in
    (omega (arith, e, h, k, step), omega (arith, e, h, k, step))

rounded_tie_up : (n d q r : ℕ) → q * d + r ≡ n → 2 * r ≡ d → IsHalfAway n d (q + 1)
rounded_tie_up n d q r e h =
    let step : (q + 1) * d ≡ q * d + 1 * d = add-mul q 1 d in
    (omega (arith, e, h, step), omega (arith, e, h, step))

parity : (q : ℕ) → (q % 2 ≡ 0) ⊎ (q % 2 ≡ 1)
parity q = ground arith

plus_zero : (q : ℕ) → q + 0 ≡ q
plus_zero q = omega arith

rounded_tie : (n d q r : ℕ) → q * d + r ≡ n → 2 * r ≡ d → IsHalfAway n d (q + q % 2)
rounded_tie n d q r e h = elim (parity q) [
  | inl z ↦ rw z (rw (plus_zero q) (rounded_down n d q r e (omega (arith, h))))
  | inr o ↦ rw o (rounded_tie_up n d q r e h)
]

pub round_half_even-IsHalfAway : (n d : ℕ) → 0 < d → IsHalfAway n d (round_half_even n d)
unfolding round_half_even
round_half_even-IsHalfAway n d p =
    let e : n / d * d + n % d ≡ n = div-add-mod' n d in
    let small : n % d < d = mod-lt n p in
    elim (Bool-cases (ltb (2 * (n % d)) d)) [
      | inl l ↦ rw l (rounded_down n d (n / d) (n % d) e (omega (arith, ltb→lt _ _ l)))
      | inr l ↦ rw l (elim (Bool-cases (ltb d (2 * (n % d)))) [
        | inl g ↦ rw g (rounded_up n d (n / d) (n % d) e small (omega (arith, ltb→lt _ _ g)))
        | inr g ↦ rw g (rounded_tie n d (n / d) (n % d) e (ground (arith, l, g)))
      ])
    ]

pow-add : (a b : ℕ) → 2 ^ (a + b) ≡ 2 ^ a * 2 ^ b
pow-add a zero = simp unary_clauses (omega arith)
pow-add a (suc b) = simp unary_clauses (rw (pow-add a b) (mul_assoc (2 ^ a) (2 ^ b) 2))

twice : (n d a b : ℕ) → 2 ^ a ≤ n → d < 2 ^ (b + 1) → d * 2 ^ a ≤ n * 2 ^ (b + 1)
twice n d a b h k =
    let both : d * 2 ^ a ≤ 2 ^ (b + 1) * n = mul-le-mul (omega (arith, k)) h in
    rw (mul_comm n (2 ^ (b + 1))) both

-- d * 2 ^ log2 n is at most n * 2 ^ log2 d, or twice that.
scaled-le : (n d : ℕ) → 0 < n → 0 < d → d * 2 ^ log2 n ≤ n * 2 ^ (log2 d + below_one n d)
scaled-le n d p q = elim (Bool-cases (ltb (n * 2 ^ log2 d) (d * 2 ^ log2 n))) [
  | inl e ↦ rw e (twice n d (log2 n) (log2 d) (log2-IsLog2 n p).0 (log2-IsLog2 d q).1)
  | inr e ↦ rw e (rw (plus_zero (log2 d)) (ground (arith, e)))
]

pow_positive : (k : ℕ) → 0 < 2 ^ k
pow_positive zero = omega arith
pow_positive (suc k) = simp unary_clauses (let h = pow_positive k in omega (arith, h))

swap_right : (a b c : ℕ) → a * b * c ≡ a * c * b
swap_right a b c = mul_assoc a b c ∙ ap (λ t. a * t) (mul_comm b c) ∙ sym (mul_assoc a c b)

-- Scaled, the denominator is at most 2 ^ -52 of the numerator.
scaled_step :
    (n d a s up down : ℕ)
    → d * 2 ^ a ≤ n * 2 ^ s
    → down + 52 + s ≡ up + a
    → d * 2 ^ down * 2 ^ 52 ≤ n * 2 ^ up
scaled_step n d a s up down h e =
    let left : d * 2 ^ down * 2 ^ 52 * 2 ^ s ≡ d * 2 ^ a * 2 ^ up =
      ap (λ t. t * 2 ^ s)
        (mul_assoc d (2 ^ down) (2 ^ 52) ∙ ap (λ t. d * t) (sym (pow-add down 52)))
      ∙ mul_assoc d (2 ^ (down + 52)) (2 ^ s)
      ∙ ap (λ t. d * t)
          (sym (pow-add (down + 52) s)
            ∙ ap (λ t. 2 ^ t) e
            ∙ pow-add up a
            ∙ mul_comm (2 ^ up) (2 ^ a))
      ∙ sym (mul_assoc d (2 ^ a) (2 ^ up)) in
    let right : n * 2 ^ s * 2 ^ up ≡ n * 2 ^ up * 2 ^ s = swap_right n (2 ^ s) (2 ^ up) in
    let both = mul-le-mul_right (2 ^ up) h in
    le_of_mul-le-mul_right {k = 2 ^ s} (omega (arith, left, right, both)) (pow_positive s)

-- x is n / d but for a relative error of at most 2 ^ -53.
abbrev pub IsNearest : ℕ → ℕ → Double → Type 0
IsNearest n d x =
    (2 ^ 53 * (x.numerator * d) ≤ (2 ^ 53 + 1) * (n * x.denominator))
    × (2 ^ 53 * (n * x.denominator) ≤ 2 ^ 53 * (x.numerator * d) + n * x.denominator)

half_of_step :
    (n d q : ℕ)
    → d * 2 ^ 52 ≤ n
    → IsHalfAway n d q
    → (2 ^ 53 * (q * d) ≤ (2 ^ 53 + 1) * n) × (2 ^ 53 * n ≤ 2 ^ 53 * (q * d) + n)
half_of_step n d q h k = (omega (arith, h, k.0), omega (arith, h, k.1))

shifts_of :
    (a b c : ℕ)
    → c ≤ 1
    → b < 1021
    → (a - (52 + b + c)) + 52 + (b + c) ≡ min 1074 ((52 + b + c) - a) + a
shifts_of a b c h k = omega (arith, h, k)

-- How the exponents add up where the double is not subnormal.
shifts_lem :
    (n d : ℕ)
    → log2 d < 1021
    → down_shift n d + 52 + (log2 d + below_one n d) ≡ up_shift n d + log2 n
shifts_lem n d h = shifts_of (log2 n) (log2 d) (below_one n d) (ground arith) h

not_zero : (n : ℕ) → 0 < n → (n == 0) ≡ false
not_zero n p = ground arith

product_positive : (d k : ℕ) → 0 < d → 0 < d * 2 ^ k
product_positive d k p = mul-le-mul {n₁ = 1} {m₁ = 1} p (pow_positive k)

abbrev rounded : ℕ → ℕ → ℕ
rounded n d = round_half_even (n * 2 ^ up_shift n d) (d * 2 ^ down_shift n d)

to_double_positive :
    (n d : ℕ)
    → 0 < n
    → to_double n d
      ≡ record { numerator = rounded n d * 2 ^ down_shift n d; denominator = 2 ^ up_shift n d }
unfolding to_double
to_double_positive n d p = rw (not_zero n p) refl

pub to_double-denominator : (n d : ℕ) → 0 < n → 0 < (to_double n d).denominator
to_double-denominator n d p = rw (to_double_positive n d p) (pow_positive (up_shift n d))

pub to_double-IsNearest : (n d : ℕ) → 0 < n → 0 < d → log2 d < 1021 → IsNearest n d (to_double n d)
to_double-IsNearest n d p q h =
    let up = up_shift n d in
    let down = down_shift n d in
    let fits =
      scaled_step n d (log2 n) (log2 d + below_one n d) up down (scaled-le n d p q)
        (shifts_lem n d h) in
    let step = round_half_even-IsHalfAway (n * 2 ^ up) (d * 2 ^ down) (product_positive d down q) in
    let near = half_of_step (n * 2 ^ up) (d * 2 ^ down) (rounded n d) fits step in
    let same : rounded n d * (d * 2 ^ down) ≡ rounded n d * 2 ^ down * d =
      ap (λ t. rounded n d * t) (mul_comm d (2 ^ down))
      ∙ sym (mul_assoc (rounded n d) (2 ^ down) d) in
    rw (to_double_positive n d p) (omega (arith, near.0, same), omega (arith, near.1, same))
