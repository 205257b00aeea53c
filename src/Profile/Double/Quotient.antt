-- ===== src/Profile/Double/Quotient.antt =====
-- When the quotient of two integers is a double.
use xsr.Prelude.{
  Bool-cases, arith, false, inl, inr, leb, leb→le, refl, some, ℕ, ◌*◌, ◌<◌, ◌^◌, ◌≡◌, ◌≤◌,
}
use native.Mathlib.Nat.{mul-le-mul_right, pow-le-pow_right, le-mul_of_pos_right, suc-mul, mul_assoc}
use xsr.Profile.Double.{Double, true_div, to_double, log2}
use xsr.Profile.Double.Nearest.{IsNearest, to_double-IsNearest, log2-IsLog2, to_double-denominator}

log2-lt : (d k : ℕ) → 0 < d → d < 2 ^ k → log2 d < k
log2-lt d k p h = elim (Bool-cases (leb k (log2 d))) [
  | inl e ↦
      (let large : 2 ^ k ≤ 2 ^ log2 d = pow-le-pow_right (omega arith) (leb→le k (log2 d) e) in
        absurd (omega (arith, large, h, (log2-IsLog2 d p).0)))
  | inr e ↦ ground (arith, e)
]

-- A double near n / d is below twice any bound of n.
near_bound :
    (n d m : ℕ) (x : Double)
    → 0 < d
    → n < m
    → 0 < x.denominator
    → IsNearest n d x
    → x.numerator < 2 * m * x.denominator
near_bound n d m x p h pos_denominator near =
    let grown = mul-le-mul_right x.denominator h in
    let split = suc-mul n x.denominator in
    let twice = mul_assoc 2 m x.denominator in
    let times = le-mul_of_pos_right x.numerator p in
    omega (arith, grown, split, twice, times, near.0, pos_denominator)

not_below : (a b : ℕ) → b < a → leb a b ≡ false
not_below a b h = ground (arith, h)

-- A positive integer below 2 ^ 1023 is divided by one below 2 ^ 1021 without an `OverflowError`, and the
-- result has a relative error of at most 2 ^ -53.
pub true_div-IsNearest :
    (n d : ℕ)
    → 0 < n
    → 0 < d
    → n < 2 ^ 1023
    → d < 2 ^ 1021
    → (true_div n d ≡ some (to_double n d)) × IsNearest n d (to_double n d)
unfolding true_div
true_div-IsNearest n d p q hn hd =
    let near = to_double-IsNearest n d p q (log2-lt d 1021 q hd) in
    let small = near_bound n d (2 ^ 1023) (to_double n d) q hn (to_double-denominator n d p) near in
    (rw (not_below _ _ small) refl, near)
