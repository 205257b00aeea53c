-- ===== src/Profile/Double.antt =====
-- Python's floating-point numbers that are not negative, as the fractions that they stand for: the
-- quotient of two integers, the quotient by 1000.0, and the formats `.3f` and `.6f`.
pub mod Nearest
pub mod Quotient
use xsr.Prelude.{
  Option, Text, [], if◌then◌else◌, leb, ltb, min, none, some, suc, zero, ℕ, ◌%◌, ◌*◌, ◌++◌, ◌+◌,
  ◌-◌, ◌/◌, ◌==◌, ◌^◌, ◌∷◌,
}
use xsr.Policy.Values.{show_nat}

-- numerator / denominator, the denominator a power of two
pub record Double : Type 0 where
  pub numerator : ℕ
  pub denominator : ℕ

abbrev pub nought : Double
nought = record { numerator = 0; denominator = 1 }

-- n / d rounded to an integer, ties to the even one
unfoldable pub round_half_even : ℕ → ℕ → ℕ
round_half_even n d =
    let q = n / d in
    let r = n % d in if ltb (2 * r) d then q else if ltb d (2 * r) then q + 1 else q + q % 2

unfoldable pub log2_fuel : ℕ → ℕ → ℕ
log2_fuel zero n = 0
log2_fuel (suc fuel) n = let half = log2_fuel fuel (n / 2) in if ltb n 2 then 0 else half + 1

-- The largest k with 2 ^ k ≤ n, for 0 < n.
unfoldable pub log2 : ℕ → ℕ
unfolding log2_fuel
log2 n = log2_fuel n n

-- How much larger than `log2 n - log2 d` the exponent of 2 is that a quotient lies under.
abbrev pub below_one : ℕ → ℕ → ℕ
below_one n d = if ltb (n * 2 ^ log2 d) (d * 2 ^ log2 n) then 1 else 0

-- The factors 2 ^ up and 2 ^ down that bring n / d between 2 ^ 52 and 2 ^ 53; no double has bits below
-- 2 ^ -1074.
abbrev pub up_shift : ℕ → ℕ → ℕ
up_shift n d = min 1074 ((52 + log2 d + below_one n d) - log2 n)

abbrev pub down_shift : ℕ → ℕ → ℕ
down_shift n d = log2 n - (52 + log2 d + below_one n d)

-- The double nearest to n / d, for 0 < d.
unfoldable pub to_double : ℕ → ℕ → Double
unfolding round_half_even log2
to_double n d = if n == 0 then nought else record {
  numerator = round_half_even (n * 2 ^ up_shift n d) (d * 2 ^ down_shift n d) * 2 ^ down_shift n d;
  denominator = 2 ^ up_shift n d;
}

-- n / d of two integers with 0 < d, which raises `OverflowError` where the double would be infinite.
unfoldable pub true_div : ℕ → ℕ → Option Double
unfolding to_double
true_div n d =
    let x = to_double n d in if leb (2 ^ 1024 * x.denominator) x.numerator then none else some x

-- x / 1000.0
unfoldable pub thousandth : Double → Double
unfolding to_double
thousandth x = to_double x.numerator (x.denominator * 1000)

-- The last `places` digits of n, with zeros in front.
unfoldable pub padded_digits : ℕ → ℕ → Text
padded_digits zero n = []
padded_digits (suc places) n = padded_digits places (n / 10) ++ (b'0' + n % 10) ∷ []

-- f"{x:.{places}f}"
unfoldable pub fixed : ℕ → Double → Text
unfolding padded_digits round_half_even
fixed places x =
    let n = round_half_even (x.numerator * 10 ^ places) x.denominator in
    show_nat (n / 10 ^ places) ++ (b'.' ∷ padded_digits places n)
