-- ===== src/Tokenizer/Stem/Regions.antt =====
-- Bounds of the regions that `_regions` computes.
use xsr.Prelude.{
  &&-eq-true, Text, [], arith, codes, dec_le, drop, length, length-drop, min, starts_with, true, ℕ,
  ◌+◌, ◌-◌, ◌<◌, ◌==◌, ◌∷◌, ◌≡◌, ◌≤◌,
}
use xsr.Tokenizer.Stem.{scan_boundary, boundary_in, boundary_after, region_1, regions}

scan_boundary_bounds :
    (index prev : ℕ) (rest : Text)
    → (index ≤ scan_boundary index prev rest)
      × (scan_boundary index prev rest ≤ index + length rest)
unfolding scan_boundary
scan_boundary_bounds index prev [] = omega arith
scan_boundary_bounds index prev (c ∷ cs) = ground (arith, scan_boundary_bounds (index + 1) c cs)

boundary_in_bounds :
    (size start : ℕ) (rest : Text)
    → start + length rest ≤ size + 1
    → (boundary_in size start rest ≤ size) × (min start size ≤ boundary_in size start rest)
boundary_in_bounds size start [] h = omega arith
boundary_in_bounds size start (prev ∷ rest) h = omega (arith, scan_boundary_bounds start prev rest)

pub boundary_after_bounds :
    (start : ℕ) (word : Text)
    → 0 < start
    → (boundary_after start word ≤ length word)
      × (min start (length word) ≤ boundary_after start word)
unfolding boundary_after
boundary_after_bounds start word h = elim (dec_le start (length word + 1)) [
  | yes fits ↦
      boundary_in_bounds (length word) start (drop (start - 1) word)
        (omega (arith, length-drop (start - 1) word))
  | no past ↦ past_end (drop (start - 1) word) (omega (arith, length-drop (start - 1) word))
]
  where
    past_end :
        (rest : Text)
        → length rest ≡ 0
        → (boundary_in (length word) start rest ≤ length word)
          × (min start (length word) ≤ boundary_in (length word) start rest)
    past_end [] e = omega arith
    past_end (x ∷ xs) e = absurd (omega arith)

starts_with-le : (s p : Text) → starts_with s p ≡ true → length p ≤ length s
unfolding starts_with
starts_with-le s [] h = omega arith
starts_with-le [] (y ∷ ys) h = cc
starts_with-le (x ∷ xs) (y ∷ ys) h =
    omega (arith, starts_with-le xs ys (&&-eq-true (x == y) (starts_with xs ys) h).1)

region_1-le : (word : Text) → region_1 word ≤ length word
unfolding region_1
region_1-le word = ground (
  arith,
  starts_with-le word (codes "gener"),
  starts_with-le word (codes "arsen"),
  starts_with-le word (codes "commun"),
  boundary_after_bounds 1 word (omega arith),
)

-- Both regions start inside the word or at its end, and the second does not start before the first.
pub regions_bounds :
    (word : Text)
    → ((regions word).0 ≤ length word)
      × ((regions word).1 ≤ length word)
      × ((regions word).0 ≤ (regions word).1)
unfolding regions
regions_bounds word =
    omega (arith, region_1-le word, boundary_after_bounds (region_1 word + 1) word (omega arith))
