-- ===== src/Distill/File/Bytes.antt =====
-- Numbers and arrays through their bytes.
use xsr.Prelude.{
  All, List, Text, [], ap, ap₂, arith, drop-append_length, length, length-append, map, negsuc, pos,
  refl, suc, take-append_length, zero, ℕ, ℤ, ◌*◌, ◌++◌, ◌/◌, ◌<◌, ◌^◌, ◌∙◌, ◌∷◌, ◌≡◌,
}
use xsr.Distill.File.{
  bias_bytes, from_bits, le_bytes, le_value, matrix_bytes, read_bias, read_rows, row_bytes, to_bits,
}

pub length-le_bytes : (count n : ℕ) → length (le_bytes count n) ≡ count
unfolding le_bytes
length-le_bytes zero n = refl
length-le_bytes (suc count) n = ap suc (length-le_bytes count (n / 256))

pub le_value-le_bytes_4 : (n : ℕ) → n < 2 ^ 32 → le_value (le_bytes 4 n) ≡ n
unfolding le_value le_bytes
le_value-le_bytes_4 n h = omega arith

pub le_value-le_bytes_8 : (n : ℕ) → n < 2 ^ 64 → le_value (le_bytes 8 n) ≡ n
unfolding le_value le_bytes
le_value-le_bytes_8 n h = omega arith

-- The range of a signed integer of 8 or 32 bits.
abbrev pub Fits8 : ℤ → Type 0
Fits8 (pos n) = n < 128
Fits8 (negsuc n) = n < 128

abbrev pub Fits32 : ℤ → Type 0
Fits32 (pos n) = n < 2 ^ 31
Fits32 (negsuc n) = n < 2 ^ 31

from_bits-to_bits_8 : (w : ℤ) → Fits8 w → from_bits 8 (to_bits 8 w) ≡ w
unfolding from_bits to_bits
from_bits-to_bits_8 (pos n) h = ground arith
from_bits-to_bits_8 (negsuc n) h = ground arith

from_bits-to_bits_32 : (w : ℤ) → Fits32 w → from_bits 32 (to_bits 32 w) ≡ w
unfolding from_bits to_bits
from_bits-to_bits_32 (pos n) h = ground arith
from_bits-to_bits_32 (negsuc n) h = ground arith

to_bits_32-lt : (w : ℤ) → Fits32 w → to_bits 32 w < 2 ^ 32
unfolding to_bits
to_bits_32-lt (pos n) h = omega arith
to_bits_32-lt (negsuc n) h = omega arith

pub length-bias_bytes : (bias : List ℤ) → length (bias_bytes bias) ≡ length bias * 4
unfolding bias_bytes
length-bias_bytes [] = refl
length-bias_bytes (b ∷ bias) = omega (
  arith,
  length-append (le_bytes 4 (to_bits 32 b)) (bias_bytes bias),
  length-bias_bytes bias,
  length-le_bytes 4 (to_bits 32 b),
)

pub read_bias-bias_bytes :
    (bias : List ℤ) (rest : Text)
    → All Fits32 bias
    → read_bias (length bias) (bias_bytes bias ++ rest) ≡ bias
unfolding read_bias bias_bytes
read_bias-bias_bytes [] rest h = refl
read_bias-bias_bytes (b ∷ bias) rest h =
    ap₂ ◌∷◌
      (ap (from_bits 32) (le_value-le_bytes_4 (to_bits 32 b) (to_bits_32-lt b h.0))
        ∙ from_bits-to_bits_32 b h.0)
      (read_bias-bias_bytes bias rest h.1)

pub length-row_bytes : (row : List ℤ) → length (row_bytes row) ≡ length row
unfolding row_bytes
length-row_bytes [] = refl
length-row_bytes (w ∷ row) = ap suc (length-row_bytes row)

read_row-row_bytes : (row : List ℤ) → All Fits8 row → map (from_bits 8) (row_bytes row) ≡ row
unfolding row_bytes
read_row-row_bytes [] h = refl
read_row-row_bytes (w ∷ row) h = ap₂ ◌∷◌ (from_bits-to_bits_8 w h.0) (read_row-row_bytes row h.1)

pub length-matrix_bytes :
    (rows : List (List ℤ)) (width : ℕ)
    → All (λ r. length r ≡ width) rows
    → length (matrix_bytes rows) ≡ length rows * width
unfolding matrix_bytes
length-matrix_bytes [] width h = omega arith
length-matrix_bytes (row ∷ rows) width h = omega (
  arith,
  length-append (row_bytes row) (matrix_bytes rows),
  length-row_bytes row,
  h.0,
  length-matrix_bytes rows width h.1,
)

pub read_rows-matrix_bytes :
    (rows : List (List ℤ)) (width : ℕ)
    → All (λ r. length r ≡ width) rows
    → All (All Fits8) rows
    → read_rows (length rows) width (matrix_bytes rows) ≡ rows
unfolding read_rows matrix_bytes
read_rows-matrix_bytes [] width h k = refl
read_rows-matrix_bytes (row ∷ rows) width h k =
    let measured : length (row_bytes row) ≡ width = length-row_bytes row ∙ h.0 in
    ap₂ ◌∷◌
      (ap (map (from_bits 8))
          (rw (← measured) (take-append_length (row_bytes row) (matrix_bytes rows)))
        ∙ read_row-row_bytes row k.0)
      (ap (read_rows (length rows) width)
          (rw (← measured) (drop-append_length (row_bytes row) (matrix_bytes rows)))
        ∙ read_rows-matrix_bytes rows width h.1 k.1)
