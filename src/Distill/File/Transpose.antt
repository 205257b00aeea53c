-- ===== src/Distill/File/Transpose.antt =====
-- Transposing twice gives the matrix back.
use xsr.Prelude.{
  All, List, [], ap, ap₂, arith, length, length-map, map, refl, subst, suc, zero, ℕ, ℤ, ◌∙◌, ◌∷◌,
  ◌≡◌,
}
use xsr.Distill.File.Bytes.{Fits8}
use xsr.Distill.File.{columns, head_or, tail_of}

-- The first row of a matrix is made of the heads of its columns, and the other rows of the tails.
heads-columns :
    (row : List ℤ) (rows : List (List ℤ)) → map head_or (columns (length row) (row ∷ rows)) ≡ row
unfolding columns
heads-columns [] rows = refl
heads-columns (w ∷ row) rows = ap (◌∷◌ w) (heads-columns row (map tail_of rows))

tails-columns :
    (count : ℕ) (row : List ℤ) (rows : List (List ℤ))
    → map tail_of (columns count (row ∷ rows)) ≡ columns count rows
unfolding columns
tails-columns zero row rows = refl
tails-columns (suc count) row rows =
    ap (◌∷◌ (map head_or rows)) (tails-columns count (tail_of row) (map tail_of rows))

pub columns_twice :
    (rows : List (List ℤ)) (width : ℕ)
    → All (λ r. length r ≡ width) rows
    → columns (length rows) (columns width rows) ≡ rows
unfolding columns
columns_twice [] width h = refl
columns_twice (row ∷ rows) width h =
    ap₂ ◌∷◌ (rw (← h.0) (heads-columns row rows))
      (ap (columns (length rows)) (tails-columns width row rows) ∙ columns_twice rows width h.1)

pub length-columns : (count : ℕ) (rows : List (List ℤ)) → length (columns count rows) ≡ count
unfolding columns
length-columns zero rows = refl
length-columns (suc count) rows = ap suc (length-columns count (map tail_of rows))

pub columns-width :
    (count : ℕ) (rows : List (List ℤ)) → All (λ c. length c ≡ length rows) (columns count rows)
unfolding columns
columns-width zero rows = tt
columns-width (suc count) rows = (
  length-map rows head_or,
  subst (λ n. All (λ c. length c ≡ n) (columns count (map tail_of rows))) (length-map rows tail_of)
      (columns-width count (map tail_of rows)),
)

head-Fits8 : (row : List ℤ) → All Fits8 row → Fits8 (head_or row)
head-Fits8 [] h = omega arith
head-Fits8 (w ∷ row) h = h.0

tail-Fits8 : (row : List ℤ) → All Fits8 row → All Fits8 (tail_of row)
tail-Fits8 [] h = tt
tail-Fits8 (w ∷ row) h = h.1

heads-Fits8 : (rows : List (List ℤ)) → All (All Fits8) rows → All Fits8 (map head_or rows)
heads-Fits8 [] h = tt
heads-Fits8 (row ∷ rows) h = (head-Fits8 row h.0, heads-Fits8 rows h.1)

tails-Fits8 : (rows : List (List ℤ)) → All (All Fits8) rows → All (All Fits8) (map tail_of rows)
tails-Fits8 [] h = tt
tails-Fits8 (row ∷ rows) h = (tail-Fits8 row h.0, tails-Fits8 rows h.1)

pub columns-Fits8 :
    (count : ℕ) (rows : List (List ℤ)) → All (All Fits8) rows → All (All Fits8) (columns count rows)
unfolding columns
columns-Fits8 zero rows h = tt
columns-Fits8 (suc count) rows h =
    (heads-Fits8 rows h, columns-Fits8 count (map tail_of rows) (tails-Fits8 rows h))
