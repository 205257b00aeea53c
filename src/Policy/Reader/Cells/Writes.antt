-- ===== src/Policy/Reader/Cells/Writes.antt =====
-- Writes to the containers of `load_policy` of benchmarks/policy/generate_keyword_header.py.
use xsr.Prelude.{List, [], ap, arith, get_elem?, length, refl, some, suc, zero, ℕ, ◌++◌, ◌∷◌, ◌≡◌}
use xsr.Policy.Reader.Cells.{Cell, set_cell}

pub set_cell-same :
    (cells : List Cell) (a : ℕ) (cell : Cell)
    → get_elem? cells a ≡ some cell
    → set_cell cells a cell ≡ cells
unfolding set_cell
set_cell-same [] a cell h = refl
set_cell-same (c ∷ cells) zero cell h = ground (arith, h)
set_cell-same (c ∷ cells) (suc a) cell h = ap (λ x. c ∷ x) (set_cell-same cells a cell h)

pub set_cell-set_cell :
    (cells : List Cell) (a : ℕ) (old new : Cell)
    → set_cell (set_cell cells a old) a new ≡ set_cell cells a new
unfolding set_cell
set_cell-set_cell [] a old new = refl
set_cell-set_cell (c ∷ cells) zero old new = refl
set_cell-set_cell (c ∷ cells) (suc a) old new = ap (λ x. c ∷ x) (set_cell-set_cell cells a old new)

pub get_elem?-set_cell :
    (cells : List Cell) (a : ℕ) (cell : Cell) {old : Cell}
    → get_elem? cells a ≡ some old
    → get_elem? (set_cell cells a cell) a ≡ some cell
unfolding set_cell
get_elem?-set_cell [] a cell h = cc
get_elem?-set_cell (c ∷ cells) zero cell h = refl
get_elem?-set_cell (c ∷ cells) (suc a) cell h = get_elem?-set_cell cells a cell h

pub get_elem?-append :
    (cells more : List Cell) (a : ℕ) {cell : Cell}
    → get_elem? cells a ≡ some cell
    → get_elem? (cells ++ more) a ≡ some cell
get_elem?-append [] more a h = cc
get_elem?-append (c ∷ cells) more zero h = h
get_elem?-append (c ∷ cells) more (suc a) h = get_elem?-append cells more a h

pub get_elem?-behind :
    (cells more : List Cell) (cell : Cell)
    → get_elem? (cells ++ cell ∷ more) (length cells) ≡ some cell
get_elem?-behind [] more cell = refl
get_elem?-behind (c ∷ cells) more cell = get_elem?-behind cells more cell

pub set_cell-append :
    (cells more : List Cell) (a : ℕ) (new : Cell) {old : Cell}
    → get_elem? cells a ≡ some old
    → set_cell (cells ++ more) a new ≡ set_cell cells a new ++ more
unfolding set_cell
set_cell-append [] more a new h = cc
set_cell-append (c ∷ cells) more zero new h = refl
set_cell-append (c ∷ cells) more (suc a) new h =
    ap (λ x. c ∷ x) (set_cell-append cells more a new h)

pub set_cell-last :
    (cells : List Cell) (old new : Cell)
    → set_cell (cells ++ old ∷ []) (length cells) new ≡ cells ++ new ∷ []
unfolding set_cell
set_cell-last [] old new = refl
set_cell-last (c ∷ cells) old new = ap (λ x. c ∷ x) (set_cell-last cells old new)
