-- ===== src/Policy/Reader/Written/Loading.antt =====
-- How lines fill the container of their indentation in `load_policy` of
-- benchmarks/policy/generate_keyword_header.py.
use xsr.Prelude.{
  List, Text, [], append-nil, get_elem?, length, ok, refl, some, ℕ, ℤ, ◌++◌, ◌>>=◌, ◌∙◌, ◌∷◌, ◌≡◌,
}
use xsr.Policy.Reader.Cells.{Cell, set_cell}
use xsr.Policy.Reader.Lines.{Reader, load_line, load_lines, pop}
use xsr.Policy.Reader.Lines.Stack.{pop_again}
use xsr.Policy.Reader.Cells.Store.{length-set_cell}
use xsr.Policy.Reader.Cells.Writes.{get_elem?-set_cell, set_cell-same, set_cell-set_cell}

-- The reader in whose container `a` the lines of the indentation `n` go, which is `cell`.
pub record Stands (n : ℕ) (cell : Cell) (r : Reader) (i : ℤ) (a : ℕ) (rest : List (ℤ × ℕ))
    : Type 0 where
  pub on_top : pop n r.stack ≡ (i, a) ∷ rest
  pub holds : get_elem? r.cells a ≡ some cell

-- The reader after the lines: the container and the new ones, and a stack that the next line of the
-- indentation `n` finds as before.
pub record Filled (n : ℕ) (r : Reader) (lines : List Text) (cells : List Cell) (i : ℤ) (a : ℕ)
    (rest : List (ℤ × ℕ)) : Type 0 where
  pub stack : List (ℤ × ℕ)
  pub loaded : load_lines r lines ≡ ok (record { cells = cells; stack = stack })
  pub on_top : pop n stack ≡ (i, a) ∷ rest

-- Lines of the indentation `n` change a container from `before` to `after`, and make `new` containers;
-- both depend on the first new address.
abbrev pub Produces : ℕ → List Text → Cell → (ℕ → Cell) → (ℕ → List Cell) → Type 0
Produces n lines before after new =
    (r : Reader) (i : ℤ) (a : ℕ) (rest : List (ℤ × ℕ))
    → Stands n before r i a rest
    → Filled n r lines (set_cell r.cells a (after (length r.cells)) ++ new (length r.cells)) i a
        rest

pub Produces-none : (n : ℕ) (cell : Cell) → Produces n [] cell (λ _. cell) (λ _. [])
unfolding load_lines
Produces-none n cell r i a rest at = record {
  stack = r.stack;
  loaded =
      rw (append-nil (set_cell r.cells a cell)) (rw (set_cell-same r.cells a cell at.holds) refl);
  on_top = at.on_top;
}

-- A line that changes the container from `before` to `mid`, and makes no other.
abbrev pub Changes : ℕ → Text → Cell → Cell → Type 0
Changes n line before mid =
    (r : Reader) (i : ℤ) (a : ℕ) (rest : List (ℤ × ℕ))
    → Stands n before r i a rest
    → load_line r line ≡ ok (record { cells = set_cell r.cells a mid; stack = (i, a) ∷ rest })

pub Produces-line :
    (n : ℕ) (line : Text) (lines : List Text) (before mid : Cell) (after : ℕ → Cell)
    (new : ℕ → List Cell)
    → Changes n line before mid
    → Produces n lines mid after new
    → Produces n (line ∷ lines) before after new
unfolding load_lines ◌>>=◌
Produces-line n line lines before mid after new changes produces r i a rest at =
    let next : Reader = record { cells = set_cell r.cells a mid; stack = (i, a) ∷ rest } in
    let behind = produces next i a rest (record {
      on_top = pop_again n r.stack i a rest at.on_top;
      holds = get_elem?-set_cell r.cells a mid at.holds;
    }) in
    let count = length-set_cell r.cells a mid in
    record {
      stack = behind.stack;
      loaded = rw (changes r i a rest at) (
          behind.loaded
          ∙ (rw count (rw (set_cell-set_cell r.cells a mid (after (length r.cells))) refl)));
      on_top = behind.on_top;
    }
