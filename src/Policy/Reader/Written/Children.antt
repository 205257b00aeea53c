-- ===== src/Policy/Reader/Written/Children.antt =====
-- How a header and the lines below it fill a container and its child in `load_policy` of
-- benchmarks/policy/generate_keyword_header.py.
use xsr.Prelude.{
  List, Text, [], ap, append_assoc, arith, bind-eq-ok, get_elem?, length, length-append, ok, pos,
  some, subst, suc, sym, ℕ, ℤ, ◌++◌, ◌+◌, ◌<◌, ◌>>=◌, ◌∙◌, ◌∷◌, ◌≡◌,
}
use xsr.Policy.Reader.Cells.{Cell, set_cell}
use xsr.Policy.Reader.Lines.{Reader, load_line, load_lines, pop}
use xsr.Policy.Reader.Written.Loading.{Filled, Produces, Stands}
use xsr.Policy.Reader.Lines.Stack.{pop-pop, pop_again}
use xsr.Policy.Reader.Cells.Store.{length-set_cell}
use xsr.Policy.Reader.Cells.Writes.{
  get_elem?-behind, get_elem?-set_cell, set_cell-append, set_cell-last, set_cell-set_cell,
  get_elem?-append,
}

load_lines-append :
    (r middle last : Reader) (xs ys : List Text)
    → load_lines r xs ≡ ok middle
    → load_lines middle ys ≡ ok last
    → load_lines r (xs ++ ys) ≡ ok last
unfolding load_lines ◌>>=◌
load_lines-append r middle last [] ys h k = let same : r ≡ middle = ground (arith, h) in rw same k
load_lines-append r middle last (x ∷ xs) ys h k =
    let (next, read, behind) = bind-eq-ok (load_line r x) (λ q. load_lines q xs) h in
    rw read (load_lines-append next middle last xs ys behind k)

-- A line that puts a child into the container, and opens it.
abbrev pub Opens : ℕ → Text → Cell → (ℕ → Cell) → Cell → Type 0
Opens n line before mid child =
    (r : Reader) (i : ℤ) (a : ℕ) (rest : List (ℤ × ℕ))
    → Stands n before r i a rest
    → load_line r line
      ≡ ok (record {
        cells = set_cell r.cells a (mid (length r.cells)) ++ child ∷ [];
        stack = (pos n, length r.cells) ∷ (i, a) ∷ rest;
      })

child_open :
    (n m : ℕ) (b : ℕ) (stack : List (ℤ × ℕ))
    → n < m
    → pop m ((pos n, b) ∷ stack) ≡ (pos n, b) ∷ stack
unfolding pop
child_open n m b stack lt = ground (arith, lt)

child_left : (n b : ℕ) (stack : List (ℤ × ℕ)) → pop n ((pos n, b) ∷ stack) ≡ pop n stack
unfolding pop
child_left n b stack = ground arith

-- The containers when the child has been filled.
child_cells :
    (cells : List Cell) (b : ℕ) (child : Cell) (after : ℕ → Cell) (new : ℕ → List Cell)
    → length cells ≡ b
    → set_cell (cells ++ child ∷ []) b (after (length (cells ++ child ∷ [])))
        ++ new (length (cells ++ child ∷ []))
      ≡ cells ++ after (suc b) ∷ new (suc b)
child_cells cells b child after new h =
    let count : length (cells ++ child ∷ []) ≡ suc b =
      omega (arith, length-append cells (child ∷ []), h) in
    rw count (
      ap (λ x. x ++ new (suc b))
        (subst (λ x. set_cell (cells ++ child ∷ []) x (after (suc b)) ≡ cells ++ after (suc b) ∷ [])
          h (set_cell-last cells child (after (suc b))))
      ∙ append_assoc cells (after (suc b) ∷ []) (new (suc b)))

-- The containers when the lines behind the child have been read.
parent_cells :
    (cells more : List Cell) (a : ℕ) (mid old : Cell) (after : ℕ → Cell) (new : ℕ → List Cell)
    (n : ℕ)
    → get_elem? cells a ≡ some old
    → length (set_cell cells a mid ++ more) ≡ n
    → set_cell (set_cell cells a mid ++ more) a (after (length (set_cell cells a mid ++ more)))
        ++ new (length (set_cell cells a mid ++ more))
      ≡ set_cell cells a (after n) ++ (more ++ new n)
parent_cells cells more a mid old after new n h count = rw count (
    rw (set_cell-append (set_cell cells a mid) more a (after n) (get_elem?-set_cell cells a mid h))
      (rw (set_cell-set_cell cells a mid (after n))
        (append_assoc (set_cell cells a (after n)) more (new n))))

module _ (n m k : ℕ) (line : Text) (below lines : List Text) (before child : Cell) (mid : ℕ → Cell)
    (child_after : ℕ → Cell) (child_new : ℕ → List Cell) (after : ℕ → ℕ → Cell)
    (new : ℕ → ℕ → List Cell) (lt : n < m) (opens : Opens n line before mid child)
    (fills : Produces m below child child_after child_new)
    (count : (b : ℕ) → length (child_new b) ≡ k)
    (goes_on : (b : ℕ) → Produces n lines (mid b) (after b) (new b)) where
  -- The child, and the reader when it has been filled.
  header-Filled :
      (r : Reader) (i : ℤ) (a : ℕ) (rest : List (ℤ × ℕ))
      → Stands n before r i a rest
      → let b = length r.cells in
        Filled n r
          (line ∷ below)
          (set_cell r.cells a (mid b) ++ child_after (suc b) ∷ child_new (suc b))
          i
          a
          rest
  unfolding load_lines ◌>>=◌
  header-Filled r i a rest at =
      let b = length r.cells in
      let set = set_cell r.cells a (mid b) in
      let opened : Reader = record {
        cells = set ++ child ∷ [];
        stack = (pos n, b) ∷ (i, a) ∷ rest;
      } in
      let same = length-set_cell r.cells a (mid b) in
      let inner = fills opened (pos n) b ((i, a) ∷ rest) (record {
        on_top = child_open n m b ((i, a) ∷ rest) lt;
        holds =
            subst (λ x. get_elem? (set ++ child ∷ []) x ≡ some child) same
              (get_elem?-behind set [] child);
      }) in
      record {
        stack = inner.stack;
        loaded = rw (opens r i a rest at) (
            inner.loaded
            ∙ ap (λ x. ok (record { cells = x; stack = inner.stack }))
                (child_cells set b child child_after child_new same));
        on_top =
            sym (pop-pop n m inner.stack (omega (arith, lt)))
            ∙ ap (pop n) inner.on_top
            ∙ child_left n b ((i, a) ∷ rest)
            ∙ pop_again n r.stack i a rest at.on_top;
      }

  pub Produces-child :
      Produces n
        (line ∷ below ++ lines)
        before
        (λ b. after b (suc b + k))
        (λ b. child_after (suc b) ∷ child_new (suc b) ++ new b (suc b + k))
  Produces-child r i a rest at =
      let b = length r.cells in
      let set = set_cell r.cells a (mid b) in
      let more = child_after (suc b) ∷ child_new (suc b) in
      let inner = header-Filled r i a rest at in
      let middle : Reader = record { cells = set ++ more; stack = inner.stack } in
      let outer = goes_on b middle i a rest (record {
        on_top = inner.on_top;
        holds = get_elem?-append set more a (get_elem?-set_cell r.cells a (mid b) at.holds);
      }) in
      let size : length (set ++ more) ≡ suc b + k =
        omega (arith, length-append set more, length-set_cell r.cells a (mid b), count (suc b)) in
      record {
        stack = outer.stack;
        loaded =
            load_lines-append r middle _ (line ∷ below) lines inner.loaded outer.loaded
            ∙ ap (λ x. ok (record { cells = x; stack = outer.stack }))
                (parent_cells r.cells more a (mid b) before (after b) (new b) (suc b + k) at.holds
                  size);
        on_top = outer.on_top;
      }
