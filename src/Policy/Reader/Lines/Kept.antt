-- ===== src/Policy/Reader/Lines/Kept.antt =====
-- What filling a container and opening one keep of the reader in `load_policy` of
-- benchmarks/policy/generate_keyword_header.py.
use xsr.Prelude.{
  [], ap, arith, false, get_elem?, length, length-append, map-append, pos, some, subst, suc, sym, ℕ,
  ◌++◌, ◌∙◌, ◌∷◌, ◌≡◌,
}
use xsr.Policy.Reader.Cells.{Cell, set_cell}
use xsr.Policy.Reader.Lines.{Reader, fill, push_cell}
use xsr.Policy.Reader.Lines.Stack.{Below, Nested, push-Nested}
use xsr.Policy.Reader.Cells.Store.{
  CellFits, CellsFit, CellsFit-append, CellsFit-more, CellsFit-set_cell, get_elem?-front, is_list,
  kinds, kinds-set_cell, length-set_cell, CellFits,
}

-- The containers make a tree below the root, a dict, and the stack is a branch of it.
pub record IsWellFormed (r : Reader) : Type 0 where
  pub cells_fit : CellsFit (kinds r.cells) 0 r.cells
  pub root : get_elem? (kinds r.cells) 0 ≡ some false
  pub nested : Nested (length r.cells) r.stack

-- The parent on top of the stack, which is a container `old`, is filled with `filled`.
module _ (r : Reader) (parent : ℕ) (old filled : Cell) (ok_r : IsWellFormed r)
    (found : get_elem? r.cells parent ≡ some old) (same : is_list old ≡ is_list filled) where
  pub fill-IsWellFormed :
      CellFits (kinds r.cells) parent filled → IsWellFormed (fill r parent filled)
  fill-IsWellFormed fits =
      let unchanged = kinds-set_cell r.cells parent filled found same in
      record {
        cells_fit = rw unchanged (
            CellsFit-set_cell (kinds r.cells) 0 r.cells parent parent filled (omega arith)
              ok_r.cells_fit fits);
        root = rw unchanged ok_r.root;
        nested = rw (length-set_cell r.cells parent filled) ok_r.nested;
      }

  kinds-push :
      (cell : Cell)
      → kinds (set_cell r.cells parent filled ++ cell ∷ []) ≡ kinds r.cells ++ is_list cell ∷ []
  kinds-push cell =
      map-append is_list (set_cell r.cells parent filled) (cell ∷ [])
      ∙ ap (λ ks. ks ++ is_list cell ∷ []) (kinds-set_cell r.cells parent filled found same)

  length-push :
      (cell : Cell) → length (set_cell r.cells parent filled ++ cell ∷ []) ≡ suc (length r.cells)
  length-push cell = omega (
    arith,
    length-append (set_cell r.cells parent filled) (cell ∷ []),
    length-set_cell r.cells parent filled,
  )

  pub push_cell-IsWellFormed :
      (indent : ℕ) (cell : Cell)
      → Below indent r.stack
      → CellFits (kinds r.cells ++ is_list cell ∷ []) parent filled
      → CellFits (kinds r.cells ++ is_list cell ∷ []) (length r.cells) cell
      → IsWellFormed (push_cell r indent parent filled cell)
  push_cell-IsWellFormed indent cell below fits new =
      let ks = kinds r.cells ++ is_list cell ∷ [] in
      let set = set_cell r.cells parent filled in
      record {
        cells_fit = rw (kinds-push cell) (
            CellsFit-append ks 0 set (length r.cells) cell
              (omega (arith, length-set_cell r.cells parent filled))
              (CellsFit-set_cell ks 0 r.cells parent parent filled (omega arith)
                (CellsFit-more (kinds r.cells) (is_list cell) 0 r.cells ok_r.cells_fit) fits)
              new);
        root = rw (kinds-push cell) (get_elem?-front (kinds r.cells) (is_list cell) 0 ok_r.root);
        nested =
            subst (λ n. Nested n ((pos indent, length r.cells) ∷ r.stack)) (sym (length-push cell))
              (push-Nested (length r.cells) (suc (length r.cells)) indent (length r.cells) r.stack
                (omega arith) (omega arith) ok_r.nested below);
      }
