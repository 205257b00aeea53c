-- ===== src/Policy/Reader/Written/Filled.antt =====
-- The containers that `load_policy` of benchmarks/policy/generate_keyword_header.py makes of a written
-- policy, in the order of their headers: `base` is the address of the next.
use xsr.Prelude.{List, Text, [], arith, length, length-append, refl, suc, ℕ, ◌++◌, ◌+◌, ◌∷◌, ◌≡◌}
use xsr.Policy.Reader.Cells.{Cell, Entries, Slot, container, dict_cell, list_cell, put_slot, scalar}
use xsr.Policy.Reader.Scalar.{parse_scalar}
use xsr.Policy.Reader.Written.{
  Body, RowList, dict_entry, dict_row, no_entries, list_entry, no_rows, scalar_entry, scalar_row,
}

-- How many containers a body and rows make.
unfoldable mutual
  pub count_made : Body → ℕ
  count_made no_entries = 0
  count_made (scalar_entry key raw rest) = count_made rest
  count_made (dict_entry key body rest) = suc (count_made body + count_made rest)
  count_made (list_entry key rows rest) = suc (count_below rows + count_made rest)

  pub count_below : RowList → ℕ
  count_below no_rows = 0
  count_below (scalar_row raw rows) = count_below rows
  count_below (dict_row key raw body rows) = suc (count_made body + count_below rows)

-- The entries of the dict that a body fills, and the items of the list that rows fill.
unfoldable pub filled_dict : ℕ → Entries → Body → Entries
filled_dict base entries no_entries = entries
filled_dict base entries (scalar_entry key raw rest) =
    filled_dict base (put_slot entries key (scalar (parse_scalar raw))) rest
filled_dict base entries (dict_entry key body rest) =
    filled_dict (suc base + count_made body) (put_slot entries key (container base)) rest
filled_dict base entries (list_entry key rows rest) =
    filled_dict (suc base + count_below rows) (put_slot entries key (container base)) rest

unfoldable pub filled_list : ℕ → List Slot → RowList → List Slot
filled_list base slots no_rows = slots
filled_list base slots (scalar_row raw rows) =
    filled_list base (slots ++ scalar (parse_scalar raw) ∷ []) rows
filled_list base slots (dict_row key raw body rows) =
    filled_list (suc base + count_made body) (slots ++ container base ∷ []) rows

abbrev pub first_entry : Text → Text → Entries
first_entry key raw = (key, scalar (parse_scalar raw)) ∷ []

-- The new containers.
unfoldable mutual
  pub made_cells : ℕ → Body → List Cell
  made_cells base no_entries = []
  made_cells base (scalar_entry key raw rest) = made_cells base rest
  made_cells base (dict_entry key body rest) =
      dict_cell (filled_dict (suc base) [] body) ∷ made_cells (suc base) body
      ++ made_cells (suc base + count_made body) rest
  made_cells base (list_entry key rows rest) =
      list_cell (filled_list (suc base) [] rows) ∷ made_cells_below (suc base) rows
      ++ made_cells (suc base + count_below rows) rest

  pub made_cells_below : ℕ → RowList → List Cell
  made_cells_below base no_rows = []
  made_cells_below base (scalar_row raw rows) = made_cells_below base rows
  made_cells_below base (dict_row key raw body rows) =
      dict_cell (filled_dict (suc base) (first_entry key raw) body) ∷ made_cells (suc base) body
      ++ made_cells_below (suc base + count_made body) rows

mutual
  unfolding count_made made_cells

  pub length-made_cells : (base : ℕ) (body : Body) → length (made_cells base body) ≡ count_made body
  length-made_cells base no_entries = refl
  length-made_cells base (scalar_entry key raw rest) = length-made_cells base rest
  length-made_cells base (dict_entry key body rest) = omega (
    arith,
    length-append (made_cells (suc base) body) (made_cells (suc base + count_made body) rest),
    length-made_cells (suc base) body,
    length-made_cells (suc base + count_made body) rest,
  )
  length-made_cells base (list_entry key rows rest) = omega (
    arith,
    length-append (made_cells_below (suc base) rows)
        (made_cells (suc base + count_below rows) rest),
    length-made_cells_below (suc base) rows,
    length-made_cells (suc base + count_below rows) rest,
  )

  pub length-made_cells_below :
      (base : ℕ) (rows : RowList) → length (made_cells_below base rows) ≡ count_below rows
  length-made_cells_below base no_rows = refl
  length-made_cells_below base (scalar_row raw rows) = length-made_cells_below base rows
  length-made_cells_below base (dict_row key raw body rows) = omega (
    arith,
    length-append (made_cells (suc base) body) (made_cells_below (suc base + count_made body) rows),
    length-made_cells (suc base) body,
    length-made_cells_below (suc base + count_made body) rows,
  )
