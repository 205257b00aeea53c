-- ===== src/Policy/Reader/Written/Resolved.antt =====
-- The fields and items that the containers of a written policy stand for in `load_policy` of
-- benchmarks/policy/generate_keyword_header.py.
use xsr.Prelude.{
  List, Text, [], ap, arith, get_elem?, length, refl, some, subst, suc, sym, zero, ℕ, ◌++◌, ◌+◌,
  ◌∙◌, ◌∷◌, ◌≡◌, ◌≤◌,
}
use xsr.Policy.Reader.Written.Appended.{
  append_items, append_items-nil, append_items-item, fields_by-put_slot, items_by-append,
}
use xsr.Policy.Reader.Written.Filled.{
  count_below, count_made, filled_dict, filled_list, first_entry, length-made_cells,
  length-made_cells_below, made_cells, made_cells_below,
}
use xsr.Policy.Reader.Scalar.{parse_scalar}
use xsr.Policy.Reader.Written.{
  Body, RowList, dict_entry, dict_row, fields_of, items_in, list_entry, no_entries, no_rows,
  scalar_entry, scalar_row,
}
use xsr.Policy.Reader.Cells.{
  Cell, Entries, Slot, fields_by, container, dict_cell, items_by, list_cell, scalar, slot_value,
}
use xsr.Policy.Values.{Fields, Value, end, field, Items, dict, list, nil}

-- Containers that stand in a list from the address `b` on.
abbrev pub Holds : List Cell → ℕ → List Cell → Type 0
Holds cells b [] = Unit
Holds cells b (c ∷ part) = (get_elem? cells b ≡ some c) × Holds cells (suc b) part

Holds-append :
    (cells : List Cell) (b n : ℕ) (xs ys : List Cell)
    → n ≡ b + length xs
    → Holds cells b (xs ++ ys)
    → Holds cells b xs × Holds cells n ys
Holds-append cells b n [] ys e h = (tt, subst (λ x. Holds cells x ys) (omega (arith, e)) h)
Holds-append cells b n (x ∷ xs) ys e h =
    let (front, back) = Holds-append cells (suc b) n xs ys (omega (arith, e)) h.1 in
    ((h.0, front), back)

Holds-behind :
    (c : Cell) (cells part : List Cell) (b : ℕ)
    → Holds cells b part
    → Holds (c ∷ cells) (suc b) part
Holds-behind c cells [] b h = tt
Holds-behind c cells (x ∷ part) b h = (h.0, Holds-behind c cells part (suc b) h.1)

pub Holds-all : (cells : List Cell) → Holds cells 0 cells
Holds-all [] = tt
Holds-all (c ∷ cells) = (refl, Holds-behind c cells cells 0 (Holds-all cells))

-- What a container stands for, where it holds the entries or the slots that are read.
module _ (fuel : ℕ) (cells : List Cell) (a : ℕ) where
  dict_slot :
      (entries : Entries) (fields : Fields)
      → get_elem? cells a ≡ some (dict_cell entries)
      → fields_by (slot_value fuel cells) entries ≡ some fields
      → slot_value (suc fuel) cells (container a) ≡ some (dict fields)
  unfolding slot_value
  dict_slot entries fields h e = rw h (rw e refl)

  list_slot :
      (slots : List Slot) (items : Items)
      → get_elem? cells a ≡ some (list_cell slots)
      → items_by (slot_value fuel cells) slots ≡ some items
      → slot_value (suc fuel) cells (container a) ≡ some (list items)
  unfolding slot_value
  list_slot slots items h e = rw h (rw e refl)

scalar_slot : (fuel : ℕ) (cells : List Cell) (v : Value) → slot_value fuel cells (scalar v) ≡ some v
unfolding slot_value
scalar_slot fuel cells v = refl

first_entry-fields :
    (fuel : ℕ) (cells : List Cell) (key raw : Text)
    → fields_by (slot_value fuel cells) (first_entry key raw)
      ≡ some (field key (parse_scalar raw) end)
unfolding fields_by
first_entry-fields fuel cells key raw = rw (scalar_slot fuel cells (parse_scalar raw)) refl

module _ (cells : List Cell) where
  mutual
    unfolding filled_dict filled_list made_cells count_made fields_of fields_by items_by

    pub filled_dict-fields :
        (fuel b : ℕ) (body : Body) (entries : Entries) (fields : Fields)
        → Holds cells b (made_cells b body)
        → count_made body ≤ fuel
        → fields_by (slot_value fuel cells) entries ≡ some fields
        → fields_by (slot_value fuel cells) (filled_dict b entries body)
          ≡ some (fields_of fields body)
    filled_dict-fields fuel b no_entries entries fields holds le h = h
    filled_dict-fields fuel b (scalar_entry key raw rest) entries fields holds le h =
        filled_dict-fields fuel b rest _ _ holds le (
          fields_by-put_slot (slot_value fuel cells) entries fields key (scalar (parse_scalar raw))
            (parse_scalar raw) h (scalar_slot fuel cells (parse_scalar raw)))
    filled_dict-fields zero b (dict_entry key body rest) entries fields holds le h =
        absurd (omega (arith, le))
    filled_dict-fields (suc fuel) b (dict_entry key body rest) entries fields holds le h =
        let parts =
          Holds-append cells (suc b) (suc b + count_made body) (made_cells (suc b) body)
            (made_cells (suc b + count_made body) rest)
            (omega (arith, length-made_cells (suc b) body)) holds.1 in
        let inner = filled_dict-fields fuel (suc b) body [] end parts.0 (omega (arith, le)) refl in
        filled_dict-fields (suc fuel) (suc b + count_made body) rest _ _ parts.1 (omega (arith, le))
          (fields_by-put_slot (slot_value (suc fuel) cells) entries fields key (container b)
            (dict (fields_of end body)) h
            (dict_slot fuel cells b (filled_dict (suc b) [] body) (fields_of end body) holds.0
              inner))
    filled_dict-fields zero b (list_entry key rows rest) entries fields holds le h =
        absurd (omega (arith, le))
    filled_dict-fields (suc fuel) b (list_entry key rows rest) entries fields holds le h =
        let parts =
          Holds-append cells (suc b) (suc b + count_below rows) (made_cells_below (suc b) rows)
            (made_cells (suc b + count_below rows) rest)
            (omega (arith, length-made_cells_below (suc b) rows)) holds.1 in
        let inner = filled_list-items fuel (suc b) rows [] nil parts.0 (omega (arith, le)) refl in
        filled_dict-fields (suc fuel) (suc b + count_below rows) rest _ _ parts.1
          (omega (arith, le))
          (fields_by-put_slot (slot_value (suc fuel) cells) entries fields key (container b)
            (list (items_in rows)) h
            (list_slot fuel cells b (filled_list (suc b) [] rows) (items_in rows) holds.0 inner))

    filled_list-items :
        (fuel b : ℕ) (rows : RowList) (slots : List Slot) (items : Items)
        → Holds cells b (made_cells_below b rows)
        → count_below rows ≤ fuel
        → items_by (slot_value fuel cells) slots ≡ some items
        → items_by (slot_value fuel cells) (filled_list b slots rows)
          ≡ some (append_items items (items_in rows))
    filled_list-items fuel b no_rows slots items holds le h =
        h ∙ ap some (sym (append_items-nil items))
    filled_list-items fuel b (scalar_row raw rows) slots items holds le h =
        filled_list-items fuel b rows _ _ holds le (
          items_by-append (slot_value fuel cells) slots items (scalar (parse_scalar raw))
            (parse_scalar raw) h (scalar_slot fuel cells (parse_scalar raw)))
        ∙ ap some (append_items-item items (items_in rows) (parse_scalar raw))
    filled_list-items zero b (dict_row key raw body rows) slots items holds le h =
        absurd (omega (arith, le))
    filled_list-items (suc fuel) b (dict_row key raw body rows) slots items holds le h =
        let parts =
          Holds-append cells (suc b) (suc b + count_made body) (made_cells (suc b) body)
            (made_cells_below (suc b + count_made body) rows)
            (omega (arith, length-made_cells (suc b) body)) holds.1 in
        let first = field key (parse_scalar raw) end in
        let inner =
          filled_dict-fields fuel (suc b) body (first_entry key raw) first parts.0
            (omega (arith, le)) (first_entry-fields fuel cells key raw) in
        filled_list-items (suc fuel) (suc b + count_made body) rows _ _ parts.1 (omega (arith, le))
          (items_by-append (slot_value (suc fuel) cells) slots items (container b)
            (dict (fields_of first body)) h
            (dict_slot fuel cells b (filled_dict (suc b) (first_entry key raw) body)
              (fields_of first body) holds.0 inner))
        ∙ ap some (append_items-item items (items_in rows) (dict (fields_of first body)))
