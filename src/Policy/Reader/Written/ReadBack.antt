-- ===== src/Policy/Reader/Written/ReadBack.antt =====
-- The lines of a written policy, read by `load_policy` of benchmarks/policy/generate_keyword_header.py.
use xsr.Prelude.{
  List, Text, [], ap, arith, codes, contains, false, has_char, length, refl, starts_with, suc, sym,
  true, ℕ, ℤ, ◌++◌, ◌+◌, ◌<◌, ◌∙◌, ◌∷◌, ◌≡◌,
}
use xsr.Policy.Reader.Cells.{Cell, Entries, Slot, container, dict_cell, list_cell, put_slot, scalar}
use xsr.Policy.Reader.Written.Children.{Opens, Produces-child}
use xsr.Policy.Reader.Written.Contents.{
  IsContent, IsRaw-IsContent, entry_text-IsContent, has_char-Lacks, header_text-IsContent,
  load_line-content, no_row, row_text-IsContent, split_at-key, split_at-none, strip-content,
}
use xsr.Policy.Reader.Written.Filled.{
  first_entry, count_below, count_made, filled_dict, filled_list, length-made_cells,
  length-made_cells_below, made_cells, made_cells_below,
}
use xsr.Policy.Reader.Scalar.Fuel.{scalar_fuel_enough}
use xsr.Policy.Reader.Lines.{
  Reader, add_entry, add_item, below_top, empty_for, load_line, list_keys,
}
use xsr.Policy.Reader.Written.Loading.{Changes, Stands, Produces, Produces-line, Produces-none}
use xsr.Policy.Reader.Scalar.{parse_scalar, scalar_fuel}
use xsr.Policy.Reader.Written.{
  RowList, IsKey, IsRaw, entry_text, header_text, indented, row_text, Body, BodyIsWritten,
  RowsAreWritten, body_lines, dict_entry, dict_row, list_entry, no_entries, no_rows, row_lines,
  scalar_entry, scalar_row,
}
use xsr.Policy.Values.{is_space, strip}

-- A line of a content, in the container that it belongs to.
reads_in :
    (n : ℕ) (t : Text) (cell : Cell) (r : Reader) (i : ℤ) (a : ℕ) (rest : List (ℤ × ℕ))
    → IsContent t
    → Stands n cell r i a rest
    → load_line r (indented n t)
      ≡ below_top (record r { stack = (i, a) ∷ rest }) n t ((i, a) ∷ rest)
reads_in n t cell r i a rest content at =
    load_line-content r n t content ∙ ap (λ s. below_top (record r { stack = s }) n t s) at.on_top

raw_value : (raw : Text) → IsRaw raw → strip is_space (codes " " ++ raw) ≡ raw
raw_value raw h = strip-content 1 raw (IsRaw-IsContent raw h)

scalar_entry-Changes :
    (n : ℕ) (key raw : Text) (entries : Entries)
    → IsKey key
    → IsRaw raw
    → Changes n
        (indented n (entry_text key raw))
        (dict_cell entries)
        (dict_cell (put_slot entries key (scalar (parse_scalar raw))))
unfolding add_entry
scalar_entry-Changes n key raw entries k v r i a rest at =
    reads_in n (entry_text key raw) (dict_cell entries) r i a rest
      (entry_text-IsContent key raw k v) at
    ∙ rw (no_row key (codes " " ++ raw) k) (
        rw (split_at-key key (codes " " ++ raw) k)
          (rw at.holds (rw (raw_value raw v) (rw v.0 refl))))

header-Opens :
    (n : ℕ) (key : Text) (entries : Entries)
    → IsKey key
    → Opens n
        (indented n (header_text key))
        (dict_cell entries)
        (λ b. dict_cell (put_slot entries key (container b)))
        (empty_for key)
unfolding add_entry strip
header-Opens n key entries k r i a rest at =
    reads_in n (header_text key) (dict_cell entries) r i a rest (header_text-IsContent key k) at
    ∙ rw (no_row key [] k) (rw (split_at-key key [] k) (rw at.holds refl))

scalar_row-Changes :
    (n : ℕ) (raw : Text) (slots : List Slot)
    → IsRaw raw
    → has_char b':' raw ≡ false
    → Changes n
        (indented n (row_text raw))
        (list_cell slots)
        (list_cell (slots ++ scalar (parse_scalar raw) ∷ []))
unfolding add_item starts_with
scalar_row-Changes n raw slots v no_colon r i a rest at =
    reads_in n (row_text raw) (list_cell slots) r i a rest
      (row_text-IsContent raw (IsRaw-IsContent raw v)) at
    ∙ rw at.holds (rw (split_at-none b':' raw (has_char-Lacks b':' raw no_colon)) refl)

scalar_fuel-blank :
    (fuel : ℕ) (raw : Text) → scalar_fuel (suc fuel) (b' ' ∷ raw) ≡ scalar_fuel (suc fuel) raw
unfolding scalar_fuel
scalar_fuel-blank fuel raw = refl

parse_scalar-blank : (raw : Text) → parse_scalar (codes " " ++ raw) ≡ parse_scalar raw
parse_scalar-blank raw =
    sym (scalar_fuel_enough (suc (length raw + 1)) (b' ' ∷ raw) (omega arith))
    ∙ scalar_fuel-blank (length raw + 1) raw
    ∙ scalar_fuel_enough (suc (length raw + 1)) raw (omega arith)

dict_row-Opens :
    (n : ℕ) (key raw : Text) (slots : List Slot)
    → IsKey key
    → IsRaw raw
    → Opens n
        (indented n (row_text (entry_text key raw)))
        (list_cell slots)
        (λ b. list_cell (slots ++ container b ∷ []))
        (dict_cell (first_entry key raw))
unfolding add_item starts_with
dict_row-Opens n key raw slots k v r i a rest at =
    reads_in n (row_text (entry_text key raw)) (list_cell slots) r i a rest
      (row_text-IsContent (entry_text key raw) (entry_text-IsContent key raw k v)) at
    ∙ rw at.holds (rw (split_at-key key (codes " " ++ raw) k) (rw (parse_scalar-blank raw) refl))

-- The header of a dict, and that of a list.
dict_header-Opens :
    (n : ℕ) (key : Text) (entries : Entries)
    → IsKey key
    → contains list_keys key ≡ false
    → Opens n
        (indented n (header_text key))
        (dict_cell entries)
        (λ b. dict_cell (put_slot entries key (container b)))
        (dict_cell [])
dict_header-Opens n key entries k unlisted r i a rest at =
    header-Opens n key entries k r i a rest at ∙ rw unlisted refl

list_header-Opens :
    (n : ℕ) (key : Text) (entries : Entries)
    → IsKey key
    → contains list_keys key ≡ true
    → Opens n
        (indented n (header_text key))
        (dict_cell entries)
        (λ b. dict_cell (put_slot entries key (container b)))
        (list_cell [])
list_header-Opens n key entries k is_listed r i a rest at =
    header-Opens n key entries k r i a rest at ∙ rw is_listed refl

module _ (width : ℕ) (wide : 0 < width) where
  mutual
    unfolding body_lines BodyIsWritten filled_dict filled_list made_cells

    pub body_lines-Produces :
        (n : ℕ) (body : Body) (entries : Entries)
        → BodyIsWritten body
        → Produces n
            (body_lines width n body)
            (dict_cell entries)
            (λ b. dict_cell (filled_dict b entries body))
            (λ b. made_cells b body)
    body_lines-Produces n no_entries entries w = Produces-none n (dict_cell entries)
    body_lines-Produces n (scalar_entry key raw rest) entries w =
        let next = put_slot entries key (scalar (parse_scalar raw)) in
        Produces-line n (indented n (entry_text key raw)) (body_lines width n rest)
          (dict_cell entries) (dict_cell next) (λ b. dict_cell (filled_dict b next rest))
          (λ b. made_cells b rest) (scalar_entry-Changes n key raw entries w.0 w.1)
          (body_lines-Produces n rest next w.2)
    body_lines-Produces n (dict_entry key body rest) entries w =
        let next = λ (b : ℕ). put_slot entries key (container b) in
        Produces-child n (n + width) (count_made body) (indented n (header_text key))
          (body_lines width (n + width) body) (body_lines width n rest) (dict_cell entries)
          (dict_cell []) (λ b. dict_cell (next b)) (λ b. dict_cell (filled_dict b [] body))
          (λ b. made_cells b body) (λ b size. dict_cell (filled_dict size (next b) rest))
          (λ b size. made_cells size rest) (omega (arith, wide))
          (dict_header-Opens n key entries w.0 w.1) (body_lines-Produces (n + width) body [] w.2)
          (λ b. length-made_cells b body) (λ b. body_lines-Produces n rest (next b) w.3)
    body_lines-Produces n (list_entry key rows rest) entries w =
        let next = λ (b : ℕ). put_slot entries key (container b) in
        Produces-child n (n + width) (count_below rows) (indented n (header_text key))
          (row_lines width (n + width) rows) (body_lines width n rest) (dict_cell entries)
          (list_cell []) (λ b. dict_cell (next b)) (λ b. list_cell (filled_list b [] rows))
          (λ b. made_cells_below b rows) (λ b size. dict_cell (filled_dict size (next b) rest))
          (λ b size. made_cells size rest) (omega (arith, wide))
          (list_header-Opens n key entries w.0 w.1) (row_lines-Produces (n + width) rows [] w.2)
          (λ b. length-made_cells_below b rows) (λ b. body_lines-Produces n rest (next b) w.3)

    row_lines-Produces :
        (n : ℕ) (rows : RowList) (slots : List Slot)
        → RowsAreWritten rows
        → Produces n
            (row_lines width n rows)
            (list_cell slots)
            (λ b. list_cell (filled_list b slots rows))
            (λ b. made_cells_below b rows)
    row_lines-Produces n no_rows slots w = Produces-none n (list_cell slots)
    row_lines-Produces n (scalar_row raw rows) slots w =
        let next = slots ++ scalar (parse_scalar raw) ∷ [] in
        Produces-line n (indented n (row_text raw)) (row_lines width n rows) (list_cell slots)
          (list_cell next) (λ b. list_cell (filled_list b next rows)) (λ b. made_cells_below b rows)
          (scalar_row-Changes n raw slots w.0 w.1) (row_lines-Produces n rows next w.2)
    row_lines-Produces n (dict_row key raw body rows) slots w =
        let next = λ (b : ℕ). slots ++ container b ∷ [] in
        Produces-child n (n + width) (count_made body) (indented n (row_text (entry_text key raw)))
          (body_lines width (n + width) body) (row_lines width n rows) (list_cell slots)
          (dict_cell (first_entry key raw)) (λ b. list_cell (next b))
          (λ b. dict_cell (filled_dict b (first_entry key raw) body)) (λ b. made_cells b body)
          (λ b size. list_cell (filled_list size (next b) rows))
          (λ b size. made_cells_below size rows) (omega (arith, wide))
          (dict_row-Opens n key raw slots w.0 w.1)
          (body_lines-Produces (n + width) body (first_entry key raw) w.2)
          (λ b. length-made_cells b body) (λ b. row_lines-Produces n rows (next b) w.3)
