-- ===== src/Policy/Reader/Lines/Steps.antt =====
-- What each line of a policy keeps of the reader, and which errors it has, in `load_policy` of
-- benchmarks/policy/generate_keyword_header.py.
use xsr.Prelude.{
  All-append, Bool, Bool-cases, List, Option, Result, Text, [], arith, codes, contains, drop, err,
  false, get_elem?, inl, inr, length, length-map, non_empty, none, ok, refl, some, starts_with,
  subst, suc, zero, ℕ, ℤ, ◌++◌, ◌<◌, ◌>>=◌, ◌∷◌, ◌≡◌, ◌≢◌,
}
use xsr.Policy.Reader.Lines.Kept.{IsWellFormed, fill-IsWellFormed, push_cell-IsWellFormed}
use xsr.Policy.Reader.Shape.{parse_scalar-IsFlat}
use xsr.Policy.Reader.Scalar.{parse_scalar}
use xsr.Policy.Values.{is_space, strip}
use xsr.Policy.Reader.Cells.{Cell, Entries, Slot, container, dict_cell, list_cell, put_slot, scalar}
use xsr.Policy.Reader.Lines.{
  ReadError, Reader, cannot_parse, empty_stack, entry_without_dict, item_without_list, no_container,
  add_entry, add_item, below_top, content_of, empty_for, entry_line, indent_of, item_line,
  list_keys, load_line, load_lines, pop, popped, split_at,
}
use xsr.Policy.Reader.Lines.Stack.{Below, Nested, pop-Nested, top_lt}
use xsr.Policy.Reader.Cells.Store.{
  CellFits, is_list, kinds, CellFits, CellFits-more, CellsFit-at, SlotFits, get_elem?-last,
  put_slot-EntriesFit,
}

-- The three `raise` statements.
abbrev pub IsRaised : ReadError → Type 0
IsRaised item_without_list = Unit
IsRaised entry_without_dict = Unit
IsRaised cannot_parse = Unit
IsRaised empty_stack = ⊥
IsRaised no_container = ⊥

abbrev pub IsStep : Result ReadError Reader → Type 0
IsStep (ok r) = IsWellFormed r
IsStep (err e) = IsRaised e

SlotFits-last :
    (r : Reader) (parent : ℕ) (cell : Cell)
    → parent < length r.cells
    → SlotFits
        (kinds r.cells ++ is_list cell ∷ [])
        parent
        (is_list cell)
        (container (length r.cells))
SlotFits-last r parent cell h = (
  h,
  subst (λ n. get_elem? (kinds r.cells ++ is_list cell ∷ []) n ≡ some (is_list cell))
      (length-map {0, 0} r.cells is_list) (get_elem?-last (kinds r.cells) (is_list cell)),
)

is_list-empty_for : (key : Text) → is_list (empty_for key) ≡ contains list_keys key
is_list-empty_for key = elim (Bool-cases (contains list_keys key)) [
  | inl e ↦ rw e refl
  | inr e ↦ rw e refl
]

empty_for-CellFits : (ks : List Bool) (a : ℕ) (key : Text) → CellFits ks a (empty_for key)
empty_for-CellFits ks a key = elim (Bool-cases (contains list_keys key)) [
  | inl e ↦ rw e tt
  | inr e ↦ rw e tt
]

-- A line below the parent that the stack has on top.
module _ (r : Reader) (indent parent : ℕ) (ok_r : IsWellFormed r) (below : Below indent r.stack)
    (inside : parent < length r.cells) where
  add_item-IsWellFormed :
      (item_text : Text) (split : Option (Text × Text)) (slots : List Slot)
      → get_elem? r.cells parent ≡ some (list_cell slots)
      → IsWellFormed (add_item r indent parent item_text split slots)
  unfolding add_item contains
  add_item-IsWellFormed item_text none slots found =
      fill-IsWellFormed r parent (list_cell slots)
        (list_cell (slots ++ scalar (parse_scalar item_text) ∷ [])) ok_r found refl
        (All-append (SlotFits (kinds r.cells) parent false) slots
          (scalar (parse_scalar item_text) ∷ [])
          (CellsFit-at (kinds r.cells) 0 r.cells parent parent (list_cell slots) (omega arith)
            ok_r.cells_fit found)
          (parse_scalar-IsFlat item_text, tt))
  add_item-IsWellFormed item_text (some (key, value)) slots found =
      let new = dict_cell ((key, scalar (parse_scalar value)) ∷ []) in
      push_cell-IsWellFormed r parent (list_cell slots)
        (list_cell (slots ++ container (length r.cells) ∷ [])) ok_r found refl indent new below
        (All-append (SlotFits (kinds r.cells ++ false ∷ []) parent false) slots
          (container (length r.cells) ∷ [])
          (CellFits-more (kinds r.cells) false parent (list_cell slots) (
            CellsFit-at (kinds r.cells) 0 r.cells parent parent (list_cell slots) (omega arith)
              ok_r.cells_fit found))
          (SlotFits-last r parent new inside, tt))
        (parse_scalar-IsFlat value, refl, tt)

  add_entry-IsWellFormed :
      (key value : Text) (entries : Entries)
      → get_elem? r.cells parent ≡ some (dict_cell entries)
      → IsWellFormed (add_entry r indent parent key value entries)
  unfolding add_entry
  add_entry-IsWellFormed key value entries found =
      let fits =
        CellsFit-at (kinds r.cells) 0 r.cells parent parent (dict_cell entries) (omega arith)
          ok_r.cells_fit found in
      elim (Bool-cases (non_empty value)) [
        | inl e ↦ rw e (
            fill-IsWellFormed r parent (dict_cell entries)
              (dict_cell (put_slot entries key (scalar (parse_scalar value)))) ok_r found refl
              (put_slot-EntriesFit (kinds r.cells) parent entries key (scalar (parse_scalar value))
                fits (parse_scalar-IsFlat value)))
        | inr e ↦ rw e (
            push_cell-IsWellFormed r parent (dict_cell entries)
              (dict_cell (put_slot entries key (container (length r.cells)))) ok_r found refl indent
              (empty_for key) below
              (put_slot-EntriesFit (kinds r.cells ++ is_list (empty_for key) ∷ []) parent entries
                key (container (length r.cells))
                (CellFits-more (kinds r.cells) (is_list (empty_for key)) parent (dict_cell entries)
                  fits)
                (subst
                  (λ b.
                    SlotFits (kinds r.cells ++ is_list (empty_for key) ∷ []) parent b
                      (container (length r.cells)))
                  (is_list-empty_for key) (SlotFits-last r parent (empty_for key) inside)))
              (empty_for-CellFits (kinds r.cells ++ is_list (empty_for key) ∷ []) (length r.cells)
                key))
      ]

get_elem?-inside : {A : Type 0} (xs : List A) (i : ℕ) → i < length xs → get_elem? xs i ≢ none
get_elem?-inside [] i h e = absurd (omega (arith, h))
get_elem?-inside (x ∷ xs) zero h e = cc
get_elem?-inside (x ∷ xs) (suc i) h e = get_elem?-inside xs i (omega (arith, h)) e

module _ (r : Reader) (indent parent : ℕ) (ok_r : IsWellFormed r) (below : Below indent r.stack)
    (inside : parent < length r.cells) where
  item_line-IsStep :
      (item_text : Text) (cell : Option Cell)
      → get_elem? r.cells parent ≡ cell
      → IsStep (item_line r indent parent item_text cell)
  item_line-IsStep item_text none e = absurd (get_elem?-inside r.cells parent inside e)
  item_line-IsStep item_text (some (dict_cell entries)) e = tt
  item_line-IsStep item_text (some (list_cell slots)) e =
      add_item-IsWellFormed r indent parent ok_r below inside item_text _ slots e

  entry_line-IsStep :
      (split : Option (Text × Text)) (cell : Option Cell)
      → get_elem? r.cells parent ≡ cell
      → IsStep (entry_line r indent parent split cell)
  entry_line-IsStep none cell e = tt
  entry_line-IsStep (some (key, value)) none e = absurd (get_elem?-inside r.cells parent inside e)
  entry_line-IsStep (some (key, value)) (some (list_cell slots)) e = tt
  entry_line-IsStep (some (key, value)) (some (dict_cell entries)) e =
      add_entry-IsWellFormed r indent parent ok_r below inside key _ entries e

below_top-IsStep :
    (r : Reader) (indent : ℕ) (stripped : Text) (stack : List (ℤ × ℕ))
    → r.stack ≡ stack
    → IsWellFormed r
    → Nested (length r.cells) stack
    → Below indent stack
    → IsStep (below_top r indent stripped stack)
below_top-IsStep r indent stripped [] e ok_r nested below = absurd nested
below_top-IsStep r indent stripped ((i, parent) ∷ stack) e ok_r nested below =
    let inside = top_lt (length r.cells) parent i stack nested in
    let under : Below indent r.stack = rw e below in
    elim (Bool-cases (starts_with stripped (codes "- "))) [
      | inl bullet ↦ rw bullet (
          item_line-IsStep r indent parent ok_r under inside (drop 2 stripped)
            (get_elem? r.cells parent) refl)
      | inr plain ↦ rw plain (
          entry_line-IsStep r indent parent ok_r under inside (split_at b':' stripped)
            (get_elem? r.cells parent) refl)
    ]

pub load_line-IsStep : (r : Reader) (raw : Text) → IsWellFormed r → IsStep (load_line r raw)
unfolding load_line
load_line-IsStep r raw ok_r =
    let line = content_of raw in
    let indent = indent_of line in
    let kept = pop-Nested (length r.cells) indent r.stack ok_r.nested in
    elim (Bool-cases (non_empty (strip is_space line))) [
      | inl filled ↦ rw filled (
          below_top-IsStep (popped r indent) indent (strip is_space line) (pop indent r.stack) refl
            (record { cells_fit = ok_r.cells_fit; root = ok_r.root; nested = kept.0 }) kept.0
            kept.1)
      | inr blank ↦ rw blank ok_r
    ]

IsStep-bind :
    (m : Result ReadError Reader) (f : Reader → Result ReadError Reader)
    → IsStep m
    → ((r : Reader) → IsWellFormed r → IsStep (f r))
    → IsStep (m >>= f)
unfolding ◌>>=◌
IsStep-bind (ok r) f h k = k r h
IsStep-bind (err e) f h k = h

pub load_lines-IsStep :
    (r : Reader) (lines : List Text) → IsWellFormed r → IsStep (load_lines r lines)
unfolding load_lines
load_lines-IsStep r [] ok_r = ok_r
load_lines-IsStep r (line ∷ lines) ok_r =
    IsStep-bind (load_line r line) (λ next. load_lines next lines) (load_line-IsStep r line ok_r)
      (λ next kept. load_lines-IsStep next lines kept)
