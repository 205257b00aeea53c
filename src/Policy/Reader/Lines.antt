-- ===== src/Policy/Reader/Lines.antt =====
-- The loop of `load_policy` of benchmarks/policy/generate_keyword_header.py over the lines of a file.
pub mod Stack
pub mod Kept
pub mod Steps
pub mod Comments
pub mod Decorated
use xsr.Prelude.{
  List, Option, Result, Text, [], codes, contains, drop, err, get_elem?, if◌then◌else◌, leb_ℤ,
  length, negsuc, non_empty, none, ok, pos, some, starts_with, ℕ, ℤ, ◌++◌, ◌+◌, ◌==◌, ◌∷◌, ◌>>=◌,
}
use xsr.Fields.{prepend}
use xsr.Policy.Reader.Cells.{
  Cell, Entries, Slot, container, dict_cell, list_cell, put_slot, scalar, set_cell,
}
use xsr.Policy.Reader.Scalar.{parse_scalar}
use xsr.Policy.Values.{is_space, strip, strip_right}

-- LIST_KEYS
abbrev pub list_keys : List Text
list_keys =
    codes "backend_refs"
    ∷ codes "conditions"
    ∷ codes "decisions"
    ∷ codes "keywords"
    ∷ codes "listeners"
    ∷ codes "modelCards"
    ∷ codes "models"
    ∷ codes "modelRefs"
    ∷ codes "routes"
    ∷ []

-- The three `raise` statements; `stack[-1]` of an empty stack; an address without a container, which
-- Python does not have.
pub data ReadError : Type 0 where
  item_without_list entry_without_dict cannot_parse empty_stack no_container : ReadError

-- The containers, and the stack of indentations and containers, its top first.
pub record Reader : Type 0 where
  pub cells : List Cell
  pub stack : List (ℤ × ℕ)

abbrev pub root_only : Reader
root_only = record { cells = dict_cell [] ∷ []; stack = (negsuc 0, 0) ∷ [] }

-- while stack and indent <= stack[-1][0]: stack.pop()
unfoldable pub pop : ℕ → List (ℤ × ℕ) → List (ℤ × ℕ)
pop indent [] = []
pop indent ((i, a) ∷ stack) =
    let popped = pop indent stack in if leb_ℤ (pos indent) i then popped else (i, a) ∷ stack

-- text.split(mark, 1)
unfoldable pub split_at : ℕ → Text → Option (Text × Text)
split_at mark [] = none
split_at mark (c ∷ cs) =
    let later = split_at mark cs in if c == mark then some ([], cs) else prepend c later

abbrev pub before_mark : Text → Option (Text × Text) → Text
before_mark line none = line
before_mark line (some (front, rest)) = front

-- A line without its comment and the blanks at its end.
abbrev pub content_of : Text → Text
content_of raw = strip_right is_space (before_mark raw (split_at b'#' raw))

-- len(line) - len(line.lstrip(" "))
unfoldable pub indent_of : Text → ℕ
indent_of [] = 0
indent_of (c ∷ cs) = let later = indent_of cs in if c == b' ' then later + 1 else 0

-- A container of its own, which the parent has got as its last part.
abbrev pub push_cell : Reader → ℕ → ℕ → Cell → Cell → Reader
push_cell r indent parent filled cell = record {
  cells = set_cell r.cells parent filled ++ cell ∷ [];
  stack = (pos indent, length r.cells) ∷ r.stack;
}

abbrev pub fill : Reader → ℕ → Cell → Reader
fill r parent filled = record r { cells = set_cell r.cells parent filled }

-- "- item" and "- key: value", below a list
unfoldable pub add_item : Reader → ℕ → ℕ → Text → Option (Text × Text) → List Slot → Reader
unfolding set_cell parse_scalar
add_item r indent parent item_text none slots =
    fill r parent (list_cell (slots ++ scalar (parse_scalar item_text) ∷ []))
add_item r indent parent item_text (some (key, value)) slots =
    push_cell r indent parent (list_cell (slots ++ container (length r.cells) ∷ []))
      (dict_cell ((key, scalar (parse_scalar value)) ∷ []))

abbrev pub empty_for : Text → Cell
empty_for key = if contains list_keys key then list_cell [] else dict_cell []

-- "key: value" and "key:", below a dict
unfoldable pub add_entry : Reader → ℕ → ℕ → Text → Text → Entries → Reader
unfolding set_cell put_slot parse_scalar contains
add_entry r indent parent key value entries =
    if non_empty value
    then fill r parent (dict_cell (put_slot entries key (scalar (parse_scalar value))))
    else push_cell r indent parent (dict_cell (put_slot entries key (container (length r.cells))))
        (empty_for key)

abbrev pub item_line : Reader → ℕ → ℕ → Text → Option Cell → Result ReadError Reader
item_line r indent parent item_text none = err no_container
item_line r indent parent item_text (some (dict_cell entries)) = err item_without_list
item_line r indent parent item_text (some (list_cell slots)) =
    ok (add_item r indent parent item_text (split_at b':' item_text) slots)

abbrev pub entry_line :
    Reader → ℕ → ℕ → Option (Text × Text) → Option Cell → Result ReadError Reader
entry_line r indent parent none cell = err cannot_parse
entry_line r indent parent (some (key, value)) none = err no_container
entry_line r indent parent (some (key, value)) (some (list_cell slots)) = err entry_without_dict
entry_line r indent parent (some (key, value)) (some (dict_cell entries)) =
    ok (add_entry r indent parent key (strip is_space value) entries)

-- What a line that is not blank does, below the parent that the stack has on top.
abbrev pub below_top : Reader → ℕ → Text → List (ℤ × ℕ) → Result ReadError Reader
below_top r indent stripped [] = err empty_stack
below_top r indent stripped ((i, parent) ∷ stack) =
    if starts_with stripped (codes "- ")
    then item_line r indent parent (drop 2 stripped) (get_elem? r.cells parent)
    else entry_line r indent parent (split_at b':' stripped) (get_elem? r.cells parent)

abbrev pub popped : Reader → ℕ → Reader
popped r indent = record r { stack = pop indent r.stack }

-- One line of the file.
unfoldable pub load_line : Reader → Text → Result ReadError Reader
unfolding pop split_at indent_of add_item add_entry strip is_space starts_with
load_line r raw =
    let line = content_of raw in
    let indent = indent_of line in
    if non_empty (strip is_space line)
    then below_top (popped r indent) indent (strip is_space line) (pop indent r.stack)
    else ok r

unfoldable pub load_lines : Reader → List Text → Result ReadError Reader
unfolding load_line
load_lines r [] = ok r
load_lines r (line ∷ lines) = do next ← load_line r line; load_lines next lines
