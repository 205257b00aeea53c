-- ===== src/Policy/Reader/Cells.antt =====
-- The dicts and lists that `load_policy` of benchmarks/policy/generate_keyword_header.py fills: they are
-- mutated while the stack and their parents both refer to them, so they stand in cells with addresses.
pub mod Store
pub mod Writes
use xsr.Prelude.{
  List, Option, Text, [], get_elem?, if◌then◌else◌, none, some, suc, text_eq, zero, ℕ, ◌∷◌,
}
use xsr.Policy.Values.{Fields, Items, Value, dict, end, field, item, list, nil}

-- What a container holds: a value, or the address of a container.
pub data Slot : Type 0 where
  scalar : Value → Slot
  container : ℕ → Slot

abbrev pub Entries : Type 0
Entries = List (Text × Slot)

pub data Cell : Type 0 where
  dict_cell : Entries → Cell
  list_cell : List Slot → Cell

-- parent[key] = slot
unfoldable pub put_slot : Entries → Text → Slot → Entries
put_slot [] key slot = (key, slot) ∷ []
put_slot ((k, s) ∷ entries) key slot =
    if text_eq k key then (k, slot) ∷ entries else (k, s) ∷ put_slot entries key slot

unfoldable pub set_cell : List Cell → ℕ → Cell → List Cell
set_cell [] a cell = []
set_cell (c ∷ cells) zero cell = cell ∷ cells
set_cell (c ∷ cells) (suc a) cell = c ∷ set_cell cells a cell

abbrev pub cons_field : Text → Option Value → Option Fields → Option Fields
cons_field key (some v) (some fields) = some (field key v fields)
cons_field key _ _ = none

unfoldable pub fields_by : (Slot → Option Value) → Entries → Option Fields
fields_by f [] = some end
fields_by f ((key, slot) ∷ entries) = cons_field key (f slot) (fields_by f entries)

abbrev pub cons_item : Option Value → Option Items → Option Items
cons_item (some v) (some items) = some (item v items)
cons_item _ _ = none

unfoldable pub items_by : (Slot → Option Value) → List Slot → Option Items
items_by f [] = some nil
items_by f (slot ∷ slots) = cons_item (f slot) (items_by f slots)

abbrev pub some_dict : Option Fields → Option Value
some_dict none = none
some_dict (some fields) = some (dict fields)

abbrev pub some_list : Option Items → Option Value
some_list none = none
some_list (some items) = some (list items)

abbrev pub value_by : (Slot → Option Value) → Option Cell → Option Value
value_by f none = none
value_by f (some (dict_cell entries)) = some_dict (fields_by f entries)
value_by f (some (list_cell slots)) = some_list (items_by f slots)

-- The value that a slot stands for. A container refers to later ones only, so their number is enough
-- fuel.
unfoldable pub slot_value : ℕ → List Cell → Slot → Option Value
unfolding fields_by items_by
slot_value fuel cells (scalar v) = some v
slot_value zero cells (container a) = none
slot_value (suc fuel) cells (container a) = value_by (slot_value fuel cells) (get_elem? cells a)
