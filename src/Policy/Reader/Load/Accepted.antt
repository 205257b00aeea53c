-- ===== src/Policy/Reader/Load/Accepted.antt =====
-- What `load_policy` of benchmarks/policy/generate_keyword_header.py returns and raises.
use xsr.Prelude.{
  All, Bool, List, Option, Result, Text, [], ap, arith, contains, err, false, get_elem?, length, ok,
  refl, some, subst, suc, sym, true, zero, ℕ, ◌&&◌, ◌+◌, ◌<◌, ◌>>=◌, ◌∷◌, ◌≡◌, ◌≤◌,
}
use xsr.Policy.Reader.Cells.{
  Cell, Entries, Slot, container, dict_cell, fields_by, items_by, list_cell, scalar, value_by,
  slot_value,
}
use xsr.Policy.Reader.Lines.{ReadError, Reader, list_keys, load_lines, root_only}
use xsr.Policy.Reader.Load.{file_lines, load_yaml, policy_of}
use xsr.Policy.Reader.Shape.{FieldsHaveShape, HasShape, is_dict, ItemsHaveShape, field_keys}
use xsr.Policy.Reader.Lines.Steps.{IsRaised, IsStep, load_lines-IsStep}
use xsr.Policy.Reader.Lines.Kept.{IsWellFormed}
use xsr.Policy.Reader.Cells.Store.{
  CellFits, CellsFit, CellsFit-at, EntriesFit, SlotFits, entry_keys, is_list, kinds,
}
use xsr.Policy.Values.{Fields, Items, Value, dict, end, field, item, list, nil}

-- A list or a dict, as it is asked for.
abbrev OfKind : Bool → Value → Type 0
OfKind true v = (items : Items) × (v ≡ list items) × ItemsHaveShape items
OfKind false v = (fields : Fields) × (v ≡ dict fields) × FieldsHaveShape fields

-- The value that stands in a slot.
abbrev Stands : Bool → Value → Type 0
Stands wanted v = HasShape v × ((wanted && is_dict v) ≡ false)

OfKind-Stands : (wanted : Bool) (v : Value) → OfKind wanted v → Stands wanted v
unfolding HasShape
OfKind-Stands true v (items, e, h) = subst (λ x. Stands true x) (sym e) (h, refl)
OfKind-Stands false v (fields, e, h) = subst (λ x. Stands false x) (sym e) (h, refl)

module _ (f : Slot → Option Value) (ks : List Bool) (a : ℕ)
    (reads : (wanted : Bool) (slot : Slot)
      → SlotFits ks a wanted slot
      → (v : Value) × (f slot ≡ some v) × Stands wanted v) where
  fields_by-shape :
      (entries : Entries)
      → EntriesFit ks a entries
      → (fields : Fields) × (fields_by f entries ≡ some fields)
        × (field_keys fields ≡ entry_keys entries)
        × FieldsHaveShape fields
  unfolding fields_by FieldsHaveShape
  fields_by-shape [] h = (end, refl, refl, tt)
  fields_by-shape ((key, slot) ∷ entries) h =
      let (v, is_v, stands) = reads (contains list_keys key) slot h.0 in
      let (fields, is_fields, same, shape) = fields_by-shape entries h.2 in
      (
        field key v fields,
        rw is_v (rw is_fields refl),
        ap (λ ks. key ∷ ks) same,
        (stands.1, rw same h.1, stands.0, shape),
      )

  items_by-shape :
      (slots : List Slot)
      → All (SlotFits ks a false) slots
      → (items : Items) × (items_by f slots ≡ some items) × ItemsHaveShape items
  unfolding items_by ItemsHaveShape
  items_by-shape [] h = (nil, refl, tt)
  items_by-shape (slot ∷ slots) h =
      let (v, is_v, stands) = reads false slot h.0 in
      let (items, is_items, shape) = items_by-shape slots h.1 in
      (item v items, rw is_v (rw is_items refl), (stands.0, shape))

  value_by-OfKind :
      (cell : Cell)
      → CellFits ks a cell
      → (v : Value) × (value_by f (some cell) ≡ some v) × OfKind (is_list cell) v
  value_by-OfKind (dict_cell entries) h =
      let (fields, e, same, shape) = fields_by-shape entries h in
      (dict fields, rw e refl, (fields, refl, shape))
  value_by-OfKind (list_cell slots) h =
      let (items, e, shape) = items_by-shape slots h in
      (list items, rw e refl, (items, refl, shape))

kinds-at :
    (cells : List Cell) (a : ℕ) (k : Bool)
    → get_elem? (kinds cells) a ≡ some k
    → (cell : Cell) × (get_elem? cells a ≡ some cell) × (is_list cell ≡ k) × (a < length cells)
kinds-at [] a k h = cc
kinds-at (cell ∷ cells) zero k h = (cell, refl, ground (arith, h), omega arith)
kinds-at (cell ∷ cells) (suc a) k h =
    let (c, e, same, lt) = kinds-at cells a k h in (c, e, same, omega (arith, lt))

abbrev Reads : ℕ → List Cell → ℕ → Bool → Type 0
Reads fuel cells a k = (v : Value) × (slot_value fuel cells (container a) ≡ some v) × OfKind k v

slot-Stands :
    (fuel : ℕ) (cells : List Cell) (a : ℕ) (wanted : Bool) (slot : Slot)
    → length cells ≤ suc fuel + a
    → ((b : ℕ)
        → length cells ≤ fuel + b
        → get_elem? (kinds cells) b ≡ some wanted
        → Reads fuel cells b wanted)
    → SlotFits (kinds cells) a wanted slot
    → (v : Value) × (slot_value fuel cells slot ≡ some v) × Stands wanted v
unfolding slot_value
slot-Stands fuel cells a wanted (scalar v) le below h = (v, refl, (h.0, rw h.1 (ground arith)))
slot-Stands fuel cells a wanted (container b) le below h =
    let (v, e, kind) = below b (omega (arith, le, h.0)) h.1 in (v, e, OfKind-Stands wanted v kind)

-- The number of containers is enough fuel to read the tree below one.
slot_value-OfKind :
    (fuel : ℕ) (cells : List Cell) (a : ℕ) (k : Bool)
    → CellsFit (kinds cells) 0 cells
    → length cells ≤ fuel + a
    → get_elem? (kinds cells) a ≡ some k
    → Reads fuel cells a k
unfolding slot_value
slot_value-OfKind zero cells a k fit le h =
    let (cell, e, same, lt) = kinds-at cells a k h in absurd (omega (arith, le, lt))
slot_value-OfKind (suc fuel) cells a k fit le h =
    let (cell, e, same, lt) = kinds-at cells a k h in
    let (v, is_v, kind) =
      value_by-OfKind (slot_value fuel cells) (kinds cells) a
        (λ wanted slot fits.
          slot-Stands fuel cells a wanted slot le
            (λ b le_b at_b. slot_value-OfKind fuel cells b wanted fit le_b at_b) fits)
        cell (CellsFit-at (kinds cells) 0 cells a a cell (omega arith) fit e) in
    (v, rw e is_v, subst (λ x. OfKind x v) same kind)

abbrev IsOutcome : Result ReadError Fields → Type 0
IsOutcome (ok fields) = FieldsHaveShape fields
IsOutcome (err e) = IsRaised e

policy_of-shape :
    (r : Reader)
    → IsWellFormed r
    → (fields : Fields) × (policy_of r ≡ ok fields) × FieldsHaveShape fields
policy_of-shape r h =
    let (v, e, (fields, is_dict, shape)) =
      slot_value-OfKind (length r.cells) r.cells 0 false h.cells_fit (omega arith) h.root in
    (fields, rw e (rw is_dict refl), shape)

policy_of-IsOutcome : (m : Result ReadError Reader) → IsStep m → IsOutcome (m >>= policy_of)
unfolding ◌>>=◌
policy_of-IsOutcome (ok r) h =
    let (fields, e, shape) = policy_of-shape r h in subst IsOutcome (sym e) shape
policy_of-IsOutcome (err e) h = h

root_only-IsWellFormed : IsWellFormed root_only
root_only-IsWellFormed = record {
  cells_fit = (tt, tt);
  root = refl;
  nested = (refl, refl, omega arith);
}

load_yaml-IsOutcome : (contents : Text) → IsOutcome (load_yaml contents)
unfolding load_yaml
load_yaml-IsOutcome contents =
    policy_of-IsOutcome (load_lines root_only (file_lines [] contents))
      (load_lines-IsStep root_only (file_lines [] contents) root_only-IsWellFormed)

-- In a policy that is read no dict has a key twice and no key of `LIST_KEYS` holds a dict, at any
-- depth.
pub load_yaml-FieldsHaveShape :
    (contents : Text) (fields : Fields) → load_yaml contents ≡ ok fields → FieldsHaveShape fields
load_yaml-FieldsHaveShape contents fields h = subst IsOutcome h (load_yaml-IsOutcome contents)

-- A file that is not read is refused by one of the three `raise` statements: the stack always has a
-- container on top, and every container that was made is read again.
pub load_yaml-IsRaised : (contents : Text) (e : ReadError) → load_yaml contents ≡ err e → IsRaised e
load_yaml-IsRaised contents e h = subst IsOutcome h (load_yaml-IsOutcome contents)
