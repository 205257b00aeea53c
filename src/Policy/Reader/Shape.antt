-- ===== src/Policy/Reader/Shape.antt =====
-- What `load_policy` of benchmarks/policy/generate_keyword_header.py may read: the type of a policy.
use xsr.Prelude.{
  Bool, List, Option, Text, [], codes, contains, false, if◌then◌else◌, map, non_empty, none, refl,
  some, suc, text_eq, true, zero, ℕ, ℤ, ◌&&◌, ◌||◌, ◌∷◌, ◌≡◌,
}
use xsr.Policy.Reader.Scalar.{
  bracket_body, integer_or, is_bracketed, is_integer, is_quote, items_of, parse_plain, parse_scalar,
  scalar_fuel,
}
use xsr.Policy.Reader.Lines.{list_keys}
use xsr.Policy.Values.{
  Fields, Items, Value, dict, end, field, flag, from_list, is_space, item, list, nil, num, strip,
  text, read_signed,
}

abbrev pub field_keys : Fields → List Text
field_keys end = []
field_keys (field k v fields) = k ∷ field_keys fields

-- isinstance(value, dict)
abbrev pub is_dict : Value → Bool
is_dict (dict fields) = true
is_dict v = false

-- No dict has a key twice, and no key of `LIST_KEYS` holds a dict.
unfoldable mutual
  pub HasShape : Value → Type 0
  HasShape (text t) = Unit
  HasShape (num n) = Unit
  HasShape (flag b) = Unit
  HasShape (list items) = ItemsHaveShape items
  HasShape (dict fields) = FieldsHaveShape fields

  pub ItemsHaveShape : Items → Type 0
  ItemsHaveShape nil = Unit
  ItemsHaveShape (item v items) = HasShape v × ItemsHaveShape items

  pub FieldsHaveShape : Fields → Type 0
  FieldsHaveShape end = Unit
  FieldsHaveShape (field k v fields) =
      ((contains list_keys k && is_dict v) ≡ false)
      × (contains (field_keys fields) k ≡ false)
      × HasShape v
      × FieldsHaveShape fields

-- What `parse_scalar` returns.
abbrev pub IsFlat : Value → Type 0
IsFlat v = HasShape v × (is_dict v ≡ false)

integer_or-IsFlat : (value : Text) (n : Option ℤ) → IsFlat (integer_or value n)
unfolding HasShape
integer_or-IsFlat value none = (tt, refl)
integer_or-IsFlat value (some n) = (tt, refl)

if-IsFlat : (b : Bool) (v w : Value) → IsFlat v → IsFlat w → IsFlat (if b then v else w)
if-IsFlat true v w p q = p
if-IsFlat false v w p q = q

parse_plain-IsFlat : (value : Text) → IsFlat (parse_plain value)
unfolding parse_plain HasShape
parse_plain-IsFlat value =
    if-IsFlat (text_eq value (codes "true") || text_eq value (codes "false"))
      (flag (text_eq value (codes "true")))
      (if is_integer value
        then integer_or value (read_signed value)
        else text (strip is_quote value))
      (tt, refl)
      (if-IsFlat (is_integer value) (integer_or value (read_signed value))
        (text (strip is_quote value)) (integer_or-IsFlat value (read_signed value)) (tt, refl))

from_list-ItemsHaveShape :
    (f : Text → Value)
    → ((part : Text) → IsFlat (f part))
    → (parts : List Text) → ItemsHaveShape (from_list (map f parts))
unfolding ItemsHaveShape
from_list-ItemsHaveShape f h [] = tt
from_list-ItemsHaveShape f h (part ∷ parts) = ((h part).0, from_list-ItemsHaveShape f h parts)

items-HasShape :
    (b : Bool) (items : Items) → ItemsHaveShape items → HasShape (list (if b then items else nil))
unfolding HasShape
items-HasShape true items h = h
items-HasShape false items h = tt

scalar_fuel-IsFlat : (fuel : ℕ) (raw : Text) → IsFlat (scalar_fuel fuel raw)
unfolding scalar_fuel HasShape
scalar_fuel-IsFlat zero raw = (tt, refl)
scalar_fuel-IsFlat (suc fuel) raw =
    let value = strip is_space raw in
    let body = bracket_body value in
    let items = map (scalar_fuel fuel) (items_of body) in
    if-IsFlat (is_bracketed value) (list (if non_empty body then from_list items else nil))
      (parse_plain value)
      (
        items-HasShape (non_empty body) (from_list items)
            (from_list-ItemsHaveShape (scalar_fuel fuel) (scalar_fuel-IsFlat fuel) (items_of body)),
        refl,
      )
      (parse_plain-IsFlat value)

pub parse_scalar-IsFlat : (raw : Text) → IsFlat (parse_scalar raw)
unfolding parse_scalar
parse_scalar-IsFlat raw = scalar_fuel-IsFlat _ raw
