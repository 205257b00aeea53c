-- ===== src/Policy/Reader/Written/Appended.antt =====
-- How an entry or an item more changes what a container stands for in `load_policy` of
-- benchmarks/policy/generate_keyword_header.py.
use xsr.Prelude.{
  Bool-cases, List, Option, Text, [], all, ap, arith, inl, inr, none, refl, some, subst, text_eq,
  ◌++◌, ◌∷◌, ◌≡◌,
}
use xsr.Policy.Reader.Cells.{Entries, Slot, cons_field, fields_by, put_slot, cons_item, items_by}
use xsr.Policy.Values.{Fields, Value, end, field, put, Items, item, nil}

cons_field-inv :
    (key : Text) (v : Option Value) (fields : Option Fields) (all : Fields)
    → cons_field key v fields ≡ some all
    → (w : Value) × (more : Fields) × (v ≡ some w) × (fields ≡ some more) × (all ≡ field key w more)
cons_field-inv key (some w) (some more) all h = (w, more, refl, refl, ground (arith, h))
cons_field-inv key (some w) none all h = cc
cons_field-inv key none fields all h = cc

module _ (f : Slot → Option Value) where
  pub fields_by-put_slot :
      (entries : Entries) (fields : Fields) (key : Text) (slot : Slot) (v : Value)
      → fields_by f entries ≡ some fields
      → f slot ≡ some v
      → fields_by f (put_slot entries key slot) ≡ some (put fields key v)
  unfolding fields_by put_slot put
  fields_by-put_slot [] fields key slot v h e =
      let none_yet : end ≡ fields = ground (arith, h) in
      rw e (subst (λ x. some (field key v end) ≡ some (put x key v)) none_yet refl)
  fields_by-put_slot ((k, s) ∷ entries) fields key slot v h e =
      let (w, more, is_w, is_more, same) = cons_field-inv k (f s) (fields_by f entries) fields h in
      elim (Bool-cases (text_eq k key)) [
        | inl hit ↦ rw same (rw hit (rw e (rw is_more refl)))
        | inr miss ↦
            rw same
              (rw miss (rw is_w (rw (fields_by-put_slot entries more key slot v is_more e) refl)))
      ]

abbrev pub append_items : Items → Items → Items
append_items nil ys = ys
append_items (item v xs) ys = item v (append_items xs ys)

pub append_items-nil : (xs : Items) → append_items xs nil ≡ xs
append_items-nil nil = refl
append_items-nil (item v xs) = ap (item v) (append_items-nil xs)

pub append_items-item :
    (xs ys : Items) (v : Value)
    → append_items (append_items xs (item v nil)) ys ≡ append_items xs (item v ys)
append_items-item nil ys v = refl
append_items-item (item w xs) ys v = ap (item w) (append_items-item xs ys v)

cons_item-inv :
    (v : Option Value) (items : Option Items) (all : Items)
    → cons_item v items ≡ some all
    → (w : Value) × (more : Items) × (v ≡ some w) × (items ≡ some more) × (all ≡ item w more)
cons_item-inv (some w) (some more) all h = (w, more, refl, refl, ground (arith, h))
cons_item-inv (some w) none all h = cc
cons_item-inv none items all h = cc

pub items_by-append :
    (f : Slot → Option Value) (slots : List Slot) (items : Items) (slot : Slot) (v : Value)
    → items_by f slots ≡ some items
    → f slot ≡ some v
    → items_by f (slots ++ slot ∷ []) ≡ some (append_items items (item v nil))
unfolding items_by
items_by-append f [] items slot v h e =
    let none_yet : nil ≡ items = ground (arith, h) in
    rw e (subst (λ x. some (item v nil) ≡ some (append_items x (item v nil))) none_yet refl)
items_by-append f (s ∷ slots) items slot v h e =
    let (w, more, is_w, is_more, same) = cons_item-inv (f s) (items_by f slots) items h in
    rw same (rw is_w (rw (items_by-append f slots more slot v is_more e) refl))
