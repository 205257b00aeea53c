-- ===== src/Policy/Reader/Cells/Store.antt =====
-- The containers that `load_policy` of benchmarks/policy/generate_keyword_header.py has made are a tree:
-- each refers to later ones only, and their kinds are those that the keys ask for.
use xsr.Prelude.{
  All, All-weaken, Bool, Bool-cases, List, Text, [], ap, arith, contains, false, get_elem?, inl,
  inr, length, map, refl, some, subst, suc, sym, text_eq, text_eq_iff, true, zero, ||-eq-false, ℕ,
  ◌++◌, ◌+◌, ◌<◌, ◌∷◌, ◌≡◌,
}
use xsr.Policy.Reader.Shape.{IsFlat}
use xsr.Policy.Reader.Cells.{
  Cell, Entries, Slot, container, dict_cell, list_cell, put_slot, scalar, set_cell,
}
use xsr.Policy.Reader.Lines.{list_keys}

abbrev pub is_list : Cell → Bool
is_list (dict_cell entries) = false
is_list (list_cell slots) = true

abbrev pub kinds : List Cell → List Bool
kinds = map is_list

-- A value of `parse_scalar`, or a container of the kind that is wanted, behind the address `a`.
abbrev pub SlotFits : List Bool → ℕ → Bool → Slot → Type 0
SlotFits ks a wanted (scalar v) = IsFlat v
SlotFits ks a wanted (container b) = (a < b) × (get_elem? ks b ≡ some wanted)

abbrev pub entry_keys : Entries → List Text
entry_keys [] = []
entry_keys ((k, slot) ∷ entries) = k ∷ entry_keys entries

-- Each key once; lists below the keys of `LIST_KEYS` and dicts below the others.
abbrev pub EntriesFit : List Bool → ℕ → Entries → Type 0
EntriesFit ks a [] = Unit
EntriesFit ks a ((k, slot) ∷ entries) =
    SlotFits ks a (contains list_keys k) slot
    × (contains (entry_keys entries) k ≡ false)
    × EntriesFit ks a entries

abbrev pub CellFits : List Bool → ℕ → Cell → Type 0
CellFits ks a (dict_cell entries) = EntriesFit ks a entries
CellFits ks a (list_cell slots) = All (SlotFits ks a false) slots

-- The containers from the address `a` on.
abbrev pub CellsFit : List Bool → ℕ → List Cell → Type 0
CellsFit ks a [] = Unit
CellsFit ks a (cell ∷ cells) = CellFits ks a cell × CellsFit ks (suc a) cells

contains-put_slot :
    (entries : Entries) (key : Text) (slot : Slot) (x : Text)
    → contains (entry_keys entries) x ≡ false
    → text_eq key x ≡ false
    → contains (entry_keys (put_slot entries key slot)) x ≡ false
unfolding contains put_slot
contains-put_slot [] key slot x h e = rw e refl
contains-put_slot ((k, s) ∷ entries) key slot x h e =
    let parts = ||-eq-false (text_eq k x) _ h in
    elim (Bool-cases (text_eq k key)) [
      | inl same ↦ rw (same, parts.0, parts.1) refl
      | inr other ↦ rw (other, parts.0) (contains-put_slot entries key slot x parts.1 e)
    ]

differs : (k key : Text) → text_eq k key ≡ false → text_eq key k ≡ false
differs k key h = elim (Bool-cases (text_eq key k)) [
  | inl same ↦ absurd (ground (arith, (text_eq_iff k key).1 (sym ((text_eq_iff key k).0 same))))
  | inr other ↦ other
]

pub put_slot-EntriesFit :
    (ks : List Bool) (a : ℕ) (entries : Entries) (key : Text) (slot : Slot)
    → EntriesFit ks a entries
    → SlotFits ks a (contains list_keys key) slot
    → EntriesFit ks a (put_slot entries key slot)
unfolding put_slot contains
put_slot-EntriesFit ks a [] key slot h fits = (fits, refl, tt)
put_slot-EntriesFit ks a ((k, s) ∷ entries) key slot h fits = elim (Bool-cases (text_eq k key)) [
  | inl same ↦ rw same (
    subst (λ x. SlotFits ks a (contains list_keys x) slot) (sym ((text_eq_iff k key).0 same)) fits,
    h.1,
    h.2,
  )
  | inr other ↦ rw other (
    h.0,
    contains-put_slot entries key slot k h.1 (differs k key other),
    put_slot-EntriesFit ks a entries key slot h.2 fits,
  )
]

pub get_elem?-front :
    {A : Type 0} (xs : List A) (y : A) (i : ℕ) {x : A}
    → get_elem? xs i ≡ some x
    → get_elem? (xs ++ y ∷ []) i ≡ some x
get_elem?-front [] y i h = cc
get_elem?-front (z ∷ xs) y zero h = h
get_elem?-front (z ∷ xs) y (suc i) h = get_elem?-front xs y i h

pub get_elem?-last :
    {A : Type 0} (xs : List A) (y : A) → get_elem? (xs ++ y ∷ []) (length xs) ≡ some y
get_elem?-last [] y = refl
get_elem?-last (x ∷ xs) y = get_elem?-last xs y

module _ (ks : List Bool) (k : Bool) where
  SlotFits-more :
      (a : ℕ) (wanted : Bool) (slot : Slot)
      → SlotFits ks a wanted slot
      → SlotFits (ks ++ k ∷ []) a wanted slot
  SlotFits-more a wanted (scalar v) h = h
  SlotFits-more a wanted (container b) h = (h.0, get_elem?-front ks k b h.1)

  EntriesFit-more :
      (a : ℕ) (entries : Entries) → EntriesFit ks a entries → EntriesFit (ks ++ k ∷ []) a entries
  EntriesFit-more a [] h = tt
  EntriesFit-more a ((key, slot) ∷ entries) h =
      (SlotFits-more a (contains list_keys key) slot h.0, h.1, EntriesFit-more a entries h.2)

  pub CellFits-more : (a : ℕ) (cell : Cell) → CellFits ks a cell → CellFits (ks ++ k ∷ []) a cell
  CellFits-more a (dict_cell entries) h = EntriesFit-more a entries h
  CellFits-more a (list_cell slots) h =
      All-weaken (SlotFits (ks ++ k ∷ []) a false) (SlotFits-more a false) slots h

  pub CellsFit-more :
      (a : ℕ) (cells : List Cell) → CellsFit ks a cells → CellsFit (ks ++ k ∷ []) a cells
  CellsFit-more a [] h = tt
  CellsFit-more a (cell ∷ cells) h = (CellFits-more a cell h.0, CellsFit-more (suc a) cells h.1)

module _ (ks : List Bool) where
  pub CellsFit-at :
      (first : ℕ) (cells : List Cell) (i a : ℕ) (cell : Cell)
      → a ≡ first + i
      → CellsFit ks first cells
      → get_elem? cells i ≡ some cell
      → CellFits ks a cell
  CellsFit-at first [] i a cell p h e = cc
  CellsFit-at first (c ∷ cells) zero a cell p h e =
      subst (λ x. CellFits ks x cell) (omega (arith, p))
        (subst (CellFits ks first) (ground (arith, e)) h.0)
  CellsFit-at first (c ∷ cells) (suc i) a cell p h e =
      CellsFit-at (suc first) cells i a cell (omega (arith, p)) h.1 e

  pub CellsFit-set_cell :
      (first : ℕ) (cells : List Cell) (i a : ℕ) (cell : Cell)
      → a ≡ first + i
      → CellsFit ks first cells
      → CellFits ks a cell
      → CellsFit ks first (set_cell cells i cell)
  unfolding set_cell
  CellsFit-set_cell first [] i a cell p h c = tt
  CellsFit-set_cell first (x ∷ cells) zero a cell p h c =
      (subst (λ y. CellFits ks y cell) (omega (arith, p)) c, h.1)
  CellsFit-set_cell first (x ∷ cells) (suc i) a cell p h c =
      (h.0, CellsFit-set_cell (suc first) cells i a cell (omega (arith, p)) h.1 c)

  pub CellsFit-append :
      (first : ℕ) (cells : List Cell) (a : ℕ) (cell : Cell)
      → a ≡ first + length cells
      → CellsFit ks first cells
      → CellFits ks a cell
      → CellsFit ks first (cells ++ cell ∷ [])
  CellsFit-append first [] a cell p h c = (subst (λ y. CellFits ks y cell) (omega (arith, p)) c, tt)
  CellsFit-append first (x ∷ cells) a cell p h c =
      (h.0, CellsFit-append (suc first) cells a cell (omega (arith, p)) h.1 c)

pub length-set_cell :
    (cells : List Cell) (i : ℕ) (cell : Cell) → length (set_cell cells i cell) ≡ length cells
unfolding set_cell
length-set_cell [] i cell = refl
length-set_cell (c ∷ cells) zero cell = refl
length-set_cell (c ∷ cells) (suc i) cell = ap suc (length-set_cell cells i cell)

pub kinds-set_cell :
    (cells : List Cell) (i : ℕ) (cell : Cell) {old : Cell}
    → get_elem? cells i ≡ some old
    → is_list old ≡ is_list cell
    → kinds (set_cell cells i cell) ≡ kinds cells
unfolding set_cell
kinds-set_cell [] i cell h e = cc
kinds-set_cell (c ∷ cells) zero cell h e = ground (arith, h, e)
kinds-set_cell (c ∷ cells) (suc i) cell h e =
    ap (λ ks. is_list c ∷ ks) (kinds-set_cell cells i cell h e)
