-- ===== src/Profile/Router/Written.antt =====
-- `parse_fields` of scripts/sk_profile_components.py, on fields as the router writes them.
use xsr.Prelude.{
  &&-eq-true, All, All-append, All-weaken, Bool, List, Text, [], all, all-All, ap, arith, false,
  is_digit, map, non_empty, not, not-eq-true, ok, pos, refl, true, ℕ, ◌&&◌, ◌==◌, ◌>>=◌, ◌∙◌, ◌∷◌,
  ◌≡◌,
}
use xsr.Policy.Values.{is_space, show_nat}
use xsr.Fields.{partition, split_from}
use xsr.Fields.Split.{Unbroken, split_from-word, split_from-last, partition-Unbroken}
use xsr.Policy.Values.Decimal.{show_nat-Digits, read_signed-show_nat}
use xsr.Profile.Router.Answer.{join_fields, field_text}
use xsr.Profile.Router.{parse_fields, parse_entries, field_entry, put_field, FieldTable, number}

-- A key without blanks and equals signs.
abbrev pub Key : Text × ℕ → Type 0
Key f = All (λ c. (is_space c ≡ false) × ((c == b'=') ≡ false)) f.0

digit-unbroken : (c : ℕ) → is_digit c ≡ true → is_space c ≡ false
unfolding is_digit is_space
digit-unbroken c h = ground arith

pub field_text-Unbroken : (f : Text × ℕ) → Key f → Unbroken (field_text f)
unfolding is_space
field_text-Unbroken (key, n) h =
    All-append (λ c. is_space c ≡ false) key (b'=' ∷ show_nat n)
      (All-weaken (λ c. is_space c ≡ false) (λ c k. k.0) key h)
      (refl, All-weaken (λ c. is_space c ≡ false) digit-unbroken (show_nat n) (show_nat-Digits n))

pub field_text-non_empty : (f : Text × ℕ) → non_empty (field_text f) ≡ true
field_text-non_empty ([], n) = refl
field_text-non_empty (c ∷ key, n) = refl

split-join_fields :
    (f : Text × ℕ) (fs : List (Text × ℕ))
    → Key f
    → All Key fs
    → split_from [] (join_fields (f ∷ fs)) ≡ map field_text (f ∷ fs)
unfolding join_fields
split-join_fields f [] h hs =
    split_from-last (field_text f) (field_text-Unbroken f h) (field_text-non_empty f)
split-join_fields f (g ∷ fs) h hs =
    split_from-word (field_text f) _ (field_text-Unbroken f h) (field_text-non_empty f)
    ∙ ap (λ ws. field_text f ∷ ws) (split-join_fields g fs hs.0 hs.1)

-- The table that the fields make.
unfoldable pub table_of : FieldTable → List (Text × ℕ) → FieldTable
unfolding put_field
table_of table [] = table
table_of table ((key, n) ∷ fs) = table_of (put_field table key (number (pos n))) fs

field_entry-field_text :
    (f : Text × ℕ) → Key f → field_entry (partition (field_text f)) ≡ ok (f.0, number (pos f.1))
field_entry-field_text (key, n) h =
    rw (partition-Unbroken key (show_nat n) (All-weaken _ (λ c k. k.1) key h))
      (rw (read_signed-show_nat n) refl)

parse_entries-fields :
    (table : FieldTable) (fs : List (Text × ℕ))
    → All Key fs
    → parse_entries table (map field_text fs) ≡ ok (table_of table fs)
unfolding parse_entries table_of ◌>>=◌
parse_entries-fields table [] h = refl
parse_entries-fields table (f ∷ fs) h =
    rw (field_entry-field_text f h.0)
      (parse_entries-fields (put_field table f.0 (number (pos f.1))) fs h.1)

-- Written fields are read as what was written.
pub parse_fields-join_fields :
    (f : Text × ℕ) (fs : List (Text × ℕ))
    → All Key (f ∷ fs)
    → parse_fields (join_fields (f ∷ fs)) ≡ ok (table_of [] (f ∷ fs))
unfolding parse_fields
parse_fields-join_fields f fs h =
    ap (parse_entries []) (split-join_fields f fs h.0 h.1) ∙ parse_entries-fields [] (f ∷ fs) h

-- A key, by its characters.
abbrev is_key_char : ℕ → Bool
is_key_char c = not (is_space c) && not (c == b'=')

key_char : (c : ℕ) → is_key_char c ≡ true → (is_space c ≡ false) × ((c == b'=') ≡ false)
key_char c h = let both = &&-eq-true _ _ h in (not-eq-true _ both.0, not-eq-true _ both.1)

pub Key-test : (fs : List (Text × ℕ)) → all (λ f. all is_key_char f.0) fs ≡ true → All Key fs
Key-test fs h =
    All-weaken Key (λ f e. All-weaken _ key_char f.0 (all-All is_key_char f.0 e)) fs
      (all-All (λ f. all is_key_char f.0) fs h)
