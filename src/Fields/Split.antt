-- ===== src/Fields/Split.antt =====
-- What the readers of `key=value` texts make of a text that was written field by field.
use xsr.Prelude.{
  All, Text, [], ap, append-nil, append_assoc, false, non_empty, refl, some, sym, true, ◌++◌, ◌==◌,
  ◌∙◌, ◌∷◌, ◌≡◌,
}
use xsr.Fields.{partition, split_from}
use xsr.Policy.Values.{is_space}

-- No blank ends the text.
abbrev pub Unbroken : Text → Type 0
Unbroken t = All (λ c. is_space c ≡ false) t

pub split_from-Unbroken :
    (field t rest : Text) → Unbroken t → split_from field (t ++ rest) ≡ split_from (field ++ t) rest
unfolding split_from
split_from-Unbroken field [] rest h = rw (append-nil field) refl
split_from-Unbroken field (c ∷ t) rest h =
    rw h.0
      (split_from-Unbroken (field ++ c ∷ []) t rest h.1 ∙ rw (append_assoc field (c ∷ []) t) refl)

-- A word in front of a blank, and a word at the end.
pub split_from-word :
    (t rest : Text)
    → Unbroken t
    → non_empty t ≡ true
    → split_from [] (t ++ b' ' ∷ rest) ≡ t ∷ split_from [] rest
unfolding split_from is_space
split_from-word t rest h e = split_from-Unbroken [] t (b' ' ∷ rest) h ∙ rw e refl

pub split_from-last : (t : Text) → Unbroken t → non_empty t ≡ true → split_from [] t ≡ t ∷ []
unfolding split_from
split_from-last t h e =
    ap (split_from []) (sym (append-nil t)) ∙ split_from-Unbroken [] t [] h ∙ rw e refl

pub partition-Unbroken :
    (key value : Text)
    → All (λ c. (c == b'=') ≡ false) key
    → partition (key ++ b'=' ∷ value) ≡ some (key, value)
unfolding partition
partition-Unbroken [] value h = refl
partition-Unbroken (c ∷ key) value h = rw h.0 (rw (partition-Unbroken key value h.1) refl)
