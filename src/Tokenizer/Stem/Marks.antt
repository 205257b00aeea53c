-- ===== src/Tokenizer/Stem/Marks.antt =====
-- The marker `Y` for a consonantal y stays inside the stemmer.
use xsr.Prelude.{
  All, Bool-cases, List, Option-cases, Text, [], arith, contains, find_key, inl, inr, leb, length,
  some, subst, text_eq, ◌∷◌, ◌≡◌, ◌≢◌,
}
use xsr.Tokenizer.Tables.{exceptions, post_1a_exceptions}
use xsr.Tokenizer.Stem.{drop_quote, stem_english, stem_marked, step_0, step_1a, unmark}

abbrev pub Unmarked : Text → Type 0
Unmarked = All (λ c. c ≢ b'Y')

unmark-Unmarked : (word : Text) → Unmarked (unmark word)
unmark-Unmarked [] = tt
unmark-Unmarked (c ∷ cs) = (ground arith, unmark-Unmarked cs)

stem_marked-Unmarked : (word : Text) → Unmarked (stem_marked word)
unfolding stem_marked
stem_marked-Unmarked word =
    elim (Bool-cases (contains post_1a_exceptions (step_1a (step_0 word)))) [
      | inl e ↦ rw e (unmark-Unmarked _)
      | inr e ↦ rw e (unmark-Unmarked _)
    ]

find_key-All {κ} :
    (P : Text → Type κ) (table : List (Text × Text)) (word stem : Text)
    → All (λ p. P p.1) table
    → find_key table word ≡ some stem
    → P stem
unfolding find_key
find_key-All P [] word stem h e = cc
find_key-All P ((k, v) ∷ table) word stem h e = elim (Bool-cases (text_eq k word)) [
  | inl hit ↦ subst P (cc hit) h.0
  | inr miss ↦ find_key-All P table word stem h.1 (rw miss at e)
]

exceptions-Unmarked : All (λ p. Unmarked p.1) exceptions
unfolding exceptions
exceptions-Unmarked = omega arith

-- A word without the marker has a stem without it.
pub stem_english-Unmarked : (word : Text) → Unmarked word → Unmarked (stem_english word)
unfolding stem_english
stem_english-Unmarked word h = elim (Bool-cases (leb (length word) 2)) [
  | inl short ↦ rw short h
  | inr long ↦ rw long (elim (Option-cases (find_key exceptions (drop_quote word))) [
    | inl e ↦ rw e (stem_marked-Unmarked _)
    | inr (s, e) ↦ rw e (find_key-All Unmarked exceptions (drop_quote word) s exceptions-Unmarked e)
  ])
]
