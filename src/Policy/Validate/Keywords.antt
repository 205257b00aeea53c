-- ===== src/Policy/Validate/Keywords.antt =====
-- What the checks of a signal's keywords let through.
use xsr.Prelude.{
  &&-eq-true, All, Bool, DistinctTexts, Ensures, Ensures-bind, Ensures-ok, Ensures-refuse, List,
  Text, [], all, arith, codes, contains, false, has_char, if◌then◌else◌, is_ascii, lower,
  lower_char, non_empty, ok, refl, starts_with, text_eq, text_eq_iff, true, ◌==◌, ◌>>=◌, ◌||◌, ◌∷◌,
  ◌≡◌,
}
use xsr.Policy.Values.{Value, text, to_str}
use xsr.Policy.Validate.{check_keyword, check_keywords, is_printable, uses_regex_syntax}

-- A keyword that a policy keeps: not empty, and printable ASCII.
abbrev pub IsKeyword : Text → Type 0
IsKeyword k = (non_empty k ≡ true) × (all is_printable k ≡ true)

lower-printable : (k : Text) → all is_printable k ≡ true → all is_printable (lower k) ≡ true
unfolding lower_char
lower-printable [] h = refl
lower-printable (c ∷ cs) h =
    let parts = &&-eq-true (is_printable c) (all is_printable cs) h in
    ground (arith, parts.0, lower-printable cs parts.1)

lower-non_empty : (k : Text) → non_empty k ≡ true → non_empty (lower k) ≡ true
lower-non_empty [] h = h
lower-non_empty (c ∷ cs) h = refl

normalized-IsKeyword :
    (case_sensitive : Bool) (k : Text)
    → IsKeyword k
    → IsKeyword (if case_sensitive then k else lower k)
normalized-IsKeyword true k h = h
normalized-IsKeyword false k h = (lower-non_empty k h.0, lower-printable k h.1)

printable-is_ascii : (k : Text) → all is_printable k ≡ true → is_ascii k ≡ true
printable-is_ascii [] h = refl
printable-is_ascii (c ∷ cs) h =
    let parts = &&-eq-true (is_printable c) (all is_printable cs) h in
    ground (arith, parts.0, printable-is_ascii cs parts.1)

module _ (show : Value → Text) (method : Text) (case_sensitive : Bool) where
  -- A checked keyword is new and well formed.
  check_keyword-Ensures :
      (seen : List Text) (keyword : Value)
      → Ensures
          (λ k. IsKeyword k × (contains seen k ≡ false))
          (check_keyword show method case_sensitive seen keyword)
  unfolding check_keyword
  check_keyword-Ensures seen keyword = Ensures-refuse _ _ _ _ λ filled.
      Ensures-refuse _ _ _ _ λ ascii. Ensures-refuse _ _ _ _ λ printable.
        Ensures-refuse _ _ _ _ λ literal. Ensures-refuse _ _ _ _ λ new. Ensures-ok _ _ (
          normalized-IsKeyword case_sensitive (to_str show keyword)
              (ground (arith, filled), ground (arith, printable)),
          new,
        )

  -- Checked keywords are well formed, distinct and new.
  abbrev pub AreClean : List Text → List Text → Type 0
  AreClean seen ks = All IsKeyword ks × DistinctTexts ks × All (λ k. contains seen k ≡ false) ks

  not_seen :
      (seen ks : List Text) (k : Text)
      → All (λ x. contains (k ∷ seen) x ≡ false) ks
      → (contains ks k ≡ false) × All (λ x. contains seen x ≡ false) ks
  unfolding contains
  not_seen seen [] k h = (refl, tt)
  not_seen seen (x ∷ xs) k h =
      let later = not_seen seen xs k h.1 in
      (
        ground (arith, h.0, later.0, text_eq_iff x k, text_eq_iff k x),
        (ground (arith, h.0), later.1),
      )

  AreClean-cons :
      (seen ks : List Text) (k : Text)
      → IsKeyword k × (contains seen k ≡ false)
      → AreClean (k ∷ seen) ks
      → AreClean seen (k ∷ ks)
  AreClean-cons seen ks k h c =
      let later = not_seen seen ks k c.2 in ((h.0, c.0), (later.0, c.1), (h.1, later.1))

  pub check_keywords-AreClean :
      (keywords : List Value) (seen : List Text)
      → Ensures (AreClean seen) (check_keywords show method case_sensitive seen keywords)
  unfolding check_keywords
  check_keywords-AreClean [] seen = Ensures-ok _ _ (tt, tt, tt)
  check_keywords-AreClean (keyword ∷ keywords) seen = Ensures-bind _ _ _ λ k checked.
      Ensures-bind _ _ _ λ ks rest. Ensures-ok _ _ (
        AreClean-cons seen ks k ((check_keyword-Ensures seen keyword).at k checked)
          ((check_keywords-AreClean keywords (k ∷ seen)).at ks rest))

neither : (a b : Bool) → (a || b) ≡ false → (a ≡ false) × (b ≡ false)
neither a b h = ground arith

starts_with-backslash :
    (cs : Text) → has_char b'\\' cs ≡ false → starts_with cs (codes "\\\\") ≡ false
unfolding starts_with
starts_with-backslash [] h = refl
starts_with-backslash (c ∷ cs) h = rw (neither (c == b'\\') (has_char b'\\' cs) h).0

-- Without a `]` and without a backslash nothing is found, whatever other syntax a keyword has.
uses_regex_syntax-missed :
    (value : Text)
    → has_char b']' value ≡ false
    → has_char b'\\' value ≡ false
    → uses_regex_syntax value ≡ false
unfolding uses_regex_syntax
uses_regex_syntax-missed [] h k = refl
uses_regex_syntax-missed (c ∷ cs) h k =
    let bracket = neither (c == b']') (has_char b']' cs) h in
    let backslash = neither (c == b'\\') (has_char b'\\' cs) k in
    rw
      (
        bracket.0,
        starts_with-backslash cs backslash.1,
        uses_regex_syntax-missed cs bracket.1 backslash.1,
      )
      (ground arith)

-- A keyword of a regex signal with neither `]` nor a backslash passes, whatever other characters with
-- a meaning in regular expressions stand in it: the check for regex syntax never refuses it.
pub check_keyword-regex_syntax :
    (show : Value → Text) (case_sensitive : Bool) (seen : List Text) (value : Text)
    → IsKeyword value
    → has_char b']' value ≡ false
    → has_char b'\\' value ≡ false
    → contains seen (if case_sensitive then value else lower value) ≡ false
    → check_keyword show (codes "regex") case_sensitive seen (text value)
      ≡ ok (if case_sensitive then value else lower value)
unfolding check_keyword to_str text_eq ◌>>=◌
check_keyword-regex_syntax show case_sensitive seen value h no_bracket no_backslash new = rw (
  h.0,
  printable-is_ascii value h.1,
  h.1,
  uses_regex_syntax-missed value no_bracket no_backslash,
  new,
)
