-- ===== src/Policy/Reader/Lines/Decorated.antt =====
-- What may stand behind the text of a line, and between lines, in `load_policy` of
-- benchmarks/policy/generate_keyword_header.py.
use xsr.Prelude.{
  &&-eq-true, Bool, Bool-cases, List, Text, [], all, ap, false, if◌then◌else◌, inl, inr, ok, refl,
  sym, true, ℕ, ◌&&◌, ◌++◌, ◌==◌, ◌>>=◌, ◌||◌, ◌∙◌, ◌∷◌, ◌≡◌,
}
use xsr.Policy.Reader.Lines.Comments.{blank_line, cut_later, load_lines-agrees, load_lines-blank}
use xsr.Policy.Reader.Lines.{
  Reader, before_mark, content_of, load_line, load_lines, root_only, split_at,
}
use xsr.Policy.Reader.Load.{file_lines, load_yaml, policy_of}
use xsr.Policy.Values.{is_space, strip, strip_right}
use xsr.Policy.Values.Strip.{all-append, strip_right-all}

-- Blanks, and then a comment or nothing.
abbrev pub is_tail : Text → Bool
is_tail [] = true
is_tail (c ∷ cs) = c == b'#' || (is_space c && is_tail cs)

-- The first lines are the second ones with such tails behind them and such lines between them.
pub data Decorated : List Text → List Text → Type 0 where
  none_left : Decorated [] []
  with_tail :
      (line tail : Text) {lines plain : List Text}
      → is_tail tail ≡ true
      → Decorated lines plain
      → Decorated ((line ++ tail) ∷ lines) (line ∷ plain)
  with_line :
      (tail : Text) {lines plain : List Text}
      → is_tail tail ≡ true
      → Decorated lines plain
      → Decorated (tail ∷ lines) plain

abbrev cut : Text → Text
cut t = before_mark t (split_at b'#' t)

cut-comment : (c : ℕ) (cs : Text) → (c == b'#') ≡ true → cut (c ∷ cs) ≡ []
unfolding split_at
cut-comment c cs h = rw h refl

cut-kept : (c : ℕ) (cs : Text) → (c == b'#') ≡ false → cut (c ∷ cs) ≡ c ∷ cut cs
unfolding split_at
cut-kept c cs h = rw h (cut_later c b'#' cs (split_at b'#' cs))

cut-tail : (t : Text) → is_tail t ≡ true → all is_space (cut t) ≡ true
unfolding split_at
cut-tail [] h = refl
cut-tail (c ∷ cs) h = elim (Bool-cases (c == b'#')) [
  | inl hash ↦ rw (cut-comment c cs hash) refl
  | inr other ↦
      let parts = &&-eq-true (is_space c) (is_tail cs) (rw other at h) in
      rw (cut-kept c cs other) (rw parts.0 (cut-tail cs parts.1))
]

-- A tail leaves only blanks behind what is kept of the line.
cut-append :
    (line tail : Text)
    → is_tail tail ≡ true
    → (blanks : Text) × (cut (line ++ tail) ≡ cut line ++ blanks) × (all is_space blanks ≡ true)
unfolding split_at
cut-append [] tail h = (cut tail, refl, cut-tail tail h)
cut-append (c ∷ line) tail h = elim (Bool-cases (c == b'#')) [
  | inl hash ↦ (
    [],
    cut-comment c (line ++ tail) hash ∙ sym (ap (λ t. t ++ []) (cut-comment c line hash)),
    refl,
  )
  | inr other ↦
      let (blanks, same, blank) = cut-append line tail h in
      (
        blanks,
        cut-kept c (line ++ tail) other
            ∙ ap (λ t. c ∷ t) same
            ∙ sym (ap (λ t. t ++ blanks) (cut-kept c line other)),
        blank,
      )
]

and_true : (b : Bool) → (b && true) ≡ b
and_true true = refl
and_true false = refl

strip_right-blanks :
    (t blanks : Text)
    → all is_space blanks ≡ true
    → strip_right is_space (t ++ blanks) ≡ strip_right is_space t
unfolding strip_right
strip_right-blanks [] blanks h = strip_right-all blanks h
strip_right-blanks (c ∷ t) blanks h =
    let same : all is_space (t ++ blanks) ≡ all is_space t =
      all-append is_space t blanks ∙ rw h (and_true (all is_space t)) in
    rw same
      (ap (λ x. if is_space c && all is_space t then [] else c ∷ x) (strip_right-blanks t blanks h))

content_of-append :
    (line tail : Text) → is_tail tail ≡ true → content_of (line ++ tail) ≡ content_of line
content_of-append line tail h =
    let (blanks, same, blank) = cut-append line tail h in
    ap (strip_right is_space) same ∙ strip_right-blanks (cut line) blanks blank

content_of-tail : (tail : Text) → is_tail tail ≡ true → content_of tail ≡ []
unfolding strip_right split_at
content_of-tail tail h = content_of-append [] tail h

load_line-append :
    (r : Reader) (line tail : Text)
    → is_tail tail ≡ true
    → load_line r (line ++ tail) ≡ load_line r line
unfolding load_line
load_line-append r line tail h = rw (content_of-append line tail h) refl

load_line-tail : (r : Reader) (tail : Text) → is_tail tail ≡ true → load_line r tail ≡ ok r
unfolding strip strip_right
load_line-tail r tail h = blank_line r tail (rw (content_of-tail tail h) refl)

load_lines-Decorated :
    {lines plain : List Text}
    → Decorated lines plain
    → (r : Reader) → load_lines r lines ≡ load_lines r plain
load_lines-Decorated none_left r = refl
load_lines-Decorated (with_tail line tail {lines} {plain} h rest) r =
    load_lines-agrees r (line ++ tail) line lines plain (load_line-append r line tail h)
      (load_lines-Decorated rest)
load_lines-Decorated (with_line tail {lines} {plain} h rest) r =
    load_lines-blank r tail lines (load_line-tail r tail h) ∙ load_lines-Decorated rest r

-- Blanks and a comment that begins with `#`, behind any line and on lines of their own, make no
-- difference: the file with them is read as the policy without them, or refused alike.
pub load_yaml-Decorated :
    (decorated plain : Text)
    → Decorated (file_lines [] decorated) (file_lines [] plain)
    → load_yaml decorated ≡ load_yaml plain
unfolding load_yaml
load_yaml-Decorated decorated plain h = ap (λ m. m >>= policy_of) (load_lines-Decorated h root_only)
