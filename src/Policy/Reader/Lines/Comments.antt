-- ===== src/Policy/Reader/Lines/Comments.antt =====
-- Comments and blank lines in `load_policy` of benchmarks/policy/generate_keyword_header.py.
use xsr.Prelude.{
  &&-eq-true, Bool, Bool-cases, List, Option, Result, Text, [], all, ap, arith, err, false, inl,
  inr, keep, map, non_empty, none, ok, refl, some, sym, true, ℕ, ◌==◌, ◌>>=◌, ◌∙◌, ◌∷◌, ◌≡◌,
}
use xsr.Policy.Reader.Load.{file_lines, load_yaml, policy_of}
use xsr.Fields.{prepend}
use xsr.Policy.Reader.Written.Contents.{Lacks, split_at-none}
use xsr.Policy.Reader.Lines.{
  Reader, before_mark, content_of, load_line, load_lines, split_at, root_only, ReadError,
}
use xsr.Policy.Values.{is_space, strip, strip_right}

pub cut_later :
    (c mark : ℕ) (cs : Text) (split : Option (Text × Text))
    → before_mark (c ∷ cs) (prepend c split) ≡ c ∷ before_mark cs split
cut_later c mark cs none = refl
cut_later c mark cs (some (front, rest)) = refl

Lacks-before_mark : (mark : ℕ) (t : Text) → Lacks mark (before_mark t (split_at mark t))
unfolding split_at
Lacks-before_mark mark [] = tt
Lacks-before_mark mark (c ∷ cs) = elim (Bool-cases (c == mark)) [
  | inl hit ↦ rw hit tt
  | inr miss ↦
      rw miss (rw (cut_later c mark cs (split_at mark cs)) (miss, Lacks-before_mark mark cs))
]

Lacks-strip_right : (mark : ℕ) (t : Text) → Lacks mark t → Lacks mark (strip_right is_space t)
unfolding strip_right
Lacks-strip_right mark [] h = tt
Lacks-strip_right mark (c ∷ cs) h = elim (Bool-cases (all is_space (c ∷ cs))) [
  | inl blank ↦ rw blank tt
  | inr shown ↦ rw shown (h.0, Lacks-strip_right mark cs h.1)
]

strip_right-blank :
    (t : Text) → all is_space (strip_right is_space t) ≡ true → all is_space t ≡ true
unfolding strip_right
strip_right-blank [] h = refl
strip_right-blank (c ∷ cs) h = elim (Bool-cases (all is_space (c ∷ cs))) [
  | inl blank ↦ blank
  | inr shown ↦
      let parts = &&-eq-true (is_space c) _ (rw shown at h) in
      rw (parts.0, strip_right-blank cs parts.1) refl
]

strip_right-again :
    (t : Text) → strip_right is_space (strip_right is_space t) ≡ strip_right is_space t
unfolding strip_right
strip_right-again [] = refl
strip_right-again (c ∷ cs) = elim (Bool-cases (all is_space (c ∷ cs))) [
  | inl blank ↦ rw blank refl
  | inr shown ↦ elim (Bool-cases (all is_space (c ∷ strip_right is_space cs))) [
    | inl hidden ↦
        let parts = &&-eq-true (is_space c) _ hidden in
        let blank : all is_space (c ∷ cs) ≡ true =
          rw (parts.0, strip_right-blank cs parts.1) refl in
        absurd (ground (arith, blank, shown))
    | inr kept ↦ rw shown (rw kept (ap (λ x. c ∷ x) (strip_right-again cs)))
  ]
]

pub content_of-again : (raw : Text) → content_of (content_of raw) ≡ content_of raw
content_of-again raw =
    let cut = before_mark raw (split_at b'#' raw) in
    rw
      (split_at-none b'#' (strip_right is_space cut)
        (Lacks-strip_right b'#' cut (Lacks-before_mark b'#' raw)))
      (strip_right-again cut)

load_line-content_of : (r : Reader) (raw : Text) → load_line r (content_of raw) ≡ load_line r raw
unfolding load_line
load_line-content_of r raw = rw (content_of-again raw) refl

abbrev pub is_shown : Text → Bool
is_shown line = non_empty (strip is_space line)

-- The lines without comments and the blanks at their ends, less those of which nothing is left.
abbrev pub bare_lines : List Text → List Text
bare_lines lines = keep is_shown (map content_of lines)

pub blank_line :
    (r : Reader) (raw : Text) → is_shown (content_of raw) ≡ false → load_line r raw ≡ ok r
unfolding load_line
blank_line r raw h = rw h refl

bind-agrees :
    (m : Result ReadError Reader) (f g : Reader → Result ReadError Reader)
    → ((r : Reader) → f r ≡ g r)
    → (m >>= f) ≡ (m >>= g)
unfolding ◌>>=◌
bind-agrees (ok r) f g h = h r
bind-agrees (err e) f g h = refl

load_lines-cons :
    (r : Reader) (line : Text) (lines : List Text)
    → load_lines r (line ∷ lines) ≡ (load_line r line >>= λ next. load_lines next lines)
unfolding load_lines
load_lines-cons r line lines = refl

pub load_lines-agrees :
    (r : Reader) (x y : Text) (xs ys : List Text)
    → load_line r x ≡ load_line r y
    → ((next : Reader) → load_lines next xs ≡ load_lines next ys)
    → load_lines r (x ∷ xs) ≡ load_lines r (y ∷ ys)
load_lines-agrees r x y xs ys e h =
    load_lines-cons r x xs
    ∙ ap (λ m. m >>= λ next. load_lines next xs) e
    ∙ bind-agrees (load_line r y) (λ next. load_lines next xs) (λ next. load_lines next ys) h
    ∙ sym (load_lines-cons r y ys)

pub load_lines-blank :
    (r : Reader) (line : Text) (lines : List Text)
    → load_line r line ≡ ok r
    → load_lines r (line ∷ lines) ≡ load_lines r lines
unfolding ◌>>=◌
load_lines-blank r line lines h =
    load_lines-cons r line lines ∙ ap (λ m. m >>= λ next. load_lines next lines) h

load_lines-bare_lines :
    (r : Reader) (lines : List Text) → load_lines r (bare_lines lines) ≡ load_lines r lines
load_lines-bare_lines r [] = refl
load_lines-bare_lines r (line ∷ lines) = elim (Bool-cases (is_shown (content_of line))) [
  | inl shown ↦ rw shown (
      load_lines-agrees r (content_of line) line (bare_lines lines) lines
        (load_line-content_of r line) (λ next. load_lines-bare_lines next lines))
  | inr blank ↦ rw blank (
      load_lines-bare_lines r lines ∙ sym (load_lines-blank r line lines (blank_line r line blank)))
]

-- Two files whose lines are the same without comments, the blanks at line ends and blank lines are
-- read as the same policy, or refused alike.
pub load_yaml-bare_lines :
    (one other : Text)
    → bare_lines (file_lines [] one) ≡ bare_lines (file_lines [] other)
    → load_yaml one ≡ load_yaml other
unfolding load_yaml
load_yaml-bare_lines one other h =
    ap (λ m. m >>= policy_of)
      (sym (load_lines-bare_lines root_only (file_lines [] one))
        ∙ ap (load_lines root_only) h
        ∙ load_lines-bare_lines root_only (file_lines [] other))
