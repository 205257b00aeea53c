-- ===== src/Policy/Reader/Written/Contents.antt =====
-- What a line of a written policy does in `load_policy` of benchmarks/policy/generate_keyword_header.py.
use xsr.Prelude.{
  All, All-append, All-weaken, Text, [], all, ap, arith, codes, false, has_char, next_is, non_empty,
  none, refl, replicate, some, starts_with, suc, true, zero, ||-eq-false, ℕ, ◌++◌, ◌==◌, ◌∙◌, ◌∷◌,
  ◌≡◌,
}
use xsr.Policy.Values.Strip.{strip_right-keeps}
use xsr.Policy.Reader.Lines.{
  indent_of, split_at, Reader, below_top, content_of, load_line, pop, popped,
}
use xsr.Policy.Reader.Written.{
  indented, IsKey, IsRaw, entry_text, header_text, is_key_char, row_text,
}
use xsr.Policy.Values.{is_space, strip_left, strip_right, strip}

-- The character `mark` does not stand in a text.
abbrev pub Lacks : ℕ → Text → Type 0
Lacks mark t = All (λ c. (c == mark) ≡ false) t

pub split_at-none : (mark : ℕ) (t : Text) → Lacks mark t → split_at mark t ≡ none
unfolding split_at
split_at-none mark [] h = refl
split_at-none mark (c ∷ cs) h = rw h.0 (rw (split_at-none mark cs h.1) refl)

pub split_at-first :
    (mark : ℕ) (front rest : Text)
    → Lacks mark front
    → split_at mark (front ++ mark ∷ rest) ≡ some (front, rest)
unfolding split_at
split_at-first mark [] rest h = ground arith
split_at-first mark (c ∷ cs) rest h = rw h.0 (rw (split_at-first mark cs rest h.1) refl)

indent_of-indented :
    (n c : ℕ) (cs : Text) → (c == b' ') ≡ false → indent_of (indented n (c ∷ cs)) ≡ n
unfolding indent_of
indent_of-indented zero c cs h = rw h refl
indent_of-indented (suc n) c cs h = omega (arith, indent_of-indented n c cs h)

strip_left-indented :
    (n c : ℕ) (cs : Text) → is_space c ≡ false → strip_left is_space (indented n (c ∷ cs)) ≡ c ∷ cs
unfolding strip_left is_space
strip_left-indented zero c cs h = rw h refl
strip_left-indented (suc n) c cs h = strip_left-indented n c cs h

pub Lacks-replicate :
    (mark n : ℕ) (t : Text) → (b' ' == mark) ≡ false → Lacks mark t → Lacks mark (indented n t)
Lacks-replicate mark zero t e h = h
Lacks-replicate mark (suc n) t e h = (e, Lacks-replicate mark n t e h)

-- A content that begins and ends with no blank.
pub record IsContent (t : Text) : Type 0 where
  pub first : next_is is_space t ≡ false
  pub filled : non_empty t ≡ true
  pub last : strip_right is_space t ≡ t
  pub no_comment : Lacks b'#' t

pub not_all_spaces :
    (t : Text) → next_is is_space t ≡ false → non_empty t ≡ true → all is_space t ≡ false
not_all_spaces [] h e = cc
not_all_spaces (c ∷ cs) h e = rw h refl

-- The characters in front of the content count as its indentation, and go.
module _ (n : ℕ) (t : Text) (content : IsContent t) where
  content_of-indented : content_of (indented n t) ≡ indented n t
  content_of-indented =
      rw (split_at-none b'#' (indented n t) (Lacks-replicate b'#' n t refl content.no_comment)) (
        strip_right-keeps (replicate n b' ') t (not_all_spaces t content.first content.filled)
        ∙ ap (λ x. replicate n b' ' ++ x) content.last)

indent_of-content : (n : ℕ) (t : Text) → IsContent t → indent_of (indented n t) ≡ n
unfolding is_space
indent_of-content n [] content = absurd (ground (arith, content.filled))
indent_of-content n (c ∷ cs) content = indent_of-indented n c cs (ground (arith, content.first))

pub strip-content : (n : ℕ) (t : Text) → IsContent t → strip is_space (indented n t) ≡ t
unfolding strip
strip-content n [] content = absurd (ground (arith, content.filled))
strip-content n (c ∷ cs) content = rw (strip_left-indented n c cs content.first) content.last

pub load_line-content :
    (r : Reader) (n : ℕ) (t : Text)
    → IsContent t
    → load_line r (indented n t) ≡ below_top (popped r n) n t (pop n r.stack)
unfolding load_line
load_line-content r n t content =
    rw (content_of-indented n t content)
      (rw (indent_of-content n t content) (rw (strip-content n t content) (rw content.filled refl)))

IsRaw-Lacks : (raw : Text) → IsRaw raw → Lacks b'#' raw
IsRaw-Lacks raw h = All-weaken (λ c. (c == b'#') ≡ false) (λ c e. ground (arith, e)) raw h.3

pub IsKey-Lacks :
    (mark : ℕ) (key : Text)
    → ((c : ℕ) → is_key_char c ≡ true → (c == mark) ≡ false)
    → IsKey key
    → Lacks mark key
IsKey-Lacks mark key h k = All-weaken (λ c. (c == mark) ≡ false) h key k.1

IsKey-colon : (key : Text) → IsKey key → Lacks b':' key
IsKey-colon key h = IsKey-Lacks b':' key (λ c e. ground (arith, e)) h

IsKey-comment : (key : Text) → IsKey key → Lacks b'#' key
IsKey-comment key h = IsKey-Lacks b'#' key (λ c e. ground (arith, e)) h

key_first : (key rest : Text) → IsKey key → next_is is_space (key ++ rest) ≡ false
key_first [] rest h = cc
key_first (c ∷ cs) rest h = ground (arith, h.1.0)

key_filled : (key rest : Text) → IsKey key → non_empty (key ++ rest) ≡ true
key_filled [] rest h = cc
key_filled (c ∷ cs) rest h = refl

pub entry_text-IsContent : (key raw : Text) → IsKey key → IsRaw raw → IsContent (entry_text key raw)
unfolding is_space strip_right
entry_text-IsContent key raw k v = record {
  first = key_first key (codes ": " ++ raw) k;
  filled = key_filled key (codes ": " ++ raw) k;
  last =
      strip_right-keeps key (codes ": " ++ raw) refl
      ∙ ap (λ x. key ++ x)
          (strip_right-keeps (codes ": ") raw (not_all_spaces raw v.1 v.0)
            ∙ ap (λ x. codes ": " ++ x) v.2);
  no_comment =
      All-append (λ c. (c == b'#') ≡ false) key (codes ": " ++ raw) (IsKey-comment key k)
        (refl, (refl, IsRaw-Lacks raw v));
}

pub header_text-IsContent : (key : Text) → IsKey key → IsContent (header_text key)
unfolding is_space strip_right
header_text-IsContent key k = record {
  first = key_first key (codes ":") k;
  filled = key_filled key (codes ":") k;
  last = strip_right-keeps key (codes ":") refl;
  no_comment =
      All-append (λ c. (c == b'#') ≡ false) key (codes ":") (IsKey-comment key k) (refl, tt);
}

pub row_text-IsContent : (t : Text) → IsContent t → IsContent (row_text t)
unfolding is_space strip_right
row_text-IsContent t content = record {
  first = refl;
  filled = refl;
  last =
      strip_right-keeps (codes "- ") t (not_all_spaces t content.first content.filled)
      ∙ ap (λ x. codes "- " ++ x) content.last;
  no_comment = (refl, (refl, content.no_comment));
}

pub IsRaw-IsContent : (raw : Text) → IsRaw raw → IsContent raw
IsRaw-IsContent raw h = record {
  first = h.1;
  filled = h.0;
  last = h.2;
  no_comment = IsRaw-Lacks raw h;
}

key_no_blank : (c : ℕ) → is_key_char c ≡ true → (c == b' ') ≡ false
unfolding is_space
key_no_blank c h = ground (arith, h)

-- A key begins no row.
pub no_row : (key rest : Text) → IsKey key → starts_with (key ++ b':' ∷ rest) (codes "- ") ≡ false
unfolding starts_with
no_row [] rest h = cc
no_row (c ∷ []) rest h = ground arith
no_row (c ∷ d ∷ key) rest h = rw (key_no_blank d h.1.1.0) (ground arith)

pub split_at-key :
    (key rest : Text) → IsKey key → split_at b':' (key ++ b':' ∷ rest) ≡ some (key, rest)
split_at-key key rest h = split_at-first b':' key rest (IsKey-colon key h)

pub has_char-Lacks : (mark : ℕ) (t : Text) → has_char mark t ≡ false → Lacks mark t
has_char-Lacks mark [] h = tt
has_char-Lacks mark (c ∷ cs) h =
    let parts = ||-eq-false (c == mark) _ h in (parts.0, has_char-Lacks mark cs parts.1)
