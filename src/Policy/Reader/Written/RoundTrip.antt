-- ===== src/Policy/Reader/Written/RoundTrip.antt =====
-- `load_policy` of benchmarks/policy/generate_keyword_header.py on the text of a written policy.
use xsr.Prelude.{
  All, All-append, All-weaken, List, Text, [], ap, append-nil, append_assoc, arith, codes, false,
  length, negsuc, ok, refl, sym, true, ℕ, ℤ, ◌++◌, ◌+◌, ◌<◌, ◌==◌, ◌>>=◌, ◌∙◌, ◌∷◌, ◌≡◌,
}
use xsr.Policy.Reader.Lines.Comments.{bare_lines, load_yaml-bare_lines}
use xsr.Policy.Reader.Cells.{dict_cell, fields_by, slot_value, set_cell}
use xsr.Policy.Reader.Written.Contents.{IsKey-Lacks, Lacks, Lacks-replicate}
use xsr.Policy.Reader.Written.Filled.{filled_dict, length-made_cells, made_cells}
use xsr.Policy.Reader.Lines.{pop, root_only}
use xsr.Policy.Reader.Load.{file_lines, load_yaml, policy_of}
use xsr.Policy.Reader.Written.Loading.{Stands}
use xsr.Policy.Reader.Written.ReadBack.{body_lines-Produces}
use xsr.Policy.Reader.Written.Resolved.{Holds-all, filled_dict-fields}
use xsr.Policy.Reader.Written.{
  Body, BodyIsWritten, IsKey, IsRaw, RowList, RowsAreWritten, body_lines, dict_entry, dict_row,
  entry_text, fields_of, header_text, indented, is_key_char, list_entry, no_entries, no_rows,
  row_lines, row_text, scalar_entry, scalar_row, file_text,
}
use xsr.Policy.Values.{end, is_space}

file_lines-line :
    (front line rest : Text)
    → Lacks 10 line
    → file_lines front (line ++ 10 ∷ rest) ≡ (front ++ line) ∷ file_lines [] rest
unfolding file_lines
file_lines-line front [] rest h = rw (append-nil front) refl
file_lines-line front (c ∷ line) rest h = rw h.0 (
    file_lines-line (front ++ c ∷ []) line rest h.1
    ∙ ap (λ x. x ∷ file_lines [] rest) (append_assoc front (c ∷ []) line))

file_lines-file_text :
    (lines : List Text) → All (Lacks 10) lines → file_lines [] (file_text lines) ≡ lines
unfolding file_lines file_text
file_lines-file_text [] h = refl
file_lines-file_text (line ∷ lines) h =
    file_lines-line [] line (file_text lines) h.0
    ∙ ap (λ x. line ∷ x) (file_lines-file_text lines h.1)

key_char-line : (c : ℕ) → is_key_char c ≡ true → (c == 10) ≡ false
unfolding is_space
key_char-line c h = ground (arith, h)

-- A key, and what stands behind it.
key-Lacks : (key rest : Text) → IsKey key → Lacks 10 rest → Lacks 10 (key ++ rest)
key-Lacks key rest k h =
    All-append (λ c. (c == 10) ≡ false) key rest (IsKey-Lacks 10 key key_char-line k) h

raw-Lacks : (raw : Text) → IsRaw raw → Lacks 10 raw
raw-Lacks raw h = All-weaken (λ c. (c == 10) ≡ false) (λ c e. ground (arith, e)) raw h.3

entry_text-Lacks : (key raw : Text) → IsKey key → IsRaw raw → Lacks 10 (entry_text key raw)
entry_text-Lacks key raw k v = key-Lacks key (codes ": " ++ raw) k (refl, (refl, raw-Lacks raw v))

indented-Lacks : (n : ℕ) (t : Text) → Lacks 10 t → Lacks 10 (indented n t)
indented-Lacks n t h = Lacks-replicate 10 n t refl h

module _ (width : ℕ) where
  mutual
    unfolding body_lines BodyIsWritten

    body_lines-Lacks :
        (n : ℕ) (body : Body) → BodyIsWritten body → All (Lacks 10) (body_lines width n body)
    body_lines-Lacks n no_entries w = tt
    body_lines-Lacks n (scalar_entry key raw rest) w = (
      indented-Lacks n (entry_text key raw) (entry_text-Lacks key raw w.0 w.1),
      body_lines-Lacks n rest w.2,
    )
    body_lines-Lacks n (dict_entry key body rest) w = (
      indented-Lacks n (header_text key) (key-Lacks key (codes ":") w.0 (refl, tt)),
      All-append (Lacks 10) (body_lines width (n + width) body) (body_lines width n rest)
          (body_lines-Lacks (n + width) body w.2) (body_lines-Lacks n rest w.3),
    )
    body_lines-Lacks n (list_entry key rows rest) w = (
      indented-Lacks n (header_text key) (key-Lacks key (codes ":") w.0 (refl, tt)),
      All-append (Lacks 10) (row_lines width (n + width) rows) (body_lines width n rest)
          (row_lines-Lacks (n + width) rows w.2) (body_lines-Lacks n rest w.3),
    )

    row_lines-Lacks :
        (n : ℕ) (rows : RowList) → RowsAreWritten rows → All (Lacks 10) (row_lines width n rows)
    row_lines-Lacks n no_rows w = tt
    row_lines-Lacks n (scalar_row raw rows) w = (
      indented-Lacks n (row_text raw) (refl, (refl, raw-Lacks raw w.0)),
      row_lines-Lacks n rows w.2,
    )
    row_lines-Lacks n (dict_row key raw body rows) w = (
      indented-Lacks n (row_text (entry_text key raw))
          (refl, (refl, entry_text-Lacks key raw w.0 w.1)),
      All-append (Lacks 10) (body_lines width (n + width) body) (row_lines width n rows)
          (body_lines-Lacks (n + width) body w.2) (row_lines-Lacks n rows w.3),
    )

-- What the reader's containers stand for when it has read the lines.
policy_of-filled :
    (body : Body) (stack : List (ℤ × ℕ))
    → policy_of
        (record { cells = dict_cell (filled_dict 1 [] body) ∷ made_cells 1 body; stack = stack })
      ≡ ok (fields_of end body)
unfolding slot_value fields_by
policy_of-filled body stack =
    let cells = dict_cell (filled_dict 1 [] body) ∷ made_cells 1 body in
    let count = length-made_cells 1 body in
    let read =
      filled_dict-fields cells (length (made_cells 1 body)) 1 body [] end (Holds-all cells).1
        (omega (arith, count)) refl in
    rw read refl

root_only-Stands : Stands 0 (dict_cell []) root_only (negsuc 0) 0 []
unfolding pop
root_only-Stands = record { on_top = refl; holds = refl }

load_yaml-file_text :
    (width : ℕ) (body : Body)
    → 0 < width
    → BodyIsWritten body
    → load_yaml (file_text (body_lines width 0 body)) ≡ ok (fields_of end body)
unfolding load_yaml set_cell ◌>>=◌
load_yaml-file_text width body wide w =
    let lines = body_lines width 0 body in
    let read =
      body_lines-Produces width wide 0 body [] w root_only (negsuc 0) 0 [] root_only-Stands in
    rw (file_lines-file_text lines (body_lines-Lacks width 0 body w))
      (rw read.loaded (policy_of-filled body read.stack))

-- A file whose lines, but for comments, the blanks at line ends and blank lines, are those of a
-- written policy is read as the policy's recursive meaning: a scalar below its key, a dict or a list
-- of the parts that are further in, a later value of a key in place of an earlier one. The indentation
-- grows by any positive width; keys hold no blank, `:` or `#`; values hold no `#` and, in a list of
-- scalars, no `:`; lists stand below the keys of `LIST_KEYS` and dicts below the others.
pub load_yaml-body_lines :
    (contents : Text) (width : ℕ) (body : Body)
    → 0 < width
    → BodyIsWritten body
    → bare_lines (file_lines [] contents) ≡ bare_lines (body_lines width 0 body)
    → load_yaml contents ≡ ok (fields_of end body)
load_yaml-body_lines contents width body wide w h =
    let lines = body_lines width 0 body in
    load_yaml-bare_lines contents (file_text lines)
      (h ∙ ap bare_lines (sym (file_lines-file_text lines (body_lines-Lacks width 0 body w))))
    ∙ load_yaml-file_text width body wide w
