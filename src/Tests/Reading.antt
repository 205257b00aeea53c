-- ===== src/Tests/Reading.antt =====
-- Lines of config/policy_ngram.yaml, and what `load_policy` reads of them.
use xsr.Prelude.{
  All, All-weaken, Text, [], all, all-All, arith, codes, contains, ends_with, err, false, next_is,
  non_empty, not, not-eq-true, ok, pos, refl, true, ◌++◌, ◌>>=◌, ◌∷◌, ◌≡◌,
}
use xsr.Policy.Reader.Lines.Decorated.{
  Decorated, load_yaml-Decorated, none_left, with_line, with_tail,
}
use xsr.Policy.Reader.Scalar.Plain.{IsPlain, integer, quoted}
use xsr.Policy.Reader.Scalar.Bracketed.{parse_scalar-inline_text}
use xsr.Policy.Reader.Lines.Comments.{bare_lines}
use xsr.Policy.Reader.Written.RoundTrip.{load_yaml-body_lines}
use xsr.Policy.Reader.Written.{
  Body, BodyIsWritten, IsKey, IsRaw, body_lines, dict_entry, dict_row, fields_of, is_key_char,
  is_raw_char, list_entry, no_entries, no_rows, scalar_entry, scalar_row, file_text,
}
use xsr.Policy.Reader.Load.Accepted.{load_yaml-FieldsHaveShape, load_yaml-IsRaised}
use xsr.Policy.Reader.Lines.Steps.{IsRaised}
use xsr.Policy.Reader.Shape.{FieldsHaveShape}
use xsr.Policy.Reader.Scalar.{parse_scalar, scalar_fuel, is_quote}
use xsr.Policy.Reader.Scalar.Fuel.{scalar_fuel_enough}
use Prim.Native.String.{String}
use xsr.Policy.Reader.Lines.{item_without_list, entry_without_dict, cannot_parse, split_at}
use xsr.Policy.Reader.Load.{load_yaml, file_lines}
use xsr.Policy.Values.{
  Fields, Value, dict, end, field, item, list, nil, num, text, flag, is_space, strip_right, strip,
  show_int,
}

abbrev line : String → Text
line s = codes s ++ 10 ∷ []

abbrev named : String → Fields → Value
named name fields = dict (field (codes "name") (text (codes name)) fields)

abbrev sample_text : Text
sample_text =
    line "listeners:  # where"
    ++ line "  - name: http"
    ++ line "    port: 8899"
    ++ line ""
    ++ line "routing:"
    ++ line "  strategy: \"priority\""
    ++ line "  signals:"
    ++ line "    keywords:"
    ++ line "      - name: math"
    ++ line "        case_sensitive: false"
    ++ line "        keywords: [\"a, b\", sum]"
    ++ line "      - name: qa"

abbrev sample_signals : Value
sample_signals = list (
    item
      (named "math" (
        field (codes "case_sensitive") (flag false) (
          field (codes "keywords")
            (list (item (text (codes "a, b")) (item (text (codes "sum")) nil))) end)))
      (item (named "qa" end) nil))

abbrev sample_fields : Fields
sample_fields =
    field (codes "listeners")
      (list (item (named "http" (field (codes "port") (num (pos 8899)) end)) nil))
      (field (codes "routing")
        (dict (
          field (codes "strategy") (text (codes "priority"))
            (field (codes "signals") (dict (field (codes "keywords") sample_signals end)) end)))
        end)

sample_read : load_yaml sample_text ≡ ok sample_fields
unfolding load_yaml ◌>>=◌
sample_read = refl

-- A list stands below the keys of `LIST_KEYS` only.
unlisted_item : load_yaml (line "order:" ++ line "  - 2") ≡ err item_without_list
unfolding load_yaml ◌>>=◌
unlisted_item = refl

entry_in_list : load_yaml (line "routes:" ++ line "  name: a") ≡ err entry_without_dict
unfolding load_yaml ◌>>=◌
entry_in_list = refl

bare_text : load_yaml (line "routes") ≡ err cannot_parse
unfolding load_yaml ◌>>=◌
bare_text = refl

load_yaml-FieldsHaveShape_example : FieldsHaveShape sample_fields
load_yaml-FieldsHaveShape_example = load_yaml-FieldsHaveShape sample_text sample_fields sample_read

load_yaml-IsRaised_example : IsRaised item_without_list
load_yaml-IsRaised_example =
    load_yaml-IsRaised (line "order:" ++ line "  - 2") item_without_list unlisted_item

scalar_fuel_enough_example :
    scalar_fuel 30 (codes "[1, [2, x], \"a, b\"]") ≡ parse_scalar (codes "[1, [2, x], \"a, b\"]")
scalar_fuel_enough_example = scalar_fuel_enough 30 (codes "[1, [2, x], \"a, b\"]") (omega arith)

abbrev written_body : Body
written_body =
    list_entry (codes "routes")
      (dict_row (codes "name") (codes "math")
        (list_entry (codes "keywords") (scalar_row (codes "\"sum\"") no_rows) no_entries) no_rows)
      (dict_entry (codes "limits") (scalar_entry (codes "most") (codes "5") no_entries) no_entries)

written_text :
    file_text (body_lines 2 0 written_body)
    ≡ line "routes:"
      ++ line "  - name: math"
      ++ line "    keywords:"
      ++ line "      - \"sum\""
      ++ line "limits:"
      ++ line "  most: 5"
unfolding file_text body_lines
written_text = refl

is_key : (key : Text) → non_empty key ≡ true → all is_key_char key ≡ true → IsKey key
is_key key h e = (h, all-All is_key_char key e)

is_raw :
    (raw : Text)
    → non_empty raw ≡ true
    → next_is is_space raw ≡ false
    → strip_right is_space raw ≡ raw
    → all is_raw_char raw ≡ true
    → IsRaw raw
is_raw raw h f l e = (h, f, l, all-All is_raw_char raw e)

written_body-IsWritten : BodyIsWritten written_body
unfolding BodyIsWritten is_space strip_right contains
written_body-IsWritten = (
  is_key (codes "routes") refl refl,
  refl,
  (
    is_key (codes "name") refl refl,
    is_raw (codes "math") refl refl refl refl,
    (
      is_key (codes "keywords") refl refl,
      refl,
      (is_raw (codes "\"sum\"") refl refl refl refl, refl, tt),
      tt,
    ),
    tt,
  ),
  (
    is_key (codes "limits") refl refl,
    refl,
    (is_key (codes "most") refl refl, is_raw (codes "5") refl refl refl refl, tt),
    tt,
  ),
)

abbrev commented_text : Text
commented_text =
    line "# what is routed"
    ++ line "routes:   "
    ++ line "  - name: math # sums"
    ++ line "    keywords:"
    ++ line ""
    ++ line "      - \"sum\""
    ++ line "limits:"
    ++ line "  most: 5"

written_lines : bare_lines (file_lines [] commented_text) ≡ bare_lines (body_lines 2 0 written_body)
unfolding file_lines body_lines split_at strip strip_right is_space
written_lines = refl

load_yaml-body_lines_example : load_yaml commented_text ≡ ok (fields_of end written_body)
load_yaml-body_lines_example =
    load_yaml-body_lines commented_text 2 written_body (omega arith) written_body-IsWritten
      written_lines

-- Quotes do not keep a `#` or a `:` in the text.
hash_in_quotes :
    load_yaml (line "routes:" ++ line "  - \"c# code\"")
    ≡ ok (field (codes "routes") (list (item (text (codes "c")) nil)) end)
unfolding load_yaml ◌>>=◌ ends_with
hash_in_quotes = refl

colon_in_quotes :
    load_yaml (line "routes:" ++ line "  - \"a:b\"")
    ≡ ok (
        field
          (codes "routes")
          (list (item (dict (field (codes "\"a") (text (codes "b")) end)) nil))
          end)
unfolding load_yaml ◌>>=◌ ends_with
colon_in_quotes = refl

abbrev decorated_text : Text
decorated_text = line "a: 1  # one" ++ line "   # two" ++ line "b: 2"

two_lines-Decorated :
    Decorated (file_lines [] decorated_text) (file_lines [] (line "a: 1" ++ line "b: 2"))
unfolding file_lines is_space
two_lines-Decorated =
    with_tail (codes "a: 1") (codes "  # one") refl
      (with_line (codes "   # two") refl (with_tail (codes "b: 2") [] refl none_left))

load_yaml-Decorated_example : load_yaml decorated_text ≡ load_yaml (line "a: 1" ++ line "b: 2")
load_yaml-Decorated_example =
    load_yaml-Decorated decorated_text (line "a: 1" ++ line "b: 2") two_lines-Decorated

unquoted : (t : Text) → all (λ c. not (is_quote c)) t ≡ true → All (λ c. is_quote c ≡ false) t
unquoted t h =
    All-weaken (λ c. is_quote c ≡ false) (λ c e. not-eq-true (is_quote c) e) t
      (all-All (λ c. not (is_quote c)) t h)

two_values-IsPlain : All IsPlain (quoted (codes "a, [b]") ∷ integer (pos 7) ∷ [])
two_values-IsPlain = (unquoted (codes "a, [b]") refl, (tt, tt))

-- Brackets inside brackets are divided too.
nested_brackets :
    parse_scalar (codes "[[1, 2]]") ≡ list (item (text (codes "[1")) (item (text (codes "2]")) nil))
unfolding parse_scalar
nested_brackets = refl

parse_scalar-inline_text_example :
    parse_scalar (codes "[\"a, [b]\", 7]")
    ≡ list (item (text (codes "a, [b]")) (item (num (pos 7)) nil))
unfolding show_int
parse_scalar-inline_text_example =
    parse_scalar-inline_text (quoted (codes "a, [b]") ∷ integer (pos 7) ∷ []) two_values-IsPlain
