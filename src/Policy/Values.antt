-- ===== src/Policy/Values.antt =====
-- What a YAML policy loads to: `parse_scalar` and `load_policy` of generate_keyword_header.py build
-- texts, integers, Booleans, lists and dicts with text keys, and nothing else.
-- Python's `repr` of a list or a dict, which `str` uses, is the parameter `show`.
pub mod Decimal
pub mod Strip
use xsr.Prelude.{
  Bool, List, Option, Text, [], all, arith, codes, false, if◌then◌else◌, is_digit, leb, ltb, negsuc,
  next_is, none, pos, refl, some, suc, text_eq, text_eq_iff, true, zero, ℕ, ℤ, ◌%◌, ◌&&◌, ◌*◌, ◌+◌,
  ◌-◌, ◌/◌, ◌==◌, ◌||◌, ◌∷◌, ◌≡◌,
}

mutual
  pub data Value : Type 0 where
    text : Text → Value
    num : ℤ → Value
    flag : Bool → Value
    list : Items → Value
    dict : Fields → Value

  pub data Items : Type 0 where
    nil : Items
    item : Value → Items → Items

  pub data Fields : Type 0 where
    end : Fields
    field : Text → Value → Fields → Fields

abbrev pub to_list : Items → List Value
to_list nil = []
to_list (item v vs) = v ∷ to_list vs

abbrev pub from_list : List Value → Items
from_list [] = nil
from_list (v ∷ vs) = item v (from_list vs)

-- d.get(key)
unfoldable pub get : Fields → Text → Option Value
get end key = none
get (field k v fields) key = if text_eq k key then some v else get fields key

-- d[key] = value
unfoldable pub put : Fields → Text → Value → Fields
put end key value = field key value end
put (field k v fields) key value =
    if text_eq k key then field k value fields else field k v (put fields key value)

pub get-put :
    (fields : Fields) (key other : Text) (value : Value)
    → get (put fields key value) other
      ≡ (if text_eq key other then some value else get fields other)
unfolding get put
get-put end key other value = refl
get-put (field k v fields) key other value = ground (
  arith,
  text_eq_iff k key,
  text_eq_iff k other,
  text_eq_iff key other,
  get-put fields key other value,
)

abbrev pub digit_fuel : ℕ → ℕ → Text → Text
digit_fuel zero n shown = shown
digit_fuel (suc fuel) n shown =
    let more = digit_fuel fuel (n / 10) ((b'0' + n % 10) ∷ shown) in
    if ltb n 10 then (b'0' + n) ∷ shown else more

-- str(n): a number below 10 ^ k has k digits, and n < 10 ^ (n + 1).
unfoldable pub show_nat : ℕ → Text
show_nat n = digit_fuel (n + 1) n []

unfoldable pub show_int : ℤ → Text
unfolding show_nat
show_int (pos n) = show_nat n
show_int (negsuc n) = b'-' ∷ show_nat (suc n)

-- bool(value)
unfoldable pub truthy : Value → Bool
truthy (text []) = false
truthy (text (c ∷ cs)) = true
truthy (num (pos zero)) = false
truthy (num (pos (suc n))) = true
truthy (num (negsuc n)) = true
truthy (flag b) = b
truthy (list nil) = false
truthy (list (item v vs)) = true
truthy (dict end) = false
truthy (dict (field k v fields)) = true

-- isinstance(value, dict), isinstance(value, list)
abbrev pub as_dict : Value → Option Fields
as_dict (dict fields) = some fields
as_dict _ = none

abbrev pub as_list : Value → Option (List Value)
as_list (list items) = some (to_list items)
as_list _ = none

-- str(value)
unfoldable pub to_str : (Value → Text) → Value → Text
unfolding show_int
to_str show (text t) = t
to_str show (num n) = show_int n
to_str show (flag true) = codes "True"
to_str show (flag false) = codes "False"
to_str show (list items) = show (list items)
to_str show (dict fields) = show (dict fields)

-- Characters that `str.strip` removes.
unfoldable pub is_space : ℕ → Bool
is_space c =
    (leb 9 c && leb c 13)
    || (leb 28 c && leb c 32)
    || c == 133
    || c == 160
    || c == 5760
    || (leb 8192 c && leb c 8202)
    || c == 8232
    || c == 8233
    || c == 8239
    || c == 8287
    || c == 12288

unfoldable pub strip_left : (ℕ → Bool) → Text → Text
strip_left test [] = []
strip_left test (c ∷ cs) = if test c then strip_left test cs else c ∷ cs

unfoldable pub strip_right : (ℕ → Bool) → Text → Text
strip_right test [] = []
strip_right test (c ∷ cs) = if all test (c ∷ cs) then [] else c ∷ strip_right test cs

-- text.strip(characters)
unfoldable pub strip : (ℕ → Bool) → Text → Text
unfolding strip_left strip_right
strip test t = strip_right test (strip_left test t)

-- The digits that `int` reads, of which two may have an underscore between them.
unfoldable pub read_digits : ℕ → Text → Option ℕ
read_digits n [] = some n
read_digits n (c ∷ cs) =
    let next = if is_digit c then n * 10 + (c - b'0') else n in
    let later = read_digits next cs in
    if is_digit c || (c == b'_' && next_is is_digit cs) then later else none

abbrev read_magnitude : Text → Option ℕ
read_magnitude t = if next_is is_digit t then read_digits 0 t else none

abbrev negate : ℕ → ℤ
negate zero = pos zero
negate (suc n) = negsuc n

abbrev map_option {ℓ κ} : {A : Type ℓ} {B : Type κ} → (A → B) → Option A → Option B
map_option f none = none
map_option f (some a) = some (f a)

unfoldable pub read_signed : Text → Option ℤ
unfolding read_digits
read_signed [] = none
read_signed (c ∷ cs) =
    if c == b'-'
    then map_option negate (read_magnitude cs)
    else if c == b'+'
    then map_option pos (read_magnitude cs)
    else map_option pos (read_magnitude (c ∷ cs))

-- int(value), for texts in ASCII; `none` where it raises.
unfoldable pub to_int : Value → Option ℤ
unfolding read_signed strip is_space
to_int (text t) = read_signed (strip is_space t)
to_int (num n) = some n
to_int (flag true) = some (pos 1)
to_int (flag false) = some (pos 0)
to_int _ = none
