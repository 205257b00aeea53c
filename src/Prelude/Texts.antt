-- ===== src/Prelude/Texts.antt =====
-- A Python `str` (or `bytes`) as the list of its code points (or byte values).
use mathlib.Core.List.{◌++◌, List, [], ◌∷◌, map}
use mathlib.Core.Bool.{Bool, true, false, ◌&&◌, ◌||◌}
use Prim.Native.Char.{code}
use Prim.Native.String.{String}
use Prim.Native.Nat.{ℕ, ◌+◌, ◌-◌, ◌≤◌}
use mathlib.Core.Path.{subst, ◌≡◌, refl, ap}
use mathlib.Core.Logic.{inl, inr, ◌↔◌}
use mathlib.Core.Option.{Option, none, some}
use native.Mathlib.Omega.{arith}
use xsr.Prelude.Tests.{Bool-cases, ltb, leb, ◌==◌, if◌then◌else◌}
use xsr.Prelude.Lists.{All-weaken, All, any, all, length, take, drop, length-drop}

abbrev pub Text : Type 0
Text = List ℕ

abbrev pub codes : String → Text
codes String.[] = []
codes (String.◌∷◌ c s) = code c ∷ codes s

-- a == b
unfoldable pub text_eq : Text → Text → Bool
text_eq [] [] = true
text_eq (x ∷ xs) (y ∷ ys) = x == y && text_eq xs ys
text_eq _ _ = false

pub text_eq_iff : (a b : Text) → (text_eq a b ≡ true) ↔ (a ≡ b)
unfolding text_eq
text_eq_iff (x ∷ a) (y ∷ b) = ground (arith, text_eq_iff a b)
text_eq_iff _ _ = ground arith

pub text_eq_refl : (a : Text) → text_eq a a ≡ true
text_eq_refl a = (text_eq_iff a a).1 refl

-- s.startswith(p)
unfoldable pub starts_with : Text → Text → Bool
starts_with s [] = true
starts_with [] (y ∷ ys) = false
starts_with (x ∷ xs) (y ∷ ys) = x == y && starts_with xs ys

-- s.endswith(p)
unfoldable pub ends_with : Text → Text → Bool
unfolding text_eq
ends_with s p = text_eq (drop (length s - length p) s) p

pub ends_with-le : (s p : Text) → ends_with s p ≡ true → length p ≤ length s
unfolding ends_with
ends_with-le s p h = omega (
  arith,
  length-drop {0} (length s - length p) s,
  ap length ((text_eq_iff (drop (length s - length p) s) p).0 h),
)

-- s[:-n], for 0 < n
abbrev pub drop_last : ℕ → Text → Text
drop_last n s = take (length s - n) s

-- x in table, for a tuple or a set of texts
unfoldable pub contains : List Text → Text → Bool
unfolding text_eq
contains [] x = false
contains (y ∷ ys) x = text_eq y x || contains ys x

-- table.get(x), for a dict with text keys
unfoldable pub find_key {ℓ} : {V : Type ℓ} → List (Text × V) → Text → Option V
unfolding text_eq
find_key [] x = none
find_key ((k, v) ∷ m) x = if text_eq k x then some v else find_key m x

-- str.lower() and str.upper() of ASCII text
unfoldable pub lower_char : ℕ → ℕ
lower_char c = if leb b'A' c && leb c b'Z' then c + 32 else c

unfoldable pub upper_char : ℕ → ℕ
upper_char c = if leb b'a' c && leb c b'z' then c - 32 else c

abbrev pub lower : Text → Text
lower = map lower_char

abbrev pub upper : Text → Text
upper = map upper_char

unfoldable pub is_digit : ℕ → Bool
is_digit c = leb b'0' c && leb c b'9'

abbrev pub next_is : (ℕ → Bool) → Text → Bool
next_is test [] = false
next_is test (c ∷ cs) = test c

abbrev pub has_char : ℕ → Text → Bool
has_char c = any (λ x. x == c)

abbrev pub non_empty : Text → Bool
non_empty [] = false
non_empty (c ∷ cs) = true

abbrev pub is_ascii : Text → Bool
is_ascii = all (λ c. ltb c 128)

abbrev pub DistinctTexts : List Text → Type 0
DistinctTexts [] = Unit
DistinctTexts (x ∷ xs) = (contains xs x ≡ false) × DistinctTexts xs

pub contains-append :
    (xs : List Text) (y x : Text) → contains (xs ++ y ∷ []) x ≡ (contains xs x || text_eq y x)
unfolding contains
contains-append [] y x = ground arith
contains-append (z ∷ xs) y x = ground (arith, contains-append xs y x)

pub contains-++ :
    (xs ys : List Text) (x : Text) → contains (xs ++ ys) x ≡ (contains xs x || contains ys x)
unfolding contains
contains-++ [] ys x = refl
contains-++ (z ∷ xs) ys x = ground (arith, contains-++ xs ys x)

-- A predicate that holds of each member holds of each text that the list contains.
pub All-contains :
    (P : Text → Type 0) (xs : List Text) (x : Text) → All P xs → contains xs x ≡ true → P x
unfolding contains
All-contains P [] x h e = cc
All-contains P (y ∷ xs) x h e = elim (Bool-cases (text_eq y x)) [
  | inl hit ↦ subst P ((text_eq_iff y x).0 hit) h.0
  | inr miss ↦ All-contains P xs x h.1 (rw miss at e)
]

pub members : (ks : List Text) → All (λ k. contains ks k ≡ true) ks
unfolding contains
members [] = tt
members (k ∷ ks) = (
  rw (text_eq_refl k),
  All-weaken (λ x. contains (k ∷ ks) x ≡ true) (λ x e. ground (arith, e)) ks (members ks),
)
