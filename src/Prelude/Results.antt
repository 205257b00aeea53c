-- ===== src/Prelude/Results.antt =====
-- Python functions that may raise: `err` carries which `raise` statement was reached.
use mathlib.Core.Path.{◌≡◌, refl, subst, ap}
use native.Mathlib.Omega.{arith}
use mathlib.Core.Bool.{Bool, true, false}

pub data Result {ℓ} (E A : Type ℓ) : Type ℓ where
  ok : A → Result E A
  err : E → Result E A

module _ {ℓ} {E A B : Type ℓ} where
  infixl 5 ◌>>=◌
  unfoldable pub ◌>>=◌ : Result E A → (A → Result E B) → Result E B
  ok a >>= f = f a
  err e >>= f = err e

  -- Inversion of a successful bind.
  pub bind-eq-ok :
      (m : Result E A) (f : A → Result E B) {b : B}
      → (m >>= f) ≡ ok b
      → (a : A) × (m ≡ ok a) × (f a ≡ ok b)
  unfolding ◌>>=◌
  bind-eq-ok (ok a) f h = (a, refl, h)
  bind-eq-ok (err e) f h = cc

-- A function returns a value.
abbrev pub Returns {ℓ} : {E A : Type ℓ} → Result E A → Type ℓ
Returns {A} m = (a : A) × (m ≡ ok a)

pub Returns-bind {ℓ} :
    {E A B : Type ℓ} (m : Result E A) (f : A → Result E B)
    → Returns m
    → ((a : A) → Returns (f a))
    → Returns (m >>= f)
unfolding ◌>>=◌
Returns-bind (ok a) f h k = k a
Returns-bind (err e) f h k = absurd (ground (arith, h.1))

abbrev ok_or {ℓ} : {E A : Type ℓ} → A → Result E A → A
ok_or b (ok a) = a
ok_or b (err e) = b

pub ok_injective {ℓ} :
    (E : Type ℓ) {A : Type ℓ} (a b : A) → ◌≡◌ {A = Result E A} (ok a) (ok b) → a ≡ b
ok_injective E a b h = ap (λ m. ok_or a m) h

module _ {E B : Type 0} where
  infixl 5 ◌>>◌
  abbrev pub ◌>>◌ : Result E (Unit {0}) → Result E B → Result E B
  m >> k = m >>= λ _. k

-- `if bad: raise e`
abbrev pub refuse : {E : Type 0} → Bool → E → Result E (Unit {0})
refuse true e = err e
refuse false e = ok tt

pub refuse-eq-ok : {E : Type 0} (b : Bool) (e : E) {u : Unit {0}} → refuse b e ≡ ok u → b ≡ false
refuse-eq-ok true e h = cc
refuse-eq-ok false e h = refl

-- What holds of the value, where a function returns one.
pub record Ensures {E A : Type 0} (P : A → Type 0) (m : Result E A) : Type 0 where
  pub at : (a : A) → m ≡ ok a → P a

module _ {E A B : Type 0} (P : B → Type 0) where
  pub Ensures-bind :
      (m : Result E A) (f : A → Result E B)
      → ((a : A) → m ≡ ok a → Ensures P (f a))
      → Ensures P (m >>= f)
  unfolding ◌>>=◌
  Ensures-bind (ok a) f h = h a refl
  Ensures-bind (err e) f h = record { at = λ b q. cc }

pub Ensures-ok : {E A : Type 0} (P : A → Type 0) (a : A) → P a → Ensures {E = E} P (ok a)
Ensures-ok P a p = record { at = λ b q. subst P (ground (arith, q)) p }

pub Ensures-refuse :
    {E B : Type 0} (P : B → Type 0) (b : Bool) (e : E) (k : Result E B)
    → (b ≡ false → Ensures P k)
    → Ensures P (refuse b e >> k)
unfolding ◌>>=◌
Ensures-refuse P true e k h = record { at = λ b q. cc }
Ensures-refuse P false e k h = h refl
