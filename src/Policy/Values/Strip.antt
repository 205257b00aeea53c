-- ===== src/Policy/Values/Strip.antt =====
-- What `str.strip` leaves.
use xsr.Prelude.{
  All, Bool, List, Text, [], all, ap, append_assoc, arith, false, refl, true, ◌&&◌, ◌++◌, ◌∙◌, ◌∷◌,
  ◌≡◌,
}
use xsr.Policy.Values.{strip_right, is_space}

pub all-append :
    {A : Type 0} (p : A → Bool) (xs ys : List A) → all p (xs ++ ys) ≡ (all p xs && all p ys)
all-append p [] ys = refl
all-append p (x ∷ xs) ys = ground (arith, all-append p xs ys)

-- A text behind which `strip` removes everything that may go, and nothing of itself.
abbrev pub Closed : Text → Type 0
Closed t = (rest : Text) → all is_space rest ≡ true → strip_right is_space (t ++ rest) ≡ t

pub strip_right-all : (rest : Text) → all is_space rest ≡ true → strip_right is_space rest ≡ []
unfolding strip_right
strip_right-all [] h = refl
strip_right-all (c ∷ rest) h = rw h refl

all-behind : (front t : Text) → all is_space t ≡ false → all is_space (front ++ t) ≡ false
all-behind front t h = rw (all-append is_space front t) (rw h (ground arith))

pub all-before : (t rest : Text) → all is_space t ≡ false → all is_space (t ++ rest) ≡ false
all-before t rest h = rw (all-append is_space t rest) (rw h refl)

pub strip_right-keeps :
    (front t : Text)
    → all is_space t ≡ false
    → strip_right is_space (front ++ t) ≡ front ++ strip_right is_space t
unfolding strip_right
strip_right-keeps [] t h = refl
strip_right-keeps (c ∷ front) t h =
    let seen : all is_space (c ∷ front ++ t) ≡ false = all-behind (c ∷ front) t h in
    rw seen (ap (λ x. c ∷ x) (strip_right-keeps front t h))

pub Unbroken-Closed : (t : Text) → All (λ c. is_space c ≡ false) t → Closed t
unfolding strip_right
Unbroken-Closed [] u rest h = strip_right-all rest h
Unbroken-Closed (c ∷ t) u rest h = rw u.0 (ap (λ x. c ∷ x) (Unbroken-Closed t u.1 rest h))

pub Closed-append : (front t : Text) → all is_space t ≡ false → Closed t → Closed (front ++ t)
Closed-append front t h closed rest r = rw (append_assoc front t rest) (
    strip_right-keeps front (t ++ rest) (all-before t rest h)
    ∙ ap (λ x. front ++ x) (closed rest r))
