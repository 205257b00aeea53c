-- ===== src/Profile/Router/Lines.antt =====
-- What `strip` and `splitlines` make of lines that the router writes.
use xsr.Prelude.{
  All, All-append, All-weaken, List, Text, [], all, ap, append-nil, append_assoc, arith, false,
  non_empty, refl, sym, true, ℕ, ◌++◌, ◌∙◌, ◌∷◌, ◌≡◌,
}
use xsr.Policy.Values.{is_space, strip_right}
use xsr.Profile.Router.{splitlines, lines_from, is_line_break}
use xsr.Profile.Router.Answer.{unlines, join_fields, field_text}
use xsr.Profile.Router.Written.{Key, field_text-Unbroken, field_text-non_empty}
use xsr.Policy.Values.Strip.{Closed, Unbroken-Closed, Closed-append, strip_right-keeps, all-before}

-- A line that is not blank and that neither `splitlines` nor `strip` takes apart.
pub record Line (t : Text) : Type 0 where
  pub unbroken : All (λ c. is_line_break c ≡ false) t
  pub non_blank : all is_space t ≡ false
  pub closed : Closed t

break-space : (c : ℕ) → is_space c ≡ false → is_line_break c ≡ false
unfolding is_space is_line_break
break-space c h = ground arith

Unbroken-non_blank :
    (t : Text) → All (λ c. is_space c ≡ false) t → non_empty t ≡ true → all is_space t ≡ false
Unbroken-non_blank [] u h = cc
Unbroken-non_blank (c ∷ t) u h = rw u.0 refl

field_text-Line : (f : Text × ℕ) → Key f → Line (field_text f)
field_text-Line f h =
    let u = field_text-Unbroken f h in
    record {
      unbroken = All-weaken _ break-space (field_text f) u;
      non_blank = Unbroken-non_blank (field_text f) u (field_text-non_empty f);
      closed = Unbroken-Closed (field_text f) u;
    }

blank-in_front : (c : ℕ) (t : Text) → all is_space t ≡ false → all is_space (c ∷ t) ≡ false
blank-in_front c t h = ground (arith, h)

pub join_fields-Line :
    (f : Text × ℕ) (fs : List (Text × ℕ)) → All Key (f ∷ fs) → Line (join_fields (f ∷ fs))
unfolding join_fields is_line_break
join_fields-Line f [] h = field_text-Line f h.0
join_fields-Line f (g ∷ fs) h =
    let first = field_text-Line f h.0 in
    let rest = join_fields-Line g fs h.1 in
    let spaced = blank-in_front (b' ') _ rest.non_blank in
    record {
      unbroken = All-append _ (field_text f) _ first.unbroken (refl, rest.unbroken);
      non_blank = all-before (field_text f) _ first.non_blank;
      closed =
          Closed-append (field_text f) _ spaced
            (Closed-append (b' ' ∷ []) _ rest.non_blank rest.closed);
    }

lines_from-plain :
    (line t rest : Text)
    → All (λ c. is_line_break c ≡ false) t
    → lines_from false line (t ++ rest) ≡ lines_from false (line ++ t) rest
unfolding lines_from
lines_from-plain line [] rest h = rw (append-nil line) refl
lines_from-plain line (c ∷ t) rest h =
    rw h.0 (lines_from-plain (line ++ c ∷ []) t rest h.1 ∙ rw (append_assoc line (c ∷ []) t) refl)

unlines-non_blank : (l : Text) (ls : List Text) → Line l → all is_space (unlines (l ∷ ls)) ≡ false
unfolding unlines
unlines-non_blank l ls h = all-before l _ h.non_blank

non_blank-non_empty : (t : Text) → all is_space t ≡ false → non_empty t ≡ true
non_blank-non_empty [] h = cc
non_blank-non_empty (c ∷ t) h = refl

lines_from-last : (l : Text) → Line l → lines_from false [] l ≡ l ∷ []
unfolding lines_from
lines_from-last l h =
    ap (lines_from false []) (sym (append-nil l))
    ∙ lines_from-plain [] l [] h.unbroken
    ∙ rw (non_blank-non_empty l h.non_blank) refl

-- The lines are read back from the text without its last newline.
pub splitlines-unlines :
    (l : Text) (ls : List Text)
    → All Line (l ∷ ls)
    → splitlines (strip_right is_space (unlines (l ∷ ls))) ≡ l ∷ ls
unfolding unlines splitlines lines_from is_line_break is_space
splitlines-unlines l [] h =
    ap (lines_from false []) (h.0.closed (10 ∷ []) refl) ∙ lines_from-last l h.0
splitlines-unlines l (m ∷ ls) h =
    ap (lines_from false []) (
      strip_right-keeps l (10 ∷ unlines (m ∷ ls))
        (blank-in_front 10 (unlines (m ∷ ls)) (unlines-non_blank m ls h.1.0)))
    ∙ lines_from-plain [] l _ h.0.unbroken
    ∙ ap (lines_from false l)
        (strip_right-keeps (10 ∷ []) (unlines (m ∷ ls)) (unlines-non_blank m ls h.1.0))
    ∙ ap (λ x. l ∷ x) (splitlines-unlines m ls h.1)
