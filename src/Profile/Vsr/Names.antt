-- ===== src/Profile/Vsr/Names.antt =====
-- The stages that `parse_snapshot` of scripts/vsr_profile_components.py keeps.
use xsr.Prelude.{
  Bool-cases, List, Option, Text, [], ap, bind-eq-ok, inl, inr, none, ok, ok_injective, refl, some,
  sym, text_eq, ℕ, ◌∙◌, ◌∷◌, ◌≡◌,
}
use xsr.Profile.Vsr.Snapshot.{
  Metric, Sample, Values, match_sample, set_field, read_lines, full_values,
}
use xsr.Profile.Vsr.Decimal.{SnapshotError}
use xsr.Profile.Vsr.Stored.{Effect, read_line-Effect}
use xsr.Profile.Router.{Totals}

abbrev pub names_of {ℓ} : {A : Type ℓ} → List (Text × A) → List Text
names_of [] = []
names_of (t ∷ ts) = t.0 ∷ names_of ts

set_field-names :
    (metric : Metric) (n : ℕ) (stage : Text) (values : Values)
    → names_of (set_field metric n stage values) ≡ names_of values
unfolding set_field
set_field-names metric n stage [] = refl
set_field-names metric n stage ((s, c) ∷ values) = elim (Bool-cases (text_eq s stage)) [
  | inl e ↦ rw e refl
  | inr e ↦ rw e (ap (λ names. s ∷ names) (set_field-names metric n stage values))
]

Effect-names :
    (values next : Values) (o : Option Sample)
    → Effect values o next
    → names_of next ≡ names_of values
Effect-names values next none e = ap (λ v. names_of v) e
Effect-names values next (some s) t =
    ap (λ v. names_of v) t.stored ∙ set_field-names s.metric t.n s.stage values

pub read_lines-names :
    (values : Values) (lines : List Text) (final : Values)
    → read_lines values lines ≡ ok final
    → names_of final ≡ names_of values
unfolding read_lines
read_lines-names values [] final h =
    ap (λ v. names_of v) (sym (ok_injective SnapshotError values final h))
read_lines-names values (line ∷ lines) final h =
    let step = bind-eq-ok _ _ h in
    read_lines-names step.0 lines final step.2
    ∙ Effect-names values step.0 (match_sample line) (read_line-Effect values line step.0 step.1)

pub full_values-names :
    (values : Values) (totals : Totals)
    → full_values values ≡ ok totals
    → names_of totals ≡ names_of values
unfolding full_values
full_values-names [] totals h = ap (λ t. names_of t) (sym (ok_injective SnapshotError [] totals h))
full_values-names ((s, c) ∷ values) totals h =
    let here = bind-eq-ok _ _ h in
    let rest = bind-eq-ok _ _ here.2 in
    ap (λ t. names_of t) (sym (ok_injective SnapshotError ((s, here.0) ∷ rest.0) totals rest.2))
    ∙ ap (λ names. s ∷ names) (full_values-names values rest.0 rest.1)
