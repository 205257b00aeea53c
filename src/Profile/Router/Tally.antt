-- ===== src/Profile/Router/Tally.antt =====
-- What the totals of `aggregate_response` in scripts/sk_profile_components.py are: the sums over the
-- CPU rows, whatever their order is.
use xsr.Prelude.{
  All, List, Option, Text, [], ap, bind-eq-ok, codes, false, find_key, leb, map, none, ok,
  ok_injective, refl, refuse-eq-ok, some, sym, ||-eq-false, ℕ, ◌++◌, ◌+◌, ◌>>=◌, ◌∙◌, ◌∷◌, ◌≡◌,
}
use xsr.Profile.Router.{
  ProfileError, FieldTable, Metrics, Totals, natural_of, or_error, add_row, add_lines, has_cpu,
  parse_fields, stages,
}

abbrev value_or_zero : Option ℕ → ℕ
value_or_zero none = 0
value_or_zero (some n) = n

abbrev pub count_in : FieldTable → Text → Option ℕ
count_in row stage = natural_of (find_key row (stage ++ codes "_count"))

abbrev pub total_in : FieldTable → Text → Option ℕ
total_in row stage = natural_of (find_key row (stage ++ codes "_total_ns"))

-- What a row measures of a stage.
abbrev pub measured : FieldTable → Text → Metrics
measured row stage = record {
  count = value_or_zero (count_in row stage);
  total_ns = value_or_zero (total_in row stage);
}

abbrev pub IsMeasured : FieldTable → Text → Type 0
IsMeasured row stage =
    ((n : ℕ) × (count_in row stage ≡ some n)) × ((n : ℕ) × (total_in row stage ≡ some n))

abbrev pub plus : Metrics → Metrics → Metrics
plus a b = record { count = a.count + b.count; total_ns = a.total_ns + b.total_ns }

abbrev pub totals_of : List Text → (Text → Metrics) → Totals
totals_of names f = map (λ stage. (stage, f stage)) names

pub or_error-eq-ok :
    {A : Type 0} (o : Option A) (e : ProfileError) {a : A} → or_error o e ≡ ok a → o ≡ some a
or_error-eq-ok none e h = cc
or_error-eq-ok (some b) e h = cc

add_row-ok :
    (row : FieldTable) (f : Text → Metrics) (names : List Text)
    → All (IsMeasured row) names
    → add_row row (totals_of names f)
      ≡ ok (totals_of names (λ stage. plus (f stage) (measured row stage)))
unfolding add_row ◌>>=◌
add_row-ok row f [] h = refl
add_row-ok row f (stage ∷ names) h = rw h.0.0.1 (rw h.0.1.1 (rw (add_row-ok row f names h.1) refl))

add_row-inversion :
    (row : FieldTable) (f : Text → Metrics) (names : List Text) {next : Totals}
    → add_row row (totals_of names f) ≡ ok next
    → All (IsMeasured row) names
unfolding add_row
add_row-inversion row f [] h = tt
add_row-inversion row f (stage ∷ names) h =
    let count = bind-eq-ok _ _ h in
    let total = bind-eq-ok _ _ count.2 in
    let rest = bind-eq-ok _ _ total.2 in
    (
      ((count.0, or_error-eq-ok _ _ count.1), (total.0, or_error-eq-ok _ _ total.1)),
      add_row-inversion row f names rest.1,
    )

-- A row of a CPU below `cpu_count`, with the fields that it parses to.
pub record CpuRow (cpu_count : ℕ) (line : Text) : Type 0 where
  pub fields : FieldTable
  pub cpu : ℕ
  pub parsed : parse_fields line ≡ ok fields
  pub cpu_field : natural_of (find_key fields (codes "cpu")) ≡ some cpu
  pub below : leb cpu_count cpu ≡ false
  pub complete : All (IsMeasured fields) stages

-- What the totals are behind a row, for totals that `f` gives.
abbrev pub behind_row : (Text → Metrics) → FieldTable → Text → Metrics
behind_row f fields stage = plus (f stage) (measured fields stage)

-- A row that is taken, and the totals behind it.
pub record Taken (cpu_count : ℕ) (seen : List ℕ) (f : Text → Metrics) (line : Text)
    (lines : List Text) (totals : Totals) : Type 0 where
  pub row : CpuRow cpu_count line
  pub unseen : has_cpu seen row.cpu ≡ false
  pub later :
      add_lines cpu_count (row.cpu ∷ seen) (totals_of stages (behind_row f row.fields)) lines
      ≡ ok totals

module _ (cpu_count : ℕ) where
  pub take_row :
      (seen : List ℕ) (f : Text → Metrics) (line : Text) (lines : List Text) {totals : Totals}
      → Taken cpu_count seen f line lines totals
      → add_lines cpu_count seen (totals_of stages f) (line ∷ lines) ≡ ok totals
  unfolding add_lines ◌>>=◌
  take_row seen f line lines t = rw t.row.parsed (
      rw t.row.cpu_field (
        rw t.row.below
          (rw t.unseen (rw (add_row-ok t.row.fields f stages t.row.complete) t.later))))

  pub row-Taken :
      (seen : List ℕ) (f : Text → Metrics) (line : Text) (lines : List Text) {totals : Totals}
      → add_lines cpu_count seen (totals_of stages f) (line ∷ lines) ≡ ok totals
      → Taken cpu_count seen f line lines totals
  unfolding add_lines
  row-Taken seen f line lines h =
      let fields = bind-eq-ok _ _ h in
      let cpu = bind-eq-ok _ _ fields.2 in
      let checked = bind-eq-ok _ _ cpu.2 in
      let fits = ||-eq-false _ _ (refuse-eq-ok _ _ checked.1) in
      let next = bind-eq-ok _ _ checked.2 in
      let complete = add_row-inversion fields.0 f stages next.1 in
      let same =
        ok_injective ProfileError (totals_of stages (behind_row f fields.0)) next.0
          (sym (add_row-ok fields.0 f stages complete) ∙ next.1) in
      record {
        row = record {
          fields = fields.0;
          cpu = cpu.0;
          parsed = fields.1;
          cpu_field = or_error-eq-ok _ _ cpu.1;
          below = fits.0;
          complete = complete;
        };
        unseen = fits.1;
        later = ap (λ t. add_lines cpu_count (cpu.0 ∷ seen) t lines) same ∙ next.2;
      }
