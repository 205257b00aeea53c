-- ===== src/Profile/Router/Accept.antt =====
-- The header that `aggregate_response` of scripts/sk_profile_components.py accepts.
use xsr.Prelude.{
  List, Text, [], bind-eq-ok, codes, false, find_key, length, not-eq-false, ok, ok_injective, refl,
  refuse-eq-ok, some, subst, true, ℕ, ◌==◌, ◌>>=◌, ◌∷◌, ◌≡◌,
}
use xsr.Profile.Router.Tally.{or_error-eq-ok}
use xsr.Profile.Router.{
  read_totals, add_lines, no_totals, same_counts, Totals, FieldTable, parse_fields, has_number,
  is_present, natural_of, ProfileError, stages,
}

-- A header whose checks pass, with the number of CPUs it tells.
pub record Header (first : Text) (cpu_count : ℕ) : Type 0 where
  pub fields : FieldTable
  pub parsed : parse_fields first ≡ ok fields
  pub enabled : has_number fields (codes "profile_enabled") 1 ≡ true
  pub no_error : is_present (find_key fields (codes "error")) ≡ false
  pub known : has_number fields (codes "stage_count") (length stages) ≡ true
  pub cpus : natural_of (find_key fields (codes "cpu_count")) ≡ some cpu_count
  pub some_cpu : (cpu_count == 0) ≡ false

-- A whole answer whose checks pass.
pub record Accept (first : Text) (lines : List Text) (cpu_count : ℕ) (totals : Totals)
    : Type 0 where
  pub header : Header first cpu_count
  pub rows : (length lines == cpu_count) ≡ true
  pub found : add_lines cpu_count [] no_totals lines ≡ ok totals
  pub counted : same_counts totals ≡ true

pub Accept-read_totals :
    (first : Text) (lines : List Text) (cpu_count : ℕ) (totals : Totals)
    → Accept first lines cpu_count totals
    → read_totals (first ∷ lines) ≡ ok (cpu_count, totals)
unfolding read_totals ◌>>=◌
Accept-read_totals first lines cpu_count totals a =
    let h = a.header in
    rw h.parsed (
      rw h.enabled (
        rw h.no_error
          (rw h.known (rw h.cpus (rw h.some_cpu (rw a.rows (rw a.found (rw a.counted refl))))))))

pub read_totals-Accept :
    (first : Text) (lines : List Text) (cpu_count : ℕ) (totals : Totals)
    → read_totals (first ∷ lines) ≡ ok (cpu_count, totals)
    → Accept first lines cpu_count totals
unfolding read_totals
read_totals-Accept first lines cpu_count totals h =
    let header = bind-eq-ok _ _ h in
    let enabled = bind-eq-ok _ _ header.2 in
    let no_error = bind-eq-ok _ _ enabled.2 in
    let known = bind-eq-ok _ _ no_error.2 in
    let cpus = bind-eq-ok _ _ known.2 in
    let some_cpu = bind-eq-ok _ _ cpus.2 in
    let rows = bind-eq-ok _ _ some_cpu.2 in
    let found = bind-eq-ok _ _ rows.2 in
    let counted = bind-eq-ok _ _ found.2 in
    subst (λ (a : ℕ × Totals). Accept first lines a.0 a.1)
      (ok_injective ProfileError (cpus.0, found.0) (cpu_count, totals) counted.2)
      (record {
        header = record {
          fields = header.0;
          parsed = header.1;
          enabled = not-eq-false _ (refuse-eq-ok _ _ enabled.1);
          no_error = refuse-eq-ok _ _ no_error.1;
          known = not-eq-false _ (refuse-eq-ok _ _ known.1);
          cpus = or_error-eq-ok _ _ cpus.1;
          some_cpu = refuse-eq-ok _ _ some_cpu.1;
        };
        rows = not-eq-false _ (refuse-eq-ok _ _ rows.1);
        found = found.1;
        counted = not-eq-false _ (refuse-eq-ok _ _ counted.1);
      })
