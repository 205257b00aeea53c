-- ===== src/Profile/Router/Exits.antt =====
-- The exits of scripts/sk_profile_components.py on the answers of src/sk_router.c that are no report.
use xsr.Prelude.{
  Bool, List, Option, Text, codes, eq_ℤ, false, find_key, if◌then◌else◌, is_digit, negsuc, none,
  pos, refl, some, suc, text_eq, true, zero, ℕ, ℤ, ◌&&◌, ◌>>=◌, ◌≡◌,
}
use xsr.Profile.Double.{Double}
use xsr.Profile.Router.Report.{Report, aggregate_response}
use xsr.Profile.Router.{
  Metrics, confirm_reset, is_line_break, lines_from, parse_entries, parse_fields, put_field,
  read_totals, splitlines,
}
use xsr.Policy.Values.{is_space, read_digits, read_signed, strip, strip_left, strip_right}
use xsr.Fields.{partition, split_from}
use xsr.Profile.Router.Answer.{serve_profile_read, serve_profile_reset}
use xsr.Profile.Router.Render.{main, read, reset}
use xsr.Profile.Command.{usage_error, prints, Format}

abbrev has_cpus : ℤ → Bool
has_cpus (pos (suc n)) = true
has_cpus _ = false

abbrev found_values : Option (ℕ → Metrics) → Bool
found_values none = false
found_values (some values) = true

module _ (sum_doubles : List Double → Double) (to_json : Report → Text) (f : Format) where
  -- `reset` tells that the counters are reset when the router has counted its CPUs, has got the memory
  -- and has set every stage to zero; otherwise it ends with status 2 and prints nothing.
  pub main-serve_profile_reset :
      (cpu_count : ℤ) (allocated updated : Bool)
      → main sum_doubles to_json
          (λ command. some (serve_profile_reset cpu_count allocated updated))
          (record { action = reset; format = f })
        ≡ (if has_cpus cpu_count && (allocated && updated)
            then prints (codes "profiling counters reset\n")
            else usage_error)
  unfolding main confirm_reset parse_fields parse_entries partition split_from put_field is_space
      strip strip_left strip_right read_signed read_digits is_digit find_key text_eq eq_ℤ
      serve_profile_reset ◌>>=◌
  main-serve_profile_reset (negsuc n) allocated updated = refl
  main-serve_profile_reset (pos zero) allocated updated = refl
  main-serve_profile_reset (pos (suc n)) false updated = refl
  main-serve_profile_reset (pos (suc n)) true false = refl
  main-serve_profile_reset (pos (suc n)) true true = refl

  -- `read` ends with status 2 and prints nothing, in every format, when the router has not counted its
  -- CPUs, has no memory or cannot read its map.
  pub main-serve_profile_read_failed :
      (cpu_count : ℤ) (allocated : Bool) (values : Option (ℕ → Metrics))
      → (has_cpus cpu_count && (allocated && found_values values)) ≡ false
      → main sum_doubles to_json
          (λ command. some (serve_profile_read cpu_count allocated values))
          (record { action = read; format = f })
        ≡ usage_error
  unfolding main aggregate_response read_totals splitlines lines_from is_line_break parse_fields
      parse_entries partition split_from put_field is_space strip strip_left strip_right read_signed
      read_digits is_digit find_key text_eq eq_ℤ serve_profile_read ◌>>=◌
  main-serve_profile_read_failed (negsuc n) allocated values h = refl
  main-serve_profile_read_failed (pos zero) allocated values h = refl
  main-serve_profile_read_failed (pos (suc n)) false values h = refl
  main-serve_profile_read_failed (pos (suc n)) true none h = refl
  main-serve_profile_read_failed (pos (suc n)) true (some values) h = cc
