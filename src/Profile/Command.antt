-- ===== src/Profile/Command.antt =====
-- The output of the two profile scripts and their exits: `render_human`, `render_csv` and `main` of
-- scripts/sk_profile_components.py, and what scripts/vsr_profile_components.py does alike. What
-- `argparse` makes of the command line, the answers of sockets and servers, and `json.dump` are
-- parameters.
use xsr.Prelude.{List, Option, Text, [], codes, none, ℕ, ◌++◌, ◌∷◌}
use xsr.Profile.Double.{Double, fixed}
use xsr.Policy.Values.{show_nat}

-- "\n".join(lines)
unfoldable pub join_lines : List Text → Text
join_lines [] = []
join_lines (line ∷ []) = line
join_lines (line ∷ next ∷ lines) = line ++ (10 ∷ join_lines (next ∷ lines))

-- One row of `csv.writer`, for fields that need no quotes.
unfoldable pub csv_fields : List Text → Text
csv_fields [] = []
csv_fields (part ∷ []) = part
csv_fields (part ∷ next ∷ parts) = part ++ (b',' ∷ csv_fields (next ∷ parts))

abbrev pub csv_row : List Text → Text
csv_row parts = csv_fields parts ++ (13 ∷ 10 ∷ [])

-- The count, the total and the mean of a stage, as one line of text and as a row of the CSV table.
unfoldable pub human_line : Text → ℕ → ℕ → Double → Text
human_line name count total_ns mean_us =
    name
    ++ (codes ": count="
        ++ (show_nat count
            ++ (codes " total_ns="
                ++ (show_nat total_ns ++ (codes " mean_us=" ++ fixed 6 mean_us)))))

unfoldable pub csv_line : Text → ℕ → ℕ → Double → Double → Text
unfolding csv_fields
csv_line name count total_ns mean_ns mean_us =
    csv_row (name ∷ show_nat count ∷ show_nat total_ns ∷ fixed 3 mean_ns ∷ fixed 6 mean_us ∷ [])

pub data Format : Type 0 where
  human json csv : Format

-- The exit status, what the command prints, and what it writes to its output file.
pub record Outcome : Type 0 where
  pub status : ℕ
  pub printed : Text
  pub written : Option Text

-- parser.error: a message on the error stream and status 2
abbrev pub usage_error : Outcome
usage_error = record { status = 2; printed = []; written = none }

-- An exception that `main` does not catch.
abbrev pub uncaught : Outcome
uncaught = record { status = 1; printed = []; written = none }

abbrev pub prints : Text → Outcome
prints out = record { status = 0; printed = out; written = none }

abbrev pub with_newline : Text → Text
with_newline out = out ++ 10 ∷ []
