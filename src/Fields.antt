-- ===== src/Fields.antt =====
-- Texts of fields `key=value` between blanks, as the router's sockets write them:
-- benchmarks/routing_wrk/wait_for_xsr_quiescence.py and scripts/sk_profile_components.py read them.
pub mod Split
use xsr.Prelude.{List, Option, Text, [], if◌then◌else◌, non_empty, none, some, ℕ, ◌++◌, ◌==◌, ◌∷◌}
use xsr.Policy.Values.{is_space}

abbrev pub prepend : ℕ → Option (Text × Text) → Option (Text × Text)
prepend c none = none
prepend c (some (key, value)) = some (c ∷ key, value)

-- field.partition("="), none without a separator
unfoldable pub partition : Text → Option (Text × Text)
partition [] = none
partition (c ∷ cs) =
    let later = partition cs in if c == b'=' then some ([], cs) else prepend c later

-- `text.split()`, on the characters of a field and those behind it
unfoldable pub split_from : Text → Text → List Text
split_from field [] = if non_empty field then field ∷ [] else []
split_from field (c ∷ cs) =
    let here = split_from [] cs in
    let longer = split_from (field ++ c ∷ []) cs in
    if is_space c then (if non_empty field then field ∷ here else here) else longer
