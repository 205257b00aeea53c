-- ===== src/Policy/Reader/Load.antt =====
-- `load_policy` of benchmarks/policy/generate_keyword_header.py, on the text of a file.
pub mod Accepted
use xsr.Prelude.{
  Bool, List, Option, Result, Text, [], err, if◌then◌else◌, length, non_empty, ok, some, ◌++◌, ◌==◌,
  ◌∷◌, ◌>>=◌,
}
use xsr.Policy.Reader.Lines.{load_lines, root_only}
use xsr.Policy.Reader.Cells.{slot_value, container}
use xsr.Policy.Reader.Lines.{ReadError, Reader, no_container}
use xsr.Policy.Values.{Fields, Value, dict}

-- The lines of a file, on the characters of a line and those behind it.
unfoldable pub file_lines : Text → Text → List Text
file_lines line [] = if non_empty line then line ∷ [] else []
file_lines line (c ∷ cs) =
    let here = file_lines [] cs in
    let extended = file_lines (line ++ c ∷ []) cs in if c == 10 then line ∷ here else extended

abbrev pub root_fields : Option Value → Result ReadError Fields
root_fields (some (dict fields)) = ok fields
root_fields _ = err no_container

abbrev pub policy_of : Reader → Result ReadError Fields
policy_of r = root_fields (slot_value (length r.cells) r.cells (container 0))

unfoldable pub load_yaml : Text → Result ReadError Fields
unfolding load_lines file_lines slot_value
load_yaml contents = do r ← load_lines root_only (file_lines [] contents); policy_of r

-- The `json` module reads the file when its name ends in `.json`.
module _ (from_json : Text → Result ReadError Fields) where
  unfoldable pub load_policy : Bool → Text → Result ReadError Fields
  unfolding load_yaml
  load_policy is_json contents = if is_json then from_json contents else load_yaml contents
