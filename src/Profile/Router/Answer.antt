-- ===== src/Profile/Router/Answer.antt =====
-- What the router answers on its profile socket: `serve_profile_read` and `serve_profile_reset` of
-- src/sk_router.c, with the stages of include/xsr/sk_profile.h. The CPUs that libbpf counts, the
-- allocation and the map are parameters.
use xsr.Prelude.{
  Bool, List, Option, Text, [], codes, if◌then◌else◌, negsuc, none, not, pos, some, suc, zero, ℕ, ℤ,
  ◌*◌, ◌++◌, ◌+◌, ◌∷◌,
}
use xsr.Policy.Values.{show_nat}
use xsr.Profile.Router.{Metrics}

-- `key=value`
abbrev pub field_text : Text × ℕ → Text
field_text (key, n) = key ++ (b'=' ∷ show_nat n)

-- Fields with a blank between them.
unfoldable pub join_fields : List (Text × ℕ) → Text
join_fields [] = []
join_fields (f ∷ []) = field_text f
join_fields (f ∷ g ∷ fs) = field_text f ++ (b' ' ∷ join_fields (g ∷ fs))

abbrev pub parse_signal_stage : ℕ
parse_signal_stage = 0

abbrev pub decision_stage : ℕ
decision_stage = 1

abbrev pub redirect_stage : ℕ
redirect_stage = 2

abbrev pub stage_count : ℕ
stage_count = 3

-- values[stage * cpu_count + cpu]
abbrev pub value_at : ℕ → (ℕ → Metrics) → ℕ → ℕ → Metrics
value_at cpu_count values cpu stage = values (stage * cpu_count + cpu)

abbrev pub stage_fields : (ℕ → Metrics) → List (Text × ℕ)
stage_fields value =
    (codes "parse_signal_count", (value parse_signal_stage).count)
    ∷ (codes "parse_signal_total_ns", (value parse_signal_stage).total_ns)
    ∷ (codes "decision_count", (value decision_stage).count)
    ∷ (codes "decision_total_ns", (value decision_stage).total_ns)
    ∷ (codes "redirect_count", (value redirect_stage).count)
    ∷ (codes "redirect_total_ns", (value redirect_stage).total_ns)
    ∷ []

abbrev pub cpu_fields : ℕ → (ℕ → Metrics) → List (Text × ℕ)
cpu_fields cpu value = (codes "cpu", cpu) ∷ stage_fields value

-- The loop over the CPUs, of which `remaining` are left.
unfoldable pub cpu_lines : ℕ → (ℕ → Metrics) → ℕ → ℕ → List Text
unfolding join_fields
cpu_lines cpu_count values zero cpu = []
cpu_lines cpu_count values (suc remaining) cpu =
    join_fields (cpu_fields cpu (value_at cpu_count values cpu))
    ∷ cpu_lines cpu_count values remaining (cpu + 1)

-- Lines, each with its newline.
unfoldable pub unlines : List Text → Text
unlines [] = []
unlines (line ∷ lines) = line ++ (10 ∷ unlines lines)

abbrev pub header_tail : ℕ → List (Text × ℕ)
header_tail cpu_count = (codes "cpu_count", cpu_count) ∷ (codes "stage_count", stage_count) ∷ []

abbrev pub head_fields : ℕ → List (Text × ℕ)
head_fields cpu_count = (codes "profile_enabled", 1) ∷ header_tail cpu_count

abbrev served : ℕ → Option (ℕ → Metrics) → Text
served cpu_count none = codes "profile_enabled=1 error=map_lookup\n"
served cpu_count (some values) =
    unlines (join_fields (head_fields cpu_count) ∷ cpu_lines cpu_count values cpu_count 0)

unfoldable pub serve_profile_read : ℤ → Bool → Option (ℕ → Metrics) → Text
unfolding unlines cpu_lines
serve_profile_read (negsuc n) allocated values = codes "profile_enabled=1 error=cpu_count\n"
serve_profile_read (pos zero) allocated values = codes "profile_enabled=1 error=cpu_count\n"
serve_profile_read (pos (suc n)) allocated values =
    if allocated then served (suc n) values else codes "profile_enabled=1 error=allocation\n"

-- The map has taken the zeros for every stage, or else it has not.
unfoldable pub serve_profile_reset : ℤ → Bool → Bool → Text
serve_profile_reset (negsuc n) allocated updated = codes "profile_enabled=1 error=cpu_count\n"
serve_profile_reset (pos zero) allocated updated = codes "profile_enabled=1 error=cpu_count\n"
serve_profile_reset (pos (suc n)) allocated updated =
    if not allocated
    then codes "profile_enabled=1 error=allocation\n"
    else if not updated
    then codes "profile_enabled=1 error=map_update\n"
    else codes "profile_enabled=1 reset=ok\n"
