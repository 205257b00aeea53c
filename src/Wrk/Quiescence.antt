-- ===== src/Wrk/Quiescence.antt =====
-- `read_status` and `wait_for_quiescence` of benchmarks/routing_wrk/wait_for_xsr_quiescence.py. The
-- answers of the status socket, one for each poll before the deadline, are a parameter.
pub mod First
use xsr.Prelude.{
  Bool, List, Option, Result, Text, [], all, codes, eq_ℤ, err, false, find_key, if◌then◌else◌,
  leb_ℤ, none, not, ok, pos, refuse, some, text_eq, true, ℤ, ◌&&◌, ◌∷◌, ◌>>=◌, ◌>>◌,
}
use xsr.Fields.{partition, split_from}
use xsr.Policy.Values.{read_signed}

-- What a poll ends in: the text of the status, or an error of the connection.
pub data Answer : Type 0 where
  status_text : Text → Answer
  connection_error : Answer

pub data StatusError : Type 0 where
  invalid_field bad_value missing_fields : StatusError

-- Why the wait ends without a status.
pub data WaitError : Type 0 where
  pid_changed quarantined timed_out : WaitError

abbrev pub Status : Type 0
Status = List (Text × ℤ)

-- values[key] = value
unfoldable pub put_value : Status → Text → ℤ → Status
put_value [] key value = (key, value) ∷ []
put_value ((k, v) ∷ values) key value =
    if text_eq k key then (k, value) ∷ values else (k, v) ∷ put_value values key value

abbrev pub required_fields : List Text
required_fields =
    codes "pid"
    ∷ codes "active_connection_sets"
    ∷ codes "free_slot_sets"
    ∷ codes "quarantined_slot_sets"
    ∷ codes "accepted_total"
    ∷ codes "reaped_total"
    ∷ codes "sockmap_entries"
    ∷ codes "routes_entries"
    ∷ codes "http_flows_entries"
    ∷ codes "route_decisions_entries"
    ∷ codes "lifecycle_entries"
    ∷ []

abbrev is_found : Option ℤ → Bool
is_found none = false
is_found (some value) = true

abbrev pub has_key : Status → Text → Bool
has_key values key = is_found (find_key values key)

abbrev int_value : Option ℤ → Result StatusError ℤ
int_value none = err bad_value
int_value (some value) = ok value

abbrev key_value : Option (Text × Text) → Result StatusError (Text × ℤ)
key_value none = err invalid_field
key_value (some (key, value)) = do number ← int_value (read_signed value); ok (key, number)

-- The loop over the fields.
unfoldable pub read_fields : Status → List Text → Result StatusError Status
unfolding put_value partition
read_fields values [] = ok values
read_fields values (field ∷ fields) = do
  entry ← key_value (partition field)
  read_fields (put_value values entry.0 entry.1) fields

unfoldable pub read_status : Text → Result StatusError Status
unfolding read_fields split_from
read_status raw = do
  values ← read_fields [] (split_from [] raw)
  refuse (not (all (has_key values) required_fields)) missing_fields
  ok values

-- status[key], for a key that is there
abbrev value_or : Option ℤ → ℤ
value_or none = pos 0
value_or (some value) = value

abbrev pub value_of : Status → Text → ℤ
value_of status key = value_or (find_key status key)

abbrev pub is_zero : Status → Text → Bool
is_zero status key = eq_ℤ (value_of status key) (pos 0)

-- The entries that are 0 in a quiescent router.
abbrev pub drained_fields : List Text
drained_fields =
    codes "active_connection_sets"
    ∷ codes "sockmap_entries"
    ∷ codes "routes_entries"
    ∷ codes "http_flows_entries"
    ∷ codes "route_decisions_entries"
    ∷ codes "lifecycle_entries"
    ∷ []

-- What one poll decides.
pub data Verdict : Type 0 where
  waits : Verdict
  quiet : Status → Verdict
  stops : WaitError → Verdict

module _ (expected_pid minimum_reaped : ℤ) where
  unfoldable pub judge_status : Status → Verdict
  judge_status status =
      if not (eq_ℤ (value_of status (codes "pid")) expected_pid)
      then stops pid_changed
      else if not (is_zero status (codes "quarantined_slot_sets"))
      then stops quarantined
      else if all (is_zero status) drained_fields
          && leb_ℤ minimum_reaped (value_of status (codes "reaped_total"))
      then quiet status
      else waits

  -- The errors of `read_status` are caught.
  abbrev judge_read : Result StatusError Status → Verdict
  judge_read (err e) = waits
  judge_read (ok status) = judge_status status

  unfoldable pub judge : Answer → Verdict
  unfolding read_status judge_status
  judge connection_error = waits
  judge (status_text raw) = judge_read (read_status raw)

  abbrev decide : Verdict → Result WaitError Status → Result WaitError Status
  decide waits later = later
  decide (quiet status) later = ok status
  decide (stops e) later = err e

  -- The loop until the deadline.
  unfoldable pub wait_for_quiescence : List Answer → Result WaitError Status
  unfolding judge
  wait_for_quiescence [] = err timed_out
  wait_for_quiescence (answer ∷ answers) =
      let later = wait_for_quiescence answers in decide (judge answer) later
