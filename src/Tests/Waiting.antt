-- ===== src/Tests/Waiting.antt =====
-- The wait for a quiescent router, on two polls.
use xsr.Prelude.{
  List, Text, [], codes, eq_ℤ, find_key, is_digit, ok, pos, refl, text_eq, ◌>>=◌, ◌∷◌, ◌≡◌,
}
use xsr.Fields.{partition, split_from}
use xsr.Policy.Values.{is_space, read_digits, read_signed}
use xsr.Wrk.Quiescence.First.{IsFirstQuiet, wait_for_quiescence-IsFirstQuiet}
use xsr.Wrk.Quiescence.{
  Answer, Status, connection_error, judge, judge_status, put_value, read_fields, read_status,
  status_text, wait_for_quiescence,
}

abbrev quiet_text : Text
quiet_text =
    codes
      "pid=7 active_connection_sets=0 free_slot_sets=4 quarantined_slot_sets=0 accepted_total=3 reaped_total=3 sockmap_entries=0 routes_entries=0 http_flows_entries=0 route_decisions_entries=0 lifecycle_entries=0"

abbrev two_polls : List Answer
two_polls = connection_error ∷ status_text quiet_text ∷ []

abbrev quiet_status : Status
quiet_status =
    (codes "pid", pos 7)
    ∷ (codes "active_connection_sets", pos 0)
    ∷ (codes "free_slot_sets", pos 4)
    ∷ (codes "quarantined_slot_sets", pos 0)
    ∷ (codes "accepted_total", pos 3)
    ∷ (codes "reaped_total", pos 3)
    ∷ (codes "sockmap_entries", pos 0)
    ∷ (codes "routes_entries", pos 0)
    ∷ (codes "http_flows_entries", pos 0)
    ∷ (codes "route_decisions_entries", pos 0)
    ∷ (codes "lifecycle_entries", pos 0)
    ∷ []

wait_run : wait_for_quiescence (pos 7) (pos 3) two_polls ≡ ok quiet_status
unfolding wait_for_quiescence judge judge_status read_status read_fields split_from partition
    put_value is_space read_signed read_digits find_key text_eq eq_ℤ ◌>>=◌ is_digit
wait_run = refl

wait_for_quiescence-IsFirstQuiet_example : IsFirstQuiet (pos 7) (pos 3) two_polls quiet_status
wait_for_quiescence-IsFirstQuiet_example =
    wait_for_quiescence-IsFirstQuiet (pos 7) (pos 3) two_polls quiet_status wait_run
