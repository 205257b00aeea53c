-- ===== src/Wrk/Quiescence/First.antt =====
-- The wait ends at the first quiescent status.
use xsr.Prelude.{
  &&-eq-true, All, Bool, Ensures, Ensures-bind, Ensures-ok, Ensures-refuse, List, Result, Text, [],
  all, all-All, ap, arith, codes, eq_ℤ, eq_ℤ-eq, err, false, get_elem?, if◌then◌else◌, inl, inr,
  leb_ℤ, not, ok, pos, refl, some, subst, suc, take, true, ℕ, ℤ, ◌&&◌, ◌∙◌, ◌∷◌, ◌≡◌, ◌⊎◌,
}
use xsr.Wrk.Quiescence.{
  Answer, Status, drained_fields, has_key, is_zero, judge, judge_status, quiet, read_status,
  required_fields, status_text, value_of, waits, Verdict, WaitError, connection_error, pid_changed,
  quarantined, stops, wait_for_quiescence,
}

abbrev decide_ok : Status → Result WaitError Status
decide_ok s = ok s

ok_or_err : {E A : Type 0} (m : Result E A) → ((a : A) × (m ≡ ok a)) ⊎ ((e : E) × (m ≡ err e))
ok_or_err (ok a) = inl (a, refl)
ok_or_err (err e) = inr (e, refl)

-- The tests of a status that is quiet.
chosen :
    (a b c d : Bool) (seen status : Status)
    → (if not a
        then stops pid_changed
        else if not b
        then stops quarantined
        else if c && d
        then quiet seen
        else waits)
      ≡ quiet status
    → (seen ≡ status) × (a ≡ true) × (b ≡ true) × (c ≡ true) × (d ≡ true)
chosen true true true true seen status h = (cc, refl, refl, refl, refl)
chosen true true true false seen status h = cc
chosen true true false d seen status h = cc
chosen true false c d seen status h = cc
chosen false b c d seen status h = cc

module _ (expected_pid minimum_reaped : ℤ) where
  -- A complete status of the expected process, with nothing left and enough connections reaped.
  pub record IsQuiescent (status : Status) : Type 0 where
    pub complete : All (λ k. has_key status k ≡ true) required_fields
    pub own_pid : value_of status (codes "pid") ≡ expected_pid
    pub none_quarantined : value_of status (codes "quarantined_slot_sets") ≡ pos 0
    pub drained : All (λ k. value_of status k ≡ pos 0) drained_fields
    pub enough_reaped : leb_ℤ minimum_reaped (value_of status (codes "reaped_total")) ≡ true

  -- The status of the first poll that is quiescent, all polls before it waiting.
  pub record IsFirstQuiet (answers : List Answer) (status : Status) : Type 0 where
    pub poll : ℕ
    pub raw : Text
    pub answered : get_elem? answers poll ≡ some (status_text raw)
    pub parsed : read_status raw ≡ ok status
    pub quiescent : IsQuiescent status
    pub before : All (λ a. judge expected_pid minimum_reaped a ≡ waits) (take poll answers)

  read_status_complete :
      (raw : Text) → Ensures (λ s. All (λ k. has_key s k ≡ true) required_fields) (read_status raw)
  unfolding read_status
  read_status_complete raw = Ensures-bind _ _ _ λ values eq. Ensures-refuse _ _ _ _ λ complete.
      Ensures-ok _ _ (all-All (has_key values) required_fields (ground (arith, complete)))

  all_drained :
      (status : Status) (ks : List Text)
      → all (is_zero status) ks ≡ true
      → All (λ k. value_of status k ≡ pos 0) ks
  all_drained status [] h = tt
  all_drained status (k ∷ ks) h =
      let parts = &&-eq-true _ _ h in
      (eq_ℤ-eq (value_of status k) (pos 0) parts.0, all_drained status ks parts.1)

  judge_status-quiet :
      (seen status : Status)
      → judge_status expected_pid minimum_reaped seen ≡ quiet status
      → (seen ≡ status)
        × (eq_ℤ (value_of seen (codes "pid")) expected_pid ≡ true)
        × (is_zero seen (codes "quarantined_slot_sets") ≡ true)
        × (all (is_zero seen) drained_fields ≡ true)
        × (leb_ℤ minimum_reaped (value_of seen (codes "reaped_total")) ≡ true)
  unfolding judge_status
  judge_status-quiet seen status h =
      chosen (eq_ℤ (value_of seen (codes "pid")) expected_pid)
        (is_zero seen (codes "quarantined_slot_sets")) (all (is_zero seen) drained_fields)
        (leb_ℤ minimum_reaped (value_of seen (codes "reaped_total"))) seen status h

  judge_status-IsQuiescent :
      (raw : Text) (seen status : Status)
      → read_status raw ≡ ok seen
      → judge_status expected_pid minimum_reaped seen ≡ quiet status
      → (read_status raw ≡ ok status) × IsQuiescent status
  judge_status-IsQuiescent raw seen status read h =
      let q = judge_status-quiet seen status h in
      (
        read ∙ ap ok q.0,
        subst IsQuiescent q.0 (record {
          complete = (read_status_complete raw).at seen read;
          own_pid = eq_ℤ-eq _ _ q.1;
          none_quarantined = eq_ℤ-eq _ _ q.2;
          drained = all_drained seen drained_fields q.3;
          enough_reaped = q.4;
        }),
      )

  judge-quiet :
      (answer : Answer) (status : Status)
      → judge expected_pid minimum_reaped answer ≡ quiet status
      → (raw : Text) × (answer ≡ status_text raw)
        × (read_status raw ≡ ok status)
        × IsQuiescent status
  unfolding judge
  judge-quiet connection_error status h = cc
  judge-quiet (status_text raw) status h = elim (ok_or_err (read_status raw)) [
    | inl (seen, e) ↦
        let found : judge_status expected_pid minimum_reaped seen ≡ quiet status = rw e at h in
        let q = judge_status-IsQuiescent raw seen status e found in (raw, refl, q.0, q.1)
    | inr (error, e) ↦ (let passed : waits ≡ quiet status = rw e at h in cc)
  ]

  verdict_cases :
      (v : Verdict)
      → (v ≡ waits) ⊎ ((s : Status) × (v ≡ quiet s)) ⊎ ((e : WaitError) × (v ≡ stops e))
  verdict_cases waits = inl refl
  verdict_cases (quiet s) = inr (inl (s, refl))
  verdict_cases (stops e) = inr (inr (e, refl))

  first_here :
      (answer : Answer) (answers : List Answer) (seen status : Status)
      → judge expected_pid minimum_reaped answer ≡ quiet seen
      → seen ≡ status
      → IsFirstQuiet (answer ∷ answers) status
  first_here answer answers seen status v same =
      let q = judge-quiet answer seen v in
      record {
        poll = 0;
        raw = q.0;
        answered = ap some q.1;
        parsed = q.2 ∙ ap ok same;
        quiescent = subst IsQuiescent same q.3;
        before = tt;
      }

  first_later :
      (answer : Answer) (answers : List Answer) (status : Status)
      → judge expected_pid minimum_reaped answer ≡ waits
      → IsFirstQuiet answers status
      → IsFirstQuiet (answer ∷ answers) status
  first_later answer answers status v later = record {
    poll = suc later.poll;
    raw = later.raw;
    answered = later.answered;
    parsed = later.parsed;
    quiescent = later.quiescent;
    before = (v, later.before);
  }

  -- A status that the wait returns is that of the first poll that is quiescent: a complete status of the
  -- expected process without quarantined or live entries and with enough connections reaped.
  pub wait_for_quiescence-IsFirstQuiet :
      (answers : List Answer) (status : Status)
      → wait_for_quiescence expected_pid minimum_reaped answers ≡ ok status
      → IsFirstQuiet answers status
  unfolding wait_for_quiescence
  wait_for_quiescence-IsFirstQuiet [] status h = cc
  wait_for_quiescence-IsFirstQuiet (answer ∷ answers) status h =
      elim (verdict_cases (judge expected_pid minimum_reaped answer)) [
        | inl v ↦
            first_later answer answers status v
              (wait_for_quiescence-IsFirstQuiet answers status (rw v at h))
        | inr (inl (seen, v)) ↦
            let found : decide_ok seen ≡ decide_ok status = rw v at h in
            first_here answer answers seen status v cc
        | inr (inr (e, v)) ↦ (let stopped : err e ≡ decide_ok status = rw v at h in cc)
      ]
