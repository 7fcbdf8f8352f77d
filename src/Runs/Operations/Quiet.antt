-- ===== src/Runs/Operations/Quiet.antt =====
-- What `transition` does with nobody else at work, on every branch.
use testing_environment.Common.{
  ℕ, String, ◌≡◌, refl, Bool, true, false, not, ◌&&◌, ◌||◌, none, some, str_eq, if◌then◌else◌,
  arith, inl, inr, Bool-cases,
}
use text.Mathlib.TextPositions.{eq_refl}
use testing_environment.Common.Result.{ok, err}
use testing_environment.Common.Table.{Table}
use testing_environment.Common.Act.{◌>>=◌}
use testing_environment.Runs.Status.{TestRunStatus, same_status, is_terminal, is_phase, allows}
use testing_environment.Runs.Run.{
  TestRun, StateError, run_not_found, from_terminal, invalid_transition,
}
use testing_environment.Runs.Rows.{assert_transition_allowed}
use testing_environment.Runs.Updates.{transition_data}
use testing_environment.Runs.State.{transition}
use testing_environment.Runs.Operations.Races.{quiet, same_status_refl}

module _ (T : Table TestRun) (id : String) (target : TestRunStatus) (changes : TestRun → TestRun)
    (db : T.Db) (at : ℕ) where
  transition_missing :
      T.find db id ≡ none
      → transition T id target changes (quiet T db at) ≡ (err run_not_found, quiet T db at)
  unfolding transition ◌>>=◌
  transition_missing e = rw e refl

  transition_refused :
      (r : TestRun) (e : StateError)
      → T.find db id ≡ some r
      → assert_transition_allowed r target ≡ err e
      → transition T id target changes (quiet T db at) ≡ (err e, quiet T db at)
  unfolding transition ◌>>=◌
  transition_refused r e found refused = rw (found, refused) refl

  pub transition_done :
      (r : TestRun) {u : Unit {0}}
      → T.find db id ≡ some r
      → assert_transition_allowed r target ≡ ok u
      → transition T id target changes (quiet T db at) ≡ (
        ok (transition_data r target at changes r),
        quiet T
            (T.update db id
              (λ x. same_status x.status r.status)
              (transition_data r target at changes))
            at,
      )
  unfolding transition ◌>>=◌
  transition_done r found passes =
      rw (found, passes)
        (rw (T.count_lem, found, same_status_refl)
          (rw (T.find-update, eq_refl, found, same_status_refl) refl))

-- The transition table lets a run go from one status to another, or it stays where it is.
abbrev pub may_move : TestRunStatus → TestRunStatus → Bool
may_move from to = not (is_terminal from) && (same_status from to || allows from to)

move-allowed :
    (r : TestRun) (target : TestRunStatus)
    → may_move r.status target ≡ true
    → assert_transition_allowed r target ≡ ok tt
unfolding assert_transition_allowed
move-allowed r target h = ground arith

no_move-refused :
    (r : TestRun) (target : TestRunStatus)
    → may_move r.status target ≡ false
    → (e : StateError) × (assert_transition_allowed r target ≡ err e)
unfolding assert_transition_allowed
no_move-refused r target h = elim (Bool-cases (is_terminal r.status)) [
  | inl p ↦ (from_terminal r.status, rw p refl)
  | inr p ↦ (invalid_transition r.status target, ground (arith, h, p))
]

module _ (T : Table TestRun) (id : String) (target : TestRunStatus) (changes : TestRun → TestRun)
    (db : T.Db) (at : ℕ) where
  -- With nobody else at work, a transition of a run of the table. If the run is not over, and has the target for its
  -- status or may go there by the transition table, the answer is the run as the table then has it: its status is the
  -- target, its phase is the target or none, and apart from them and the phase timestamps it has the changes of the
  -- call. Otherwise the transition throws and the table is as it was. Every other run stays as it was in either case.
  pub transition_lem :
      (r : TestRun)
      → T.find db id ≡ some r
      → let (result, w) = transition T id target changes (quiet T db at) in
        (may_move r.status target ≡ true
          → (r' : TestRun) × (result ≡ ok r')
            × (T.find w.db id ≡ some r')
            × (r'.status ≡ target)
            × (r'.current_phase ≡ (if is_phase target then some target else none))
            × (r' ≡ record (changes r) {
              status = r'.status;
              current_phase = r'.current_phase;
              phase_timestamps = r'.phase_timestamps;
            }))
        × (may_move r.status target ≡ false → ((e : StateError) × (result ≡ err e)) × (w.db ≡ db))
        × ((other : String) → str_eq id other ≡ false → T.find w.db other ≡ T.find db other)
  unfolding transition_data
  transition_lem r found = elim (Bool-cases (may_move r.status target)) [
    | inl e ↦
        let done =
          transition_done T id target changes db at r {u = tt} found (move-allowed r target e) in
        rw done (
          λ h. (
            transition_data r target at changes r,
            refl,
            rw (T.find-update, eq_refl, found, same_status_refl) refl,
            refl,
            refl,
            refl,
          ),
          λ h. absurd (cc),
          λ other ne. rw (T.find-update, ne) refl,
        )
    | inr e ↦
        let (d, refused) = no_move-refused r target e in
        let done = transition_refused T id target changes db at r d found refused in
        rw done (λ h. absurd (cc), λ h. ((d, refl), refl), λ other ne. refl)
  ]
