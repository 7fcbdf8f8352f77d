-- ===== src/Runner/Lifecycle/Handling.antt =====
-- The end of an execution while nobody else writes to the run: what the `catch` makes of an error, and what the tests come to.
use testing_environment.Common.{
  ℕ, ◌-◌, String, ◌≡◌, refl, ap, Bool, true, false, Option, none, some, inl, inr, if◌then◌else◌,
  Bool-cases, ltb,
}
use testing_environment.Common.Text.{show, ◌<>◌}
use testing_environment.Common.Result.{Result, ok}
use testing_environment.Common.Table.{Table}
use testing_environment.Common.Act.{World, Act, pure, now, ◌>>=◌}
use testing_environment.Runs.Status.{
  TestRunStatus, cancel_requested, cancelled, cleaning_up, passed, test_failed, infra_failed,
  timed_out, is_terminal, allows,
}
use testing_environment.Runs.Run.{TestRun, Stats, StateError, test_assertion, timeout}
use testing_environment.Runs.Updates.{failed_data, passed_data, test_failed_data}
use testing_environment.Runs.State.Ending.{
  request_cancel, mark_cancelled, mark_passed, mark_test_failed, mark_infra_failed, mark_timed_out,
}
use testing_environment.Runner.{Interruption, run_cancelled, run_error}
use testing_environment.Runner.Execution.{failure_category_for}
use testing_environment.Runner.Outcomes.{
  Outcomes, Worker, call, told, silently, is_timeout_category,
}
use testing_environment.Runner.Lifecycle.{cancelling, fail_run, handle, finish}
use testing_environment.Runner.Lifecycle.Alone.{
  Alone, Holds, Holds-eq, After, After-bind, query-then, now-then, pure-then, pure-After,
}
use testing_environment.Runner.Lifecycle.Stages.{call-After, asked-then}
use testing_environment.Runner.Lifecycle.Verdict.{Verdict, broken, tested, IsSeen}
use testing_environment.Runner.Lifecycle.Marks.{
  IsLive, timeout_waits, is_timeout_category_lem, cancelled_verdict, silently-then, silently-After,
  Marked, mark-After, mark_cancelled-After, request_cancel-After,
}

module _ (T : Table TestRun) (id : String) (at : ℕ) where
  cancelled_next :
      (is_terminal cancel_requested ≡ false) × (allows cancel_requested cancelled ≡ true)
  unfolding is_terminal allows
  cancelled_next = (refl, refl)

  -- A cancellation that the `catch` carries out.
  cancel-After :
      (status : TestRunStatus) (started : ℕ) (e : Option String) (w : World T.Db)
      → Alone T id at w
      → Holds T id at status w.db
      → IsLive status
      → After T id at
          (λ r db. IsSeen T id cancelled_verdict db)
          ((silently {F = Interruption} (request_cancel T id none none) >>= λ _.
              now >>= λ a. silently (mark_cancelled T id (some (a - started)) e))
            w)
  unfolding now ◌>>=◌
  cancel-After status started e w l h live =
      silently-then T id at _ _ (request_cancel T id none none)
        (λ _. now >>= λ a. silently (mark_cancelled T id (some (a - started)) e)) w
        (request_cancel-After T id at status w l h live)
        (λ r w1 l1 q.
          silently-After T id at (Marked T id at cancelled_verdict) (IsSeen T id cancelled_verdict)
            (mark_cancelled T id (some (w1.clock - started)) e) w1
            (mark_cancelled-After T id at cancel_requested (some (w1.clock - started)) e w1 q.0 l1
              q.2 q.1 cancelled_next.0 cancelled_next.1)
            (λ r db s. s.1))

  -- A failure that the `catch` writes, once it has read the run.
  failed-After :
      (status : TestRunStatus) (started : ℕ) (message : String) (w : World T.Db)
      → Alone T id at w
      → Holds T id at status w.db
      → IsLive status
      → After T id at
          (λ (r : Result Interruption Unit) db.
            IsSeen T id (broken (λ m. m) status (run_error message)) db)
          (silently
            (if is_timeout_category (failure_category_for (some status) message)
              then mark_timed_out T id message (some (w.clock - started))
              else mark_infra_failed T id
                  (failure_category_for (some status) message)
                  message
                  (some (w.clock - started)))
            w)
  unfolding mark_infra_failed mark_timed_out failed_data broken now ◌>>=◌
  failed-After status started message w l h live =
      let duration = some (w.clock - started) in
      let category = failure_category_for (some status) message in
      elim (Bool-cases (is_timeout_category category)) [
        | inl e ↦
            let v : Verdict = record {
              status = timed_out;
              category = some timeout;
              message = some message;
            } in
            rw (is_timeout_category_lem category e) (
              silently-After T id at (Marked T id at v) (IsSeen T id v)
                (mark_timed_out T id message duration) w
                (mark-After T id at v status (failed_data timeout message duration w.clock) w h.run
                  l h.found h.in_status live.not_over (timeout_waits status message e) refl refl
                  refl)
                (λ r db s. s.1))
        | inr e ↦
            let v : Verdict = record {
              status = infra_failed;
              category = some category;
              message = some message;
            } in
            rw e (
              silently-After T id at (Marked T id at v) (IsSeen T id v)
                (mark_infra_failed T id category message duration) w
                (mark-After T id at v status (failed_data category message duration w.clock) w h.run
                  l h.found h.in_status live.not_over live.may_fail refl refl refl)
                (λ r db s. s.1))
      ]

  fail_run-After :
      (status : TestRunStatus) (started : ℕ) (message : String) (w : World T.Db) (W : Worker)
      (o : Outcomes)
      → Alone T id at w
      → Holds T id at status w.db
      → IsLive status
      → After T id at
          (λ r db. IsSeen T id (broken (λ m. m) status (run_error message)) db)
          (fail_run T W o id started message w)
  unfolding fail_run
  fail_run-After status started message w W o l h live =
      query-then T id at _ (λ db. T.find db id) _ w l
        (λ w1 l1 e. now-then T id at _ _ w1 (
          rw (e, h.found, h.in_status)
            (failed-After status started message w1 l1 (Holds-eq T id at status w.db w1.db e h)
              live)))

  -- What the `catch` makes of an error.
  pub handle-After :
      (status : TestRunStatus) (started : ℕ) (has_workspace : Bool) (e : Interruption)
      (w : World T.Db) (W : Worker) (o : Outcomes)
      → Alone T id at w
      → Holds T id at status w.db
      → IsLive status
      → After T id at
          (λ r db. IsSeen T id (broken W.mask status e) db)
          (handle T W o id started has_workspace e w)
  unfolding handle cancelling broken
  handle-After status started has_workspace run_cancelled w W o l h live =
      query-then T id at _ (λ db. T.find db id) _ w l
        (λ w1 l1 e. pure-then T id at _ true _ w1 (
          cancel-After status started (if has_workspace then o.cleanup_error else none) w1 l1
            (Holds-eq T id at status w.db w1.db e h) live))
  handle-After status started has_workspace (run_error message) w W o l h live =
      query-then T id at _ (λ db. T.find db id) _ w l
        (λ w1 l1 e.
          asked-then T id at W o _ _ status w1 l1 (Holds-eq T id at status w.db w1.db e h)
            (λ w2 l2 _ h2. fail_run-After status started (W.mask message) w2 W o l2 h2 live))

  abbrev pub Finished : Verdict → Result Interruption Bool → T.Db → Type 0
  Finished v r db = (r ≡ ok false) × IsSeen T id v db

  Marked-then :
      (v : Verdict) (m : Act T.Db StateError TestRun) (w : World T.Db)
      → After T id at (Marked T id at v) (m w)
      → After T id at (Finished v) ((call m >>= λ _. pure false) w)
  unfolding told
  Marked-then v m w h =
      let There : Result Interruption TestRun → T.Db → Type 0 =
        (λ r db. ((run : TestRun) × (r ≡ ok run)) × IsSeen T id v db) in
      After-bind T id at (Finished v) There (call m) (λ _. pure false) w
        (call-After T id at (Marked T id at v) There m w h
          (λ r db q. ((q.0.0, ap told q.0.1), q.1)))
        (λ r w1 l1 q. rw q.0.1 (pure-After T id at (Finished v) false w1 l1 (refl, q.1)))

  last_moves :
      (is_terminal cleaning_up ≡ false)
      × (allows cleaning_up test_failed ≡ true)
      × (allows cleaning_up passed ≡ true)
  unfolding is_terminal allows
  last_moves = (refl, refl, refl)

  -- What the tests come to.
  pub finish-After :
      (started : ℕ) (stats : Stats) (w : World T.Db) (W : Worker) (o : Outcomes)
      → Alone T id at w
      → Holds T id at cleaning_up w.db
      → After T id at (Finished (tested stats)) (finish T W o id started stats w)
  unfolding finish mark_test_failed mark_passed test_failed_data passed_data tested now ◌>>=◌
  finish-After started stats w W o l h = asked-then T id at W o _ _ cleaning_up w l h (λ w1 l1 _ h1.
      elim (Bool-cases (ltb 0 stats.failed_tests)) [
        | inl e ↦
            let reason = show stats.failed_tests <> " test assertion(s) failed" in
            let v : Verdict = record {
              status = test_failed;
              category = some test_assertion;
              message = some reason;
            } in
            rw e (
              Marked-then v (mark_test_failed T id stats (w1.clock - started) reason) w1 (
                mark-After T id at v cleaning_up
                  (test_failed_data stats (w1.clock - started) reason w1.clock) w1 h1.run l1
                  h1.found h1.in_status last_moves.0 last_moves.1 refl refl refl))
        | inr e ↦
            let v : Verdict = record { status = passed; category = none; message = none } in
            rw e (
              Marked-then v (mark_passed T id stats (w1.clock - started)) w1 (
                mark-After T id at v cleaning_up (passed_data stats (w1.clock - started) w1.clock)
                  w1 h1.run l1 h1.found h1.in_status last_moves.0 last_moves.2 refl refl refl))
      ])
