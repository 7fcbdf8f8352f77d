-- ===== src/Runner/Lifecycle/Marks.antt =====
-- Calls of the state service that leave a run finished, as a verdict says while nobody else writes to it.
use testing_environment.Common.{
  ℕ, String, ◌≡◌, refl, Bool, true, false, Option, none, some, arith, if◌then◌else◌, is_some,
}
use testing_environment.Common.Result.{Result, ok}
use testing_environment.Common.Table.{Table}
use testing_environment.Common.Act.{World, Act, pure, now, ◌>>=◌}
use testing_environment.Runs.Status.{
  TestRunStatus, cancel_requested, cancelled, validating_environment, starting_environment,
  waiting_for_healthcheck, infra_failed, timed_out, is_terminal, allows, same_status,
}
use testing_environment.Runs.Run.{
  TestRun, StateError, FailureCategory, timeout, environment_validation, image_pull,
  container_start, healthcheck, network, internal,
}
use testing_environment.Runs.Updates.{transition_data, cancel_requested_data, cancelled_data}
use testing_environment.Runs.State.{transition}
use testing_environment.Runs.State.Ending.{request_cancel, mark_cancelled}
use testing_environment.Runner.{Interruption}
use testing_environment.Runner.Execution.{failure_category_for, is_in}
use testing_environment.Runner.Outcomes.{attempt, silently, is_timeout_category}
use testing_environment.Runner.Lifecycle.Alone.{Alone, Holds, After}
use testing_environment.Runner.Lifecycle.Stages.{transition-After}
use testing_environment.Runner.Lifecycle.Verdict.{Verdict, IsSeen}

-- A status in which an execution may break off.
pub record IsLive (status : TestRunStatus) : Type 0 where
  pub not_over : is_terminal status ≡ false
  pub may_fail : allows status infra_failed ≡ true
  pub may_cancel : allows status cancel_requested ≡ true

timeout_branch :
    (a b c d e f : Bool)
    → is_timeout_category (
        if a
        then environment_validation
        else if b
        then image_pull
        else if c
        then container_start
        else if d
        then (if e then timeout else healthcheck)
        else if f
        then network
        else internal)
      ≡ true
    → d ≡ true
timeout_branch true b c d e f h = cc
timeout_branch false true c d e f h = cc
timeout_branch false false true d e f h = cc
timeout_branch false false false true e f h = refl
timeout_branch false false false false e true h = cc
timeout_branch false false false false e false h = cc

pub waiting_may_time_out :
    (status : TestRunStatus)
    → is_in waiting_for_healthcheck (some status) ≡ true
    → allows status timed_out ≡ true
unfolding is_in same_status allows
waiting_may_time_out status h = ground arith

-- Only while it waits for its health check does a run time out.
pub timeout_waits :
    (status : TestRunStatus) (message : String)
    → is_timeout_category (failure_category_for (some status) message) ≡ true
    → allows status timed_out ≡ true
unfolding failure_category_for
timeout_waits status message h = waiting_may_time_out status (
    timeout_branch (is_in validating_environment (some status)) _
      (is_in starting_environment (some status)) (is_in waiting_for_healthcheck (some status)) _ _
      h)

pub is_timeout_category_lem : (c : FailureCategory) → is_timeout_category c ≡ true → c ≡ timeout
is_timeout_category_lem timeout h = refl
is_timeout_category_lem c h = cc

abbrev pub cancelled_verdict : Verdict
cancelled_verdict = record {
  status = cancelled;
  category = some FailureCategory.cancelled;
  message = some "Test run was cancelled";
}

module _ (T : Table TestRun) (id : String) (at : ℕ) where
  pub silently-then :
      {E A B : Type 0} (Q : Result E A → T.Db → Type 0) (P : Result Interruption B → T.Db → Type 0)
      (m : Act T.Db E A) (f : Unit {0} → Act T.Db Interruption B) (w : World T.Db)
      → After T id at Q (m w)
      → ((r : Result E A) (w' : World T.Db)
          → Alone T id at w'
          → Q r w'.db
          → After T id at P (f tt w'))
      → After T id at P ((silently m >>= f) w)
  unfolding silently attempt pure ◌>>=◌
  silently-then Q P m f w h k = k (m w).0 (m w).1 h.alone h.result

  pub silently-After :
      {E A : Type 0} (Q : Result E A → T.Db → Type 0) (P : T.Db → Type 0) (m : Act T.Db E A)
      (w : World T.Db)
      → After T id at Q (m w)
      → ((r : Result E A) (db : T.Db) → Q r db → P db)
      → After T id at (λ (r : Result Interruption Unit) db. P db) (silently m w)
  unfolding silently attempt pure ◌>>=◌
  silently-After Q P m w h k = record { alone = h.alone; result = k (m w).0 (m w).1.db h.result }

  abbrev pub Marked : Verdict → Result StateError TestRun → T.Db → Type 0
  Marked v r db = ((run : TestRun) × (r ≡ ok run)) × IsSeen T id v db

  -- A transition whose changes make the run as the verdict says.
  pub mark-After :
      (v : Verdict) (status : TestRunStatus) (changes : TestRun → TestRun) (w : World T.Db)
      (run : TestRun)
      → Alone T id at w
      → T.find w.db id ≡ some run
      → run.status ≡ status
      → is_terminal status ≡ false
      → allows status v.status ≡ true
      → (changes run).failure_category ≡ v.category
      → (changes run).error_message ≡ v.message
      → is_some (changes run).finished_at ≡ true
      → After T id at (Marked v) (transition T id v.status changes w)
  unfolding transition_data
  mark-After v status changes w run l found e t a c m f =
      let d = transition-After T id at status v.status changes w run l found e t a in
      let after = transition_data run v.status d.result.0 changes run in
      record {
        alone = d.alone;
        result = (
          (after, d.result.1),
          record {
            run = after;
            found = d.result.2;
            status = refl;
            category = c;
            message = m;
            finished = f;
          },
        );
      }

  pub mark_cancelled-After :
      (status : TestRunStatus) (duration : Option ℕ) (e : Option String) (w : World T.Db)
      (run : TestRun)
      → Alone T id at w
      → T.find w.db id ≡ some run
      → run.status ≡ status
      → is_terminal status ≡ false
      → allows status cancelled ≡ true
      → After T id at (Marked cancelled_verdict) (mark_cancelled T id duration e w)
  unfolding mark_cancelled cancelled_data now ◌>>=◌
  mark_cancelled-After status duration e w run l found s t a =
      mark-After cancelled_verdict status (cancelled_data duration e w.clock) w run l found s t a
        refl refl refl

  pub request_cancel-After :
      (status : TestRunStatus) (w : World T.Db)
      → Alone T id at w
      → Holds T id at status w.db
      → IsLive status
      → After T id at
          (λ r db. (run : TestRun) × (run.status ≡ cancel_requested) × (T.find db id ≡ some run))
          (request_cancel T id none none w)
  unfolding request_cancel transition_data now ◌>>=◌
  request_cancel-After status w l h live =
      let changes = cancel_requested_data none none w.clock in
      let d =
        transition-After T id at status cancel_requested changes w h.run l h.found h.in_status
          live.not_over live.may_cancel in
      record {
        alone = d.alone;
        result =
            (transition_data h.run cancel_requested d.result.0 changes h.run, refl, d.result.2);
      }
