-- ===== src/Runner/Lifecycle/Safety.antt =====
-- An execution keeps every run of the table, whatever other processes do meanwhile.
use testing_environment.Common.{
  ℕ, String, ◌≡◌, Bool, true, false, Option, none, some, List, ltb, if◌then◌else◌,
}
use testing_environment.Common.Result.{Result, ok, err}
use testing_environment.Common.Table.{Table}
use testing_environment.Common.Act.{Act, pure, raise, lift, query, now, ◌>>=◌}
use testing_environment.Common.Act.Guarantee.{
  Guarantees, Guarantees-pure, Guarantees-raise, Guarantees-lift, Guarantees-query, Guarantees-if,
  Guarantees-now, Guarantees-bind,
}
use testing_environment.Runs.Status.{TestRunStatus, queued, same_status}
use testing_environment.Runs.Run.{TestRun, Stats, StateError, active_lease}
use testing_environment.Runs.Progress.{Progress, Progress-refl, Progress-trans}
use testing_environment.Runs.Guarantee
use testing_environment.Runs.Operations.{Other, busy, followed, meanwhile-Evolves}
use testing_environment.Runner.{Interruption, run_cancelled, run_error}
use testing_environment.Runner.Outcomes.{
  Outcomes, Worker, attempt, silently, call, is_timeout_category, interruption_text,
}
use testing_environment.Runner.Lifecycle.{
  asked, ensure, enter, after_claim, claim_run, cancel_now, begin, prepare, run_suites,
  check_and_run, start_and_run, run_phases, finish, cancelling, fail_run, handle, go_on, complete,
  run_tests, proceed, execute_internal,
}

module _ (T : Table TestRun) where
  abbrev Sound : {E A : Type 0} → Act T.Db E A → Type 0
  Sound m = Guarantees Progress T m

  pure-Sound : {E A : Type 0} (a : A) → Sound (pure {E = E} a)
  pure-Sound a = Guarantees-pure Progress-refl Progress-trans T a

  lift-Sound : {E A : Type 0} (r : Result E A) → Sound (lift r)
  lift-Sound r = Guarantees-lift Progress-refl Progress-trans T r

  raise-Sound : {E A : Type 0} (e : E) → Sound (raise {A = A} e)
  raise-Sound e = Guarantees-raise Progress-refl Progress-trans T e

  infixl 5 ◌then◌
  abbrev ◌then◌ :
      {E A B : Type 0} {m : Act T.Db E A} {f : A → Act T.Db E B}
      → Sound m
      → ((a : A) → Sound (f a))
      → Sound (m >>= f)
  ◌then◌ {m = m} {f = f} h k = Guarantees-bind Progress-refl Progress-trans T m f h k

  if-Sound :
      {E A : Type 0} (b : Bool) {m n : Act T.Db E A}
      → Sound m
      → Sound n
      → Sound (if b then m else n)
  if-Sound b {m} {n} h k = Guarantees-if Progress-refl Progress-trans T b m n (λ _. h) (λ _. k)

  query-Sound : {E A : Type 0} (read : T.Db → A) → Sound (query {E = E} read)
  query-Sound read = Guarantees-query Progress-refl Progress-trans T read

  now-Sound : {E : Type 0} → Sound (now {E = E})
  now-Sound = Guarantees-now Progress-refl Progress-trans T

  attempt-Sound : {E F A : Type 0} {m : Act T.Db E A} → Sound m → Sound (attempt {F = F} m)
  unfolding attempt
  attempt-Sound h = record { moves = h.moves; leaves = h.leaves }

  silently-Sound : {E F A : Type 0} {m : Act T.Db E A} → Sound m → Sound (silently {F = F} m)
  unfolding silently
  silently-Sound h = attempt-Sound h then (λ _. pure-Sound tt)

  call-Sound : {A : Type 0} {m : Act T.Db StateError A} → Sound m → Sound (call m)
  unfolding call
  call-Sound h = record { moves = h.moves; leaves = h.leaves }

  module _ (W : Worker) (o : Outcomes) (id : String) where
    asked-Sound : Sound (asked T W o id)
    unfolding asked
    asked-Sound = call-Sound (Guarantee.is_cancellation_requested-Safe T id)

    ensure-Sound : (signal : Result Interruption Unit) → Sound (ensure T W o id signal)
    unfolding ensure
    ensure-Sound signal =
        lift-Sound signal
        then (λ _. asked-Sound then (λ c. if-Sound c (raise-Sound run_cancelled) (pure-Sound tt)))

    enter-Sound : (phase : TestRunStatus) → Sound (enter T W o id phase)
    unfolding enter
    enter-Sound phase = call-Sound (Guarantee.enter_phase-Safe T id phase)

    after_claim-Sound : (r : Result StateError TestRun) → Sound (after_claim T W o id r)
    unfolding after_claim
    after_claim-Sound (ok run) = pure-Sound true
    after_claim-Sound (err active_lease) =
        asked-Sound then (λ c. if-Sound c (raise-Sound run_cancelled) (pure-Sound false))
    after_claim-Sound (err e) = raise-Sound _

    claim_run-Sound : Sound (claim_run T W o id)
    unfolding claim_run
    claim_run-Sound = lift-Sound _ then (λ _.
        lift-Sound _
        then (λ _. attempt-Sound (Guarantee.claim-Safe T id (some W.lease)) then after_claim-Sound))

    cancel_now-Sound : (started : ℕ) (e : Option String) → Sound (cancel_now T W o id started e)
    unfolding cancel_now
    cancel_now-Sound started e = now-Sound then (λ at.
        call-Sound (Guarantee.mark_cancelled-Safe T id _ e) then (λ _. pure-Sound false))

    begin-Sound : (started : ℕ) → Sound (begin T W o id started)
    unfolding begin
    begin-Sound started = query-Sound _ then (λ found. lift-Sound _ then (λ run.
        asked-Sound then (λ c.
          if-Sound c
            (silently-Sound (Guarantee.request_cancel-Safe T id none none)
              then (λ _. cancel_now-Sound started none))
            (if-Sound (same_status run.status queued) claim_run-Sound (pure-Sound false)))))

    prepare-Sound : Sound (prepare T W o id)
    unfolding prepare
    prepare-Sound = ensure-Sound _ then (λ _. enter-Sound _ then (λ _. lift-Sound _))

    run_suites-Sound : Sound (run_suites T W o id)
    unfolding run_suites
    run_suites-Sound = lift-Sound _ then (λ stats.
        enter-Sound _
        then (λ _. lift-Sound _ then (λ _. enter-Sound _ then (λ _. pure-Sound stats))))

    check_and_run-Sound : Sound (check_and_run T W o id)
    unfolding check_and_run
    check_and_run-Sound = ensure-Sound _ then (λ _.
        enter-Sound _
        then (λ _. lift-Sound _ then (λ _. enter-Sound _ then (λ _. run_suites-Sound))))

    start_and_run-Sound : Sound (start_and_run T W o id)
    unfolding start_and_run
    start_and_run-Sound = enter-Sound _ then (λ _.
        lift-Sound _
        then (λ _. enter-Sound _ then (λ _. lift-Sound _ then (λ _. check_and_run-Sound))))

    run_phases-Sound : Sound (run_phases T W o id)
    unfolding run_phases
    run_phases-Sound = lift-Sound _ then (λ _. enter-Sound _ then (λ _.
        lift-Sound _
        then (λ _. lift-Sound _ then (λ _. ensure-Sound _ then (λ _. start_and_run-Sound)))))

    finish-Sound : (started : ℕ) (stats : Stats) → Sound (finish T W o id started stats)
    unfolding finish
    finish-Sound started stats = asked-Sound then (λ c. now-Sound then (λ at.
        if-Sound c (cancel_now-Sound started o.cleanup_error) (
          if-Sound (ltb 0 stats.failed_tests)
            (call-Sound (Guarantee.mark_test_failed-Safe T id stats _ _)
              then (λ _. pure-Sound false))
            (call-Sound (Guarantee.mark_passed-Safe T id stats _) then (λ _. pure-Sound false)))))

    cancelling-Sound : (e : Interruption) → Sound (cancelling T W o id e)
    unfolding cancelling
    cancelling-Sound run_cancelled = pure-Sound true
    cancelling-Sound (run_error message) = asked-Sound

    fail_run-Sound : (started : ℕ) (message : String) → Sound (fail_run T W o id started message)
    unfolding fail_run
    fail_run-Sound started message = query-Sound _ then (λ current. now-Sound then (λ at.
        silently-Sound (
          if-Sound (is_timeout_category _) (Guarantee.mark_timed_out-Safe T id message _)
            (Guarantee.mark_infra_failed-Safe T id _ message _))))

    handle-Sound :
        (started : ℕ) (has_workspace : Bool) (e : Interruption)
        → Sound (handle T W o id started has_workspace e)
    unfolding handle
    handle-Sound started has_workspace e = query-Sound _ then (λ _. cancelling-Sound e then (λ c.
        if-Sound c
          (silently-Sound (Guarantee.request_cancel-Safe T id none none) then (λ _.
            now-Sound then (λ at. silently-Sound (Guarantee.mark_cancelled-Safe T id _ _))))
          (fail_run-Sound started (W.mask (interruption_text e)))))

    go_on-Sound :
        {A : Type 0} (started : ℕ) (has_workspace : Bool) (next : A → Act T.Db Interruption Unit)
        (r : Result Interruption A)
        → ((a : A) → Sound (next a))
        → Sound (go_on T W o id started has_workspace next r)
    unfolding go_on
    go_on-Sound started has_workspace next (ok a) h = h a
    go_on-Sound started has_workspace next (err e) h = handle-Sound started has_workspace e

    complete-Sound : (started : ℕ) (stats : Stats) → Sound (complete T W o id started stats)
    unfolding complete
    complete-Sound started stats =
        attempt-Sound (finish-Sound started stats)
        then (λ finished. go_on-Sound started false _ finished (λ _. pure-Sound tt))

    run_tests-Sound : (started : ℕ) (u : Unit {0}) → Sound (run_tests T W o id started u)
    unfolding run_tests
    run_tests-Sound started u =
        attempt-Sound run_phases-Sound
        then (λ ran. go_on-Sound started true _ ran (complete-Sound started))

    proceed-Sound : (started : ℕ) (goes_on : Bool) → Sound (proceed T W o id started goes_on)
    unfolding proceed
    proceed-Sound started goes_on =
        if-Sound goes_on
          (attempt-Sound prepare-Sound
            then (λ prepared. go_on-Sound started false _ prepared (run_tests-Sound started)))
          (pure-Sound tt)

    execute_internal-Sound : Sound (execute_internal T W o id)
    unfolding execute_internal
    execute_internal-Sound = now-Sound then (λ started.
        attempt-Sound (begin-Sound started)
        then (λ begun. go_on-Sound started false _ begun (proceed-Sound started)))

    -- While a worker executes a run from its claim to its end, whatever its phases come to, and other processes
    -- perform any operations at its waits, every run of the table is still there: its status has moved by the transition
    -- table only, its phase, finish date and lease are coherent with its status if they were before, its attempts have not gone
    -- down and a request for its cancellation has not been lost.
    pub execute_internal-Progress :
        (others : List Other) (db : T.Db) (clock : ℕ) (key : String) (r : TestRun)
        → T.find db key ≡ some r
        → (r' : TestRun) × (T.find (execute_internal T W o id (busy T db clock others)).1.db key
            ≡ some r')
          × Progress r r'
    execute_internal-Progress others db clock key r e = followed T _ _ r e (
        (execute_internal-Sound.moves (busy T db clock others)
            (record { each = meanwhile-Evolves T others })).at
          key)
