-- ===== src/Runs/Operations.antt =====
-- Every operation of TestRunStateService that writes, as one type, and any number of them at work on
-- the same table.
pub mod Races
pub mod Quiet
pub mod Leases
use testing_environment.Common.{
  ℕ, String, ◌≡◌, refl, subst, Option, none, some, List, [], ◌∷◌, map, All,
}
use testing_environment.Common.Table.{Table}
use testing_environment.Common.Act.{Meanwhile, World, Act, pure, ◌>>=◌, ◌>>◌}
use testing_environment.Common.Act.Guarantee.{
  Follows, Evolves, Relies, Guarantees, Guarantees-pure, Guarantees-bind,
}
use testing_environment.Runs.Status.{TestRunStatus}
use testing_environment.Runs.Run.{TestRun, Stats, LeaseOptions, StateError, FailureCategory}
use testing_environment.Runs.State
use testing_environment.Runs.State.Ending
use testing_environment.Runs.Progress.{Progress, Progress-refl, Progress-trans}
use testing_environment.Runs.Guarantee

pub data Operation : Type 0 where
  claim : Option LeaseOptions → Operation
  mark_queued : String → Operation
  mark_queued_if_created : String → Operation
  enter_phase : TestRunStatus → Operation
  request_cancel : Option String → Option String → Operation
  mark_cancelled : Option ℕ → Option String → Operation
  mark_passed : Stats → ℕ → Operation
  mark_test_failed : Stats → ℕ → String → Operation
  mark_infra_failed : FailureCategory → String → Option ℕ → Operation
  mark_timed_out : String → Option ℕ → Operation
  try_mark_infra_failed : FailureCategory → String → Option ℕ → Operation
  try_mark_cancelled : Option ℕ → Option String → Operation
  renew_lease : String → ℕ → Operation

-- Another process performs one operation on a run, from its start to its end, at a wait.
pub record Other : Type 0 where
  pub id : String
  pub operation : Operation
  pub clock : ℕ
  pub elapsed : ℕ

module _ (T : Table TestRun) where
  unfoldable pub perform : String → Operation → Act T.Db StateError Unit
  perform id (claim lease) = do State.claim T id lease; pure tt
  perform id (mark_queued job_id) = do State.mark_queued T id job_id; pure tt
  perform id (mark_queued_if_created job_id) = do State.mark_queued_if_created T id job_id; pure tt
  perform id (enter_phase phase) = do State.enter_phase T id phase; pure tt
  perform id (request_cancel by reason) = do Ending.request_cancel T id by reason; pure tt
  perform id (mark_cancelled duration e) = do Ending.mark_cancelled T id duration e; pure tt
  perform id (mark_passed stats duration) = do Ending.mark_passed T id stats duration; pure tt
  perform id (mark_test_failed stats duration reason) = do
    Ending.mark_test_failed T id stats duration reason
    pure tt
  perform id (mark_infra_failed category reason duration) = do
    Ending.mark_infra_failed T id category reason duration
    pure tt
  perform id (mark_timed_out reason duration) = do
    Ending.mark_timed_out T id reason duration
    pure tt
  perform id (try_mark_infra_failed category reason duration) = do
    Ending.try_mark_infra_failed T id category reason duration
    pure tt
  perform id (try_mark_cancelled duration e) = do Ending.try_mark_cancelled T id duration e; pure tt
  perform id (renew_lease runner_id duration) = do
    Ending.renew_lease T id runner_id duration
    pure tt

  pub done :
      {A : Type 0} (m : Act T.Db StateError A)
      → Guarantees Progress T m
      → Guarantees Progress T (m >>= λ _. pure tt)
  done m h =
      Guarantees-bind Progress-refl Progress-trans T m _ h
        (λ _. Guarantees-pure Progress-refl Progress-trans T tt)

  perform-Guarantees : (id : String) (op : Operation) → Guarantees Progress T (perform id op)
  unfolding perform Ending.try_mark_infra_failed Ending.try_mark_cancelled
  perform-Guarantees id (claim lease) = done _ (Guarantee.claim-Safe T id lease)
  perform-Guarantees id (mark_queued job_id) = done _ (Guarantee.mark_queued-Safe T id job_id)
  perform-Guarantees id (mark_queued_if_created job_id) =
      done _ (Guarantee.mark_queued_if_created-Safe T id job_id)
  perform-Guarantees id (enter_phase phase) = done _ (Guarantee.enter_phase-Safe T id phase)
  perform-Guarantees id (request_cancel by reason) =
      done _ (Guarantee.request_cancel-Safe T id by reason)
  perform-Guarantees id (mark_cancelled duration e) =
      done _ (Guarantee.mark_cancelled-Safe T id duration e)
  perform-Guarantees id (mark_passed stats duration) =
      done _ (Guarantee.mark_passed-Safe T id stats duration)
  perform-Guarantees id (mark_test_failed stats duration reason) =
      done _ (Guarantee.mark_test_failed-Safe T id stats duration reason)
  perform-Guarantees id (mark_infra_failed category reason duration) =
      done _ (Guarantee.mark_infra_failed-Safe T id category reason duration)
  perform-Guarantees id (mark_timed_out reason duration) =
      done _ (Guarantee.mark_timed_out-Safe T id reason duration)
  perform-Guarantees id (try_mark_infra_failed category reason duration) = done _ (
      Guarantee.try_mark-Safe T id _
        (Guarantee.mark_infra_failed-Safe T id category reason duration))
  perform-Guarantees id (try_mark_cancelled duration e) =
      done _ (Guarantee.try_mark-Safe T id _ (Guarantee.mark_cancelled-Safe T id duration e))
  perform-Guarantees id (renew_lease runner_id duration) =
      done _ (Guarantee.renew_lease-Safe T id runner_id duration)

  abbrev pub meanwhile : Other → Meanwhile T.Db
  meanwhile o = record {
    writes =
        λ db. (perform o.id o.operation (record { db = db; clock = o.clock; schedule = [] })).1.db;
    elapsed = o.elapsed;
  }

  pub meanwhile-Evolves :
      (others : List Other)
      → All (λ m. (db : T.Db) → Evolves Progress T db (m.writes db)) (map meanwhile others)
  meanwhile-Evolves [] = tt
  meanwhile-Evolves (o ∷ os) = (
    λ db. (perform-Guarantees o.id o.operation).moves _ (record { each = tt }),
    meanwhile-Evolves os,
  )

  pub followed :
      (before after : Option TestRun) (r : TestRun)
      → before ≡ some r
      → Follows Progress before after
      → (r' : TestRun) × (after ≡ some r') × Progress r r'
  followed (some a) (some b) r e h =
      let p : a ≡ r = cc in (b, refl, subst (λ (x : TestRun). Progress x b) p h)
  followed (some a) none r e h = absurd h
  followed none after r e h = cc

  abbrev pub busy : T.Db → ℕ → List Other → World T.Db
  busy db clock others = record { db = db; clock = clock; schedule = map meanwhile others }

  -- One operation on the run `id`, while other processes perform any operations at its waits: each run
  -- `key` of the table is still there afterwards, its status has moved by the transition table only,
  -- its phase, finish date and lease are coherent with its status if they were before, its attempts
  -- have not gone down, and a request for its cancellation has not been lost.
  pub perform-Progress :
      (id : String) (op : Operation) (others : List Other) (db : T.Db) (clock : ℕ) (key : String)
      (r : TestRun)
      → T.find db key ≡ some r
      → (r' : TestRun) × (T.find (perform id op (busy db clock others)).1.db key ≡ some r')
        × Progress r r'
  perform-Progress id op others db clock key r e = followed _ _ r e (
      ((perform-Guarantees id op).moves (busy db clock others)
          (record { each = meanwhile-Evolves others })).at
        key)
