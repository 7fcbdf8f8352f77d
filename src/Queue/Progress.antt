-- ===== src/Queue/Progress.antt =====
-- The queue at work among other processes.
use testing_environment.Common.{ℕ, Bool, String, ◌≡◌, Option, some, List}
use testing_environment.Common.Table.{Table}
use testing_environment.Common.Act.{Act, pure, ◌>>◌}
use testing_environment.Common.Act.Guarantee.{Guarantees}
use testing_environment.Runs.Run.{TestRun, StateError}
use testing_environment.Runs.Progress.{Progress}
use testing_environment.Runs.Operations.{Other, busy, meanwhile-Evolves, followed, done}
use testing_environment.Queue.{JobQueue}
use testing_environment.Queue
use testing_environment.Queue.Recovery
use testing_environment.Queue.Recovery.{RunRef}
use testing_environment.Queue.Safe.{
  enqueue-Safe, restore_missing_queued_job-Safe, cancel-Safe, recover_queued_runs-Safe,
  recover_expired_leases-Safe,
}

pub data QueueOperation : Type 0 where
  enqueue : QueueOperation
  restore_missing_queued_job : QueueOperation
  cancel : Option String → Option String → QueueOperation
  recover_queued_runs : QueueOperation
  recover_expired_leases : QueueOperation

module _ (T : Table TestRun) (Q : JobQueue T)
    (find_many : (TestRun → Bool) → T.Db → List RunRef) where
  unfoldable pub perform_queue : String → QueueOperation → Act T.Db StateError Unit
  perform_queue id enqueue = do Queue.enqueue T Q id; pure tt
  perform_queue id restore_missing_queued_job = do Queue.restore_missing_queued_job T Q id; pure tt
  perform_queue id (cancel by reason) = do Queue.cancel T Q id by reason; pure tt
  perform_queue id recover_queued_runs = Recovery.recover_queued_runs T Q find_many
  perform_queue id recover_expired_leases = Recovery.recover_expired_leases T Q find_many

  perform_queue-Guarantees :
      (id : String) (op : QueueOperation) → Guarantees Progress T (perform_queue id op)
  unfolding perform_queue
  perform_queue-Guarantees id enqueue = done T _ (enqueue-Safe T Q id)
  perform_queue-Guarantees id restore_missing_queued_job =
      done T _ (restore_missing_queued_job-Safe T Q id)
  perform_queue-Guarantees id (cancel by reason) = done T _ (cancel-Safe T Q id by reason)
  perform_queue-Guarantees id recover_queued_runs = recover_queued_runs-Safe T Q find_many
  perform_queue-Guarantees id recover_expired_leases = recover_expired_leases-Safe T Q find_many

  -- While the queue enqueues, restores or cancels a run, or the janitor recovers runs, and other processes perform any operations of the state
  -- service at its waits, each run `key` of the table keeps to the transition table, its fields stay
  -- coherent with its status, its attempts do not go down, and a request for its cancellation is
  -- not lost.
  pub perform_queue-Progress :
      (id : String) (op : QueueOperation) (others : List Other) (db : T.Db) (clock : ℕ)
      (key : String) (r : TestRun)
      → T.find db key ≡ some r
      → (r' : TestRun) × (T.find (perform_queue id op (busy T db clock others)).1.db key ≡ some r')
        × Progress r r'
  perform_queue-Progress id op others db clock key r found =
      followed T (T.find db key) (T.find (perform_queue id op (busy T db clock others)).1.db key) r
        found
        (((perform_queue-Guarantees id op).moves (busy T db clock others)
            (record { each = meanwhile-Evolves T others })).at
          key)
