-- ===== src/Queue/Safe.antt =====
-- That the queue and the cancellation keep what the state service keeps, whatever happens at their waits.
use testing_environment.Common.{
  String, ◌≡◌, sym, subst, Bool, not, ◌||◌, Option, none, some, List, [], ◌∷◌, or_else, is_some,
  if◌then◌else◌,
}
use testing_environment.Common.Table.{Table}
use testing_environment.Common.Act.{Act, pure, query, command, now, ◌>>=◌}
use testing_environment.Common.Act.Guarantee.{
  Follows, Guarantees-pure, Guarantees-query, Guarantees-command, Guarantees-if, Guarantees-bind,
  Guarantees-catch, Guarantees-now,
}
use testing_environment.Runs.Status.{
  created, queued, same_status, is_terminal, is_cancellable, cancel_requested,
}
use testing_environment.Runs.Run.{TestRun, StateError}
use testing_environment.Runs.Progress.{Progress, Progress-refl, Progress-trans}
use testing_environment.Runs.Guarantee.{
  Safe, read_run-Safe, get_queue_state-Safe, mark_queued_if_created-Safe, request_cancel-Safe,
  mark_cancelled-Safe, mark_infra_failed-Safe, try_mark-Safe,
}
use testing_environment.Runs.State.Ending.{try_mark_infra_failed, try_mark_cancelled}
use testing_environment.Queue.Recovery.{
  RunRef, recover_queued_run, recover_expired_lease, for_each, recover_queued_runs,
  recover_expired_leases,
}
use testing_environment.Queue.{
  JobQueue, JobState, get_job_id, is_pending, add_job, has_job, enqueue, restore_missing_queued_job,
  cancel_job, cancel_queued_run, is_taken, finish_cancel, cancel,
}

Follows-same : (a b : Option TestRun) → b ≡ a → Follows Progress a b
Follows-same none b e = tt
Follows-same (some r) b e =
    subst (λ (x : Option TestRun). Follows Progress (some r) x) (sym e) (Progress-refl r)

module _ (T : Table TestRun) (Q : JobQueue T) where
  then_Safe :
      {A B : Type 0} (m : Act T.Db StateError A) (f : A → Act T.Db StateError B)
      → Safe T m
      → ((a : A) → Safe T (f a))
      → Safe T (m >>= f)
  then_Safe m f = Guarantees-bind Progress-refl Progress-trans T m f

  return_Safe : {A : Type 0} (a : A) → Safe T (pure a)
  return_Safe a = Guarantees-pure Progress-refl Progress-trans T a

  read_Safe : {A : Type 0} (read : T.Db → A) → Safe T (query read)
  read_Safe read = Guarantees-query Progress-refl Progress-trans T read

  if_Safe :
      {A : Type 0} (b : Bool) (m n : Act T.Db StateError A)
      → Safe T m
      → Safe T n
      → Safe T (if b then m else n)
  if_Safe b m n hm hn = Guarantees-if Progress-refl Progress-trans T b m n (λ _. hm) (λ _. hn)

  add_job-Safe : (id : String) → Safe T (add_job T Q id)
  unfolding add_job
  add_job-Safe id = Guarantees-command Progress-refl Progress-trans T _ _ (λ db. record {
    at = λ key. Follows-same (T.find db key) (T.find (Q.add db id) key) (Q.find-add db id key);
  })

  remove_job-Safe :
      (id : String) → Safe T (command {E = StateError} (λ db. tt) (λ db. Q.remove db id))
  remove_job-Safe id = Guarantees-command Progress-refl Progress-trans T _ _ (λ db. record {
    at =
        λ key. Follows-same (T.find db key) (T.find (Q.remove db id) key) (Q.find-remove db id key);
  })

  pub enqueue-Safe : (id : String) → Safe T (enqueue T Q id)
  unfolding enqueue
  enqueue-Safe id = then_Safe _ _ (get_queue_state-Safe T id) (λ run.
      if_Safe (same_status run.status created) _ _
        (then_Safe _ _ (add_job-Safe (get_job_id id)) (λ _.
          then_Safe _ _ (mark_queued_if_created-Safe T id (get_job_id id)) (λ _. return_Safe _)))
        (return_Safe _))

  pub restore_missing_queued_job-Safe : (id : String) → Safe T (restore_missing_queued_job T Q id)
  unfolding restore_missing_queued_job
  restore_missing_queued_job-Safe id = then_Safe _ _ (get_queue_state-Safe T id) (λ run.
      if_Safe (not (same_status run.status queued) || is_some run.finished_at) _ _ (return_Safe _) (
        if_Safe (is_some run.cancel_requested_at || is_some run.cancellation_requested_at) _ _
          (return_Safe _) (then_Safe _ _ (add_job-Safe (get_job_id id)) (λ _. return_Safe _))))

  cancel_job-Safe : (id : String) → Safe T (cancel_job T Q id)
  unfolding cancel_job
  cancel_job-Safe id = then_Safe _ _ (read_Safe _) (λ state.
      if_Safe (is_pending (or_else state JobState.other)) _ _
        (then_Safe _ _ (remove_job-Safe id) (λ _. return_Safe _)) (return_Safe _))

  cancel_queued_run-Safe : (id : String) → Safe T (cancel_queued_run T Q id)
  unfolding cancel_queued_run
  cancel_queued_run-Safe id =
      then_Safe _ _ (read_Safe _)
        (λ job. if_Safe (is_some job) _ _ (cancel_job-Safe (get_job_id id)) (return_Safe _))

  finish_cancel-Safe : (id : String) → Safe T (finish_cancel T Q id)
  unfolding finish_cancel
  finish_cancel-Safe id = then_Safe _ _ (cancel_queued_run-Safe id) (λ state.
      if_Safe (is_taken T Q state) _ _ (read_run-Safe T id)
        (then_Safe _ _ (mark_cancelled-Safe T id none none) (λ _. read_run-Safe T id)))

  pub cancel-Safe : (id : String) (by reason : Option String) → Safe T (cancel T Q id by reason)
  unfolding cancel
  cancel-Safe id by reason = then_Safe _ _ (read_run-Safe T id) (λ run.
      if_Safe
        (is_terminal run.status
          || same_status run.status cancel_requested
          || not (is_cancellable run.status))
        _ _ (return_Safe _)
        (then_Safe _ _ (request_cancel-Safe T id by reason) (λ _.
          if_Safe (same_status run.status queued) _ _ (finish_cancel-Safe id)
            (read_run-Safe T id))))

  module _ (find_many : (TestRun → Bool) → T.Db → List RunRef) where
    recover_queued_run-Safe : (run : RunRef) → Safe T (recover_queued_run T Q find_many run)
    unfolding recover_queued_run has_job
    recover_queued_run-Safe run =
        if_Safe (same_status run.status created) _ _
          (then_Safe _ _ (enqueue-Safe run.id) (λ _. return_Safe _))
          (then_Safe _ _ (read_Safe _) (λ found.
            if_Safe found _ _ (return_Safe _)
              (then_Safe _ _ (restore_missing_queued_job-Safe run.id) (λ _. return_Safe _))))

    recover_expired_lease-Safe : (run : RunRef) → Safe T (recover_expired_lease T Q find_many run)
    unfolding recover_expired_lease try_mark_infra_failed try_mark_cancelled
    recover_expired_lease-Safe run =
        if_Safe (same_status run.status cancel_requested) _ _
          (then_Safe _ _ (try_mark-Safe T run.id _ (mark_cancelled-Safe T run.id none _))
            (λ _. return_Safe _))
          (then_Safe _ _ (try_mark-Safe T run.id _ (mark_infra_failed-Safe T run.id _ _ none))
            (λ _. return_Safe _))

    for_each-Safe :
        (step : RunRef → Act T.Db StateError Unit) (runs : List RunRef)
        → ((run : RunRef) → Safe T (step run))
        → Safe T (for_each T Q find_many step runs)
    unfolding for_each
    for_each-Safe step [] h = return_Safe _
    for_each-Safe step (run ∷ runs) h =
        then_Safe _ _
          (Guarantees-catch Progress-refl Progress-trans T _ _ (h run) (λ e. return_Safe _))
          (λ _. for_each-Safe step runs h)

    pub recover_queued_runs-Safe : Safe T (recover_queued_runs T Q find_many)
    unfolding recover_queued_runs
    recover_queued_runs-Safe =
        then_Safe _ _ (read_Safe _)
          (λ runs. for_each-Safe (recover_queued_run T Q find_many) runs recover_queued_run-Safe)

    pub recover_expired_leases-Safe : Safe T (recover_expired_leases T Q find_many)
    unfolding recover_expired_leases
    recover_expired_leases-Safe =
        then_Safe now _ (Guarantees-now Progress-refl Progress-trans T) (λ at.
          then_Safe _ _ (read_Safe _) (λ runs.
            for_each-Safe (recover_expired_lease T Q find_many) runs recover_expired_lease-Safe))
