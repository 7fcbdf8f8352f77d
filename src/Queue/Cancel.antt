-- ===== src/Queue/Cancel.antt =====
-- What becomes of a queued run that is cancelled.
use testing_environment.Common.{ℕ, String, ◌≡◌, refl, true, Option, none, some}
use package.text.Mathlib.TextPositions.{eq_refl}
use testing_environment.Common.Result.{ok}
use testing_environment.Common.Table.{Table}
use testing_environment.Common.Act.{◌>>=◌}
use testing_environment.Runs.Status.{
  queued, cancelled, cancel_requested, is_terminal, is_cancellable, same_status, allows,
}
use testing_environment.Runs.Run.{TestRun}
use testing_environment.Runs.Rows.{assert_transition_allowed}
use testing_environment.Runs.Updates.{transition_data, cancel_requested_data, cancelled_data}
use testing_environment.Runs.State.{read_run}
use testing_environment.Runs.State.Ending.{request_cancel, mark_cancelled}
use testing_environment.Runs.Operations.Races.{quiet, same_status_refl}
use testing_environment.Runs.Operations.Quiet.{transition_done}
use testing_environment.Queue.{
  JobQueue, JobState, get_job_id, is_pending, cancel_queued_run, finish_cancel, cancel, removed,
}

module _ (T : Table TestRun) (Q : JobQueue T) (id : String) (by reason : Option String) (db : T.Db)
    (at : ℕ) (r : TestRun) where
  abbrev waiting : TestRun
  waiting = record r { status = queued }

  abbrev requested : TestRun
  requested =
      transition_data waiting cancel_requested at (cancel_requested_data by reason at) waiting

  db₁ : T.Db
  db₁ =
      T.update db id (λ x. same_status x.status queued)
        (transition_data waiting cancel_requested at (cancel_requested_data by reason at))

  request_done :
      T.find db id ≡ some waiting
      → request_cancel T id by reason (quiet T db at) ≡ (ok requested, quiet T db₁ at)
  unfolding request_cancel assert_transition_allowed is_terminal same_status allows db₁ ◌>>=◌
  request_done found =
      transition_done T id cancel_requested (cancel_requested_data by reason at) db at waiting
        {u = tt} found refl

  found_requested : T.find db id ≡ some waiting → T.find db₁ id ≡ some requested
  unfolding db₁
  found_requested found = rw (T.find-update, eq_refl, found, same_status_refl) refl

  db₂ : T.Db
  db₂ = Q.remove db₁ (get_job_id id)

  job_removed :
      (s : JobState)
      → Q.job_state db (get_job_id id) ≡ some s
      → is_pending s ≡ true
      → cancel_queued_run T Q id (quiet T db₁ at) ≡ (ok removed, quiet T db₂ at)
  unfolding cancel_queued_run db₁ db₂ ◌>>=◌
  job_removed s job pending =
      let k : Q.job_state db₁ (get_job_id id) ≡ some s = rw Q.state-update job in
      rw k (rw (k, pending) refl)

  ended : TestRun
  ended = transition_data requested cancelled at (cancelled_data none none at) requested

  db₃ : T.Db
  db₃ =
      T.update db₂ id (λ x. same_status x.status cancel_requested)
        (transition_data requested cancelled at (cancelled_data none none at))

  found_again : T.find db id ≡ some waiting → T.find db₂ id ≡ some requested
  unfolding db₂
  found_again found = rw Q.find-remove (found_requested found)

  cancel_done :
      T.find db id ≡ some waiting
      → mark_cancelled T id none none (quiet T db₂ at) ≡ (ok ended, quiet T db₃ at)
  unfolding mark_cancelled assert_transition_allowed is_terminal same_status allows db₃ ended
      transition_data ◌>>=◌
  cancel_done found =
      transition_done T id cancelled (cancelled_data none none at) db₂ at requested {u = tt}
        (found_again found) refl

  found_ended : T.find db id ≡ some waiting → T.find db₃ id ≡ some ended
  unfolding db₃ ended transition_data
  found_ended found = rw (T.find-update, eq_refl, found_again found, same_status_refl) refl

  finish_done :
      (s : JobState)
      → T.find db id ≡ some waiting
      → Q.job_state db (get_job_id id) ≡ some s
      → is_pending s ≡ true
      → finish_cancel T Q id (quiet T db₁ at) ≡ (ok ended, quiet T db₃ at)
  unfolding finish_cancel read_run ◌>>=◌
  finish_done s found job pending =
      rw (job_removed s job pending) (rw (cancel_done found) (rw (found_ended found) refl))

  cancel-ended :
      (s : JobState)
      → T.find db id ≡ some waiting
      → Q.job_state db (get_job_id id) ≡ some s
      → is_pending s ≡ true
      → cancel T Q id by reason (quiet T db at) ≡ (ok ended, quiet T db₃ at)
  unfolding cancel read_run is_terminal is_cancellable same_status ◌>>=◌
  cancel-ended s found job pending =
      rw found (rw (request_done found) (rw (finish_done s found job pending) refl))

  ended_lem : (ended.status ≡ cancelled) × (ended.finished_at ≡ some at)
  unfolding ended transition_data cancelled_data
  ended_lem = (refl, refl)

  job_gone : Q.job_state db₃ (get_job_id id) ≡ none
  unfolding db₃ db₂
  job_gone = rw (Q.state-update, Q.state-remove, eq_refl) refl

  -- A queued run whose job no worker has taken is cancelled at once: it is finished, and its job is gone.
  pub cancel_queued_lem :
      (s : JobState)
      → T.find db id ≡ some waiting
      → Q.job_state db (get_job_id id) ≡ some s
      → is_pending s ≡ true
      → let (result, w) = cancel T Q id by reason (quiet T db at) in
        (r' : TestRun) × (result ≡ ok r')
        × (T.find w.db id ≡ some r')
        × (r'.status ≡ cancelled)
        × (r'.finished_at ≡ some at)
        × (Q.job_state w.db (get_job_id id) ≡ none)
  cancel_queued_lem s found job pending =
      rw (cancel-ended s found job pending)
        (ended, refl, found_ended found, ended_lem.0, ended_lem.1, job_gone)
