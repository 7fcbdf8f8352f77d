-- ===== src/Runs/Operations/Races.antt =====
-- Two workers that race for one run.
use testing_environment.Common.{
  ℕ, ◌+◌, String, ◌≡◌, refl, Bool, true, false, ◌&&◌, some, List, [], ◌∷◌, arith, Option-cases,
  Bool-cases, inl, inr, if◌then◌else◌, ◌==◌,
}
use testing_environment.Common.Result.{Result-cases, ok, err}
use testing_environment.Common.Table.{Table}
use testing_environment.Common.Act.{Meanwhile, World, ◌>>=◌}
use testing_environment.Runs.Status.{TestRunStatus, claimed, same_status}
use testing_environment.Runs.Run.{TestRun, LeaseOptions, StateError}
use testing_environment.Runs.Rows.{assert_transition_allowed, lease_is_free}
use testing_environment.Runs.Updates.{claim_data, transition_data}
use testing_environment.Runs.State.{claim, transition, update_run, find_or_throw}
use testing_environment.Runs.Run.{run_not_found, active_lease, changed_concurrently}
use text.Mathlib.TextPositions.{eq_refl}

pub same_status_refl : (s : TestRunStatus) → same_status s s ≡ true
unfolding same_status
same_status_refl s = ground arith

-- After the claim of `a` the lease is not free for a worker that started no later.
beaten :
    (r : TestRun) (a : LeaseOptions) (clock elapsed : ℕ)
    → let at = clock + elapsed in
      let r' = if lease_is_free at r.lease_expires_at then claim_data r a at r else r in
      (same_status r'.status r.status && lease_is_free clock r'.lease_expires_at) ≡ false
unfolding claim_data
beaten r a clock elapsed = ground arith

module _ (T : Table TestRun) where
  abbrev pub quiet : T.Db → ℕ → World T.Db
  quiet db clock = record { db = db; clock = clock; schedule = [] }

  find_or_throw-db :
      (id : String) (db : T.Db) (at : ℕ) → (find_or_throw T id (quiet db at)).1.db ≡ db
  unfolding find_or_throw ◌>>=◌
  find_or_throw-db id db at = refl

  module _ (id : String) (cond : TestRun → Bool) (changes : TestRun → TestRun)
      (e : StateError) where
    -- With nobody else at work, an update leaves the amended table, whatever it returns.
    update_run-db :
        (db : T.Db) (at : ℕ)
        → (update_run T id cond changes e (quiet db at)).1.db ≡ T.update db id cond changes
    unfolding update_run ◌>>=◌
    update_run-db db at = elim (Bool-cases (T.count db id cond == 0)) [
      | inl none_changed ↦ rw none_changed
      | inr changed ↦ rw changed (find_or_throw-db id (T.update db id cond changes) at)
    ]

    -- An update finds its row changed so that `where` fails: it reports the failure, and the row is as
    -- the others left it.
    update_run_lost :
        (db : T.Db) (at : ℕ) (m : Meanwhile T.Db) (ms : List (Meanwhile T.Db)) (r : TestRun)
        → T.find (m.writes db) id ≡ some r
        → cond r ≡ false
        → let (result, w) =
            update_run T id cond changes e (record { db = db; clock = at; schedule = m ∷ ms }) in
          (result ≡ err e) × (T.find w.db id ≡ some r)
    unfolding update_run ◌>>=◌
    update_run_lost db at m ms r found failed = (
      rw (T.count_lem, found, failed) refl,
      rw (T.count_lem, found, failed) (rw (T.find-update, eq_refl, found, failed) refl),
    )

  -- What the claim of the other worker leaves, if the check of the status passes.
  other_claim :
      (id : String) (a : LeaseOptions) (db : T.Db) (at : ℕ) (r : TestRun) {u : Unit {0}}
      → T.find db id ≡ some r
      → assert_transition_allowed r claimed ≡ ok u
      → T.find (claim T id (some a) (quiet db at)).1.db id
        ≡ some (if lease_is_free at r.lease_expires_at then claim_data r a at r else r)
  unfolding claim ◌>>=◌
  other_claim id a db at r e c =
      rw (e, c, update_run-db, T.find-update, eq_refl, e, same_status_refl) refl

  abbrev pub calm : Meanwhile T.Db
  calm = record { writes = λ db. db; elapsed = 0 }

  -- The worker `a` claims the run, `elapsed` milliseconds later.
  abbrev pub rival : String → LeaseOptions → ℕ → ℕ → Meanwhile T.Db
  rival id a clock elapsed = record {
    writes = λ db. (claim T id (some a) (quiet db (clock + elapsed))).1.db;
    elapsed = elapsed;
  }

  -- Two workers claim a run with a lease, and the whole claim of the one falls between the read and the update of the
  -- other, whose claim began no later. Then the claim of the other throws, whatever the run is and whatever happens
  -- afterwards.
  pub claim_race :
      (id : String) (a b : LeaseOptions) (db : T.Db) (clock elapsed : ℕ)
      (later : List (Meanwhile T.Db))
      → (e : StateError) × ((claim T id (some b) (record {
        db = db;
        clock = clock;
        schedule = calm ∷ rival id a clock elapsed ∷ later;
      })).0
          ≡ err e)
  unfolding claim ◌>>=◌
  claim_race id a b db clock elapsed later = elim (Option-cases (T.find db id)) [
    | inl missing ↦ (run_not_found, rw missing refl)
    | inr (r, found) ↦ elim (Result-cases (assert_transition_allowed r claimed)) [
      | inl (e, refused) ↦ (e, rw (found, refused) refl)
      | inr (u, passes) ↦ (
        active_lease,
        rw (found, passes)
            (update_run_lost id
              (λ x. same_status x.status r.status && lease_is_free clock x.lease_expires_at)
              (claim_data r b clock) active_lease db (clock + 0) (rival id a clock elapsed) later _
              (other_claim id a db (clock + elapsed) r found passes) (beaten r a clock elapsed)).0,
      )
    ]
  ]

  -- The optimistic lock of `transition`: the run `r` was read and the move to the target passes the
  -- check, but when the update comes another process has changed the status. Then the transition throws
  -- `changed_concurrently`, and the run is exactly as the other left it.
  pub transition_race :
      (id : String) (target : TestRunStatus) (changes : TestRun → TestRun) (db : T.Db) (clock : ℕ)
      (m : Meanwhile T.Db) (later : List (Meanwhile T.Db)) (r r' : TestRun) {u : Unit {0}}
      → T.find db id ≡ some r
      → assert_transition_allowed r target ≡ ok u
      → T.find (m.writes db) id ≡ some r'
      → same_status r'.status r.status ≡ false
      → let (result, w) =
          transition T id target changes
            (record { db = db; clock = clock; schedule = calm ∷ m ∷ later }) in
        (result ≡ err changed_concurrently) × (T.find w.db id ≡ some r')
  unfolding transition ◌>>=◌
  transition_race id target changes db clock m later r r' found passes found' differs =
      rw (found, passes)
        (update_run_lost id (λ x. same_status x.status r.status)
          (transition_data r target (clock + 0) changes) changed_concurrently db (clock + 0) m later
          r' found' differs)
