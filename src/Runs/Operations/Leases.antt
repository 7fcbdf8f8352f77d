-- ===== src/Runs/Operations/Leases.antt =====
-- Renewing a lease, and ending a run that another process may have ended already.
use testing_environment.Common.{
  ℕ, ◌+◌, String, ◌≡◌, refl, ap, Bool, true, false, Option, none, some, [], ◌∷◌, List, str_eq,
  str_eq_iff, arith, inl, inr, Bool-cases,
}
use text.Mathlib.TextPositions.{eq_refl}
use testing_environment.Common.Result.{Result, ok, err, Result-cases}
use testing_environment.Common.Table.{Table}
use testing_environment.Common.Act.{Meanwhile, ◌>>=◌, catch}
use testing_environment.Runs.Status.{
  TestRunStatus, is_terminal, is_active, infra_failed, same_status, allows,
}
use testing_environment.Runs.Run.{
  TestRun, StateError, from_terminal, invalid_transition, FailureCategory, is_conflict,
}
use testing_environment.Runs.Rows.{assert_transition_allowed, is_leased_by, is_runner}
use testing_environment.Runs.Updates.{renewed_data}
use testing_environment.Runs.State.Ending.{renew_lease, try_mark_infra_failed}
use testing_environment.Runs.Operations.Races.{calm}

-- The worker holds the run: it has its name, it is not finished, and it is active.
pub record IsHeldBy (worker : String) (r : TestRun) : Type 0 where
  pub mine : r.runner_id ≡ some worker
  pub unfinished : r.finished_at ≡ none
  pub active : is_active r.status ≡ true

runner_lem : (worker : String) (o : Option String) → is_runner worker o ≡ true → o ≡ some worker
runner_lem worker none h = cc
runner_lem worker (some owner) h = ap some ((str_eq_iff owner worker).0 h)

leased-IsHeldBy : (worker : String) (r : TestRun) → is_leased_by worker r ≡ true → IsHeldBy worker r
unfolding is_leased_by
leased-IsHeldBy worker r h = record {
  mine = runner_lem worker r.runner_id (ground (arith, h));
  unfinished = ground (arith, h);
  active = ground (arith, h);
}

IsHeldBy-leased : (worker : String) (r : TestRun) → IsHeldBy worker r → is_leased_by worker r ≡ true
unfolding is_leased_by
IsHeldBy-leased worker r h = rw (h.mine, h.unfinished, h.active, eq_refl) refl

-- The waits of the call before it writes.
pub data Moment : Type 0 where
  first_look read update : Moment

module _ (T : Table TestRun) where
  -- A heartbeat of a worker reaches the table, whatever others did before. If the worker then holds the run, which is
  -- unfinished and active, the answer is true, the lease ends `duration` after the heartbeat began, and nothing else
  -- changes in the run; otherwise the answer is false and the run is left alone. Every other run is left alone.
  pub renew_lease_lem :
      (id runner_id : String) (duration clock : ℕ) (db : T.Db) (m : Meanwhile T.Db) (r : TestRun)
      → T.find (m.writes db) id ≡ some r
      → let (result, w) =
          renew_lease T id runner_id duration
            (record { db = db; clock = clock; schedule = m ∷ [] }) in
        (IsHeldBy runner_id r
          → (result ≡ ok true)
            × (T.find w.db id
                ≡ some (record r {
                  heartbeat_at = some clock;
                  lease_expires_at = some (clock + duration);
                })))
        × (¬ IsHeldBy runner_id r → (result ≡ ok false) × (T.find w.db id ≡ some r))
        × ((other : String)
            → str_eq id other ≡ false
            → T.find w.db other ≡ T.find (m.writes db) other)
  unfolding renew_lease renewed_data ◌>>=◌
  renew_lease_lem id runner_id duration clock db m r found = (
    λ h.
        let e = IsHeldBy-leased runner_id r h in
        (rw (T.count_lem, found, e) refl, rw (T.find-update, eq_refl, found, e) refl),
    λ n. elim (Bool-cases (is_leased_by runner_id r)) [
      | inl e ↦ absurd (n (leased-IsHeldBy runner_id r e))
      | inr e ↦ (rw (T.count_lem, found, e) refl, rw (T.find-update, eq_refl, found, e) refl)
    ],
    λ other ne. rw (T.find-update, ne) refl,
  )

  assert_terminal :
      (r : TestRun) (target : TestRunStatus)
      → is_terminal r.status ≡ true
      → assert_transition_allowed r target ≡ err (from_terminal r.status)
  unfolding assert_transition_allowed
  assert_terminal r target h = rw h refl

  refusal-conflict :
      (r : TestRun) (target : TestRunStatus) (e : StateError)
      → assert_transition_allowed r target ≡ err e
      → is_conflict e ≡ true
  unfolding assert_transition_allowed
  refusal-conflict r target e h = elim (Bool-cases (is_terminal r.status)) [
    | inl p ↦ let k = rw p at h in conflict (from_terminal r.status) e k refl
    | inr p ↦ elim (Bool-cases (same_status r.status target)) [
      | inl q ↦ let k = rw (p, q) at h in cc
      | inr q ↦ elim (Bool-cases (allows r.status target)) [
        | inl t ↦ let k = rw (p, q, t) at h in cc
        | inr t ↦
            let k = rw (p, q, t) at h in conflict (invalid_transition r.status target) e k refl
      ]
    ]
  ]
    where
      conflict :
          (d e : StateError)
          → ◌≡◌ {A = Result StateError Unit} (err d) (err e)
          → is_conflict d ≡ true
          → is_conflict e ≡ true
      conflict d e k c = let q : d ≡ e = cc in rw⁻¹ q c

  differs :
      (r r' : TestRun)
      → is_terminal r.status ≡ false
      → is_terminal r'.status ≡ true
      → same_status r'.status r.status ≡ false
  unfolding is_terminal same_status
  differs r r' h k = ground arith

  -- An update whose `where` the row does not meet changes nothing.
  unmatched :
      (db : T.Db) (id : String) (cond : TestRun → Bool) (changes : TestRun → TestRun) (r : TestRun)
      → T.find db id ≡ some r
      → cond r ≡ false
      → (key : String) → T.find (T.update db id cond changes) key ≡ T.find db key
  unmatched db id cond changes r found failed key = elim (Bool-cases (str_eq id key)) [
    | inl e ↦
        let q : id ≡ key = (str_eq_iff id key).0 e in
        let f : T.find db key ≡ some r = rw⁻¹ q found in rw (T.find-update, e, f, failed) refl
    | inr e ↦ rw (T.find-update, e) refl
  ]

  abbrev pub meets : Moment → Meanwhile T.Db → List (Meanwhile T.Db)
  meets first_look m = m ∷ []
  meets read m = calm T ∷ m ∷ []
  meets update m = calm T ∷ calm T ∷ m ∷ []

  -- The janitor or a worker gives a run up, and another process ends it at any of the waits before the update: at the
  -- first look, at the read of the transition or at the update itself. Then the call returns null and does not throw,
  -- and every run is as the other process left it.
  pub try_mark_infra_failed_race :
      (moment : Moment) (id : String) (category : FailureCategory) (reason : String)
      (duration : Option ℕ) (db : T.Db) (clock : ℕ) (m : Meanwhile T.Db) (r r' : TestRun)
      → T.find db id ≡ some r
      → is_terminal r.status ≡ false
      → T.find (m.writes db) id ≡ some r'
      → is_terminal r'.status ≡ true
      → let (result, w) =
          try_mark_infra_failed T id category reason duration
            (record { db = db; clock = clock; schedule = meets moment m }) in
        (result ≡ ok none) × ((key : String) → T.find w.db key ≡ T.find (m.writes db) key)
  unfolding try_mark_infra_failed ◌>>=◌ catch
  try_mark_infra_failed_race first_look id category reason duration db clock m r r' found live
        found' ended =
      rw (found', ended) (refl, λ key. refl)
  try_mark_infra_failed_race read id category reason duration db clock m r r' found live found'
        ended =
      rw (found, live, found', assert_terminal r' infra_failed ended)
        (rw (found', ended) (refl, λ key. refl))
  try_mark_infra_failed_race update id category reason duration db clock m r r' found live found'
        ended =
      elim (Result-cases (assert_transition_allowed r infra_failed)) [
        | inl (e, refused) ↦
            rw (found, live, found, refused, refusal-conflict r infra_failed e refused)
              (rw (found', ended) (refl, λ key. refl))
        | inr (u, passes) ↦
            let apart = differs r r' live ended in
            rw (found, live, found, passes)
              (rw (T.count_lem, found', apart)
                (rw (T.find-update, eq_refl, found', apart)
                  (rw ended (refl, unmatched (m.writes db) id _ _ r' found' apart))))
      ]
