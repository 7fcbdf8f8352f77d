-- ===== src/Runner/Lifecycle/Refinement.antt =====
-- While nobody else writes to the run, the execution of a queued run leaves it as the verdict says.
use testing_environment.Common.{
  ℕ, String, ◌≤◌, ◌≡◌, refl, ◌∙◌, Bool, Option, none, true, false, some, arith, ◌&&◌,
}
use testing_environment.Common.Result.{Result, ok, err}
use testing_environment.Common.Table.{Table}
use testing_environment.Common.Act.{World, Act, lift, now, ◌>>=◌}
use testing_environment.Runs.Status.{queued, claimed, is_terminal, allows, same_status}
use testing_environment.Runs.Run.{TestRun, Stats, LeaseOptions, StateError, active_lease}
use testing_environment.Runs.Rows.{lease_is_free, wants_cancellation}
use testing_environment.Runs.Updates.{claim_data}
use testing_environment.Runs.State.{claim}
use testing_environment.Runs.Operations.Races.{same_status_refl}
use testing_environment.Runner.{Interruption}
use testing_environment.Runner.Outcomes.{Outcomes, Worker}
use testing_environment.Runner.Lifecycle.{
  after_claim, claim_run, begin, prepare, run_phases, finish, go_on, complete, run_tests, proceed,
  execute_internal,
}
use testing_environment.Runner.Lifecycle.Alone.{
  Alone, Spares, Holds, Holds-eq, After, query-then, now-then, lift_ok-then, pure-After,
}
use testing_environment.Runner.Lifecycle.Stages.{
  allowed_lem, read_run-then, update-After, attempt-then, asked-then,
}
use testing_environment.Runner.Lifecycle.Verdict.{
  Verdict, verdict, beginnings, preparations, phases, IsSeen,
}
use testing_environment.Runner.Lifecycle.Handling.{handle-After, finish-After}
use testing_environment.Runner.Lifecycle.Phases.{
  Post, Remains, of_tests, Prepared, Tested, stage-then, prepare-After, run_phases-After,
}
use testing_environment.Runner.Lifecycle.Moves.{queued_lives}

claim_moves : (is_terminal queued ≡ false) × (allows queued claimed ≡ true)
unfolding is_terminal allows
claim_moves = (refl, refl)

claimed_row :
    (run : TestRun) (lease : LeaseOptions) (at : ℕ)
    → wants_cancellation run ≡ false
    → wants_cancellation (claim_data run lease at run) ≡ false
unfolding wants_cancellation claim_data same_status
claimed_row run lease at h = ground arith

module _ (T : Table TestRun) (id : String) (W : Worker) (o : Outcomes) where
  -- From `at` on a queued run that no worker holds and whose cancellation nobody wants.
  pub record IsReady (at : ℕ) (db : T.Db) : Type 0 where
    pub holds : Holds T id at queued db
    pub free : lease_is_free at holds.run.lease_expires_at ≡ true

  IsReady-eq :
      (at : ℕ) (db db' : T.Db) → T.find db' id ≡ T.find db id → IsReady at db → IsReady at db'
  IsReady-eq at db db' e h = record {
    holds = record {
      run = h.holds.run;
      found = e ∙ h.holds.found;
      in_status = h.holds.in_status;
      wanted = h.holds.wanted;
    };
    free = h.free;
  }

  module _ (at : ℕ) where
    still_free :
        (expires : Option ℕ) (clock : ℕ)
        → at ≤ clock
        → lease_is_free at expires ≡ true
        → lease_is_free clock expires ≡ true
    still_free none clock l h = refl
    still_free (some e) clock l h = ground arith

    abbrev Claimed : Result StateError TestRun → T.Db → Type 0
    Claimed r db = ((run : TestRun) × (r ≡ ok run)) × Holds T id at claimed db

    claim-After :
        (w : World T.Db)
        → Alone T id at w
        → IsReady at w.db
        → After T id at Claimed (claim T id (some W.lease) w)
    unfolding claim claim_data now lift ◌>>=◌
    claim-After w l h =
        let run = h.holds.run in
        let cond : TestRun → Bool =
          (λ r. same_status r.status run.status && lease_is_free w.clock r.lease_expires_at) in
        let changes = claim_data run W.lease w.clock in
        read_run-then T id at Claimed _ w run l h.holds.found (λ w1 l1 found.
          rw (allowed_lem T id at run queued claimed h.holds.in_status claim_moves.0 claim_moves.1)
            (let u = update-After T id at cond changes active_lease w1 run l1 found (
                rw (same_status_refl, still_free run.lease_expires_at w.clock l.later h.free)
                  refl) in
              record {
                alone = u.alone;
                result = (
                  (changes run, u.result.0),
                  record {
                    run = changes run;
                    found = u.result.1;
                    in_status = refl;
                    wanted = claimed_row run W.lease w.clock h.holds.wanted;
                  },
                );
              }))

    module _ (v : Verdict) where
      abbrev Begun : Bool → T.Db → Type 0
      Begun goes_on db =
          (goes_on ≡ true)
          × Holds T id at claimed db
          × Remains T id at W o v (of_tests T id at W o v) (preparations o (phases o))

      claim_run-After :
          (w : World T.Db)
          → Alone T id at w
          → IsReady at w.db
          → Remains T id at W o v
              (of_tests T id at W o v)
              (beginnings o (preparations o (phases o)))
          → After T id at (Post T id at W o v Begun) (claim_run T W o id w)
      unfolding claim_run after_claim
      claim_run-After w l h p =
          stage-then T id at W o v Begun queued _ _ _ _ w queued_lives l h.holds p (λ p1.
            stage-then T id at W o v Begun queued _ _ _ _ w queued_lives l h.holds p1 (λ p2.
              attempt-then T id at Claimed (Post T id at W o v Begun) (claim T id (some W.lease)) _
                w (claim-After w l h)
                (λ r w1 l1 q.
                  rw q.0.1
                    (pure-After T id at (Post T id at W o v Begun) true w1 l1 (refl, q.1, p2)))))

      begin-After :
          (started : ℕ) (w : World T.Db)
          → Alone T id at w
          → IsReady at w.db
          → Remains T id at W o v
              (of_tests T id at W o v)
              (beginnings o (preparations o (phases o)))
          → After T id at (Post T id at W o v Begun) (begin T W o id started w)
      unfolding begin same_status
      begin-After started w l h p =
          query-then T id at (Post T id at W o v Begun) (λ db. T.find db id) _ w l
            (λ w1 l1 e.
              rw (e, h.holds.found)
                (lift_ok-then T id at (Post T id at W o v Begun) h.holds.run _ w1 (
                  asked-then T id at W o (Post T id at W o v Begun) _ queued w1 l1
                    (Holds-eq T id at queued w.db w1.db e h.holds)
                    (λ w2 l2 e2 h2.
                      rw h.holds.in_status
                        (claim_run-After w2 l2 (IsReady-eq at w.db w2.db (e2 ∙ e) h) p)))))

      abbrev Seen : {A : Type 0} → A → T.Db → Type 0
      Seen r db = IsSeen T id v db

      go_on-After :
          {A : Type 0} (good : A → T.Db → Type 0) (started : ℕ) (has_workspace : Bool)
          (next : A → Act T.Db Interruption Unit) (r : Result Interruption A) (w : World T.Db)
          → Alone T id at w
          → Post T id at W o v good r w.db
          → ((a : A) → good a w.db → After T id at Seen (next a w))
          → After T id at Seen (go_on T W o id started has_workspace next r w)
      unfolding go_on
      go_on-After good started has_workspace next (ok a) w l h k = k a h
      go_on-After good started has_workspace next (err e) w l h k =
          rw h.agrees (handle-After T id at h.status started has_workspace e w W o l h.holds h.live)

      complete-After :
          (started : ℕ) (stats : Stats) (w : World T.Db)
          → Alone T id at w
          → Tested T id at W o v stats w.db
          → After T id at Seen (complete T W o id started stats w)
      unfolding complete go_on
      complete-After started stats w l (h, agrees) =
          attempt-then T id at _ Seen (finish T W o id started stats) _ w
            (finish-After T id at started stats w W o l h)
            (λ r w1 l1 q. rw q.0 (pure-After T id at Seen tt w1 l1 (rw agrees q.1)))

      run_tests-After :
          (started : ℕ) (u : Unit {0}) (w : World T.Db)
          → Alone T id at w
          → Prepared T id at W o v u w.db
          → After T id at Seen (run_tests T W o id started u w)
      unfolding run_tests
      run_tests-After started u w l h =
          attempt-then T id at _ Seen (run_phases T W o id) _ w
            (run_phases-After T id at W o v w l h.0 h.1)
            (λ r w1 l1 q.
              go_on-After (Tested T id at W o v) started true (complete T W o id started) r w1 l1 q
                (λ stats. complete-After started stats w1 l1))

      proceed-After :
          (started : ℕ) (goes_on : Bool) (w : World T.Db)
          → Alone T id at w
          → Begun goes_on w.db
          → After T id at Seen (proceed T W o id started goes_on w)
      unfolding proceed
      proceed-After started goes_on w l (goes, h, p) = rw goes (
          attempt-then T id at _ Seen (prepare T W o id) _ w (prepare-After T id at W o v w l h p)
            (λ r w1 l1 q.
              go_on-After (Prepared T id at W o v) started false (run_tests T W o id started) r w1
                l1 q (λ u. run_tests-After started u w1 l1)))

      execution-After :
          (w : World T.Db)
          → Alone T id at w
          → IsReady at w.db
          → Remains T id at W o v
              (of_tests T id at W o v)
              (beginnings o (preparations o (phases o)))
          → After T id at Seen (execute_internal T W o id w)
      unfolding execute_internal
      execution-After w l h p = now-then T id at Seen _ w (
          attempt-then T id at _ Seen (begin T W o id w.clock) _ w (begin-After w.clock w l h p)
            (λ r w1 l1 q.
              go_on-After Begun w.clock false (proceed T W o id w.clock) r w1 l1 q
                (λ goes_on. proceed-After w.clock goes_on w1 l1)))

  -- The execution of a queued run that no worker holds, and whose cancellation nobody wants, leaves the run finished, with the
  -- status, the category of the failure and the message of the verdict, if what others do at its waits leaves the run
  -- alone, however much time passes: the first thing that goes wrong decides, and otherwise the tests do.
  pub execute_internal_lem :
      (w : World T.Db)
      → Spares T id w.clock w.schedule
      → IsReady w.clock w.db
      → IsSeen T id (verdict W.mask o) (execute_internal T W o id w).1.db
  unfolding verdict
  execute_internal_lem w s h =
      (execution-After w.clock (verdict W.mask o) w (record { spared = s; later = omega arith }) h
        refl).result
