-- ===== src/Runner/Lifecycle/Phases.antt =====
-- The phases of an execution while nobody else writes to the run: they end in the clean-up, or break off in a status that can be
-- left for a failure or a cancellation.
use testing_environment.Common.{ℕ, String, ◌≡◌, refl, List, [], ◌∷◌}
use testing_environment.Common.Result.{Result, ok, err}
use testing_environment.Common.Table.{Table}
use testing_environment.Common.Act.{World, Act, lift, ◌>>=◌}
use testing_environment.Runs.Status.{
  TestRunStatus, claimed, preparing_workspace, validating_environment, pulling_images,
  starting_environment, waiting_for_healthcheck, executing_tests, collecting_artifacts, cleaning_up,
}
use testing_environment.Runs.Run.{TestRun, Stats}
use testing_environment.Runner.{Interruption}
use testing_environment.Runner.Outcomes.{Outcomes, Worker, when}
use testing_environment.Runner.Lifecycle.{
  ensure, enter, prepare, run_suites, check_and_run, start_and_run, run_phases,
}
use testing_environment.Runner.Lifecycle.Alone.{Alone, Holds, After, pure-After}
use testing_environment.Runner.Lifecycle.Stages.{lift-then, ensure-then, enter-then}
use testing_environment.Runner.Lifecycle.Verdict.{
  Verdict, Happening, broken, tested, verdict_of, verdict_of_tests, collection, health, environment,
  preparations, phases,
}
use testing_environment.Runner.Lifecycle.Marks.{IsLive}
use testing_environment.Runner.Lifecycle.Moves.{
  Leads, claimed_lives, preparing_lives, validating_lives, pulling_lives, starting_lives,
  waiting_lives, executing_lives, collecting_lives, claimed-Leads, preparing-Leads,
  validating-Leads, pulling-Leads, starting-Leads, waiting-Leads, executing-Leads, collecting-Leads,
}

module _ (T : Table TestRun) (id : String) (at : ℕ) (W : Worker) (o : Outcomes) (v : Verdict) where
  -- The execution has broken off with this error, while the run has a status from which it is handled.
  pub record Broke (e : Interruption) (db : T.Db) : Type 0 where
    pub status : TestRunStatus
    pub holds : Holds T id at status db
    pub live : IsLive status
    pub agrees : v ≡ broken W.mask status e

  abbrev pub Post : {A : Type 0} → (A → T.Db → Type 0) → Result Interruption A → T.Db → Type 0
  Post good (ok a) db = good a db
  Post good (err e) db = Broke e db

  abbrev pub Remains : Verdict → List Happening → Type 0
  Remains end rest = v ≡ verdict_of W.mask rest end

  abbrev pub of_tests : Verdict
  of_tests = verdict_of_tests W.mask o o.suites

  happened :
      (status : TestRunStatus) (x : Result Interruption Unit) (u : Unit {0}) (rest : List Happening)
      (end : Verdict)
      → x ≡ ok u
      → Remains end ((status, x) ∷ rest)
      → Remains end rest
  unfolding verdict_of
  happened status x u rest end e p = rw e at p

  stopped :
      (status : TestRunStatus) (x : Result Interruption Unit) (e : Interruption)
      (rest : List Happening) (end : Verdict) (db : T.Db)
      → x ≡ err e
      → Remains end ((status, x) ∷ rest)
      → Holds T id at status db
      → IsLive status
      → Broke e db
  unfolding verdict_of
  stopped status x e rest end db q p h live = record {
    status = status;
    holds = h;
    live = live;
    agrees = rw q at p;
  }

  module _ {B : Type 0} (good : B → T.Db → Type 0) where
    pub stage-then :
        (status : TestRunStatus) (x : Result Interruption Unit) (rest : List Happening)
        (end : Verdict) (f : Unit {0} → Act T.Db Interruption B) (w : World T.Db)
        → IsLive status
        → Alone T id at w
        → Holds T id at status w.db
        → Remains end ((status, x) ∷ rest)
        → (Remains end rest → After T id at (Post good) (f tt w))
        → After T id at (Post good) ((lift x >>= f) w)
    stage-then status x rest end f w live l h p k =
        lift-then T id at (Post good) f x w l (λ u e. k (happened status x u rest end e p))
          (λ e q. stopped status x e rest end w.db q p h live)

    signal-then :
        (status : TestRunStatus) (x : Result Interruption Unit) (rest : List Happening)
        (end : Verdict) (f : Unit {0} → Act T.Db Interruption B) (w : World T.Db)
        → IsLive status
        → Alone T id at w
        → Holds T id at status w.db
        → Remains end ((status, x) ∷ rest)
        → ((w' : World T.Db)
            → Alone T id at w'
            → Holds T id at status w'.db
            → Remains end rest
            → After T id at (Post good) (f tt w'))
        → After T id at (Post good) ((ensure T W o id x >>= f) w)
    signal-then status x rest end f w live l h p k =
        ensure-then T id at W o (Post good) f status x w l h
          (λ w1 e l1 h1. k w1 l1 h1 (happened status x tt rest end e p))
          (λ e w1 q l1 h1. stopped status x e rest end w1.db q p h1 live)

    phase-then :
        (status phase : TestRunStatus) (f : TestRun → Act T.Db Interruption B) (w : World T.Db)
        → Leads status phase
        → Alone T id at w
        → Holds T id at status w.db
        → ((run : TestRun) (w' : World T.Db)
            → Alone T id at w'
            → Holds T id at phase w'.db
            → After T id at (Post good) (f run w'))
        → After T id at (Post good) ((enter T W o id phase >>= f) w)
    phase-then status phase f w m l h k =
        enter-then T id at W o (Post good) f status phase w l h m.not_over m.allowed m.is_next k

  abbrev pub Prepared : Unit {0} → T.Db → Type 0
  Prepared u db = Holds T id at preparing_workspace db × Remains of_tests (phases o)

  last-After :
      (x : Result Interruption Unit) (w : World T.Db)
      → Alone T id at w
      → Holds T id at preparing_workspace w.db
      → Remains of_tests ((preparing_workspace, x) ∷ phases o)
      → After T id at (Post Prepared) (lift x w)
  unfolding lift
  last-After (ok u) w l h p = record {
    alone = l;
    result = (h, happened preparing_workspace (ok u) u _ _ refl p);
  }
  last-After (err e) w l h p = record {
    alone = l;
    result = stopped preparing_workspace (err e) e _ _ w.db refl p h preparing_lives;
  }

  pub prepare-After :
      (w : World T.Db)
      → Alone T id at w
      → Holds T id at claimed w.db
      → Remains of_tests (preparations o (phases o))
      → After T id at (Post Prepared) (prepare T W o id w)
  unfolding prepare
  prepare-After w l h p =
      signal-then Prepared claimed o.signal_after_claim _ _ _ w claimed_lives l h p (λ w1 l1 h1 p1.
        phase-then Prepared claimed preparing_workspace _ w1 claimed-Leads l1 h1
          (λ run w2 l2 h2. last-After o.workspace w2 l2 h2 p1))

  abbrev pub Tested : Stats → T.Db → Type 0
  Tested stats db = Holds T id at cleaning_up db × (v ≡ tested stats)

  suites_lem :
      (stats : Stats)
      → o.suites ≡ ok stats
      → Remains of_tests []
      → Remains (tested stats) (collection o)
  unfolding verdict_of verdict_of_tests
  suites_lem stats e p = rw e at p

  collection_lem : (stats : Stats) → Remains (tested stats) [] → v ≡ tested stats
  unfolding verdict_of
  collection_lem stats p = p

  suites_stop :
      (e : Interruption) (db : T.Db)
      → o.suites ≡ err e
      → Remains of_tests []
      → Holds T id at executing_tests db
      → Broke e db
  unfolding verdict_of verdict_of_tests
  suites_stop e db q p h = record {
    status = executing_tests;
    holds = h;
    live = executing_lives;
    agrees = rw q at p;
  }

  run_suites-After :
      (w : World T.Db)
      → Alone T id at w
      → Holds T id at executing_tests w.db
      → Remains of_tests []
      → After T id at (Post Tested) (run_suites T W o id w)
  unfolding run_suites
  run_suites-After w l h p =
      lift-then T id at (Post Tested) _ o.suites w l
        (λ stats e.
          phase-then Tested executing_tests collecting_artifacts _ w executing-Leads l h
            (λ _ w1 l1 h1.
              stage-then Tested collecting_artifacts o.logs [] _ _ w1 collecting_lives l1 h1
                (suites_lem stats e p)
                (λ p1.
                  phase-then Tested collecting_artifacts cleaning_up _ w1 collecting-Leads l1 h1
                    (λ _ w2 l2 h2.
                      pure-After T id at (Post Tested) stats w2 l2 (h2, collection_lem stats p1)))))
        (λ e q. suites_stop e w.db q p h)

  check_and_run-After :
      (w : World T.Db)
      → Alone T id at w
      → Holds T id at starting_environment w.db
      → Remains of_tests (health o)
      → After T id at (Post Tested) (check_and_run T W o id w)
  unfolding check_and_run
  check_and_run-After w l h p =
      signal-then Tested starting_environment o.signal_before_healthcheck _ _ _ w starting_lives l h
        p
        (λ w1 l1 h1 p1.
          phase-then Tested starting_environment waiting_for_healthcheck _ w1 starting-Leads l1 h1
            (λ _ w2 l2 h2.
              stage-then Tested waiting_for_healthcheck o.healthcheck [] _ _ w2 waiting_lives l2 h2
                p1
                (λ p2.
                  phase-then Tested waiting_for_healthcheck executing_tests _ w2 waiting-Leads l2 h2
                    (λ _ w3 l3 h3. run_suites-After w3 l3 h3 p2))))

  start_and_run-After :
      (w : World T.Db)
      → Alone T id at w
      → Holds T id at validating_environment w.db
      → Remains of_tests (environment o)
      → After T id at (Post Tested) (start_and_run T W o id w)
  unfolding start_and_run
  start_and_run-After w l h p =
      phase-then Tested validating_environment pulling_images _ w validating-Leads l h
        (λ _ w1 l1 h1.
          stage-then Tested pulling_images o.images _ _ _ w1 pulling_lives l1 h1 p (λ p1.
            phase-then Tested pulling_images starting_environment _ w1 pulling-Leads l1 h1
              (λ _ w2 l2 h2.
                stage-then Tested starting_environment (when o.uses_docker o.docker_up) _ _ _ w2
                  starting_lives l2 h2 p1 (λ p2. check_and_run-After w2 l2 h2 p2))))

  pub run_phases-After :
      (w : World T.Db)
      → Alone T id at w
      → Holds T id at preparing_workspace w.db
      → Remains of_tests (phases o)
      → After T id at (Post Tested) (run_phases T W o id w)
  unfolding run_phases
  run_phases-After w l h p =
      stage-then Tested preparing_workspace o.secrets _ _ _ w preparing_lives l h p (λ p1.
        phase-then Tested preparing_workspace validating_environment _ w preparing-Leads l h
          (λ _ w1 l1 h1.
            stage-then Tested validating_environment (when o.uses_docker o.compose) _ _ _ w1
              validating_lives l1 h1 p1
              (λ p2.
                stage-then Tested validating_environment o.files _ _ _ w1 validating_lives l1 h1 p2
                  (λ p3.
                    signal-then Tested validating_environment o.signal_before_images _ _ _ w1
                      validating_lives l1 h1 p3 (λ w2 l2 h2 p4. start_and_run-After w2 l2 h2 p4)))))
