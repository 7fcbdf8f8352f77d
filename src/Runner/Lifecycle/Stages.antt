-- ===== src/Runner/Lifecycle/Stages.antt =====
-- What the calls of an execution do while nobody else writes to the run, which is in a phase.
use testing_environment.Common.{
  ℕ, String, ◌≡◌, refl, ap, sym, ◌∙◌, Bool, true, false, some, arith, if◌then◌else◌,
}
use text.Mathlib.TextPositions.{eq_refl}
use testing_environment.Common.Result.{Result, ok, err}
use testing_environment.Common.Table.{Table}
use testing_environment.Common.Act.{World, Act, pure, lift, now, continue, ◌>>=◌}
use testing_environment.Runs.Status.{TestRunStatus, is_terminal, is_phase, allows, same_status}
use testing_environment.Runs.Run.{TestRun, StateError, run_not_found, changed_concurrently}
use testing_environment.Runs.Rows.{assert_transition_allowed, wants_cancellation, found_or}
use testing_environment.Runs.Updates.{transition_data}
use testing_environment.Runs.State.{find_or_throw, read_run, update_run, transition, enter_phase}
use testing_environment.Runs.State.Ending.{is_cancellation_requested}
use testing_environment.Runs.Operations.Races.{same_status_refl}
use testing_environment.Runner.{Interruption}
use testing_environment.Runner.Outcomes.{Outcomes, Worker, call, told, attempt}
use testing_environment.Runner.Lifecycle.{asked, ensure, enter}
use testing_environment.Runner.Lifecycle.Alone.{
  Holds, Holds-eq, Alone, After, After-bind, query-then, command-then, pure-After,
}

module _ (T : Table TestRun) (id : String) (at : ℕ) where
  abbrev passes : Result StateError Unit
  passes = ok tt

  given : (b : Bool) → (if b then passes else passes) ≡ passes
  given true = refl
  given false = refl

  pub allowed_lem :
      (run : TestRun) (status target : TestRunStatus)
      → run.status ≡ status
      → is_terminal status ≡ false
      → allows status target ≡ true
      → assert_transition_allowed run target ≡ ok tt
  unfolding assert_transition_allowed
  allowed_lem run status target e t a = rw (e, t, a) (given (same_status status target))

  enter_data_lem :
      (run : TestRun) (target : TestRunStatus) (clock : ℕ)
      → is_phase target ≡ true
      → wants_cancellation run ≡ false
      → wants_cancellation (transition_data run target clock (λ r. r) run) ≡ false
  unfolding transition_data wants_cancellation is_phase same_status
  enter_data_lem run target clock h k = ground arith

  -- The row that a transition leaves.
  abbrev pub Becomes : TestRun → T.Db → Type 0
  Becomes run db = T.find db id ≡ some run

  -- A read of the run, and an update whose `where` it meets.
  pub read_run-then :
      {A : Type 0} (P : Result StateError A → T.Db → Type 0) (f : TestRun → Act T.Db StateError A)
      (w : World T.Db) (run : TestRun)
      → Alone T id at w
      → Becomes run w.db
      → ((w' : World T.Db) → Alone T id at w' → Becomes run w'.db → After T id at P (f run w'))
      → After T id at P ((read_run T id >>= f) w)
  unfolding read_run lift
  read_run-then P f w run h found k =
      let There : Result StateError TestRun → T.Db → Type 0 =
        (λ r db. (r ≡ ok run) × Becomes run db) in
      After-bind T id at P There (read_run T id) f w
        (query-then T id at There (λ db. T.find db id) (λ r. lift (found_or run_not_found r)) w h
          (λ w1 h1 e. record { alone = h1; result = (rw (e, found) refl, e ∙ found) }))
        (λ r w' h' q. rw q.0 (k w' h' q.1))

  pub update-After :
      (cond : TestRun → Bool) (changes : TestRun → TestRun) (failure : StateError) (w : World T.Db)
      (run : TestRun)
      → Alone T id at w
      → Becomes run w.db
      → cond run ≡ true
      → After T id at
          (λ r db. (r ≡ ok (changes run)) × Becomes (changes run) db)
          (update_run T id cond changes failure w)
  unfolding update_run find_or_throw lift
  update-After cond changes failure w run h found c =
      let There : Result StateError TestRun → T.Db → Type 0 =
        (λ r db. (r ≡ ok (changes run)) × Becomes (changes run) db) in
      command-then T id at There (λ db. T.count db id cond) (λ db. T.update db id cond changes) _ w
        h
        (λ w1 h1 e.
          let kept : Becomes (changes run) (T.update w1.db id cond changes) =
            rw (T.find-update, eq_refl, e, found, c) refl in
          rw (T.count_lem, e, found, c)
            (query-then T id at There (λ db. T.find db id) _
              (record w1 { db = T.update w1.db id cond changes })
              (record { spared = h1.spared; later = h1.later })
              (λ w2 h2 e2. record { alone = h2; result = (rw (e2, kept) refl, e2 ∙ kept) })))

  pub transition-After :
      (status target : TestRunStatus) (changes : TestRun → TestRun) (w : World T.Db) (run : TestRun)
      → Alone T id at w
      → Becomes run w.db
      → run.status ≡ status
      → is_terminal status ≡ false
      → allows status target ≡ true
      → After T id at
          (λ r db.
            (clock : ℕ) × (r ≡ ok (transition_data run target clock changes run))
            × Becomes (transition_data run target clock changes run) db)
          (transition T id target changes w)
  unfolding transition lift now ◌>>=◌
  transition-After status target changes w run h found e t a =
      read_run-then _ _ w run h found (λ w1 h1 found1. rw (allowed_lem run status target e t a) (
        let u =
          update-After (λ r. same_status r.status run.status)
            (transition_data run target w1.clock changes) changed_concurrently w1 run h1 found1
            (same_status_refl run.status) in
        record { alone = u.alone; result = (w1.clock, u.result.0, u.result.1) }))

  pub if-After :
      {E A : Type 0} (Q : Result E A → T.Db → Type 0) (b : Bool) (m n : Act T.Db E A)
      (w : World T.Db)
      → b ≡ true
      → After T id at Q (m w)
      → After T id at Q ((if b then m else n) w)
  if-After Q true m n w e h = h
  if-After Q false m n w e h = cc

  pub call-After :
      {A : Type 0} (Q : Result StateError A → T.Db → Type 0)
      (P : Result Interruption A → T.Db → Type 0) (m : Act T.Db StateError A) (w : World T.Db)
      → After T id at Q (m w)
      → ((r : Result StateError A) (db : T.Db) → Q r db → P (told r) db)
      → After T id at P (call m w)
  unfolding call
  call-After Q P m w h k = record { alone = h.alone; result = k (m w).0 (m w).1.db h.result }

  pub attempt-then :
      {E A B : Type 0} (Q : Result E A → T.Db → Type 0) (P : Result Interruption B → T.Db → Type 0)
      (m : Act T.Db E A) (f : Result E A → Act T.Db Interruption B) (w : World T.Db)
      → After T id at Q (m w)
      → ((r : Result E A) (w' : World T.Db)
          → Alone T id at w'
          → Q r w'.db
          → After T id at P (f r w'))
      → After T id at P ((attempt m >>= f) w)
  unfolding attempt ◌>>=◌
  attempt-then Q P m f w h k = k (m w).0 (m w).1 h.alone h.result

  module _ {A B : Type 0} (P : Result Interruption B → T.Db → Type 0)
      (f : A → Act T.Db Interruption B) where
    pub lift-then :
        (r : Result Interruption A) (w : World T.Db)
        → Alone T id at w
        → ((a : A) → r ≡ ok a → After T id at P (f a w))
        → ((e : Interruption) → r ≡ err e → P (err e) w.db)
        → After T id at P ((lift r >>= f) w)
    unfolding lift ◌>>=◌
    lift-then (ok a) w l h k = h a refl
    lift-then (err e) w l h k = record { alone = l; result = k e refl }

  -- The question whether the cancellation is wanted.
  asked-After :
      (W : Worker) (o : Outcomes) (status : TestRunStatus) (w : World T.Db)
      → Alone T id at w
      → Holds T id at status w.db
      → After T id at (λ r db. (r ≡ ok false) × (T.find db id ≡ T.find w.db id)) (asked T W o id w)
  unfolding asked is_cancellation_requested pure
  asked-After W o status w l h =
      let There : Result StateError Bool → T.Db → Type 0 =
        (λ r db. (r ≡ ok false) × (T.find db id ≡ T.find w.db id)) in
      call-After There _ (is_cancellation_requested T id) w
        (query-then T id at There (λ db. T.find db id) _ w l
          (λ w1 l1 e. record { alone = l1; result = (rw (e, h.found, h.wanted) refl, e) }))
        (λ r db q. (ap told q.0, q.1))

  module _ (W : Worker) (o : Outcomes) {B : Type 0}
      (P : Result Interruption B → T.Db → Type 0) where
    pub asked-then :
        (f : Bool → Act T.Db Interruption B) (status : TestRunStatus) (w : World T.Db)
        → Alone T id at w
        → Holds T id at status w.db
        → ((w' : World T.Db)
            → Alone T id at w'
            → T.find w'.db id ≡ T.find w.db id
            → Holds T id at status w'.db
            → After T id at P (f false w'))
        → After T id at P ((asked T W o id >>= f) w)
    asked-then f status w l h k =
        After-bind T id at P _ (asked T W o id) f w (asked-After W o status w l h)
          (λ r w' l' q. rw q.0 (k w' l' q.1 (Holds-eq T id at status w.db w'.db q.1 h)))

  ensure-After :
      (W : Worker) (o : Outcomes) (status : TestRunStatus) (signal : Result Interruption Unit)
      (w : World T.Db)
      → Alone T id at w
      → Holds T id at status w.db
      → After T id at (λ r db. (r ≡ signal) × Holds T id at status db) (ensure T W o id signal w)
  unfolding ensure
  ensure-After W o status signal w l h =
      let There : Result Interruption Unit → T.Db → Type 0 =
        (λ r db. (r ≡ signal) × Holds T id at status db) in
      lift-then There _ signal w l
        (λ u e.
          asked-then W o There _ status w l h
            (λ w1 l1 _ h1. pure-After T id at There tt w1 l1 (sym e, h1)))
        (λ e q. (sym q, h))

  signalled :
      {B : Type 0} (P : Result Interruption B → T.Db → Type 0)
      (f : Unit {0} → Act T.Db Interruption B) (status : TestRunStatus)
      (signal : Result Interruption Unit) (w : World T.Db)
      → Alone T id at w
      → Holds T id at status w.db
      → ((w' : World T.Db)
          → signal ≡ ok tt
          → Alone T id at w'
          → Holds T id at status w'.db
          → After T id at P (f tt w'))
      → ((e : Interruption) (w' : World T.Db)
          → signal ≡ err e
          → Alone T id at w'
          → Holds T id at status w'.db
          → P (err e) w'.db)
      → (r : Result Interruption Unit) → r ≡ signal
      → After T id at P (continue r f w)
  signalled P f status signal w l h k x (ok u) e = k w (sym e) l h
  signalled P f status signal w l h k x (err d) e = record { alone = l; result = x d w (sym e) l h }

  module _ (W : Worker) (o : Outcomes) {B : Type 0}
      (P : Result Interruption B → T.Db → Type 0) where
    pub ensure-then :
        (f : Unit {0} → Act T.Db Interruption B) (status : TestRunStatus)
        (signal : Result Interruption Unit) (w : World T.Db)
        → Alone T id at w
        → Holds T id at status w.db
        → ((w' : World T.Db)
            → signal ≡ ok tt
            → Alone T id at w'
            → Holds T id at status w'.db
            → After T id at P (f tt w'))
        → ((e : Interruption) (w' : World T.Db)
            → signal ≡ err e
            → Alone T id at w'
            → Holds T id at status w'.db
            → P (err e) w'.db)
        → After T id at P ((ensure T W o id signal >>= f) w)
    ensure-then f status signal w l h k x =
        After-bind T id at P (λ r db. (r ≡ signal) × Holds T id at status db)
          (ensure T W o id signal) f w (ensure-After W o status signal w l h)
          (λ r w' l' q. signalled P f status signal w' l' q.1 k x r q.0)

    pub enter-then :
        (f : TestRun → Act T.Db Interruption B) (status phase : TestRunStatus) (w : World T.Db)
        → Alone T id at w
        → Holds T id at status w.db
        → is_terminal status ≡ false
        → allows status phase ≡ true
        → is_phase phase ≡ true
        → ((run : TestRun) (w' : World T.Db)
            → Alone T id at w'
            → Holds T id at phase w'.db
            → After T id at P (f run w'))
        → After T id at P ((enter T W o id phase >>= f) w)
    unfolding enter enter_phase
    enter-then f status phase w l h t a p k =
        let There : Result Interruption TestRun → T.Db → Type 0 = (λ r db.
          (clock : ℕ) × (r ≡ ok (transition_data h.run phase clock (λ x. x) h.run))
          × Becomes (transition_data h.run phase clock (λ x. x) h.run) db) in
        After-bind T id at P There (enter T W o id phase) f w
          (call-After _ There (enter_phase T id phase) w
            (if-After _ (is_phase phase) _ _ _ p
              (transition-After status phase (λ r. r) w h.run l h.found h.in_status t a))
            (λ r db q. (q.0, ap told q.1, q.2)))
          (λ r w' l' q. rw q.1 (
            k (transition_data h.run phase q.0 (λ x. x) h.run) w' l' (record {
              run = transition_data h.run phase q.0 (λ x. x) h.run;
              found = q.2;
              in_status = refl;
              wanted = enter_data_lem h.run phase q.0 p h.wanted;
            })))
