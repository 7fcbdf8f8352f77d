-- ===== src/Runner/Lifecycle/Alone.antt =====
-- Actions that start while nobody else writes to a run: how they end, and how they are put together.
use testing_environment.Common.{
  ℕ, ◌≤◌, String, ◌≡◌, refl, ◌∙◌, false, some, List, [], ◌∷◌, All, arith,
}
use testing_environment.Common.Result.{Result, ok}
use testing_environment.Common.Table.{Table}
use testing_environment.Common.Act.{
  Meanwhile, World, Act, await, pure, lift, query, command, now, continue, ◌>>=◌,
}
use testing_environment.Runs.Status.{TestRunStatus}
use testing_environment.Runs.Run.{TestRun}
use testing_environment.Runs.Rows.{wants_cancellation}

module _ (T : Table TestRun) (id : String) (at : ℕ) where
  -- The run is in the table, with this status, and nobody has asked for its cancellation.
  pub record Holds (status : TestRunStatus) (db : T.Db) : Type 0 where
    pub run : TestRun
    pub found : T.find db id ≡ some run
    pub in_status : run.status ≡ status
    pub wanted : wants_cancellation run ≡ false

  pub Holds-eq :
      (status : TestRunStatus) (db db' : T.Db)
      → T.find db' id ≡ T.find db id
      → Holds status db
      → Holds status db'
  Holds-eq status db db' e h = record {
    run = h.run;
    found = e ∙ h.found;
    in_status = h.in_status;
    wanted = h.wanted;
  }

  -- What a wait may bring leaves the run as it is.
  abbrev pub Spares : List (Meanwhile T.Db) → Type 0
  Spares = All (λ m. (db : T.Db) → T.find (m.writes db) id ≡ T.find db id)

  -- Nobody else will write to the run, and it is not earlier than `at`.
  pub record Alone (w : World T.Db) : Type 0 where
    pub spared : Spares w.schedule
    pub later : at ≤ w.clock

  await-Alone :
      (w : World T.Db) (ms : List (Meanwhile T.Db))
      → w.schedule ≡ ms
      → Alone w
      → (T.find (await w).db id ≡ T.find w.db id) × Alone (await w)
  await-Alone w [] e h = rw (e, await) (refl, record { spared = tt; later = h.later })
  await-Alone w (m ∷ ms) e h =
      let both = rw e at h.spared in
      let l = h.later in
      rw (e, await) (both.0 w.db, record { spared = both.1; later = omega arith })

  -- How an action ends that starts when nobody else writes to the run.
  pub record After {E A : Type 0} (P : Result E A → T.Db → Type 0) (x : Result E A × World T.Db)
      : Type 0 where
    pub alone : Alone x.1
    pub result : P x.0 x.1.db

  module _ {E A B : Type 0} (P : Result E B → T.Db → Type 0) where
    pub After-bind :
        (Q : Result E A → T.Db → Type 0) (m : Act T.Db E A) (f : A → Act T.Db E B) (w : World T.Db)
        → After Q (m w)
        → ((r : Result E A) (w' : World T.Db) → Alone w' → Q r w'.db → After P (continue r f w'))
        → After P ((m >>= f) w)
    unfolding ◌>>=◌
    After-bind Q m f w h k = k (m w).0 (m w).1 h.alone h.result

    pub query-then :
        (read : T.Db → A) (f : A → Act T.Db E B) (w : World T.Db)
        → Alone w
        → ((w' : World T.Db)
            → Alone w'
            → T.find w'.db id ≡ T.find w.db id
            → After P (f (read w'.db) w'))
        → After P ((query read >>= f) w)
    unfolding query ◌>>=◌
    query-then read f w h k =
        let both = await-Alone w w.schedule refl h in k (await w) both.1 both.0

    pub command-then :
        (answer : T.Db → A) (write : T.Db → T.Db) (f : A → Act T.Db E B) (w : World T.Db)
        → Alone w
        → ((w' : World T.Db)
            → Alone w'
            → T.find w'.db id ≡ T.find w.db id
            → After P (f (answer w'.db) (record w' { db = write w'.db })))
        → After P ((command answer write >>= f) w)
    unfolding command ◌>>=◌
    command-then answer write f w h k =
        let both = await-Alone w w.schedule refl h in k (await w) both.1 both.0

  pub pure-After :
      {E A : Type 0} (P : Result E A → T.Db → Type 0) (a : A) (w : World T.Db)
      → Alone w
      → P (ok a) w.db
      → After P (pure a w)
  unfolding pure
  pure-After P a w h p = record { alone = h; result = p }

  pub pure-then :
      {E A B : Type 0} (P : Result E B → T.Db → Type 0) (a : A) (f : A → Act T.Db E B)
      (w : World T.Db)
      → After P (f a w)
      → After P ((pure a >>= f) w)
  unfolding pure ◌>>=◌
  pure-then P a f w h = h

  pub lift_ok-then :
      {E A B : Type 0} (P : Result E B → T.Db → Type 0) (a : A) (f : A → Act T.Db E B)
      (w : World T.Db)
      → After P (f a w)
      → After P ((lift (ok a) >>= f) w)
  unfolding lift ◌>>=◌
  lift_ok-then P a f w h = h

  pub now-then :
      {E B : Type 0} (P : Result E B → T.Db → Type 0) (f : ℕ → Act T.Db E B) (w : World T.Db)
      → After P (f w.clock w)
      → After P ((now >>= f) w)
  unfolding now ◌>>=◌
  now-then P f w h = h
