-- ===== src/Common/Act/Guarantee.antt =====
-- Rely and guarantee: what every row goes through while a method runs, if whatever happens at its
-- waits keeps to the same relation.
use Prim.Native.String.{String}
use mathlib.Core.Path.{◌≡◌, refl}
use mathlib.Core.Bool.{Bool, true, false}
use mathlib.Core.Option.{Option, none, some}
use mathlib.Core.List.{List, [], ◌∷◌}
use mathlib.Core.Logic.{inl, inr}
use text.Mathlib.Text.{◌==◌ as str_eq}
use testing_environment.Common.Tests.{if◌then◌else◌, Bool-cases}
use testing_environment.Common.Lists.{All}
use testing_environment.Common.Result.{Result, ok, err}
use testing_environment.Common.Table.{Table, amend}
use testing_environment.Common.Act.{
  Meanwhile, World, Act, await, pure, raise, lift, query, command, now, continue, ◌>>=◌, recover,
  catch,
}

module _ {Row : Type 0} (Step : Row → Row → Type 0) where
  -- A row is neither removed nor replaced, and moves by `Step`; new rows may appear.
  abbrev pub Follows : Option Row → Option Row → Type 0
  Follows none _ = Unit
  Follows (some r) none = ⊥
  Follows (some r) (some r') = Step r r'

  module _ (T : Table Row) where
    pub record Evolves (db db' : T.Db) : Type 0 where
      pub at : (key : String) → Follows (T.find db key) (T.find db' key)

    -- What the others do at each wait.
    pub record Relies (w : World T.Db) : Type 0 where
      pub each : All (λ m. (db : T.Db) → Evolves db (m.writes db)) w.schedule

    pub record Guarantees {E A : Type 0} (m : Act T.Db E A) : Type 0 where
      pub moves : (w : World T.Db) → Relies w → Evolves w.db (m w).1.db
      pub leaves : (w : World T.Db) → Relies w → Relies (m w).1

module _ {Row : Type 0} {Step : Row → Row → Type 0} (step_refl : (r : Row) → Step r r)
    (step_trans : (a b c : Row) → Step a b → Step b c → Step a c) where
  Follows-refl : (o : Option Row) → Follows Step o o
  Follows-refl none = tt
  Follows-refl (some r) = step_refl r

  Follows-trans : (a b c : Option Row) → Follows Step a b → Follows Step b c → Follows Step a c
  Follows-trans none b c h k = tt
  Follows-trans (some a) none c h k = absurd h
  Follows-trans (some a) (some b) none h k = absurd k
  Follows-trans (some a) (some b) (some c) h k = step_trans a b c h k

  module _ (T : Table Row) where
    Evolves-refl : (db : T.Db) → Evolves Step T db db
    Evolves-refl db = record { at = λ key. Follows-refl (T.find db key) }

    Evolves-trans : (a b c : T.Db) → Evolves Step T a b → Evolves Step T b c → Evolves Step T a c
    Evolves-trans a b c h k = record {
      at = λ key. Follows-trans (T.find a key) (T.find b key) (T.find c key) (h.at key) (k.at key);
    }

    Follows-amend :
        (cond : Row → Bool) (patch : Row → Row)
        → ((r : Row) → cond r ≡ true → Step r (patch r))
        → (o : Option Row) → Follows Step o (amend cond patch o)
    Follows-amend cond patch h none = tt
    Follows-amend cond patch h (some r) = elim (Bool-cases (cond r)) [
      | inl e ↦ rw e (h r e)
      | inr e ↦ rw e (step_refl r)
    ]

    -- A conditional update that moves each row that it changes by `Step`.
    pub Evolves-update :
        (db : T.Db) (key : String) (cond : Row → Bool) (patch : Row → Row)
        → ((r : Row) → cond r ≡ true → Step r (patch r))
        → Evolves Step T db (T.update db key cond patch)
    Evolves-update db key cond patch h = record {
      at = λ other. rw T.find-update (elim (Bool-cases (str_eq key other)) [
        | inl e ↦ rw e (Follows-amend cond patch h (T.find db other))
        | inr e ↦ rw e (Follows-refl (T.find db other))
      ]);
    }

    await-moves :
        (w : World T.Db) (ms : List (Meanwhile T.Db))
        → w.schedule ≡ ms
        → Relies Step T w
        → Evolves Step T w.db (await w).db × Relies Step T (await w)
    await-moves w [] e h = rw (e, await) (Evolves-refl w.db, record { each = tt })
    await-moves w (m ∷ ms) e h =
        let both = rw e at h.each in rw (e, await) (both.0 w.db, record { each = both.1 })

    module _ {E A : Type 0} where
      pub Guarantees-pure : (a : A) → Guarantees Step T {E = E} (pure a)
      unfolding pure
      Guarantees-pure a = record { moves = λ w h. Evolves-refl w.db; leaves = λ w h. h }

      pub Guarantees-raise : (e : E) → Guarantees Step T {A = A} (raise e)
      unfolding raise
      Guarantees-raise e = record { moves = λ w h. Evolves-refl w.db; leaves = λ w h. h }

      pub Guarantees-lift : (r : Result E A) → Guarantees Step T (lift r)
      unfolding lift
      Guarantees-lift r = record { moves = λ w h. Evolves-refl w.db; leaves = λ w h. h }

      pub Guarantees-query : (read : T.Db → A) → Guarantees Step T {E = E} (query read)
      unfolding query
      Guarantees-query read = record {
        moves = λ w h. (await-moves w w.schedule refl h).0;
        leaves = λ w h. (await-moves w w.schedule refl h).1;
      }

      pub Guarantees-command :
          (answer : T.Db → A) (write : T.Db → T.Db)
          → ((db : T.Db) → Evolves Step T db (write db))
          → Guarantees Step T {E = E} (command answer write)
      unfolding command
      Guarantees-command answer write k = record {
        moves = λ w h.
            Evolves-trans w.db (await w).db (write (await w).db) (await-moves w w.schedule refl h).0
              (k (await w).db);
        leaves = λ w h. record { each = (await-moves w w.schedule refl h).1.each };
      }

      pub Guarantees-if :
          (b : Bool) (m n : Act T.Db E A)
          → (b ≡ true → Guarantees Step T m)
          → (b ≡ false → Guarantees Step T n)
          → Guarantees Step T (if b then m else n)
      Guarantees-if true m n km kn = km refl
      Guarantees-if false m n km kn = kn refl

    pub Guarantees-now : {E : Type 0} → Guarantees Step T {E = E} now
    unfolding now
    Guarantees-now = record { moves = λ w h. Evolves-refl w.db; leaves = λ w h. h }

    module _ {E A B : Type 0} where
      pub Guarantees-bind_lift :
          (r : Result E A) (f : A → Act T.Db E B)
          → ((a : A) → r ≡ ok a → Guarantees Step T (f a))
          → Guarantees Step T (lift r >>= f)
      unfolding ◌>>=◌
      Guarantees-bind_lift (ok a) f kf = kf a refl
      Guarantees-bind_lift (err e) f kf = record {
        moves = λ w h. Evolves-refl w.db;
        leaves = λ w h. h;
      }

      continue-moves :
          (r : Result E A) (f : A → Act T.Db E B)
          → ((a : A) → Guarantees Step T (f a))
          → Guarantees Step T (continue r f)
      continue-moves (ok a) f kf = kf a
      continue-moves (err e) f kf = record { moves = λ w h. Evolves-refl w.db; leaves = λ w h. h }

      pub Guarantees-bind :
          (m : Act T.Db E A) (f : A → Act T.Db E B)
          → Guarantees Step T m
          → ((a : A) → Guarantees Step T (f a))
          → Guarantees Step T (m >>= f)
      unfolding ◌>>=◌
      Guarantees-bind m f km kf = record {
        moves = λ w h.
            let (r, w') = m w in
            Evolves-trans w.db w'.db (continue r f w').1.db (km.moves w h)
              ((continue-moves r f kf).moves w' (km.leaves w h));
        leaves = λ w h. let (r, w') = m w in (continue-moves r f kf).leaves w' (km.leaves w h);
      }

    module _ {E A : Type 0} where
      recover-moves :
          (r : Result E A) (handler : E → Act T.Db E A)
          → ((e : E) → Guarantees Step T (handler e))
          → Guarantees Step T (recover r handler)
      recover-moves (ok a) handler k = record {
        moves = λ w h. Evolves-refl w.db;
        leaves = λ w h. h;
      }
      recover-moves (err e) handler k = k e

      pub Guarantees-catch :
          (m : Act T.Db E A) (handler : E → Act T.Db E A)
          → Guarantees Step T m
          → ((e : E) → Guarantees Step T (handler e))
          → Guarantees Step T (catch m handler)
      unfolding catch
      Guarantees-catch m handler km k = record {
        moves = λ w h.
            let (r, w') = m w in
            Evolves-trans w.db w'.db (recover r handler w').1.db (km.moves w h)
              ((recover-moves r handler k).moves w' (km.leaves w h));
        leaves = λ w h. let (r, w') = m w in (recover-moves r handler k).leaves w' (km.leaves w h);
      }
