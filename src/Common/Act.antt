-- ===== src/Common/Act.antt =====
-- Asynchronous methods that work on one table and may throw. Before each query the method waits, and
-- meanwhile others may write to the table and time passes: the world's schedule says what happens
-- at each such wait, the empty schedule that nothing does.
pub mod Guarantee
use Prim.Native.Nat.{ℕ, ◌+◌}
use mathlib.Core.List.{List, [], ◌∷◌}
use testing_environment.Common.Result.{Result, ok, err}

pub record Meanwhile (Db : Type 0) : Type 0 where
  pub writes : Db → Db
  pub elapsed : ℕ

pub record World (Db : Type 0) : Type 0 where
  pub db : Db
  pub clock : ℕ
  pub schedule : List (Meanwhile Db)

abbrev pub Act : Type 0 → Type 0 → Type 0 → Type 0
Act Db E A = World Db → Result E A × World Db

-- `await`: the next entry of the schedule happens.
abbrev pub await : {Db : Type 0} → World Db → World Db
await {Db} w = resume w w.schedule
  where
    resume : World Db → List (Meanwhile Db) → World Db
    resume w [] = w
    resume w (m ∷ ms) = record { db = m.writes w.db; clock = w.clock + m.elapsed; schedule = ms }

module _ {Db E A : Type 0} where
  unfoldable pub pure : A → Act Db E A
  pure a w = (ok a, w)

  unfoldable pub raise : E → Act Db E A
  raise e w = (err e, w)

  unfoldable pub lift : Result E A → Act Db E A
  lift r w = (r, w)

  -- An awaited query that reads.
  unfoldable pub query : (Db → A) → Act Db E A
  query read w = let w' = await w in (ok (read w'.db), w')

  -- An awaited query that writes; its answer is read off the table just before the write.
  unfoldable pub command : (Db → A) → (Db → Db) → Act Db E A
  command answer write w = let w' = await w in (ok (answer w'.db), record w' { db = write w'.db })

-- `new Date()`
unfoldable pub now : {Db E : Type 0} → Act Db E ℕ
now w = (ok w.clock, w)

module _ {Db E A B : Type 0} where
  abbrev pub continue : Result E A → (A → Act Db E B) → World Db → Result E B × World Db
  continue (ok a) f w = f a w
  continue (err e) f w = (err e, w)

  infixl 5 ◌>>=◌ ◌>>◌
  unfoldable pub ◌>>=◌ : Act Db E A → (A → Act Db E B) → Act Db E B
  unfolding pure raise lift query command now
  ◌>>=◌ m f w = let (r, w') = m w in continue r f w'

  abbrev pub ◌>>◌ : Act Db E A → Act Db E B → Act Db E B
  m >> n = m >>= λ _. n

module _ {Db E A : Type 0} where
  abbrev pub recover : Result E A → (E → Act Db E A) → World Db → Result E A × World Db
  recover (ok a) handler w = (ok a, w)
  recover (err e) handler w = handler e w

  -- `try { return await m; } catch (error) { … }`
  unfoldable pub catch : Act Db E A → (E → Act Db E A) → Act Db E A
  catch m handler w = let (r, w') = m w in recover r handler w'
