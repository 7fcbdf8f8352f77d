-- ===== src/Common/Table.antt =====
-- What the services rely on of a database table behind Prisma: a lookup by primary key, and a
-- conditional update of the row with a key that returns the number of rows changed, each atomic.
use Prim.Native.Nat.{ℕ}
use Prim.Native.String.{String}
use mathlib.Core.Path.{◌≡◌, refl}
use mathlib.Core.Bool.{Bool}
use mathlib.Core.Option.{Option, none, some}
use text.Mathlib.Text.{◌==◌ as str_eq}
use testing_environment.Common.Tests.{if◌then◌else◌}

module _ {Row : Type 0} where
  -- The row after `updateMany({ where, data })`, and the count that the call returns.
  abbrev pub amend : (Row → Bool) → (Row → Row) → Option Row → Option Row
  amend cond patch none = none
  amend cond patch (some r) = some (if cond r then patch r else r)

  abbrev pub matched : (Row → Bool) → Option Row → ℕ
  matched cond none = 0
  matched cond (some r) = if cond r then 1 else 0

pub record Table (Row : Type 0) : Type 1 where
  pub Db : Type 0
  pub find : Db → String → Option Row
  pub update : Db → String → (Row → Bool) → (Row → Row) → Db
  pub count : Db → String → (Row → Bool) → ℕ
  pub find-update :
      (db : Db) (key other : String) (cond : Row → Bool) (patch : Row → Row)
      → find (update db key cond patch) other
        ≡ (if str_eq key other then amend cond patch (find db other) else find db other)
  pub count_lem :
      (db : Db) (key : String) (cond : Row → Bool) → count db key cond ≡ matched cond (find db key)

module _ {Row : Type 0} where
  unfoldable pub map_update :
      (String → Option Row) → String → (Row → Bool) → (Row → Row) → String → Option Row
  map_update db key cond patch other =
      if str_eq key other then amend cond patch (db other) else db other

  pub map_update_lem :
      (db : String → Option Row) (key other : String) (cond : Row → Bool) (patch : Row → Row)
      → map_update db key cond patch other
        ≡ (if str_eq key other then amend cond patch (db other) else db other)
  unfolding map_update
  map_update_lem db key other cond patch = refl

-- A table that meets the laws: a function from keys to rows.
abbrev pub map_table : (Row : Type 0) → Table Row
map_table Row = record {
  Db = String → Option Row;
  find = λ db key. db key;
  update = map_update;
  count = λ db key cond. matched cond (db key);
  find-update = map_update_lem;
  count_lem = λ db key cond. refl;
}
