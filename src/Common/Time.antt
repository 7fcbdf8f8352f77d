-- ===== src/Common/Time.antt =====
-- Dates as numbers of milliseconds since 1970, and `toISOString` for the years with four digits.
use Prim.Native.Nat.{ℕ, ◌+◌, ◌*◌, ◌-◌, ◌/◌, ◌%◌}
use Prim.Native.String.{String}
use testing_environment.Common.Tests.{ltb, if◌then◌else◌}
use testing_environment.Common.Text.{show, ◌<>◌}

-- A `Date`, or one that could not be parsed.
pub data Moment : Type 0 where
  at : ℕ → Moment
  invalid_date : Moment

abbrev two_digits : ℕ → String
two_digits n = if ltb n 10 then "0" <> show n else show n

abbrev three_digits : ℕ → String
three_digits n = if ltb n 100 then "0" <> two_digits n else show n

-- The year, month and day of a number of days; years begin in March here, and 400 of them have as many
-- days each time.
pub record Day : Type 0 where
  pub year : ℕ
  pub month : ℕ
  pub day : ℕ

unfoldable pub day_of : ℕ → Day
day_of days =
    let z = days + 719468 in
    let era = z / 146097 in
    let doe = z % 146097 in
    let yoe = (doe + doe / 36524 - doe / 1460 - doe / 146096) / 365 in
    let doy = doe + yoe / 100 - (365 * yoe + yoe / 4) in
    let mp = (5 * doy + 2) / 153 in
    record {
      year = yoe + era * 400 + (if ltb mp 10 then 0 else 1);
      month = if ltb mp 10 then mp + 3 else mp - 9;
      day = doy - (153 * mp + 2) / 5 + 1;
    }

-- `date.toISOString()`
unfoldable pub iso_text : ℕ → String
unfolding day_of show
iso_text ms =
    let d = day_of (ms / 86400000) in
    let t = ms % 86400000 in
    show d.year
    <> "-"
    <> two_digits d.month
    <> "-"
    <> two_digits d.day
    <> "T"
    <> two_digits (t / 3600000)
    <> ":"
    <> two_digits (t / 60000 % 60)
    <> ":"
    <> two_digits (t / 1000 % 60)
    <> "."
    <> three_digits (t % 1000)
    <> "Z"
