-- ===== src/Subscriptions/Tests.antt =====
-- A company on a small plan, and the theorems about its limits.
use testing_environment.Common.{ℕ, String, ◌≡◌, refl, ◌↔◌, false, [], ◌∷◌, str_eq}
use testing_environment.Common.Result.{ok, err}
use testing_environment.Runs.Status.{created, passed, executing_tests, is_active}
use testing_environment.Subscriptions.{
  SubscriptionPlan, Tables, concurrent_limit, company_with, concurrent_runs_exceed, get_usage,
  assert_can_start_run, assert_can_create_project, change_plan,
}
use testing_environment.Subscriptions.Laws.{
  HasRoom, new_run, with_run, assert_can_start_run_iff, Changed, change_plan_lem,
}

abbrev plan : String → ℕ → SubscriptionPlan
plan name limit = record {
  id = name;
  name = name;
  max_projects = limit;
  max_runs_per_month = 10;
  max_concurrent_runs = limit;
}

abbrev tables : Tables
tables = record {
  companies =
      record { id = "c1"; subscription_plan_id = "pro" }
      ∷ record { id = "c2"; subscription_plan_id = "free" }
      ∷ [];
  plans = plan "free" 1 ∷ plan "pro" 2 ∷ plan "max" 9 ∷ [];
  projects = record { id = "p1"; company_id = "c1" } ∷ [];
  runs =
      record { company_id = "c1"; created_at = 40; status = executing_tests }
      ∷ record { company_id = "c1"; created_at = 41; status = passed }
      ∷ record { company_id = "c2"; created_at = 42; status = created }
      ∷ [];
}

abbrev busy : Tables
busy = with_run (new_run "c1" 50) tables

computed : Unit {0}
unfolding assert_can_start_run assert_can_create_project change_plan is_active
computed = tt

limits :
    (assert_can_start_run 30 "p1" "c1" tables ≡ ok tt)
    × (assert_can_start_run 30 "p1" "c1" busy ≡ err concurrent_limit)
    × (assert_can_create_project "c1" tables ≡ ok tt)
    × (change_plan 30 "c1" "free" busy ≡ err (concurrent_runs_exceed "free"))
unfolding computed
limits = (refl, refl, refl, refl)

assert_can_start_run_iff_example :
    (assert_can_start_run 30 "p1" "c1" tables ≡ ok tt)
    ↔ HasRoom "p1" "c1" tables (get_usage 30 "c1" busy)
assert_can_start_run_iff_example = assert_can_start_run_iff 30 "p1" "c1" tables 50 refl

abbrev moved : Tables
moved = record tables {
  companies =
      record { id = "c1"; subscription_plan_id = "max" }
      ∷ record { id = "c2"; subscription_plan_id = "free" }
      ∷ [];
}

change_plan_lem_example :
    Changed 30 "c1" "max" tables moved
    × (str_eq "c1" "c2" ≡ false → company_with "c2" moved ≡ company_with "c2" tables)
unfolding computed
change_plan_lem_example = change_plan_lem 30 "c1" "max" "c2" tables moved refl
