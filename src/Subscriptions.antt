-- ===== src/Subscriptions.antt =====
-- SubscriptionsService (subscriptions/subscriptions.service.ts) on a snapshot of the tables that it reads.
-- The start of the month of a date is a parameter.
pub mod Laws
mod Tests
use testing_environment.Common.{
  ℕ, suc, ◌+◌, String, Bool, true, false, not, ◌&&◌, Option, none, some, List, [], ◌∷◌, map, ltb,
  leb, if◌then◌else◌, str_eq,
}
use testing_environment.Common.Result.{Result, ok, err, ◌>>=◌, ◌>>◌}
use testing_environment.Runs.Status.{TestRunStatus, is_active}

pub record SubscriptionPlan : Type 0 where
  pub id : String
  pub name : String
  pub max_projects : ℕ
  pub max_runs_per_month : ℕ
  pub max_concurrent_runs : ℕ

pub record Company : Type 0 where
  pub id : String
  pub subscription_plan_id : String

pub record Project : Type 0 where
  pub id : String
  pub company_id : String

-- A run, with the company of its project.
pub record Run : Type 0 where
  pub company_id : String
  pub created_at : ℕ
  pub status : TestRunStatus

pub record Tables : Type 0 where
  pub companies : List Company
  pub plans : List SubscriptionPlan
  pub projects : List Project
  pub runs : List Run

pub data SubscriptionError : Type 0 where
  record_not_found : SubscriptionError
  plan_not_found : SubscriptionError
  project_limit : SubscriptionError
  monthly_limit : SubscriptionError
  concurrent_limit : SubscriptionError
  projects_exceed : String → SubscriptionError
  monthly_runs_exceed : String → SubscriptionError
  concurrent_runs_exceed : String → SubscriptionError

-- `count({ where })`
unfoldable pub count : {A : Type 0} → (A → Bool) → List A → ℕ
count cond [] = 0
count cond (x ∷ xs) = (if cond x then 1 else 0) + count cond xs

-- `findUniqueOrThrow` and `findUnique`
unfoldable pub find_first : {A : Type 0} → (A → Bool) → List A → Option A
find_first cond [] = none
find_first cond (x ∷ xs) = if cond x then some x else find_first cond xs

abbrev pub or_throw : {A : Type 0} → SubscriptionError → Option A → Result SubscriptionError A
or_throw e none = err e
or_throw e (some a) = ok a

abbrev pub throw_if : Bool → SubscriptionError → Result SubscriptionError Unit
throw_if true e = err e
throw_if false e = ok tt

abbrev pub company_with : String → Tables → Result SubscriptionError Company
unfolding find_first
company_with id tables =
    or_throw record_not_found (find_first (λ c. str_eq c.id id) tables.companies)

abbrev plan_with : String → Tables → Result SubscriptionError SubscriptionPlan
unfolding find_first
plan_with id tables = or_throw record_not_found (find_first (λ p. str_eq p.id id) tables.plans)

-- `include: { subscriptionPlan: true }`
unfoldable pub plan_of : String → Tables → Result SubscriptionError SubscriptionPlan
unfolding find_first
plan_of company_id tables = do
  company ← company_with company_id tables
  plan_with company.subscription_plan_id tables

pub record Usage : Type 0 where
  pub projects_used : ℕ
  pub runs_this_month : ℕ
  pub concurrent_runs : ℕ

unfoldable pub get_usage : ℕ → String → Tables → Usage
unfolding count is_active
get_usage month_start company_id tables = record {
  projects_used = count (λ p. str_eq p.company_id company_id) tables.projects;
  runs_this_month =
      count (λ r. str_eq r.company_id company_id && leb month_start r.created_at) tables.runs;
  concurrent_runs = count (λ r. str_eq r.company_id company_id && is_active r.status) tables.runs;
}

unfoldable pub assert_usage_fits_plan : SubscriptionPlan → Usage → Result SubscriptionError Unit
assert_usage_fits_plan plan usage = do
  throw_if (ltb plan.max_projects usage.projects_used) (projects_exceed plan.name)
  throw_if (ltb plan.max_runs_per_month usage.runs_this_month) (monthly_runs_exceed plan.name)
  throw_if (ltb plan.max_concurrent_runs usage.concurrent_runs) (concurrent_runs_exceed plan.name)

unfoldable pub assert_can_create_project : String → Tables → Result SubscriptionError Unit
unfolding plan_of count
assert_can_create_project company_id tables = do
  plan ← plan_of company_id tables
  throw_if (leb plan.max_projects (count (λ p. str_eq p.company_id company_id) tables.projects))
      project_limit

abbrev pub is_project_of : String → String → Project → Bool
is_project_of id company_id p = str_eq p.id id && str_eq p.company_id company_id

unfoldable pub assert_can_start_run : ℕ → String → String → Tables → Result SubscriptionError Unit
unfolding plan_of get_usage find_first
assert_can_start_run month_start project_id company_id tables = do
  plan ← plan_of company_id tables
  _ ← or_throw record_not_found (find_first (is_project_of project_id company_id) tables.projects)
  let usage = get_usage month_start company_id tables
  throw_if (leb plan.max_runs_per_month usage.runs_this_month) monthly_limit
  throw_if (leb plan.max_concurrent_runs usage.concurrent_runs) concurrent_limit

-- `company.update({ where: { id }, data: { subscriptionPlanId } })`
unfoldable pub set_plan : String → String → List Company → List Company
set_plan id plan_id [] = []
set_plan id plan_id (c ∷ cs) =
    if str_eq c.id id
    then record c { subscription_plan_id = plan_id } ∷ cs
    else c ∷ set_plan id plan_id cs

unfoldable pub change_plan : ℕ → String → String → Tables → Result SubscriptionError Tables
unfolding get_usage assert_usage_fits_plan set_plan find_first
change_plan month_start company_id plan_name tables = do
  company ← company_with company_id tables
  target ← or_throw plan_not_found (find_first (λ p. str_eq p.name plan_name) tables.plans)
  if str_eq company.subscription_plan_id target.id then ok tables else (do
    assert_usage_fits_plan target (get_usage month_start company_id tables)
    ok (record tables { companies = set_plan company_id target.id tables.companies }))
