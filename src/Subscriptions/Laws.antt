-- ===== src/Subscriptions/Laws.antt =====
-- What the limits of a plan guarantee.
use testing_environment.Common.{
  ℕ, suc, ◌≤◌, String, ◌≡◌, ◌⊎◌, ◌↔◌, refl, true, false, some, List, [], ◌∷◌, leb, str_eq,
  str_eq_iff, arith, Bool-cases, Option-cases, inl, inr,
}
use package.text.Mathlib.TextPositions.{eq_refl}
use testing_environment.Common.Result.{ok, Result-cases}
use testing_environment.Runs.Status.{created, is_active}
use testing_environment.Subscriptions.{
  SubscriptionPlan, Company, Project, Run, Tables, count, find_first, company_with, plan_of, Usage,
  get_usage, assert_usage_fits_plan, is_project_of, assert_can_start_run, set_plan, change_plan,
}

-- A run of the company that has just been created.
abbrev pub new_run : String → ℕ → Run
new_run company_id at = record { company_id = company_id; created_at = at; status = created }

abbrev pub with_run : Run → Tables → Tables
with_run run tables = record tables { runs = run ∷ tables.runs }

-- The project is the company's, and the usage of the company is within its plan.
pub record HasRoom (project_id company_id : String) (tables : Tables) (usage : Usage) : Type 0 where
  pub plan : SubscriptionPlan
  pub project : Project
  pub planned : plan_of company_id tables ≡ ok plan
  pub owned : find_first (is_project_of project_id company_id) tables.projects ≡ some project
  pub monthly : usage.runs_this_month ≤ plan.max_runs_per_month
  pub concurrent : usage.concurrent_runs ≤ plan.max_concurrent_runs

module _ (month_start : ℕ) (project_id company_id : String) (tables : Tables) (at : ℕ) where
  one_more :
      leb month_start at ≡ true
      → let before = get_usage month_start company_id tables in
        let after = get_usage month_start company_id (with_run (new_run company_id at) tables) in
        (after.runs_this_month ≡ suc before.runs_this_month)
        × (after.concurrent_runs ≡ suc before.concurrent_runs)
  unfolding get_usage is_active
  one_more h = (rw (count, eq_refl, h) (omega arith), rw (count, eq_refl) (omega arith))

  -- A run may start exactly if the project is the company's and the usage with that run is still within the
  -- company's plan.
  pub assert_can_start_run_iff :
      leb month_start at ≡ true
      → (assert_can_start_run month_start project_id company_id tables ≡ ok tt)
        ↔ HasRoom project_id company_id tables
            (get_usage month_start company_id (with_run (new_run company_id at) tables))
  unfolding assert_can_start_run
  assert_can_start_run_iff h =
      let more = one_more h in
      (
        λ started. elim (Result-cases (plan_of company_id tables)) [
          | inl (e, p) ↦ let k = rw p at started in cc
          | inr (plan, p) ↦
              elim (Option-cases
                (find_first (is_project_of project_id company_id) tables.projects)) [
                  | inl q ↦ let k = rw (p, q) at started in cc
                  | inr (project, q) ↦
                      let k = rw (p, q) at started in
                      record {
                        plan = plan;
                        project = project;
                        planned = p;
                        owned = q;
                        monthly = ground (arith, k, more.0);
                        concurrent = ground (arith, k, more.1);
                      }
                ]
        ],
        λ room.
            let a : leb room.plan.max_runs_per_month
                  (get_usage month_start company_id tables).runs_this_month
                ≡ false =
              ground (arith, room.monthly, more.0) in
            let b : leb room.plan.max_concurrent_runs
                  (get_usage month_start company_id tables).concurrent_runs
                ≡ false =
              ground (arith, room.concurrent, more.1) in
            rw (room.planned, room.owned, a, b) refl,
      )

-- The company has another plan, and nothing else has changed.
abbrev pub on_plan : String → Company → Company
on_plan plan_id c = record c { subscription_plan_id = plan_id }

find-set_plan :
    (id plan_id : String) (cs : List Company) (c : Company)
    → find_first (λ (c : Company). str_eq c.id id) cs ≡ some c
    → find_first (λ (c : Company). str_eq c.id id) (set_plan id plan_id cs)
      ≡ some (on_plan plan_id c)
unfolding find_first set_plan
find-set_plan id plan_id [] c h = cc
find-set_plan id plan_id (d ∷ ds) c h = elim (Bool-cases (str_eq d.id id)) [
  | inl e ↦ let k = rw e at h in let same : d ≡ c = cc in rw (e, e, same) refl
  | inr e ↦ rw (e, e) (find-set_plan id plan_id ds c (rw e at h))
]

find-set_plan-other :
    (id plan_id other : String) (cs : List Company)
    → str_eq id other ≡ false
    → find_first (λ (c : Company). str_eq c.id other) (set_plan id plan_id cs)
      ≡ find_first (λ (c : Company). str_eq c.id other) cs
unfolding find_first set_plan
find-set_plan-other id plan_id other [] h = refl
find-set_plan-other id plan_id other (d ∷ ds) h = elim (Bool-cases (str_eq d.id id)) [
  | inl e ↦
      let q : d.id ≡ id = (str_eq_iff d.id id).0 e in
      let no : str_eq d.id other ≡ false = rw q h in rw (e, no) refl
  | inr e ↦ elim (Bool-cases (str_eq d.id other)) [
    | inl p ↦ rw (e, p) refl
    | inr p ↦ rw (e, p) (find-set_plan-other id plan_id other ds h)
  ]
]

pub record Fits (usage : Usage) (plan : SubscriptionPlan) : Type 0 where
  pub projects : usage.projects_used ≤ plan.max_projects
  pub monthly : usage.runs_this_month ≤ plan.max_runs_per_month
  pub concurrent : usage.concurrent_runs ≤ plan.max_concurrent_runs

assert_usage_fits_plan-Fits :
    (plan : SubscriptionPlan) (usage : Usage)
    → assert_usage_fits_plan plan usage ≡ ok tt
    → Fits usage plan
unfolding assert_usage_fits_plan
assert_usage_fits_plan-Fits plan usage h = record {
  projects = ground (arith, h);
  monthly = ground (arith, h);
  concurrent = ground (arith, h);
}

-- What a change of plan leaves of the company: it is on the plan, its usage fits it or it was on it before.
pub record Changed (month_start : ℕ) (company_id plan_name : String) (before after : Tables)
    : Type 0 where
  pub plan : SubscriptionPlan
  pub company : Company
  pub named : find_first (λ p. str_eq p.name plan_name) before.plans ≡ some plan
  pub was : company_with company_id before ≡ ok company
  pub is : company_with company_id after ≡ ok (on_plan plan.id company)
  pub fits :
      (company.subscription_plan_id ≡ plan.id) ⊎ Fits (get_usage month_start company_id before) plan

module _ (month_start : ℕ) (company_id plan_name other : String) (before after : Tables) where
  -- A change of plan that succeeds puts the company on the plan of that name, to which its usage fits unless it
  -- was on it before, and leaves every other company as it was.
  pub change_plan_lem :
      change_plan month_start company_id plan_name before ≡ ok after
      → Changed month_start company_id plan_name before after
        × (str_eq company_id other ≡ false → company_with other after ≡ company_with other before)
  unfolding change_plan
  change_plan_lem h =
      elim (Option-cases (find_first (λ (c : Company). str_eq c.id company_id) before.companies)) [
        | inl p ↦ let k = rw p at h in cc
        | inr (company, p) ↦
            elim (Option-cases
              (find_first (λ (q : SubscriptionPlan). str_eq q.name plan_name) before.plans)) [
                | inl q ↦ let k = rw (p, q) at h in cc
                | inr (plan, q) ↦ elim (Bool-cases (str_eq company.subscription_plan_id plan.id)) [
                  | inl e ↦
                      let k = rw (p, q, e) at h in
                      let same : before ≡ after = cc in
                      let ids = (str_eq_iff company.subscription_plan_id plan.id).0 e in
                      rw⁻¹ same (
                        record {
                          plan = plan;
                          company = company;
                          named = q;
                          was = rw p refl;
                          is = rw (p, ← ids) refl;
                          fits = inl ids;
                        },
                        λ no. refl,
                      )
                  | inr e ↦
                      elim (Result-cases
                        (assert_usage_fits_plan plan (get_usage month_start company_id before))) [
                          | inl (f, r) ↦ let k = rw (p, q, e, r) at h in cc
                          | inr (u, r) ↦
                              let k = rw (p, q, e, r) at h in
                              let same : record before {
                                companies = set_plan company_id plan.id before.companies;
                              }
                                  ≡ after =
                                cc in
                              rw⁻¹ same (
                                record {
                                  plan = plan;
                                  company = company;
                                  named = q;
                                  was = rw p refl;
                                  is =
                                      rw
                                        (find-set_plan company_id plan.id before.companies company
                                          p)
                                        refl;
                                  fits = inr (assert_usage_fits_plan-Fits plan _ r);
                                },
                                λ no.
                                    rw
                                      (find-set_plan-other company_id plan.id other before.companies
                                        no)
                                      refl,
                              )
                        ]
                ]
              ]
      ]
