-- ===== src/Access/Isolation.antt =====
-- No request reaches a run, a secret or a test suite of another company.
use testing_environment.Common.{
  String, ◌≡◌, ◌≢◌, refl, inl, inr, true, false, Option, none, some, str_eq_iff, arith,
  Option-cases,
}
use testing_environment.Common.Result.{ok, err}
use testing_environment.Access.{
  ResourceType, run, secret, RequiredPermission, ResolvedResource, Principal, present, AccessError,
  resource_not_found,
}
use testing_environment.Access.Permissions.{assert_can}
use testing_environment.Access.Laws.{assert_can_iff}
use testing_environment.Access.Resources.{
  Owned, Lookups, Params, value, in_project, resource, found, resolve, can_activate,
}

found-eq-ok :
    {A : Type 0} (type : ResourceType) (o : Option A) {a : A} → found type o ≡ ok a → o ≡ some a
found-eq-ok type none h = cc
found-eq-ok type (some b) h = ground arith

-- The row that a request names, and the project of the request if it names one.
pub record IsNamed (row : Option Owned) (project_id : Option String) (o : Owned) : Type 0 where
  pub exists : row ≡ some o
  pub in_project : present project_id ≡ true → o.project_id ≡ value project_id

in_project-IsNamed :
    (project_id : Option String) (row : Option Owned) (o : Owned)
    → in_project project_id row ≡ some o
    → IsNamed row project_id o
unfolding in_project
in_project-IsNamed project_id none o h = cc
in_project-IsNamed project_id (some r) o h =
    ground (arith, str_eq_iff r.project_id (value project_id))

-- What a principal that the guard let through may rely on of the row that it named.
pub record IsReached (p : Principal) (row : Option Owned) (project_id : Option String) (o : Owned)
    : Type 0 where
  pub named : IsNamed row project_id o
  pub company : present (some o.company_id) ≡ true → o.company_id ≡ p.company_id
  pub project :
      present p.project_id ≡ true
      → present (some o.project_id) ≡ true
      → some o.project_id ≡ p.project_id

module _ (lookups : Lookups) where
  reached :
      (p : Principal) (permission : RequiredPermission) (type : ResourceType) (id : String)
      (o : Owned) (row : Option Owned) (project_id : Option String)
      → IsNamed row project_id o
      → assert_can lookups.member (some p) permission.action (resource type id o) ≡ ok tt
      → IsReached p row project_id o
  reached p permission type id o row project_id n h =
      let c = (assert_can_iff lookups.member p permission.action (resource type id o)).0 h in
      record {
        named = n;
        company = λ here. ground (arith, c.tenant here);
        project = λ bound here. ground (arith, c.bound bound);
      }

  granted :
      (permission : RequiredPermission) (params : Params) (p : Principal)
      (target : ResolvedResource)
      → resolve lookups params permission ≡ ok target
      → can_activate lookups (some permission) params (some p) ≡ ok true
      → assert_can lookups.member (some p) permission.action target ≡ ok tt
  unfolding can_activate
  granted permission params p target resolved h = ground arith

  refused :
      (permission : RequiredPermission) (params : Params) (p : Principal) (e : AccessError)
      → resolve lookups params permission ≡ err e
      → can_activate lookups (some permission) params (some p) ≢ ok true
  unfolding can_activate
  refused permission params p e failed h = ground arith

  -- If the guard lets a request through that names a run, there is such a run, it belongs to the
  -- project that the request names, if it names one, to the principal's company, and to the project
  -- that the principal is bound to, if it is bound to one.
  pub can_activate_run :
      (permission : RequiredPermission) (params : Params) (p : Principal)
      → present params.run_id ≡ true
      → can_activate lookups (some permission) params (some p) ≡ ok true
      → (o : Owned) × IsReached p (lookups.run (value params.run_id)) params.project_id o
  unfolding resolve
  can_activate_run permission params p here h =
      elim (Option-cases (in_project params.project_id (lookups.run (value params.run_id)))) [
        | inl missing ↦
            absurd
              (refused permission params p (resource_not_found run) (rw (here, missing) refl) h)
        | inr (o, there) ↦ (
          o,
          reached p permission run o.id o _ _ (in_project-IsNamed _ _ o there)
              (granted permission params p (resource run o.id o) (rw (here, there) refl) h),
        )
      ]

  -- The same of a request that names a secret, and no run.
  pub can_activate_secret :
      (permission : RequiredPermission) (params : Params) (p : Principal)
      → present params.run_id ≡ false
      → present params.secret_id ≡ true
      → can_activate lookups (some permission) params (some p) ≡ ok true
      → (o : Owned) × IsReached p (lookups.secret (value params.secret_id)) params.project_id o
  unfolding resolve
  can_activate_secret permission params p no_run here h =
      elim (Option-cases (in_project params.project_id (lookups.secret (value params.secret_id)))) [
        | inl missing ↦ absurd (
            refused permission params p (resource_not_found secret)
              (rw (no_run, here, missing) refl) h)
        | inr (o, there) ↦ (
          o,
          reached p permission secret o.id o _ _ (in_project-IsNamed _ _ o there) (
              granted permission params p (resource secret o.id o) (rw (no_run, here, there) refl)
                h),
        )
      ]
