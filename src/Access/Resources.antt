-- ===== src/Access/Resources.antt =====
-- ResourceResolverService (authorization/resource-resolver.service.ts) and PermissionsGuard
-- (authorization/permissions.guard.ts). The lookups by id in the database are parameters.
use testing_environment.Common.{
  String, Bool, true, false, ◌&&◌, Option, none, some, if◌then◌else◌, or_else, str_eq,
}
use testing_environment.Common.Result.{Result, ok, err, ◌>>=◌, ◌>>◌}
use testing_environment.Access.{
  ResourceType, company, environment, project, run, secret, suite, revision, RequiredPermission,
  ResolvedResource, ProjectRole, Principal, present, AccessError, resource_not_found,
}
use testing_environment.Access.Permissions.{assert_can}

-- A row with its project and that project's company.
pub record Owned : Type 0 where
  pub id : String
  pub project_id : String
  pub company_id : String

pub record Lookups : Type 0 where
  pub run : String → Option Owned
  pub secret : String → Option Owned
  pub suite : String → Option Owned
  -- is the revision one of the suite's?
  pub suite_revision : String → String → Bool
  -- the revision, if its environment belongs to the project
  pub environment_revision : String → String → Option Owned
  -- the company of a project
  pub project : String → Option String
  pub member : String → String → Option ProjectRole

pub record Params : Type 0 where
  pub run_id : Option String
  pub secret_id : Option String
  pub suite_id : Option String
  pub revision_id : Option String
  pub project_id : Option String
  pub id : Option String

-- The text of a parameter that was found to be there.
abbrev pub value : Option String → String
value s = or_else s ""

-- `findFirst({ where: { id, ...(projectId ? { projectId } : {}) } })`, given the row with that id.
unfoldable pub in_project : Option String → Option Owned → Option Owned
in_project project_id none = none
in_project project_id (some o) =
    if present project_id
    then (if str_eq o.project_id (value project_id) then some o else none)
    else some o

abbrev pub resource : ResourceType → String → Owned → ResolvedResource
resource type id o = record {
  type = type;
  id = some id;
  company_id = some o.company_id;
  project_id = some o.project_id;
}

abbrev pub found : {A : Type 0} → ResourceType → Option A → Result AccessError A
found type none = err (resource_not_found type)
found type (some a) = ok a

unfoldable pub is_project_bound : Option ResourceType → Bool
is_project_bound (some environment) = true
is_project_bound (some project) = true
is_project_bound (some run) = true
is_project_bound (some secret) = true
is_project_bound (some suite) = true
is_project_bound (some revision) = true
is_project_bound _ = false

abbrev pub project_type : Option ResourceType → ResourceType
project_type (some environment) = environment
project_type _ = project

-- `params.projectId ?? params.id`
abbrev pub project_param : Params → Option String
project_param params = elim params.project_id [ none ↦ params.id | some p ↦ some p ]

module _ (lookups : Lookups) where
  unfoldable pub resolve_suite : Params → Result AccessError ResolvedResource
  resolve_suite params = do
    o ← found suite (in_project params.project_id (lookups.suite (value params.suite_id)))
    if present params.revision_id
        then (if lookups.suite_revision (value params.revision_id) o.id
            then ok (resource revision (value params.revision_id) o)
            else err (resource_not_found revision))
        else ok (resource suite o.id o)

  unfoldable pub resolve_project :
      Params → Option ResourceType → Result AccessError ResolvedResource
  resolve_project params type =
      if present (project_param params) && is_project_bound type
      then (do
        company_id ← found project (lookups.project (value (project_param params)))
        ok (record {
          type = project_type type;
          id = some (value (project_param params));
          company_id = some company_id;
          project_id = some (value (project_param params));
        }))
      else ok
          (record { type = or_else type company; id = none; company_id = none; project_id = none })

  unfoldable pub resolve : Params → RequiredPermission → Result AccessError ResolvedResource
  unfolding resolve_suite resolve_project
  resolve params permission =
      if present params.run_id
      then (do
        o ← found run (in_project params.project_id (lookups.run (value params.run_id)))
        ok (resource run o.id o))
      else if present params.secret_id
      then (do
        o ← found secret (in_project params.project_id (lookups.secret (value params.secret_id)))
        ok (resource secret o.id o))
      else if present params.suite_id
      then resolve_suite params
      else if present params.revision_id && present params.project_id
      then (do
        o ←
            found revision
              (lookups.environment_revision (value params.revision_id) (value params.project_id))
        ok (resource revision o.id o))
      else resolve_project params permission.resource_type

  -- A handler with no declared permission is open.
  unfoldable pub can_activate :
      Option RequiredPermission → Params → Option Principal → Result AccessError Bool
  can_activate none params principal = ok true
  can_activate (some permission) params principal = do
    target ← resolve params permission
    assert_can lookups.member principal permission.action target
    ok true
