-- ===== src/Access.antt =====
-- authorization/: the actions, roles and principals (permission.types.ts, common/types), and what
-- lies below: the permission check, the resolution of a request's resource, and the guard.
pub mod Permissions
pub mod Laws
pub mod Resources
pub mod Isolation
mod Tests
use testing_environment.Common.{String, Bool, true, false, Option, none, some, List, not, str_eq}

pub data PermissionAction : Type 0 where
  audit_read billing_manage company_read company_update environment_read : PermissionAction
  environment_write project_create project_delete project_read project_update : PermissionAction
  run_read run_write secret_read secret_write suite_read suite_write : PermissionAction
  team_manage token_manage : PermissionAction

unfoldable pub PermissionAction-discrete : Discrete PermissionAction
PermissionAction-discrete = hlevel

-- The text of an action, which is what a token's scopes hold.
unfoldable pub action_name : PermissionAction → String
action_name audit_read = "audit:read"
action_name billing_manage = "billing:manage"
action_name company_read = "company:read"
action_name company_update = "company:update"
action_name environment_read = "environment:read"
action_name environment_write = "environment:write"
action_name project_create = "project:create"
action_name project_delete = "project:delete"
action_name project_read = "project:read"
action_name project_update = "project:update"
action_name run_read = "run:read"
action_name run_write = "run:write"
action_name secret_read = "secret:read"
action_name secret_write = "secret:write"
action_name suite_read = "suite:read"
action_name suite_write = "suite:write"
action_name team_manage = "team:manage"
action_name token_manage = "token:manage"

pub data ResourceType : Type 0 where
  audit_event company environment project run secret suite revision team token : ResourceType

pub record RequiredPermission : Type 0 where
  pub action : PermissionAction
  pub resource_type : Option ResourceType

pub record ResolvedResource : Type 0 where
  pub type : ResourceType
  pub id : Option String
  pub company_id : Option String
  pub project_id : Option String

pub data UserRole : Type 0 where
  owner admin developer viewer : UserRole

pub data ProjectRole : Type 0 where
  admin developer viewer : ProjectRole

pub data PrincipalType : Type 0 where
  user api_token : PrincipalType

pub record Principal : Type 0 where
  pub type : PrincipalType
  pub company_id : String
  pub role : UserRole
  pub user_id : Option String
  pub scopes : Option (List String)
  pub project_id : Option String

-- An optional text used as a condition: the empty text is false.
unfoldable pub present : Option String → Bool
present none = false
present (some s) = not (str_eq s "")

pub data AccessError : Type 0 where
  unauthorized other_company other_project company_wide permission_denied : AccessError
  token_action token_scope : AccessError
  resource_not_found : ResourceType → AccessError
