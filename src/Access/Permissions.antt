-- ===== src/Access/Permissions.antt =====
-- PermissionService (authorization/permission.service.ts). The lookup of a project's members is the
-- parameter `member`.
use testing_environment.Common.{
  String, Bool, true, false, ◌&&◌, not, Option, none, some, List, [], ◌∷◌, if◌then◌else◌, includes,
  or_else, str_eq, holds,
}
use testing_environment.Common.Result.{Result, ok, err, ◌>>◌}
use testing_environment.Access.{
  PermissionAction, audit_read, billing_manage, company_read, company_update, environment_read,
  environment_write, project_create, project_delete, project_read, project_update, run_read,
  run_write, secret_read, secret_write, suite_read, suite_write, team_manage, token_manage,
  PermissionAction-discrete, action_name, ResolvedResource, UserRole, ProjectRole, PrincipalType,
  user, api_token, Principal, present, AccessError, unauthorized, other_company, other_project,
  company_wide, permission_denied, token_action, token_scope,
}

abbrev api_token_allowed_actions : List PermissionAction
api_token_allowed_actions =
    audit_read ∷ company_read ∷ environment_read ∷ environment_write ∷ project_read ∷ run_read
    ∷ run_write ∷ secret_read ∷ secret_write ∷ suite_read ∷ suite_write ∷ []

unfoldable pub token_allows : PermissionAction → Bool
unfolding PermissionAction-discrete
token_allows action = includes PermissionAction-discrete api_token_allowed_actions action

-- `ROLE_PERMISSIONS`
abbrev role_permissions : UserRole → List PermissionAction
role_permissions UserRole.owner =
    audit_read ∷ billing_manage ∷ company_read ∷ company_update ∷ environment_read
    ∷ environment_write ∷ project_create ∷ project_delete ∷ project_read ∷ project_update ∷ run_read
    ∷ run_write ∷ secret_read ∷ secret_write ∷ suite_read ∷ suite_write ∷ team_manage ∷ token_manage
    ∷ []
role_permissions UserRole.admin =
    audit_read ∷ company_read ∷ company_update ∷ environment_read ∷ environment_write
    ∷ project_create ∷ project_delete ∷ project_read ∷ project_update ∷ run_read ∷ run_write
    ∷ secret_read ∷ secret_write ∷ suite_read ∷ suite_write ∷ team_manage ∷ token_manage ∷ []
role_permissions UserRole.developer =
    company_read ∷ environment_read ∷ environment_write ∷ project_read ∷ run_read ∷ run_write
    ∷ secret_read ∷ suite_read ∷ suite_write ∷ []
role_permissions UserRole.viewer =
    company_read ∷ environment_read ∷ project_read ∷ run_read ∷ secret_read ∷ suite_read ∷ []

unfoldable pub can_role : UserRole → PermissionAction → Bool
unfolding PermissionAction-discrete
can_role role action = includes PermissionAction-discrete (role_permissions role) action

unfoldable pub project_role_to_user_role : ProjectRole → UserRole
project_role_to_user_role ProjectRole.admin = UserRole.admin
project_role_to_user_role ProjectRole.developer = UserRole.developer
project_role_to_user_role ProjectRole.viewer = UserRole.viewer

abbrev pub role_of_member : UserRole → Option ProjectRole → UserRole
role_of_member role none = role
role_of_member role (some r) = project_role_to_user_role r

abbrev pub is_user : PrincipalType → Bool
is_user user = true
is_user api_token = false

-- `a !== b` on optional texts
unfoldable pub same_id : Option String → Option String → Bool
same_id none none = true
same_id (some a) (some b) = str_eq a b
same_id _ _ = false

unfoldable pub includes_text : List String → String → Bool
includes_text [] s = false
includes_text (x ∷ xs) s = if str_eq x s then true else includes_text xs s

unfoldable pub assert_token_scope : Principal → PermissionAction → Result AccessError Unit
assert_token_scope principal action =
    if is_user principal.type
    then ok tt
    else if not (token_allows action)
    then err token_action
    else if includes_text (or_else principal.scopes []) (action_name action)
    then ok tt
    else err token_scope

-- The three checks of `assertCan` that come before the role.
unfoldable pub assert_in_scope :
    Principal → PermissionAction → ResolvedResource → Result AccessError Unit
assert_in_scope principal action resource =
    if present resource.company_id && not (same_id (some principal.company_id) resource.company_id)
    then err other_company
    else if present principal.project_id
        && present resource.project_id
        && not (same_id principal.project_id resource.project_id)
    then err other_project
    else if present principal.project_id
        && not (present resource.project_id)
        && not (holds (PermissionAction-discrete action company_read))
    then err company_wide
    else ok tt

-- `projectMember.findUnique({ projectId, userId })`
module _ (member : String → String → Option ProjectRole) where
  unfoldable pub resolve_effective_role : Principal → Option String → UserRole
  resolve_effective_role principal project_id =
      if is_user principal.type && present principal.user_id && present project_id
      then role_of_member principal.role
          (member (or_else project_id "") (or_else principal.user_id ""))
      else principal.role

  unfoldable pub assert_can :
      Option Principal → PermissionAction → ResolvedResource → Result AccessError Unit
  assert_can none action resource = err unauthorized
  assert_can (some principal) action resource = do
    assert_in_scope principal action resource
    if can_role (resolve_effective_role principal resource.project_id) action
        then ok tt
        else err permission_denied
    assert_token_scope principal action
