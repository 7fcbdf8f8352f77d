-- ===== src/Access/Tests.antt =====
-- The permission check and the guard on concrete requests.
use testing_environment.Common.{
  ◌≡◌, refl, ◌↔◌, true, false, none, some, [], ◌∷◌, str_eq, if◌then◌else◌,
}
use testing_environment.Common.Result.{ok, err}
use testing_environment.Access.{
  run_read, run_write, run, RequiredPermission, ResolvedResource, UserRole, ProjectRole, user,
  api_token, Principal, present, permission_denied, token_scope, other_company, action_name,
  PermissionAction-discrete,
}
use testing_environment.Access.Permissions.{
  can_role, assert_can, assert_in_scope, assert_token_scope, same_id, token_allows,
  resolve_effective_role, project_role_to_user_role, includes_text,
}
use testing_environment.Access.Resources.{Owned, Lookups, Params, in_project, resolve, can_activate}
use testing_environment.Access.Laws.{Permitted, assert_can_iff}
use testing_environment.Access.Isolation.{IsReached, can_activate_run}

checks : Unit {0}
unfolding can_activate resolve in_project assert_can assert_in_scope assert_token_scope same_id
    token_allows resolve_effective_role project_role_to_user_role can_role present includes_text
    action_name PermissionAction-discrete
checks = tt

abbrev r1 : Owned
r1 = record { id = "r1"; project_id = "p1"; company_id = "c1" }

abbrev lookups : Lookups
lookups = record {
  run = λ id. if str_eq id "r1" then some r1 else none;
  secret = λ id. if str_eq id "s1" then some r1 else none;
  suite = λ id. none;
  suite_revision = λ a b. false;
  environment_revision = λ a b. none;
  project = λ id. if str_eq id "p1" then some "c1" else none;
  member = λ p u. if str_eq u "u2" then some ProjectRole.viewer else none;
}

abbrev ann : Principal
ann = record {
  type = user;
  company_id = "c1";
  role = UserRole.developer;
  user_id = some "u1";
  scopes = none;
  project_id = none;
}

abbrev robot : Principal
robot = record {
  type = api_token;
  company_id = "c1";
  role = UserRole.owner;
  user_id = none;
  scopes = some ("run:read" ∷ []);
  project_id = some "p1";
}

abbrev ask_run : Params
ask_run = record {
  run_id = some "r1";
  secret_id = none;
  suite_id = none;
  revision_id = none;
  project_id = some "p1";
  id = none;
}

abbrev ask_secret : Params
ask_secret = record ask_run { run_id = none; secret_id = some "s1" }

abbrev write_runs : RequiredPermission
write_runs = record { action = run_write; resource_type = some run }

abbrev read_runs : RequiredPermission
read_runs = record { action = run_read; resource_type = some run }

guard_tests :
    (can_activate lookups (some write_runs) ask_run (some ann) ≡ ok true)
    × (can_activate lookups (some write_runs) ask_run (some (record ann { user_id = some "u2" }))
        ≡ err permission_denied)
    × (can_activate lookups (some write_runs) ask_run (some (record ann { company_id = "c2" }))
        ≡ err other_company)
    × (can_activate lookups (some write_runs) ask_run (some robot) ≡ err token_scope)
    × (can_activate lookups (some read_runs) ask_run (some robot) ≡ ok true)
    × (can_activate lookups (some read_runs) ask_secret (some robot) ≡ ok true)
unfolding checks
guard_tests = (refl, refl, refl, refl, refl, refl)

abbrev target : ResolvedResource
target = record { type = run; id = some "r1"; company_id = some "c1"; project_id = some "p1" }

assert_can_iff_example :
    (assert_can lookups.member (some robot) run_read target ≡ ok tt)
    ↔ Permitted lookups.member robot run_read target
assert_can_iff_example = assert_can_iff lookups.member robot run_read target

can_activate_run_example : (o : Owned) × IsReached ann (lookups.run "r1") (some "p1") o
unfolding checks
can_activate_run_example = can_activate_run lookups write_runs ask_run ann refl guard_tests.0
