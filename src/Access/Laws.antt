-- ===== src/Access/Laws.antt =====
-- What the permission check grants.
use mathlib.Core.List.{Memᴰ}
use testing_environment.Common.{
  ℕ, ◌≤◌, ◌≢◌, String, ◌≡◌, refl, sym, ◌↔◌, ◌⊎◌, inl, inr, true, false, Option, none, some, List,
  [], ◌∷◌, or_else, str_eq, str_eq_iff, arith, Bool-cases,
}
use testing_environment.Common.Result.{ok}
use testing_environment.Access.{
  PermissionAction, company_read, billing_manage, company_update, project_create, project_delete,
  project_update, team_manage, token_manage, action_name, ResolvedResource, UserRole, ProjectRole,
  api_token, Principal, present,
}
use testing_environment.Access.Permissions.{
  token_allows, can_role, same_id, includes_text, assert_token_scope, assert_in_scope,
  resolve_effective_role, assert_can,
}

Memᴰ_of_includes_text : (xs : List String) (s : String) → includes_text xs s ≡ true → Memᴰ s xs
unfolding includes_text
Memᴰ_of_includes_text [] s h = cc
Memᴰ_of_includes_text (x ∷ xs) s h = elim (Bool-cases (str_eq x s)) [
  | inl e ↦ Memᴰ.head (sym ((str_eq_iff x s).0 e))
  | inr e ↦ Memᴰ.tail (Memᴰ_of_includes_text xs s (ground arith))
]

includes_text_of_Memᴰ : (xs : List String) (s : String) → Memᴰ s xs → includes_text xs s ≡ true
unfolding includes_text
includes_text_of_Memᴰ [] s m = elim m [ ]
includes_text_of_Memᴰ (x ∷ xs) s (Memᴰ.head e) = rw ((str_eq_iff x s).1 (sym e)) refl
includes_text_of_Memᴰ (x ∷ xs) s (Memᴰ.tail m) = ground (arith, includes_text_of_Memᴰ xs s m)

same_id_iff : (a b : Option String) → (same_id a b ≡ true) ↔ (a ≡ b)
unfolding same_id
same_id_iff none none = ground arith
same_id_iff none (some b) = ground arith
same_id_iff (some a) none = ground arith
same_id_iff (some a) (some b) = ground (arith, str_eq_iff a b)

-- What must hold for a principal to act on a resource.
pub record Permitted (member : String → String → Option ProjectRole) (p : Principal)
    (action : PermissionAction) (resource : ResolvedResource) : Type 0 where
  -- a resource of a company is of the principal's
  pub tenant : present resource.company_id ≡ true → resource.company_id ≡ some p.company_id
  -- a principal that is bound to a project acts on that project, or reads the company
  pub bound :
      present p.project_id ≡ true
      → (resource.project_id ≡ p.project_id)
        ⊎ ((present resource.project_id ≡ false) × (action ≡ company_read))
  pub granted : can_role (resolve_effective_role member p resource.project_id) action ≡ true
  -- a token acts by its scopes, and only on what tokens may do at all
  pub general : p.type ≡ api_token → token_allows action ≡ true
  pub scoped : p.type ≡ api_token → Memᴰ (action_name action) (or_else p.scopes [])

assert_in_scope_iff :
    (p : Principal) (action : PermissionAction) (resource : ResolvedResource)
    → (assert_in_scope p action resource ≡ ok tt) ↔ (
        (present resource.company_id ≡ true → resource.company_id ≡ some p.company_id)
        × (present p.project_id ≡ true
            → (resource.project_id ≡ p.project_id)
              ⊎ ((present resource.project_id ≡ false) × (action ≡ company_read))))
unfolding assert_in_scope
assert_in_scope_iff p action resource = ground (
  arith,
  same_id_iff (some p.company_id) resource.company_id,
  same_id_iff p.project_id resource.project_id,
)

assert_token_scope_iff :
    (p : Principal) (action : PermissionAction)
    → (assert_token_scope p action ≡ ok tt) ↔ (
        (p.type ≡ api_token → token_allows action ≡ true)
        × (p.type ≡ api_token → includes_text (or_else p.scopes []) (action_name action) ≡ true))
unfolding assert_token_scope
assert_token_scope_iff p action = ground arith

module _ (member : String → String → Option ProjectRole) where
  -- The check lets a principal through exactly if the five conditions of `Permitted` hold.
  pub assert_can_iff :
      (p : Principal) (action : PermissionAction) (resource : ResolvedResource)
      → (assert_can member (some p) action resource ≡ ok tt) ↔ Permitted member p action resource
  unfolding assert_can
  assert_can_iff p action resource =
      let scope = assert_in_scope_iff p action resource in
      let token = assert_token_scope_iff p action in
      (
        λ h.
            let (in_scope, role, scopes) = passed h in
            record {
              tenant = (scope.0 in_scope).0;
              bound = (scope.0 in_scope).1;
              granted = role;
              general = (token.0 scopes).0;
              scoped = λ t. Memᴰ_of_includes_text _ _ ((token.0 scopes).1 t);
            },
        λ c.
            rw
              (
                scope.1 (c.tenant, c.bound),
                c.granted,
                token.1 (c.general, λ t. includes_text_of_Memᴰ _ _ (c.scoped t)),
              )
              refl,
      )
    where
      passed :
          assert_can member (some p) action resource ≡ ok tt
          → (assert_in_scope p action resource ≡ ok tt)
            × (can_role (resolve_effective_role member p resource.project_id) action ≡ true)
            × (assert_token_scope p action ≡ ok tt)
      passed h = ground arith

abbrev rank : UserRole → ℕ
rank UserRole.viewer = 0
rank UserRole.developer = 1
rank UserRole.admin = 2
rank UserRole.owner = 3

-- A role can do all that a lower role can: owner, admin, developer, viewer.
pub can_role_mono :
    (low high : UserRole) (action : PermissionAction)
    → rank low ≤ rank high
    → can_role low action ≡ true
    → can_role high action ≡ true
unfolding can_role
can_role_mono low high action h k = ground arith

-- The actions that manage a company, its projects, its team, its billing and its tokens.
abbrev pub IsManagement : PermissionAction → Type 0
IsManagement a =
    (a ≡ billing_manage)
    ⊎ (a ≡ company_update)
    ⊎ (a ≡ project_create)
    ⊎ (a ≡ project_delete)
    ⊎ (a ≡ project_update)
    ⊎ (a ≡ team_manage)
    ⊎ (a ≡ token_manage)

token_allows-management : (a : PermissionAction) → IsManagement a → token_allows a ≡ false
unfolding token_allows
token_allows-management a m = ground arith

module _ (member : String → String → Option ProjectRole) where
  -- Whatever its role and scopes, an API token manages nothing.
  pub token_never_manages :
      (p : Principal) (action : PermissionAction) (resource : ResolvedResource)
      → p.type ≡ api_token
      → IsManagement action
      → assert_can member (some p) action resource ≢ ok tt
  token_never_manages p action resource t m h = cc (
    (((assert_can_iff member p action resource).0 h).general t),
    token_allows-management action m,
  )
