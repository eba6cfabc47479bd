-- ===== src/Access.antt =====
-- The guards in front of the controllers: workspace.guard.ts, permissions.guard.ts and
-- super-admin.guard.ts of src/shared/guards.
pub mod Granted
use base_api_nest_js.Base.{
  ℕ, String, Bool, true, false, Option, none, some, List, [], ◌∷◌, all, if◌then◌else◌,
}
use base_api_nest_js.Prisma.{Prisma}
use base_api_nest_js.World.{
  M, ◌>>=◌, ◌>>◌, pure, throw, or_throw, bad_request, forbidden, unauthorized,
}
use base_api_nest_js.Rbac.Permissions.{includes}
use base_api_nest_js.Workspaces.Members
use base_api_nest_js.Workspaces.Members.{MemberWithRelations}

-- What WorkspaceGuard puts on the request: `workspace.id`, and the member with its role and the
-- keys of the role's permissions.
pub record WorkspaceContext : Type 0 where
  pub workspace_id : ℕ
  pub membership : MemberWithRelations

-- `a ?? b`, where `b` is asked only for a null `a`.
abbrev pub or_else : {A : Type 0} → Option A → M (Option A) → M (Option A)
or_else none m = m
or_else (some a) m = pure (some a)

-- PermissionsGuard, with the keys of the handler's metadata.
unfoldable pub permissions_guard : List String → List String → M Bool
permissions_guard required user_perms =
    if all (includes user_perms) required
    then pure true
    else throw (forbidden "Permission required")

module _ ⦃p : Prisma⦄ where
  -- WorkspaceGuard for a signed-in user; `workspace_id` is the header or the path's parameter.
  unfoldable pub workspace_guard : ℕ → Option ℕ → M WorkspaceContext
  workspace_guard user_id none = throw (bad_request "Workspace not specified")
  workspace_guard user_id (some workspace_id) = do
    own ← Members.find_by_user_and_workspace user_id workspace_id
    found ← or_else own (Members.find_super_admin_membership user_id)
    member ← or_throw (forbidden "You are not a member of this workspace") found
    pure (record { workspace_id = workspace_id; membership = member })

  -- Both guards, in the order in which the controllers list them.
  unfoldable pub guarded : ℕ → Option ℕ → List String → M WorkspaceContext
  unfolding workspace_guard permissions_guard
  guarded user_id workspace_id required = do
    ctx ← workspace_guard user_id workspace_id
    permissions_guard required ctx.membership.permissions
    pure ctx

  -- SuperAdminGuard
  unfoldable pub super_admin_guard : Option ℕ → M Bool
  super_admin_guard none = throw (unauthorized "Unauthorized")
  super_admin_guard (some user_id) = do
    found ← Members.find_super_admin_membership user_id
    or_throw (forbidden "Super admin access required") found
    pure true
