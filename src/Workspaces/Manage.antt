-- ===== src/Workspaces/Manage.antt =====
-- The use cases of src/modules/workspaces/use-cases on members and on the owner.
use base_api_nest_js.Base.{
  ℕ, String, Bool, true, false, Option, none, some, List, find, not, ◌&&◌, ◌==◌, str_eq,
}
use base_api_nest_js.Prisma.{Prisma}
use base_api_nest_js.Crypto.{Crypto}
use base_api_nest_js.World.{
  User, Workspace, WorkspaceMember, M, ◌>>=◌, ◌>>◌, pure, throw_if, or_throw, not_found, forbidden,
  unauthorized, bad_request,
}
use base_api_nest_js.Users
use base_api_nest_js.Auth.Login.{truthy, password_ok}
use base_api_nest_js.Rbac.Permissions.{includes}
use base_api_nest_js.Rbac.Roles
use base_api_nest_js.Rbac.Roles.{RoleWithPermissions}
use base_api_nest_js.Workspaces
use base_api_nest_js.Workspaces.{TransferOwnershipData}
use base_api_nest_js.Workspaces.Members

-- `workspace?.ownerId === userId`
abbrev pub is_owner : Option Workspace → ℕ → Bool
is_owner none user_id = false
is_owner (some ws) user_id = ws.owner_id == user_id

-- `!member || member.workspaceId !== workspaceId`
abbrev pub member_in : ℕ → Option WorkspaceMember → Option WorkspaceMember
member_in workspace_id none = none
member_in workspace_id (some m) = elim (m.workspace_id == workspace_id) [
  | true ↦ some m
  | false ↦ none
]

abbrev pub named : String → List RoleWithPermissions → Option RoleWithPermissions
named name roles = find (λ r. str_eq r.role.name name) roles

-- `!caller || !caller.passwordHash || !(await verifyPassword(…))` is false.
abbrev pub confirms : Crypto → Option User → String → Bool
confirms c none password = false
confirms c (some u) password = truthy u.password_hash && password_ok c u password

pub record RemoveMemberInput : Type 0 where
  pub workspace_id : ℕ
  pub member_id : ℕ
  pub caller_user_id : ℕ
  pub caller_permissions : List String

pub record TransferOwnershipInput : Type 0 where
  pub workspace_id : ℕ
  pub caller_user_id : ℕ
  pub target_member_id : ℕ
  pub password : String

module _ ⦃p : Prisma⦄ where
  unfoldable pub remove_member : RemoveMemberInput → M (Unit {0})
  remove_member input = do
    found ← Members.find_by_id input.member_id
    member ←
        or_throw (not_found "Member not found in this workspace")
          (member_in input.workspace_id found)
    workspace ← Workspaces.find_by_id input.workspace_id
    throw_if (is_owner workspace member.user_id)
        (forbidden "Cannot remove the workspace owner; transfer ownership first")
    throw_if
        (not (member.user_id == input.caller_user_id)
          && not (includes input.caller_permissions "workspace:remove_member"))
        (forbidden "Missing permission to remove members")
    Members.delete input.member_id

  unfoldable pub update_member_role : ℕ → ℕ → ℕ → ℕ → M (Unit {0})
  update_member_role now workspace_id member_id role_id = do
    found ← Members.find_by_id member_id
    member ←
        or_throw (not_found "Member not found in this workspace") (member_in workspace_id found)
    workspace ← Workspaces.find_by_id workspace_id
    throw_if (is_owner workspace member.user_id)
        (forbidden "Cannot modify the workspace owner; transfer ownership first")
    role ← Roles.find_by_id_in_workspace role_id workspace_id
    or_throw (bad_request "Role not found in this workspace") role
    Members.update_role member_id role_id
    Users.invalidate_tokens now member.user_id

  -- What `transferOwnership` reads and checks before it writes.
  unfoldable pub authorize_transfer : Crypto → TransferOwnershipInput → M TransferOwnershipData
  authorize_transfer c input = do
    found ← Workspaces.find_by_id input.workspace_id
    workspace ← or_throw (not_found "Workspace not found") found
    throw_if (not (workspace.owner_id == input.caller_user_id))
        (forbidden "Only the current owner can transfer ownership")
    caller ← Users.find_by_id input.caller_user_id
    throw_if (not (confirms c caller input.password)) (unauthorized "Invalid password")
    member ← Members.find_by_id input.target_member_id
    target ←
        or_throw (not_found "Target member not found in this workspace")
          (member_in input.workspace_id member)
    throw_if (target.user_id == input.caller_user_id)
        (bad_request "Cannot transfer ownership to yourself")
    roles ← Roles.find_many_by_workspace input.workspace_id
    owner_role ←
        or_throw (bad_request "Workspace is missing the default Owner/Admin roles")
          (named "Owner" roles)
    admin_role ←
        or_throw (bad_request "Workspace is missing the default Owner/Admin roles")
          (named "Admin" roles)
    pure (record {
      workspace_id = input.workspace_id;
      from_user_id = input.caller_user_id;
      to_user_id = target.user_id;
      owner_role_id = owner_role.role.id;
      admin_role_id = admin_role.role.id;
    })

  unfoldable pub transfer_ownership : Crypto → ℕ → TransferOwnershipInput → M (Unit {0})
  transfer_ownership c now input = do
    d ← authorize_transfer c input
    Workspaces.transfer_ownership d
    Users.invalidate_tokens now d.from_user_id
    Users.invalidate_tokens now d.to_user_id
