-- ===== src/Tests/Teams.antt =====
-- Workspaces, roles and the guards at the concrete database.
use base_api_nest_js.Base.{
  String, str_eq, inl, ◌≡◌, ◌≢◌, refl, arith, some, none, true, false, Has, All, ◌∷◌, [], all, map,
}
use base_api_nest_js.World.{User, Workspace, WorkspaceMember, Role, Permission, err, bad_request}
use base_api_nest_js.Users
use base_api_nest_js.Rbac.Permissions.{includes}
use base_api_nest_js.Rbac.Roles
use base_api_nest_js.Rbac.Roles.{
  RoleWithPermissions, UpdateRoleData, permissions_of, unknown_message,
}
use base_api_nest_js.Rbac.Manage.{CreateRoleInput, create_role, delete_role}
use base_api_nest_js.Rbac.Manage.Guards.{delete_role_ok}
use base_api_nest_js.Rbac.Manage.Creation.{requested, create_role_repeated_key}
use base_api_nest_js.Workspaces
use base_api_nest_js.Workspaces.{TransferOwnershipData}
use base_api_nest_js.Workspaces.Members
use base_api_nest_js.Workspaces.Members.{MemberWithRelations}
use base_api_nest_js.Workspaces.Manage
use base_api_nest_js.Workspaces.Manage.{
  RemoveMemberInput, TransferOwnershipInput, remove_member, confirms,
}
use base_api_nest_js.Workspaces.Ownership.Transfer.Kept.{transfer_ownership_ok}
use base_api_nest_js.Access.{WorkspaceContext, guarded}
use base_api_nest_js.Access.Granted.{MayEnter, guarded_admits}
use base_api_nest_js.Tests.Rows.{rows}
use base_api_nest_js.Tests.{plain, world, member_of, role_named, read_users}

abbrev sale : TransferOwnershipInput
sale = record { workspace_id = 1; caller_user_id = 1; target_member_id = 2; password = "secret" }

transfer_ownership_ok_example :
    ((ws : Workspace) × Has ws world.workspaces
      × (ws.id ≡ 1)
      × (ws.deleted_at ≡ none)
      × (ws.owner_id ≡ 1))
    × ((caller : User) × Has caller world.users
        × (caller.id ≡ 1)
        × (caller.deleted_at ≡ none)
        × (hash : String) × (caller.password_hash ≡ some hash)
        × (str_eq hash "" ≡ false)
        × (plain.verify_password hash "secret" ≡ true))
    × ((target : WorkspaceMember) × Has target world.members
        × (target.id ≡ 2)
        × (target.workspace_id ≡ 1)
        × (target.user_id ≢ 1)
        × All
            (λ (ws : Workspace). ws.id ≡ 1 → ws.owner_id ≡ target.user_id)
            (Manage.transfer_ownership plain 100 sale world).1.workspaces)
unfolding Manage.transfer_ownership Manage.authorize_transfer Workspaces.find_by_id Users.find_by_id
    Members.find_by_id Roles.find_many_by_workspace Roles.permissions_of
    Workspaces.transfer_ownership Users.invalidate_tokens
transfer_ownership_ok_example = transfer_ownership_ok plain 100 sale world refl

-- Alice in her team, with the key that her role grants.
abbrev entered : WorkspaceContext
entered = record {
  workspace_id = 1;
  membership = record {
    member = member_of 1 1 1;
    role = role_named 1 "Owner" true;
    permissions = "user:read" ∷ [];
  };
}

guarded_admits_example :
    (some entered.workspace_id ≡ some entered.workspace_id)
    × MayEnter 1 1 world entered.membership
    × (all
          (includes (map (λ (perm : Permission). perm.key) (permissions_of 1 world)))
          ("user:read" ∷ [])
        ≡ true)
    × ((guarded 1 (some 1) ("user:read" ∷ []) world).1 ≡ world)
unfolding guarded Members.find_by_user_and_workspace Roles.permissions_of
guarded_admits_example = guarded_admits 1 (some 1) ("user:read" ∷ []) world {ctx = entered} refl

abbrev rename : UpdateRoleData
rename = record { name = some "Guest"; description = none; permission_keys = none }

delete_role_ok_example :
    ((role : Role) × Has role world.roles
      × (role.id ≡ 3)
      × (role.workspace_id ≡ 1)
      × (role.is_system ≡ false))
    × All (λ (m : WorkspaceMember). m.role_id ≢ 3) (delete_role 3 1 world).1.members
    × All (λ (r : Role). r.id ≢ 3) (delete_role 3 1 world).1.roles
unfolding delete_role Roles.find_by_id_in_workspace Roles.count_members_using_role Roles.delete
    Roles.permissions_of
delete_role_ok_example = delete_role_ok 3 1 world refl

abbrev reader : CreateRoleInput
reader = record {
  id = 4;
  workspace_id = 1;
  name = "Reader";
  description = none;
  permission_keys = "user:read" ∷ [];
}

abbrev reader_role : RoleWithPermissions
reader_role = record { role = requested 100 reader; permissions = read_users ∷ [] }

-- The same key twice.
abbrev doubled : CreateRoleInput
doubled = record reader { permission_keys = "user:read" ∷ "user:read" ∷ [] }

create_role_repeated_key_example :
    create_role 100 doubled world ≡ (err (bad_request (unknown_message [])), world)
create_role_repeated_key_example =
    create_role_repeated_key 100 doubled world (inl refl) (λ k. ground arith) refl
      (refl, (refl, tt))
