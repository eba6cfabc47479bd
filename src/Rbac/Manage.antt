-- ===== src/Rbac/Manage.antt =====
-- The use cases of src/modules/rbac/use-cases on roles.
pub mod Guards
pub mod Others
pub mod Immutable
pub mod Creation
use base_api_nest_js.Base.{
  ℕ, String, Bool, true, false, Option, none, some, List, [], ◌∷◌, ◌++◌, map, not, ◌&&◌, ◌==◌,
  str_eq, is_some, any, ltb, if◌then◌else◌,
}
use base_api_nest_js.Prisma.{Prisma}
use base_api_nest_js.World.{
  World, Role, Permission, M, ◌>>=◌, ◌>>◌, pure, throw, or_throw, throw_if, when, conflict,
  not_found, forbidden,
}
use base_api_nest_js.Rbac.Permissions
use base_api_nest_js.Rbac.Roles
use base_api_nest_js.Rbac.Roles.{
  RoleWithPermissions, UpdateRoleData, or_bad_request, given, or_else,
}

pub record CreateRoleInput : Type 0 where
  pub id : ℕ
  pub workspace_id : ℕ
  pub name : String
  pub description : Option String
  pub permission_keys : List String

-- `input.name && input.name !== role.name`
abbrev pub renames : Option String → Role → Bool
renames name r = given name && not (str_eq (or_else name r.name) r.name)

abbrev pub holds : RoleWithPermissions → String → Bool
holds r key = any (λ (perm : Permission). str_eq perm.key key) r.permissions

module _ ⦃p : Prisma⦄ where
  unfoldable pub create_role : ℕ → CreateRoleInput → M RoleWithPermissions
  create_role now input = do
    existing ← Roles.find_by_name_in_workspace input.name input.workspace_id
    throw_if (is_some existing) (conflict "Role already exists")
    role ← Roles.create now (record {
      id = input.id;
      workspace_id = input.workspace_id;
      name = input.name;
      description = input.description;
      permission_keys = input.permission_keys;
      is_system = false;
    })
    or_bad_request role

  unfoldable pub update_role : ℕ → ℕ → UpdateRoleData → M RoleWithPermissions
  update_role id workspace_id d = do
    found ← Roles.find_by_id_in_workspace id workspace_id
    role ← or_throw (not_found "Role not found in this workspace") found
    throw_if role.is_system (forbidden "System roles cannot be modified")
    when (renames d.name role.role) (do
      clash ← Roles.find_by_name_in_workspace (or_else d.name "") workspace_id
      throw_if (is_some clash) (conflict "Role already exists"))
    updated ← Roles.update id d
    or_bad_request updated

  unfoldable pub delete_role : ℕ → ℕ → M (Unit {0})
  delete_role id workspace_id = do
    found ← Roles.find_by_id_in_workspace id workspace_id
    role ← or_throw (not_found "Role not found in this workspace") found
    throw_if role.is_system (forbidden "System roles cannot be deleted")
    in_use ← Roles.count_members_using_role id
    throw_if (ltb 0 in_use) (conflict "Role is assigned to members; reassign them before deleting")
    Roles.delete id

  unfoldable pub assign_permission_to_role : ℕ → ℕ → String → M RoleWithPermissions
  assign_permission_to_role role_id workspace_id key = do
    found_role ← Roles.find_by_id_in_workspace role_id workspace_id
    role ← or_throw (not_found "Role not found in this workspace") found_role
    throw_if role.is_system (forbidden "System roles cannot be modified")
    found ← Permissions.find_by_key_in_scope key workspace_id
    or_throw (not_found "Permission does not exist") found
    if holds role key then pure role else (do
      updated ← Roles.update role_id (record {
        name = none;
        description = none;
        permission_keys = some (map (λ (perm : Permission). perm.key) role.permissions ++ key ∷ []);
      })
      or_bad_request updated)

  unfoldable pub list_roles : ℕ → M (List RoleWithPermissions)
  list_roles workspace_id = Roles.find_many_by_workspace workspace_id
