-- ===== src/Workspaces/Create.antt =====
-- A workspace with its organization, its roles and its owner: `createWithDefaults` of
-- src/modules/workspaces/repositories/prisma-workspaces.repository.ts,
-- src/modules/workspaces/use-cases/create-workspace.use-case.ts, and
-- src/modules/auth/use-cases/register.use-case.ts, which makes a personal one. The slug is slugify's with
-- nanoid's suffix, an argument; the identifiers are those that the database draws.
pub mod Owned
use Prim.Native.String
use base_api_nest_js.Base.{
  ℕ, ◌+◌, String, Bool, true, false, Option, none, some, List, [], ◌∷◌, ◌++◌, map, not, ◌&&◌, ◌||◌,
  ◌==◌, str_eq, is_some, filter, any, codes, includes, ends_with, if◌then◌else◌,
}
use base_api_nest_js.Prisma.{Prisma}
use base_api_nest_js.Crypto.{Crypto}
use base_api_nest_js.World.{
  World, User, Organization, Workspace, WorkspaceMember, Role, Permission, RolePermission, M,
  Result, ok, err, ◌>>=◌, ◌>>◌, pure, throw, gets, modify, saved, or_throw, conflict, internal,
  count_metric,
}
use base_api_nest_js.Rbac.Roles
use base_api_nest_js.Rbac.Roles.{put_roles, put_role_permissions}
use base_api_nest_js.Rbac.Permissions.{all_permission_keys, includes as has_key}
use base_api_nest_js.Users
use base_api_nest_js.Workspaces.{put_workspaces, atomically}
use base_api_nest_js.Workspaces.Members

-- An item of `defaultRoles`, with the identifier that the database draws for it.
pub record DefaultRole : Type 0 where
  pub id : ℕ
  pub name : String
  pub description : Option String
  pub is_system : Bool
  pub permission_keys : List String

pub record CreateWorkspaceWithDefaultsData : Type 0 where
  pub name : String
  pub slug : String
  pub is_personal : Bool
  pub owner_id : ℕ
  pub default_roles : List DefaultRole
  pub owner_role_name : String

-- The identifiers that the database draws.
pub record Ids : Type 0 where
  pub organization : ℕ
  pub workspace : ℕ
  pub member : ℕ
  pub owner_role : ℕ
  pub admin_role : ℕ
  pub member_role : ℕ

pub record CreateWorkspaceInput : Type 0 where
  pub user_id : ℕ
  pub name : String
  pub is_personal : Option Bool

abbrev pub put_organizations : List Organization → World → World
put_organizations rows w = record w { organizations = rows }

-- The unique columns of the tables.
abbrev pub same_organization : Organization → Organization → Bool
same_organization a b = a.id == b.id || str_eq a.slug b.slug

abbrev pub same_workspace : Workspace → Workspace → Bool
same_workspace a b = a.id == b.id || str_eq a.slug b.slug

abbrev pub new_organization : ℕ → Ids → CreateWorkspaceWithDefaultsData → Organization
new_organization now ids d = record {
  id = ids.organization;
  name = d.name;
  slug = String.◌++◌ "org-" d.slug;
  owner_id = d.owner_id;
  deleted_at = none;
  created_at = now;
}

abbrev pub new_workspace : ℕ → Ids → CreateWorkspaceWithDefaultsData → Workspace
new_workspace now ids d = record {
  id = ids.workspace;
  name = d.name;
  slug = d.slug;
  is_personal = d.is_personal;
  owner_id = d.owner_id;
  organization_id = ids.organization;
  deleted_at = none;
  created_at = now;
}

-- `permMap.get(key)`: a later permission with the key replaces an earlier one.
unfoldable pub perm_of : String → List Permission → Option ℕ
perm_of key [] = none
perm_of key (perm ∷ perms) =
    let later = perm_of key perms in
    if is_some later then later else if str_eq perm.key key then some perm.id else none

-- The rows of the nested `permissions: { create: … }`.
unfoldable pub role_grants : ℕ → List String → List Permission → List RolePermission
role_grants role_id [] perms = []
role_grants role_id (key ∷ keys) perms =
    let rest = role_grants role_id keys perms in
    elim (perm_of key perms) [
      | none ↦ rest
      | some id ↦ record { role_id = role_id; permission_id = id } ∷ rest
    ]

abbrev pub role_row : ℕ → ℕ → DefaultRole → Role
role_row now workspace_id d = record {
  id = d.id;
  name = d.name;
  description = d.description;
  workspace_id = workspace_id;
  is_system = d.is_system;
  created_at = now;
}

module _ ⦃p : Prisma⦄ where
  unfoldable pub create_default_role : ℕ → ℕ → List Permission → DefaultRole → M (Unit {0})
  create_default_role now workspace_id perms d = do
    rows ← gets (λ w. p.create Roles.same_key (role_row now workspace_id d) w.roles)
    saved put_roles rows
    modify (λ w.
        put_role_permissions
          (p.create_many (role_grants d.id d.permission_keys perms) w.role_permissions) w)

  -- The loop over `defaultRoles`, which keeps the identifier of the owner's role.
  unfoldable pub create_roles :
      ℕ → ℕ → List Permission → String → Option ℕ → List DefaultRole → M (Option ℕ)
  create_roles now workspace_id perms owner_role_name owner_role_id [] = pure owner_role_id
  create_roles now workspace_id perms owner_role_name owner_role_id (d ∷ ds) =
      let rest =
        create_roles now workspace_id perms owner_role_name
          (if str_eq d.name owner_role_name then some d.id else owner_role_id) ds in
      create_default_role now workspace_id perms d >> rest

  -- `key: { in: allKeys }`
  abbrev pub default_permissions : List DefaultRole → World → List Permission
  default_permissions ds w =
      p.find_many (λ perm. any (λ (d : DefaultRole). has_key d.permission_keys perm.key) ds)
        w.permissions

  unfoldable pub create_organization : ℕ → Ids → CreateWorkspaceWithDefaultsData → M (Unit {0})
  create_organization now ids d = do
    rows ← gets (λ w. p.create same_organization (new_organization now ids d) w.organizations)
    saved put_organizations rows

  unfoldable pub insert_workspace : ℕ → Ids → CreateWorkspaceWithDefaultsData → M (Unit {0})
  insert_workspace now ids d = do
    rows ← gets (λ w. p.create same_workspace (new_workspace now ids d) w.workspaces)
    saved put_workspaces rows

  unfoldable pub add_owner : ℕ → Ids → CreateWorkspaceWithDefaultsData → Option ℕ → M (Unit {0})
  add_owner now ids d owner_role_id = do
    role_id ← or_throw (internal "Owner role not found in defaultRoles") owner_role_id
    Members.create (record {
      id = ids.member;
      user_id = d.owner_id;
      workspace_id = ids.workspace;
      role_id = role_id;
      joined_at = now;
    })
    pure tt

  unfoldable pub create_with_defaults : ℕ → Ids → CreateWorkspaceWithDefaultsData → M Workspace
  create_with_defaults now ids d = atomically (do
    create_organization now ids d
    insert_workspace now ids d
    perms ← gets (default_permissions d.default_roles)
    owner_role_id ← create_roles now ids.workspace perms d.owner_role_name none d.default_roles
    add_owner now ids d owner_role_id
    pure (new_workspace now ids d))

  abbrev pub default_roles : Ids → List DefaultRole
  default_roles ids =
      record {
        id = ids.owner_role;
        name = "Owner";
        description = some "Full access to the workspace";
        is_system = true;
        permission_keys = all_permission_keys;
      }
      ∷ record {
        id = ids.admin_role;
        name = "Admin";
        description = some "Manage workspace without destructive actions";
        is_system = true;
        permission_keys =
            filter (λ k. not (includes (codes ":delete") (codes k))) all_permission_keys;
      }
      ∷ record {
        id = ids.member_role;
        name = "Member";
        description = some "Standard member with read access";
        is_system = true;
        permission_keys =
            filter (λ k. ends_with (codes ":read") (codes k) || str_eq k "workspace:invite")
              all_permission_keys;
      }
      ∷ []

  -- CreateWorkspaceUseCase
  unfoldable pub create_workspace : ℕ → Ids → String → CreateWorkspaceInput → M Workspace
  create_workspace now ids slug input = create_with_defaults now ids (record {
    name = input.name;
    slug = slug;
    is_personal = elim input.is_personal [ none ↦ false | some b ↦ b ];
    owner_id = input.user_id;
    owner_role_name = "Owner";
    default_roles = default_roles ids;
  })
