-- ===== src/Rbac/Permissions.antt =====
-- The permission keys (src/modules/rbac/constants/permissions.ts) and the permissions table with its
-- use cases. The pattern of a custom key is a regular expression, which the code hands to the
-- engine of JavaScript: whether a key matches it is an argument.
use base_api_nest_js.Base.{
  ℕ, String, Bool, true, Option, none, some, List, [], ◌∷◌, not, ◌&&◌, ◌||◌, ◌==◌, str_eq, is_some,
  any, opt_eq,
}
use base_api_nest_js.Prisma.{Prisma}
use base_api_nest_js.World.{
  World, Permission, M, ◌>>=◌, ◌>>◌, pure, gets, saved, or_throw, throw_if, modify, bad_request,
  conflict, not_found,
}

abbrev pub all_permission_keys : List String
all_permission_keys =
    "user:read" ∷ "user:create" ∷ "user:update" ∷ "user:delete" ∷ "workspace:read"
    ∷ "workspace:update" ∷ "workspace:delete" ∷ "workspace:invite" ∷ "workspace:remove_member"
    ∷ "workspace:transfer_ownership" ∷ "role:read" ∷ "role:create" ∷ "role:update" ∷ "role:delete"
    ∷ "role:assign" ∷ "audit:read" ∷ []

-- `Array.prototype.includes`
abbrev pub includes : List String → String → Bool
includes keys key = any (λ k. str_eq k key) keys

-- `OR: [{ workspaceId: null }, { workspaceId }]`
abbrev pub in_scope : ℕ → Permission → Bool
in_scope workspace_id perm = elim perm.workspace_id [ none ↦ true | some id ↦ id == workspace_id ]

abbrev pub put_permissions : List Permission → World → World
put_permissions rows w = record w { permissions = rows }

-- The unique columns: the key among the built-in permissions, and within each workspace.
abbrev pub same_key : Permission → Permission → Bool
same_key a b = a.id == b.id || (str_eq a.key b.key && opt_eq a.workspace_id b.workspace_id)

pub record CreatePermissionInput : Type 0 where
  pub id : ℕ
  pub workspace_id : ℕ
  pub key : String
  pub description : Option String
  pub category : Option String

abbrev pub category_or_custom : Option String → String
category_or_custom none = "custom"
category_or_custom (some c) = c

abbrev pub new_permission : CreatePermissionInput → Permission
new_permission input = record {
  id = input.id;
  key = input.key;
  description = input.description;
  category = category_or_custom input.category;
  workspace_id = some input.workspace_id;
}

module _ ⦃p : Prisma⦄ where
  unfoldable pub find_by_key_in_scope : String → ℕ → M (Option Permission)
  find_by_key_in_scope key workspace_id =
      gets (λ w. p.find (λ perm. str_eq perm.key key && in_scope workspace_id perm) w.permissions)

  unfoldable pub find_by_id_in_workspace : ℕ → ℕ → M (Option Permission)
  find_by_id_in_workspace id workspace_id = gets (λ w.
      p.find (λ perm. perm.id == id && opt_eq perm.workspace_id (some workspace_id)) w.permissions)

  unfoldable pub find_all_for_workspace : ℕ → M (List Permission)
  find_all_for_workspace workspace_id =
      gets (λ w. p.find_many (in_scope workspace_id) w.permissions)

  unfoldable pub create : Permission → M Permission
  create perm = do
    rows ← gets (λ w. p.create same_key perm w.permissions)
    saved put_permissions rows
    pure perm

  -- The rows of the roles that hold the permission go with it (onDelete: Cascade).
  unfoldable pub delete : ℕ → M (Unit {0})
  delete id = do
    rows ← gets (λ w. p.delete (λ perm. perm.id == id) w.permissions)
    saved put_permissions rows
    modify (λ w. record w {
      role_permissions = p.delete_many (λ rp. rp.permission_id == id) w.role_permissions;
    })

  -- CreatePermissionUseCase
  unfoldable pub create_permission : (String → Bool) → CreatePermissionInput → M Permission
  unfolding find_by_key_in_scope create
  create_permission matches_pattern input = do
    throw_if (not (matches_pattern input.key))
        (bad_request "Permission key must match ^custom:<segment>(:<segment>)+$")
    throw_if (includes all_permission_keys input.key)
        (conflict "Permission key collides with a built-in permission")
    existing ← find_by_key_in_scope input.key input.workspace_id
    throw_if (is_some existing) (conflict "Permission already exists in this workspace")
    create (new_permission input)

  -- DeletePermissionUseCase
  unfoldable pub delete_permission : ℕ → ℕ → M (Unit {0})
  unfolding find_by_id_in_workspace delete
  delete_permission id workspace_id = do
    existing ← find_by_id_in_workspace id workspace_id
    or_throw (not_found "Permission not found in this workspace") existing
    delete id

  -- ListWorkspacePermissionsUseCase
  unfoldable pub list_workspace_permissions : ℕ → M (List Permission)
  unfolding find_all_for_workspace
  list_workspace_permissions workspace_id = find_all_for_workspace workspace_id
