-- ===== src/Rbac/Roles.antt =====
-- The roles table (prisma-roles.repository.ts) and the use cases on roles. The stale reads that the
-- hour-long cache of `findManyByWorkspace` allows are not modelled.
use Prim.Native.String
use base_api_nest_js.Base.{
  ℕ, String, Bool, false, Option, none, some, List, [], ◌∷◌, map, not, ◌&&◌, ◌||◌, ◌==◌, str_eq,
  is_some, any, filter, length, if◌then◌else◌,
}
use base_api_nest_js.Prisma.{Prisma}
use base_api_nest_js.World.{
  World, Role, Permission, RolePermission, WorkspaceMember, M, Result, ok, err, ◌>>=◌, ◌>>◌, pure,
  throw, gets, saved, or_throw, when, modify, bad_request, not_found,
}
use base_api_nest_js.Rbac.Permissions.{in_scope, includes}

pub record RoleWithPermissions : Type 0 where
  pub role : Role
  pub open role use *
  pub permissions : List Permission

-- UnknownPermissionsError, or the role.
pub data Saved : Type 0 where
  done : RoleWithPermissions → Saved
  unknown_permissions : List String → Saved

pub record CreateRoleData : Type 0 where
  pub id : ℕ
  pub workspace_id : ℕ
  pub name : String
  pub description : Option String
  pub permission_keys : List String
  pub is_system : Bool

-- UpdateRoleData: `none` is `undefined`.
pub record UpdateRoleData : Type 0 where
  pub name : Option String
  pub description : Option String
  pub permission_keys : Option (List String)

abbrev pub put_roles : List Role → World → World
put_roles rows w = record w { roles = rows }

abbrev pub put_role_permissions : List RolePermission → World → World
put_role_permissions rows w = record w { role_permissions = rows }

-- The unique columns of the table.
abbrev pub same_key : Role → Role → Bool
same_key a b = a.id == b.id || (a.workspace_id == b.workspace_id && str_eq a.name b.name)

abbrev pub new_role : ℕ → CreateRoleData → Role
new_role now d = record {
  id = d.id;
  name = d.name;
  description = d.description;
  workspace_id = d.workspace_id;
  is_system = d.is_system;
  created_at = now;
}

-- `data.permissionKeys.filter((k) => !perms.some((p) => p.key === k))`
abbrev pub missing_keys : List String → List Permission → List String
missing_keys keys perms =
    filter (λ k. not (any (λ (perm : Permission). str_eq perm.key k) perms)) keys

abbrev pub grants : ℕ → List Permission → List RolePermission
grants role_id perms =
    map (λ (perm : Permission). record { role_id = role_id; permission_id = perm.id }) perms

-- `data.name` is falsy when it is absent or empty.
abbrev pub given : Option String → Bool
given none = false
given (some s) = not (str_eq s "")

abbrev pub or_else {ℓ} : {A : Type ℓ} → Option A → A → A
or_else none a = a
or_else (some b) a = b

abbrev pub renamed : UpdateRoleData → Role → Role
renamed d r = record r {
  name = if given d.name then or_else d.name r.name else r.name;
  description = if is_some d.description then d.description else r.description;
}

-- `missing.join(', ')`
abbrev pub join_names : List String → String
join_names [] = ""
join_names (k ∷ []) = k
join_names (k ∷ l ∷ ks) = String.◌++◌ k (String.◌++◌ ", " (join_names (l ∷ ks)))

abbrev pub unknown_message : List String → String
unknown_message missing = String.◌++◌ "Unknown permissions: " (join_names missing)

-- The `catch` of the use cases.
abbrev pub or_bad_request : Saved → M RoleWithPermissions
or_bad_request (done role) = pure role
or_bad_request (unknown_permissions missing) = throw (bad_request (unknown_message missing))

-- A transaction that throws UnknownPermissionsError, or anything else, writes nothing.
abbrev pub committed : Result Saved → World → World → Result Saved × World
committed (ok (done role)) w w' = (ok (done role), w')
committed (ok (unknown_permissions missing)) w w' = (ok (unknown_permissions missing), w)
committed (err e) w w' = (err e, w)

abbrev pub transaction : M Saved → M Saved
transaction m w = let (r, w') = m w in committed r w w'

module _ ⦃p : Prisma⦄ where
  -- `include: { permissions: { include: { permission: true } } }`
  unfoldable pub permissions_of : ℕ → World → List Permission
  permissions_of role_id w =
      p.find_many
        (λ perm. is_some (
          p.find (λ (rp : RolePermission). rp.role_id == role_id && rp.permission_id == perm.id)
            w.role_permissions))
        w.permissions

  abbrev pub with_permissions : World → Option Role → Option RoleWithPermissions
  with_permissions w none = none
  with_permissions w (some r) = some (record { role = r; permissions = permissions_of r.id w })

  abbrev pub known_permissions : List String → ℕ → World → List Permission
  known_permissions keys workspace_id w =
      p.find_many (λ perm. includes keys perm.key && in_scope workspace_id perm) w.permissions

  unfoldable pub find_by_id_in_workspace : ℕ → ℕ → M (Option RoleWithPermissions)
  find_by_id_in_workspace id workspace_id =
      gets (λ w.
        with_permissions w (p.find (λ r. r.id == id && r.workspace_id == workspace_id) w.roles))

  unfoldable pub find_by_name_in_workspace : String → ℕ → M (Option Role)
  find_by_name_in_workspace name workspace_id =
      gets (λ w. p.find (λ r. r.workspace_id == workspace_id && str_eq r.name name) w.roles)

  unfoldable pub find_many_by_workspace : ℕ → M (List RoleWithPermissions)
  find_many_by_workspace workspace_id = gets (λ w.
      map (λ r. record { role = r; permissions = permissions_of r.id w })
        (p.find_many (λ r. r.workspace_id == workspace_id) w.roles))

  -- `role.create` with the nested `permissions: { create: … }`.
  unfoldable pub insert_role : Role → List Permission → M Saved
  insert_role role perms = do
    rows ← gets (λ w. p.create same_key role w.roles)
    saved put_roles rows
    modify (λ w. put_role_permissions (p.create_many (grants role.id perms) w.role_permissions) w)
    pure (done (record { role = role; permissions = perms }))

  unfoldable pub create : ℕ → CreateRoleData → M Saved
  unfolding insert_role
  create now d = do
    perms ← gets (known_permissions d.permission_keys d.workspace_id)
    if length perms == length d.permission_keys
        then insert_role (new_role now d) perms
        else pure (unknown_permissions (missing_keys d.permission_keys perms))

  -- The rows of `rolePermission` are replaced.
  unfoldable pub replace_permissions : ℕ → List Permission → M (Unit {0})
  replace_permissions id perms = modify (λ w.
      put_role_permissions
        (p.create_many (grants id perms)
          (p.delete_many (λ rp. rp.role_id == id) w.role_permissions))
        w)

  -- `findUniqueOrThrow`
  unfoldable pub reread : ℕ → M Saved
  reread id = do
    found ← gets (λ w. with_permissions w (p.find (λ r. r.id == id) w.roles))
    role ← or_throw (not_found "Record not found") found
    pure (done role)

  unfoldable pub set_permissions : ℕ → List String → M Saved
  unfolding replace_permissions reread
  set_permissions id keys = do
    found ← gets (λ w. p.find (λ (r : Role). r.id == id) w.roles)
    target ← or_throw (not_found "Record not found") found
    perms ← gets (known_permissions keys target.workspace_id)
    if length perms == length keys
        then replace_permissions id perms >> reread id
        else pure (unknown_permissions (missing_keys keys perms))

  unfoldable pub set_fields : ℕ → UpdateRoleData → M (Unit {0})
  set_fields id d =
      when (given d.name || is_some d.description)
        (do rows ← gets (λ w. p.update (λ r. r.id == id) (renamed d) w.roles); saved put_roles rows)

  unfoldable pub update : ℕ → UpdateRoleData → M Saved
  unfolding set_fields set_permissions reread
  update id d = transaction (
      set_fields id d
      >> elim d.permission_keys [ none ↦ reread id | some keys ↦ set_permissions id keys ])

  unfoldable pub delete : ℕ → M (Unit {0})
  delete id = do
    rows ← gets (λ w. p.delete (λ r. r.id == id) w.roles)
    saved put_roles rows
    modify (λ w. put_role_permissions (p.delete_many (λ rp. rp.role_id == id) w.role_permissions) w)

  unfoldable pub count_members_using_role : ℕ → M ℕ
  count_members_using_role role_id =
      gets (λ w. length (p.find_many (λ (m : WorkspaceMember). m.role_id == role_id) w.members))
