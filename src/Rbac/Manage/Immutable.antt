-- ===== src/Rbac/Manage/Immutable.antt =====
-- System roles under the use cases that write roles.
use base_api_nest_js.Base.{ℕ, ◌≡◌, false, ◌⊎◌, Has}
use base_api_nest_js.Prisma.{Prisma}
use base_api_nest_js.World.{World, Role, RolePermission}
use base_api_nest_js.Rbac.Roles
use base_api_nest_js.Rbac.Manage.Others.{OthersStay}
use base_api_nest_js.Rbac.Permissions

-- The role's row is in the table, and so is each permission that it was granted.
abbrev pub RoleStays : Role → World → World → Type 0
RoleStays role w w' =
    Has role w'.roles
    × ((g : RolePermission)
        → Has g w.role_permissions
        → g.role_id ≡ role.id
        → Has g w'.role_permissions)

module _ ⦃p : Prisma⦄ where
  -- What a use case on the role of an id does: nothing, or it found the role and no system role.
  abbrev Either : ℕ → World → World → Type 0
  Either id w w' =
      (w' ≡ w)
      ⊎ ((found : Role) × Has found w.roles
          × (found.id ≡ id)
          × (found.is_system ≡ false)
          × OthersStay id w w')
