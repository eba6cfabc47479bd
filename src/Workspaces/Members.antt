-- ===== src/Workspaces/Members.antt =====
-- The members table: prisma-workspace-members.repository.ts.
use base_api_nest_js.Base.{ℕ, String, Bool, Option, none, some, List, map, ◌&&◌, ◌||◌, ◌==◌, str_eq}
use base_api_nest_js.Prisma.{Prisma}
use base_api_nest_js.World.{
  World, Role, Workspace, WorkspaceMember, Permission, M, ◌>>=◌, ◌>>◌, pure, gets, saved,
}
use base_api_nest_js.Rbac.Roles.{permissions_of}
use base_api_nest_js.Workspaces.{put_members, admin_workspace_slug}

-- WorkspaceMemberWithRelations: the member, its role and the keys of the role's permissions.
pub record MemberWithRelations : Type 0 where
  pub member : WorkspaceMember
  pub role : Role
  pub permissions : List String

-- The unique columns of the table.
abbrev pub same_key : WorkspaceMember → WorkspaceMember → Bool
same_key a b = a.id == b.id || (a.user_id == b.user_id && a.workspace_id == b.workspace_id)

module _ ⦃p : Prisma⦄ where
  unfoldable pub create : WorkspaceMember → M WorkspaceMember
  create m = do rows ← gets (λ w. p.create same_key m w.members); saved put_members rows; pure m

  unfoldable pub find_by_id : ℕ → M (Option WorkspaceMember)
  find_by_id id = gets (λ w. p.find (λ m. m.id == id) w.members)

  -- The foreign key of `roleId` keeps the role of a member in the database.
  abbrev pub with_role : World → WorkspaceMember → Option Role → Option MemberWithRelations
  with_role w m none = none
  with_role w m (some r) = some (record {
    member = m;
    role = r;
    permissions = map (λ (perm : Permission). perm.key) (permissions_of r.id w);
  })

  abbrev pub with_relations : World → Option WorkspaceMember → Option MemberWithRelations
  with_relations w none = none
  with_relations w (some m) = with_role w m (p.find (λ (r : Role). r.id == m.role_id) w.roles)

  unfoldable pub find_by_user_and_workspace : ℕ → ℕ → M (Option MemberWithRelations)
  find_by_user_and_workspace user_id workspace_id = gets (λ w.
      with_relations w
        (p.find (λ m. m.user_id == user_id && m.workspace_id == workspace_id) w.members))

  unfoldable pub find_super_admin_membership : ℕ → M (Option MemberWithRelations)
  unfolding find_by_user_and_workspace
  find_super_admin_membership user_id = do
    admin ←
        gets (λ w. p.find (λ (ws : Workspace). str_eq ws.slug admin_workspace_slug) w.workspaces)
    elim admin [ none ↦ pure none | some ws ↦ find_by_user_and_workspace user_id ws.id ]

  unfoldable pub update_role : ℕ → ℕ → M (Unit {0})
  update_role id role_id = do
    rows ← gets (λ w. p.update (λ m. m.id == id) (λ m. record m { role_id = role_id }) w.members)
    saved put_members rows

  unfoldable pub delete : ℕ → M (Unit {0})
  delete id = do rows ← gets (λ w. p.delete (λ m. m.id == id) w.members); saved put_members rows
