-- ===== src/Access/Granted.antt =====
-- Who passes the guards.
use base_api_nest_js.Base.{
  ℕ, ◌≡◌, refl, true, Option, none, some, List, String, arith, Option-cases, inl, inr, ◌⊎◌, ◌==◌,
  ◌&&◌, str_eq, Has, all, map, ==_iff, eq_iff,
}
use base_api_nest_js.Prisma.{Prisma}
use base_api_nest_js.Prisma.Laws.{find_Has, find_test}
use base_api_nest_js.World.{World, Workspace, WorkspaceMember, Role, Permission, ok, Result-cases}
use base_api_nest_js.Rbac.Permissions.{includes}
use base_api_nest_js.Rbac.Roles.{permissions_of}
use base_api_nest_js.Workspaces.{admin_workspace_slug}
use base_api_nest_js.Workspaces.Members
use base_api_nest_js.Workspaces.Members.{MemberWithRelations}
use base_api_nest_js.Access.{WorkspaceContext, workspace_guard, permissions_guard, guarded}

-- The member is the user's in this workspace, with its role and the keys that the role grants.
pub record IsMembership (user_id workspace_id : ℕ) (w : World) (m : MemberWithRelations)
    : Type 0 where
  pub row : Has m.member w.members
  pub user : m.member.user_id ≡ user_id
  pub workspace : m.member.workspace_id ≡ workspace_id
  pub role_row : Has m.role w.roles
  pub role_id : m.role.id ≡ m.member.role_id

module _ ⦃p : Prisma⦄ where
  IsMembership-found :
      (user_id workspace_id : ℕ) (w : World) (m : MemberWithRelations)
      → (Members.find_by_user_and_workspace user_id workspace_id w).0 ≡ ok (some m)
      → IsMembership user_id workspace_id w m
        × (m.permissions ≡ map (λ (perm : Permission). perm.key) (permissions_of m.role.id w))
  unfolding Members.find_by_user_and_workspace
  IsMembership-found user_id workspace_id w m e =
      let test = λ (m : WorkspaceMember). m.user_id == user_id && m.workspace_id == workspace_id in
      elim (Option-cases (p.find test w.members)) [
        | inl missing ↦ absurd (ground arith)
        | inr (row, ef) ↦
            let fits = find_test test w.members row ef in
            let by_id = λ (r : Role). r.id == row.role_id in
            elim (Option-cases (p.find by_id w.roles)) [
              | inl gone ↦ absurd (ground arith)
              | inr (role, er) ↦
                  let own : role.id ≡ row.role_id =
                    (==_iff _ _).0 (find_test by_id w.roles role er) in
                  let same : m ≡ record {
                    member = row;
                    role = role;
                    permissions = map (λ (perm : Permission). perm.key) (permissions_of role.id w);
                  } =
                    ground arith in
                  rw same (
                    record {
                      row = find_Has test w.members row ef;
                      user = ground arith;
                      workspace = ground arith;
                      role_row = find_Has by_id w.roles role er;
                      role_id = own;
                    },
                    refl,
                  )
            ]
      ]

  super_admin_found :
      (user_id : ℕ) (w : World) (m : MemberWithRelations)
      → (Members.find_super_admin_membership user_id w).0 ≡ ok (some m)
      → (ws : Workspace) × Has ws w.workspaces
        × (ws.slug ≡ admin_workspace_slug)
        × ((Members.find_by_user_and_workspace user_id ws.id w).0 ≡ ok (some m))
  unfolding Members.find_super_admin_membership
  super_admin_found user_id w m e =
      let test = λ (ws : Workspace). str_eq ws.slug admin_workspace_slug in
      elim (Option-cases (p.find test w.workspaces)) [
        | inl missing ↦ absurd (ground arith)
        | inr (ws, ef) ↦ (
          ws,
          find_Has test w.workspaces ws ef,
          (eq_iff ws.slug admin_workspace_slug).0 (find_test test w.workspaces ws ef),
          ground arith,
        )
      ]

-- The membership that lets the user in: one of the workspace named in the request, or one of the
-- admin workspace.
abbrev pub MayEnter : ℕ → ℕ → World → MemberWithRelations → Type 0
MayEnter user_id workspace_id w m =
    IsMembership user_id workspace_id w m
    ⊎ ((ws : Workspace) × Has ws w.workspaces
        × (ws.slug ≡ admin_workspace_slug)
        × IsMembership user_id ws.id w m)

module _ ⦃p : Prisma⦄ where
  own_keeps :
      (user_id workspace_id : ℕ) (w : World)
      → (Members.find_by_user_and_workspace user_id workspace_id w).1 ≡ w
  unfolding Members.find_by_user_and_workspace
  own_keeps user_id workspace_id w = refl

  super_keeps : (user_id : ℕ) (w : World) → (Members.find_super_admin_membership user_id w).1 ≡ w
  unfolding Members.find_super_admin_membership Members.find_by_user_and_workspace
  super_keeps user_id w = ground arith

  workspace_guard_admits :
      (user_id : ℕ) (named : Option ℕ) (w : World) {ctx : WorkspaceContext}
      → (workspace_guard user_id named w).0 ≡ ok ctx
      → (named ≡ some ctx.workspace_id)
        × MayEnter user_id ctx.workspace_id w ctx.membership
        × (ctx.membership.permissions
            ≡ map (λ (perm : Permission). perm.key) (permissions_of ctx.membership.role.id w))
        × ((workspace_guard user_id named w).1 ≡ w)
  unfolding workspace_guard
  workspace_guard_admits user_id none w e = ground arith
  workspace_guard_admits user_id (some id) w {ctx} e =
      let kept = own_keeps user_id id w in
      let kept' = super_keeps user_id w in
      elim (Result-cases (Members.find_by_user_and_workspace user_id id w).0) [
        | inr (x, failed) ↦ absurd (ground arith)
        | inl (some m, own) ↦
            let (is, keys) = IsMembership-found user_id id w m own in
            let same : ctx ≡ record { workspace_id = id; membership = m } = ground arith in
            rw same (refl, inl is, keys, ground arith)
        | inl (none, none_own) ↦
            elim (Result-cases (Members.find_super_admin_membership user_id w).0) [
              | inr (x, failed) ↦ absurd (ground arith)
              | inl (none, none_super) ↦ absurd (ground arith)
              | inl (some m, admin) ↦
                  let (ws, has, slug, own) = super_admin_found user_id w m admin in
                  let (is, keys) = IsMembership-found user_id ws.id w m own in
                  let same : ctx ≡ record { workspace_id = id; membership = m } = ground arith in
                  rw same (refl, inr (ws, has, slug, is), keys, ground arith)
            ]
      ]

  -- A request that passes the two guards names a workspace. Its user has a membership of that
  -- workspace or of the admin workspace, whose role grants every permission that the handler
  -- requires; and nothing is written.
  pub guarded_admits :
      (user_id : ℕ) (named : Option ℕ) (required : List String) (w : World) {ctx : WorkspaceContext}
      → (guarded user_id named required w).0 ≡ ok ctx
      → (named ≡ some ctx.workspace_id)
        × MayEnter user_id ctx.workspace_id w ctx.membership
        × (all
              (includes
                (map (λ (perm : Permission). perm.key) (permissions_of ctx.membership.role.id w)))
              required
            ≡ true)
        × ((guarded user_id named required w).1 ≡ w)
  unfolding guarded permissions_guard
  guarded_admits user_id named required w {ctx} e =
      elim (Result-cases (workspace_guard user_id named w).0) [
        | inr (x, refused) ↦ absurd (ground arith)
        | inl (ctx', entered) ↦
            let (named_it, may, perms, kept) = workspace_guard_admits user_id named w entered in
            let same : ctx' ≡ ctx = ground arith in
            rw (← same) (named_it, may, rw (← perms) (ground arith), ground arith)
      ]
