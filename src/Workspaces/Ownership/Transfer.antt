-- ===== src/Workspaces/Ownership/Transfer.antt =====
-- The transfer of a workspace.
pub mod Kept
use base_api_nest_js.Base.{
  ℕ, ◌≡◌, ◌≢◌, refl, Bool, true, none, some, List, arith, is_some, not, ◌⊎◌, map, Option-cases,
  Bool-cases, inl, inr, ◌==◌, Has, All-Has, ◌&&◌, map-map, if◌then◌else◌, Has-map, All-map,
}
use base_api_nest_js.Prisma.{Prisma, written}
use base_api_nest_js.Prisma.Laws.{find_Has, find_test}
use base_api_nest_js.Crypto.{Crypto}
use base_api_nest_js.World.{World, User, Workspace, WorkspaceMember, ok, is_ok, Result-cases}
use base_api_nest_js.Users
use base_api_nest_js.Rbac.Roles
use base_api_nest_js.Workspaces
use base_api_nest_js.Workspaces.{put_members, put_workspaces, TransferOwnershipData, undone}
use base_api_nest_js.Workspaces.Members
use base_api_nest_js.Workspaces.Ownership.{HasOwners, OwnerMembership}
use base_api_nest_js.Workspaces.Manage
use base_api_nest_js.Rbac.Roles.{RoleWithPermissions}
use base_api_nest_js.Workspaces.Manage.{
  named, TransferOwnershipInput, member_in, is_owner, confirms,
}

abbrev pub in_place : ℕ → ℕ → WorkspaceMember → Bool
in_place user_id workspace_id m = m.user_id == user_id && m.workspace_id == workspace_id

abbrev pub given_role : ℕ → WorkspaceMember → WorkspaceMember
given_role role_id m = record m { role_id = role_id }

abbrev pub given_owner : ℕ → Workspace → Workspace
given_owner user_id ws = record ws { owner_id = user_id }

-- The rows after the three updates of the transaction.
abbrev pub handed_members : TransferOwnershipData → List WorkspaceMember → List WorkspaceMember
handed_members d rows =
    map (written (in_place d.to_user_id d.workspace_id) (given_role d.owner_role_id))
      (map (written (in_place d.from_user_id d.workspace_id) (given_role d.admin_role_id)) rows)

abbrev pub handed_workspaces : TransferOwnershipData → List Workspace → List Workspace
handed_workspaces d rows =
    map (written (λ ws. ws.id == d.workspace_id) (given_owner d.to_user_id)) rows

-- One membership after the transfer.
abbrev pub handed_member : TransferOwnershipData → WorkspaceMember → WorkspaceMember
handed_member d m =
    if in_place d.to_user_id d.workspace_id m
    then given_role d.owner_role_id m
    else if in_place d.from_user_id d.workspace_id m
    then given_role d.admin_role_id m
    else m

-- One workspace after the transfer.
abbrev pub handed_workspace : TransferOwnershipData → Workspace → Workspace
handed_workspace d ws = if ws.id == d.workspace_id then given_owner d.to_user_id ws else ws

-- The database after the transfer.
abbrev pub handed : TransferOwnershipData → World → World
handed d w = record w {
  members = map (handed_member d) w.members;
  workspaces = map (handed_workspace d) w.workspaces;
}

module _ ⦃p : Prisma⦄ where
  -- The transaction writes all three rows or none.
  pub transfer_lem :
      (d : TransferOwnershipData) (w : World)
      → (Workspaces.transfer_ownership d w).1 ≡ (
          if is_ok (Workspaces.transfer_ownership d w).0
          then record w {
            members = handed_members d w.members;
            workspaces = handed_workspaces d w.workspaces;
          }
          else w)
  unfolding Workspaces.transfer_ownership
  transfer_lem d w =
      let first = in_place d.from_user_id d.workspace_id in
      let second = in_place d.to_user_id d.workspace_id in
      let third = λ (ws : Workspace). ws.id == d.workspace_id in
      let rows = map (written first (given_role d.admin_role_id)) w.members in
      ground (
        arith,
        p.update_lem first (given_role d.admin_role_id) w.members,
        p.update_lem second (given_role d.owner_role_id) rows,
        p.update_lem third (given_owner d.to_user_id) w.workspaces,
      )

  -- The transfer of a workspace between two users is all or nothing. A failed one changes nothing; a
  -- successful one gives the workspace to the new owner, the role of an owner to the new owner's
  -- membership of the workspace and the role of an admin to the old one's, and changes nothing else.
  pub transfer_ownership_effect :
      (d : TransferOwnershipData) (w : World)
      → d.from_user_id ≢ d.to_user_id
      → (Workspaces.transfer_ownership d w).1
        ≡ (if is_ok (Workspaces.transfer_ownership d w).0 then handed d w else w)
  transfer_ownership_effect d w differ =
      let once = λ (m : WorkspaceMember).
        written (in_place d.from_user_id d.workspace_id) (given_role d.admin_role_id) m in
      let twice = λ (m : WorkspaceMember).
        written (in_place d.to_user_id d.workspace_id) (given_role d.owner_role_id) m in
      let same : handed_members d w.members ≡ map (handed_member d) w.members =
        map-map twice once (handed_member d) w.members (λ m. ground arith) in
      rw (transfer_lem d w, same) refl
