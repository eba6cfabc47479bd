-- ===== src/Owners/Steps.antt =====
-- What the use cases of src/modules/workspaces and src/modules/invitations, and those that create users,
-- do to the workspaces and to the members.
use base_api_nest_js.Base.{
  ℕ, ◌≡◌, refl, Option, none, some, arith, is_some, not, String, Option-cases, Bool-cases, inl, inr,
  ◌==◌, ◌&&◌,
}
use base_api_nest_js.Crypto.{Crypto}
use base_api_nest_js.Prisma.{Prisma}
use base_api_nest_js.Prisma.Laws.{update_rows, create_rows}
use base_api_nest_js.World.{
  World, Workspace, WorkspaceMember, Role, Invitation, Result-cases, is_ok,
}
use base_api_nest_js.Users
use base_api_nest_js.Users.Manage.{CreateUserInput, create_user}
use base_api_nest_js.Rbac.Roles
use base_api_nest_js.Invitations.{
  accept_invitation, check_accept, find_by_token_hash, write_accept, mark_as_accepted, new_member,
}
use base_api_nest_js.Workspaces
use base_api_nest_js.Workspaces.{update_workspace, delete_workspace}
use base_api_nest_js.Workspaces.Members
use base_api_nest_js.Workspaces.Manage.{update_member_role, member_in, is_owner}
use base_api_nest_js.Workspaces.Ownership.{HasOwners}
use base_api_nest_js.Owners.Kept.{
  Kept-HasOwners, workspaces_same, members_same, members_added, members_updated, workspaces_updated,
}

module _ ⦃p : Prisma⦄ where
  pub update_workspace-HasOwners :
      (id : ℕ) (name : Option String) (w : World)
      → HasOwners w
      → HasOwners (update_workspace id name w).1
  unfolding update_workspace Workspaces.find_by_id Workspaces.update
  update_workspace-HasOwners id name w owners =
      let w' = (update_workspace id name w).1 in
      let test = λ (ws : Workspace). ws.id == id in
      let f = λ (ws : Workspace). record ws { name = elim name [ none ↦ ws.name | some n ↦ n ] } in
      let members : w'.members ≡ w.members = ground arith in
      elim (Bool-cases (is_ok (update_workspace id name w).0)) [
        | inr refused ↦
            Kept-HasOwners w w' (members_same w w' members) (workspaces_same w w' (ground arith))
              owners
        | inl done ↦
            let rows : p.update test f w.workspaces ≡ some w'.workspaces = ground arith in
            Kept-HasOwners w w' (members_same w w' members)
              (workspaces_updated w w' test f (update_rows test f w.workspaces w'.workspaces rows)
                (λ ws. refl) (λ ws. refl) (λ ws e. e))
              owners
      ]

  pub delete_workspace-HasOwners :
      (now id : ℕ) (w : World) → HasOwners w → HasOwners (delete_workspace now id w).1
  unfolding delete_workspace Workspaces.find_by_id Workspaces.soft_delete Workspaces.update
  delete_workspace-HasOwners now id w owners =
      let w' = (delete_workspace now id w).1 in
      let test = λ (ws : Workspace). ws.id == id in
      let f = λ (ws : Workspace). record ws { deleted_at = some now } in
      let members : w'.members ≡ w.members = ground arith in
      elim (Bool-cases (is_ok (delete_workspace now id w).0)) [
        | inr refused ↦
            Kept-HasOwners w w' (members_same w w' members) (workspaces_same w w' (ground arith))
              owners
        | inl done ↦
            let rows : p.update test f w.workspaces ≡ some w'.workspaces = ground arith in
            Kept-HasOwners w w' (members_same w w' members)
              (workspaces_updated w w' test f (update_rows test f w.workspaces w'.workspaces rows)
                (λ ws. refl) (λ ws. refl) (λ ws e. absurd (cc e)))
              owners
      ]

  write_accept-HasOwners :
      (now member_id user_id : ℕ) (i : Invitation) (w : World)
      → HasOwners w
      → HasOwners (write_accept now member_id user_id i w).1
  unfolding write_accept mark_as_accepted Members.create
  write_accept-HasOwners now member_id user_id i w owners =
      let w' = (write_accept now member_id user_id i w).1 in
      let new = new_member now member_id user_id i in
      let were = workspaces_same w w' (ground arith) in
      elim (Option-cases (p.create Members.same_key new w.members)) [
        | inl clash ↦ Kept-HasOwners w w' (members_same w w' (ground arith)) were owners
        | inr (rows, done) ↦
            let added = (create_rows Members.same_key new w.members rows done).1 in
            Kept-HasOwners w w' (members_added w w' new (ground arith)) were owners
      ]

  check_accept_keeps :
      (c : Crypto) (now raw user_id : ℕ) (w : World) → (check_accept c now raw user_id w).1 ≡ w
  unfolding check_accept find_by_token_hash Users.find_by_id Members.find_by_user_and_workspace
  check_accept_keeps c now raw user_id w = ground arith

  pub accept_invitation-HasOwners :
      (c : Crypto) (now member_id raw user_id : ℕ) (w : World)
      → HasOwners w
      → HasOwners (accept_invitation c now member_id raw user_id w).1
  unfolding accept_invitation
  accept_invitation-HasOwners c now member_id raw user_id w owners =
      let kept = check_accept_keeps c now raw user_id w in
      elim (Result-cases (check_accept c now raw user_id w).0) [
        | inr (e, refused) ↦
            let same : (accept_invitation c now member_id raw user_id w).1 ≡ w = ground arith in
            rw same owners
        | inl (i, allowed) ↦
            let same : (accept_invitation c now member_id raw user_id w).1
                ≡ (write_accept now member_id user_id i w).1 =
              ground arith in
            rw same (write_accept-HasOwners now member_id user_id i w owners)
      ]

  abbrev member_row : ℕ → ℕ → ℕ → CreateUserInput → WorkspaceMember
  member_row now id member_id input = record {
    id = member_id;
    user_id = id;
    workspace_id = input.workspace_id;
    role_id = input.role_id;
    joined_at = now;
  }

  pub create_user-HasOwners :
      (c : Crypto) (now id member_id : ℕ) (input : CreateUserInput) (w : World)
      → HasOwners w
      → HasOwners (create_user c now id member_id input w).1
  unfolding create_user Users.find_by_email Roles.find_by_id_in_workspace Users.create
      Members.create
  create_user-HasOwners c now id member_id input w owners =
      let w' = (create_user c now id member_id input w).1 in
      let new = member_row now id member_id input in
      let were = workspaces_same w w' (ground arith) in
      elim (Option-cases (p.create Members.same_key new w.members)) [
        | inl clash ↦ Kept-HasOwners w w' (members_same w w' (ground arith)) were owners
        | inr (rows, done) ↦
            let added = (create_rows Members.same_key new w.members rows done).1 in
            elim (Bool-cases (is_ok (create_user c now id member_id input w).0)) [
              | inl made ↦ Kept-HasOwners w w' (members_added w w' new (ground arith)) were owners
              | inr refused ↦ Kept-HasOwners w w' (members_same w w' (ground arith)) were owners
            ]
      ]

  pub update_member_role-HasOwners :
      (now workspace_id member_id role_id : ℕ) (w : World)
      → HasOwners w
      → HasOwners (update_member_role now workspace_id member_id role_id w).1
  unfolding update_member_role Members.find_by_id Workspaces.find_by_id
      Roles.find_by_id_in_workspace Members.update_role Users.invalidate_tokens
  update_member_role-HasOwners now workspace_id member_id role_id w owners =
      let w' = (update_member_role now workspace_id member_id role_id w).1 in
      let by_id = λ (m : WorkspaceMember). m.id == member_id in
      let f = λ (m : WorkspaceMember). record m { role_id = role_id } in
      let live = λ (ws : Workspace). ws.id == workspace_id && not (is_some ws.deleted_at) in
      let were = workspaces_same w w' (ground arith) in
      let same =
        λ (e : w'.members ≡ w.members). Kept-HasOwners w w' (members_same w w' e) were owners in
      elim (Option-cases (member_in workspace_id (p.find by_id w.members))) [
        | inl missing ↦ same (ground arith)
        | inr (m, found) ↦ elim (Bool-cases (is_owner (p.find live w.workspaces) m.user_id)) [
          | inl owner ↦ same (ground arith)
          | inr other ↦
              elim (Option-cases (
                Roles.with_permissions w (
                  p.find (λ (r : Role). r.id == role_id && r.workspace_id == workspace_id)
                    w.roles))) [
                      | inl no_role ↦ same (ground arith)
                      | inr (role, known) ↦ elim (Option-cases (p.update by_id f w.members)) [
                        | inl failed ↦ same (ground arith)
                        | inr (rows, done) ↦
                            let after = update_rows by_id f w.members rows done in
                            Kept-HasOwners w w'
                              (members_updated w w' by_id f (ground arith) (λ m. refl) (λ m. refl))
                              were owners
                      ]
                    ]
        ]
      ]
