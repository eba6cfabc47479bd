-- ===== src/Workspaces/Ownership/Transfer/Kept.antt =====
-- Who may transfer a workspace, and that it keeps its owner among its members.
use base_api_nest_js.Base.{
  ℕ, ◌≡◌, ◌≢◌, true, none, some, arith, is_some, not, ◌⊎◌, map, Option-cases, Bool-cases, inl, inr,
  ◌==◌, String, false, str_eq, Has, All, All-Has, ◌&&◌, Has-map, All-map, ◌∙◌, sym,
}
use base_api_nest_js.Prisma.{Prisma}
use base_api_nest_js.Prisma.Laws.{find_Has, find_test}
use base_api_nest_js.Crypto.{Crypto}
use base_api_nest_js.World.{World, User, Workspace, WorkspaceMember, ok, is_ok, Result-cases}
use base_api_nest_js.Users
use base_api_nest_js.Rbac.Roles
use base_api_nest_js.Workspaces
use base_api_nest_js.Workspaces.{put_members, put_workspaces, TransferOwnershipData, undone}
use base_api_nest_js.Workspaces.Members
use base_api_nest_js.Workspaces.Ownership.{HasOwners, OwnerMembership}
use base_api_nest_js.Workspaces.Manage
use base_api_nest_js.Rbac.Roles.{RoleWithPermissions}
use base_api_nest_js.Workspaces.Manage.{
  named, TransferOwnershipInput, member_in, is_owner, confirms,
}
use base_api_nest_js.Workspaces.Ownership.Transfer.{
  transfer_ownership_effect, handed_member, handed_workspace, handed,
}

abbrev Unchanged : World → World → Type 0
Unchanged w w' = (w'.members ≡ w.members) × (w'.workspaces ≡ w.workspaces)

module _ ⦃p : Prisma⦄ where
  invalidate_keeps : (now id : ℕ) (w : World) → Unchanged w (Users.invalidate_tokens now id w).1
  unfolding Users.invalidate_tokens
  invalidate_keeps now id w = ground arith

  member_in-Has :
      (workspace_id id : ℕ) (w : World) (m : WorkspaceMember)
      → member_in workspace_id (p.find (λ (m : WorkspaceMember). m.id == id) w.members) ≡ some m
      → Has m w.members × (m.workspace_id ≡ workspace_id)
  member_in-Has workspace_id id w m e =
      let test = λ (m : WorkspaceMember). m.id == id in
      elim (Option-cases (p.find test w.members)) [
        | inl missing ↦ absurd (ground arith)
        | inr (x, found) ↦
            let same : x ≡ m = ground arith in
            (rw same at (find_Has test w.members x found), ground arith)
      ]

  authorize_keeps :
      (c : Crypto) (input : TransferOwnershipInput) (w : World)
      → (Manage.authorize_transfer c input w).1 ≡ w
  unfolding Manage.authorize_transfer Workspaces.find_by_id Users.find_by_id Members.find_by_id
      Roles.find_many_by_workspace
  authorize_keeps c input w = ground arith

  confirms_lem :
      (c : Crypto) (u : User) (password : String)
      → confirms c (some u) password ≡ true
      → (hash : String) × (u.password_hash ≡ some hash)
        × (str_eq hash "" ≡ false)
        × (c.verify_password hash password ≡ true)
  confirms_lem c u password e = elim (Option-cases u.password_hash) [
    | inl nothing ↦ absurd (ground arith)
    | inr (hash, has) ↦ let read = rw has at e in (hash, has, ground arith, ground arith)
  ]

  -- A transfer is authorized only for the owner of a live workspace who confirms the password, and
  -- only to another user who is a member of that workspace.
  pub transfer_authorized :
      (c : Crypto) (input : TransferOwnershipInput) (w : World) {d : TransferOwnershipData}
      → (Manage.authorize_transfer c input w).0 ≡ ok d
      → ((ws : Workspace) × Has ws w.workspaces
          × (ws.id ≡ d.workspace_id)
          × (ws.deleted_at ≡ none)
          × (ws.owner_id ≡ d.from_user_id))
        × ((caller : User) × Has caller w.users
            × (caller.id ≡ d.from_user_id)
            × (caller.deleted_at ≡ none)
            × (hash : String) × (caller.password_hash ≡ some hash)
            × (str_eq hash "" ≡ false)
            × (c.verify_password hash input.password ≡ true))
        × ((target : WorkspaceMember) × Has target w.members
            × (target.id ≡ input.target_member_id)
            × (target.workspace_id ≡ d.workspace_id)
            × (target.user_id ≡ d.to_user_id))
        × (d.from_user_id ≢ d.to_user_id)
        × (d.workspace_id ≡ input.workspace_id)
        × (d.from_user_id ≡ input.caller_user_id)
  unfolding Manage.authorize_transfer Workspaces.find_by_id Users.find_by_id Members.find_by_id
      Roles.find_many_by_workspace
  transfer_authorized c input w {d} e =
      let live = λ (ws : Workspace). ws.id == input.workspace_id && not (is_some ws.deleted_at) in
      let known = λ (u : User). u.id == input.caller_user_id && not (is_some u.deleted_at) in
      let at = λ (m : WorkspaceMember). m.id == input.target_member_id in
      elim (Option-cases (p.find live w.workspaces)) [
        | inl no_workspace ↦ absurd (ground arith)
        | inr (ws, ews) ↦ elim (Option-cases (p.find known w.users)) [
          | inl no_caller ↦ absurd (ground arith)
          | inr (caller, ec) ↦ elim (Option-cases (p.find at w.members)) [
            | inl no_member ↦ absurd (ground arith)
            | inr (target, et) ↦
                let fits_ws = find_test live w.workspaces ws ews in
                let fits_caller = find_test known w.users caller ec in
                let (hash, set, full, verified) =
                  confirms_lem c caller input.password (ground arith) in
                let fits_target = find_test at w.members target et in
                (
                  (ws, find_Has live w.workspaces ws ews, ground arith, ground arith, ground arith),
                  (
                    caller,
                    find_Has known w.users caller ec,
                    ground arith,
                    ground arith,
                    hash,
                    set,
                    full,
                    verified,
                  ),
                  (
                    target,
                    find_Has at w.members target et,
                    ground arith,
                    ground arith,
                    ground arith,
                  ),
                  ground arith,
                  ground arith,
                  ground arith,
                )
          ]
        ]
      ]

  handed-HasOwners :
      (d : TransferOwnershipData) (w : World) (target : WorkspaceMember)
      → Has target w.members
      → target.workspace_id ≡ d.workspace_id
      → target.user_id ≡ d.to_user_id
      → HasOwners w
      → HasOwners (handed d w)
  handed-HasOwners d w target member inside to owners =
      All-map
        (λ (ws : Workspace).
          ws.deleted_at ≡ none → OwnerMembership (map (handed_member d) w.members) ws)
        (handed_workspace d) w.workspaces
        (λ ws has live. elim (Bool-cases (ws.id == d.workspace_id)) [
          | inl here ↦ (
            handed_member d target,
            Has-map (handed_member d) target w.members member,
            ground arith,
            ground arith,
          )
          | inr elsewhere ↦
              let (m, hm, owns, at) =
                All-Has (λ (ws : Workspace). ws.deleted_at ≡ none → OwnerMembership w.members ws) ws
                  w.workspaces owners has (ground arith) in
              (
                handed_member d m,
                Has-map (handed_member d) m w.members hm,
                ground arith,
                ground arith,
              )
        ])

  transfer_cases :
      (c : Crypto) (now : ℕ) (input : TransferOwnershipInput) (w : World)
      → Unchanged w (Manage.transfer_ownership c now input w).1
        ⊎ ((d : TransferOwnershipData) × ((Manage.authorize_transfer c input w).0 ≡ ok d)
            × Unchanged (handed d w) (Manage.transfer_ownership c now input w).1)
  unfolding Manage.transfer_ownership
  transfer_cases c now input w = elim (Result-cases (Manage.authorize_transfer c input w).0) [
    | inr (e, refused) ↦ inl (ground (arith, authorize_keeps c input w))
    | inl (d, allowed) ↦
        let (_, _, _, differ, _, _) = transfer_authorized c input w allowed in
        let w' = (Workspaces.transfer_ownership d w).1 in
        let effect = transfer_ownership_effect d w differ in
        let first = invalidate_keeps now d.from_user_id w' in
        let second =
          invalidate_keeps now d.to_user_id (Users.invalidate_tokens now d.from_user_id w').1 in
        elim (Bool-cases (is_ok (Workspaces.transfer_ownership d w).0)) [
          | inr failed ↦ inl (ground (arith, authorize_keeps c input w))
          | inl done ↦ inr (
            d,
            allowed,
            (ground (arith, authorize_keeps c input w), ground (arith, authorize_keeps c input w)),
          )
        ]
  ]

  -- A transfer of ownership, however it ends, keeps every live workspace's owner among its members.
  pub transfer_ownership-HasOwners :
      (c : Crypto) (now : ℕ) (input : TransferOwnershipInput) (w : World)
      → HasOwners w
      → HasOwners (Manage.transfer_ownership c now input w).1
  transfer_ownership-HasOwners c now input w owners = elim (transfer_cases c now input w) [
    | inl (members, workspaces) ↦ rw (members, workspaces) owners
    | inr (d, allowed, (members, workspaces)) ↦
        let (_, _, (target, has, _, inside, to), _, _, _) = transfer_authorized c input w allowed in
        rw (members, workspaces) (handed-HasOwners d w target has inside to owners)
  ]

  transfer_done :
      (c : Crypto) (now : ℕ) (input : TransferOwnershipInput) (w : World)
      → (Manage.transfer_ownership c now input w).0 ≡ ok tt
      → (d : TransferOwnershipData) × ((Manage.authorize_transfer c input w).0 ≡ ok d)
        × ((Manage.transfer_ownership c now input w).1.workspaces ≡ (handed d w).workspaces)
  unfolding Manage.transfer_ownership
  transfer_done c now input w e = elim (Result-cases (Manage.authorize_transfer c input w).0) [
    | inr (x, refused) ↦ absurd (ground (arith, authorize_keeps c input w))
    | inl (d, allowed) ↦
        let (_, _, _, differ, _, _) = transfer_authorized c input w allowed in
        let w' = (Workspaces.transfer_ownership d w).1 in
        let effect = transfer_ownership_effect d w differ in
        let first = invalidate_keeps now d.from_user_id w' in
        let second =
          invalidate_keeps now d.to_user_id (Users.invalidate_tokens now d.from_user_id w').1 in
        elim (Bool-cases (is_ok (Workspaces.transfer_ownership d w).0)) [
          | inr failed ↦ absurd (ground (arith, authorize_keeps c input w))
          | inl done ↦ (d, allowed, ground (arith, authorize_keeps c input w))
        ]
  ]

  -- A transfer that succeeds was asked for by the owner of the live workspace, whose stored password the
  -- given one verifies against; and it makes the owner another user, who is the target's and a member of
  -- that workspace.
  pub transfer_ownership_ok :
      (c : Crypto) (now : ℕ) (input : TransferOwnershipInput) (w : World)
      → (Manage.transfer_ownership c now input w).0 ≡ ok tt
      → ((ws : Workspace) × Has ws w.workspaces
          × (ws.id ≡ input.workspace_id)
          × (ws.deleted_at ≡ none)
          × (ws.owner_id ≡ input.caller_user_id))
        × ((caller : User) × Has caller w.users
            × (caller.id ≡ input.caller_user_id)
            × (caller.deleted_at ≡ none)
            × (hash : String) × (caller.password_hash ≡ some hash)
            × (str_eq hash "" ≡ false)
            × (c.verify_password hash input.password ≡ true))
        × ((target : WorkspaceMember) × Has target w.members
            × (target.id ≡ input.target_member_id)
            × (target.workspace_id ≡ input.workspace_id)
            × (target.user_id ≢ input.caller_user_id)
            × All
                (λ (ws : Workspace). ws.id ≡ input.workspace_id → ws.owner_id ≡ target.user_id)
                (Manage.transfer_ownership c now input w).1.workspaces)
  transfer_ownership_ok c now input w e =
      let (d, allowed, left) = transfer_done c now input w e in
      let (
        (ws, hw, iw, live, owns),
        (caller, hc, ic, alive, hash, set, full, fits),
        (target, ht, it, at, to),
        differ,
        here,
        from,
      ) =
        transfer_authorized c input w allowed in
      (
        (ws, hw, iw ∙ here, live, owns ∙ from),
        (caller, hc, ic ∙ from, alive, hash, set, full, fits),
        (
          target,
          ht,
          it,
          at ∙ here,
          (λ same. differ (sym (sym to ∙ same ∙ sym from))),
          rw left (
              All-map
                (λ (ws : Workspace). ws.id ≡ input.workspace_id → ws.owner_id ≡ target.user_id)
                (handed_workspace d) w.workspaces (λ ws m id. ground arith)),
        ),
      )
