-- ===== src/Workspaces/Create/Owned.antt =====
-- The owner of a new workspace, in `createWithDefaults` of prisma-workspaces.repository.ts.
use base_api_nest_js.Base.{
  ℕ, ◌≡◌, ◌⊎◌, inl, inr, refl, arith, String, true, false, Option, none, some, List, [], ◌∷◌, ◌++◌,
  if◌then◌else◌, str_eq, Option-cases, Has-last, Has-append, All-of_Has, All-append, All-Has,
}
use base_api_nest_js.Prisma.{Prisma}
use base_api_nest_js.Prisma.Laws.{create_rows}
use base_api_nest_js.World.{World, Permission, Workspace, WorkspaceMember, ok, Result-cases, is_ok}
use base_api_nest_js.Workspaces.Members
use base_api_nest_js.Workspaces.Ownership.{HasOwners, OwnerMembership}
use base_api_nest_js.Workspaces.Create.{
  Ids, DefaultRole, CreateWorkspaceWithDefaultsData, CreateWorkspaceInput, create_default_role,
  create_roles, create_organization, insert_workspace, add_owner, create_with_defaults,
  create_workspace, new_workspace, same_workspace, default_permissions,
}

module _ ⦃p : Prisma⦄ where
  create_default_role_keeps :
      (now workspace_id : ℕ) (perms : List Permission) (d : DefaultRole) (w : World)
      → ((create_default_role now workspace_id perms d w).1.members ≡ w.members)
        × ((create_default_role now workspace_id perms d w).1.workspaces ≡ w.workspaces)
  unfolding create_default_role
  create_default_role_keeps now workspace_id perms d w = ground arith

  create_roles_keep :
      (now workspace_id : ℕ) (perms : List Permission) (name : String) (owner : Option ℕ)
      (ds : List DefaultRole) (w : World)
      → ((create_roles now workspace_id perms name owner ds w).1.members ≡ w.members)
        × ((create_roles now workspace_id perms name owner ds w).1.workspaces ≡ w.workspaces)
  unfolding create_roles
  create_roles_keep now workspace_id perms name owner [] w = (refl, refl)
  create_roles_keep now workspace_id perms name owner (d ∷ ds) w =
      let step = create_default_role now workspace_id perms d w in
      let first = create_default_role_keeps now workspace_id perms d w in
      let rest =
        create_roles_keep now workspace_id perms name
          (if str_eq d.name name then some d.id else owner) ds step.1 in
      ground arith

  create_organization_keeps :
      (now : ℕ) (ids : Ids) (d : CreateWorkspaceWithDefaultsData) (w : World)
      → ((create_organization now ids d w).1.members ≡ w.members)
        × ((create_organization now ids d w).1.workspaces ≡ w.workspaces)
  unfolding create_organization
  create_organization_keeps now ids d w = ground arith

  insert_workspace_adds :
      (now : ℕ) (ids : Ids) (d : CreateWorkspaceWithDefaultsData) (w : World)
      → (insert_workspace now ids d w).0 ≡ ok tt
      → ((insert_workspace now ids d w).1.members ≡ w.members)
        × ((insert_workspace now ids d w).1.workspaces
            ≡ w.workspaces ++ new_workspace now ids d ∷ [])
  unfolding insert_workspace
  insert_workspace_adds now ids d w e =
      elim (Option-cases (p.create same_workspace (new_workspace now ids d) w.workspaces)) [
        | inl clash ↦ absurd (ground arith)
        | inr (rows, er) ↦
            let (free, eq) =
              create_rows same_workspace (new_workspace now ids d) w.workspaces rows er in
            ground arith
      ]

  add_owner_adds :
      (now : ℕ) (ids : Ids) (d : CreateWorkspaceWithDefaultsData) (role : Option ℕ) (w : World)
      → (add_owner now ids d role w).0 ≡ ok tt
      → ((add_owner now ids d role w).1.workspaces ≡ w.workspaces)
        × ((m : WorkspaceMember) × (m.user_id ≡ d.owner_id)
            × (m.workspace_id ≡ ids.workspace)
            × ((add_owner now ids d role w).1.members ≡ w.members ++ m ∷ []))
  unfolding add_owner Members.create
  add_owner_adds now ids d none w e = absurd (ground arith)
  add_owner_adds now ids d (some role) w e =
      let m : WorkspaceMember = record {
        id = ids.member;
        user_id = d.owner_id;
        workspace_id = ids.workspace;
        role_id = role;
        joined_at = now;
      } in
      elim (Option-cases (p.create Members.same_key m w.members)) [
        | inl clash ↦ absurd (ground arith)
        | inr (rows, er) ↦
            let (free, eq) = create_rows Members.same_key m w.members rows er in
            (ground arith, (m, refl, refl, ground arith))
      ]

  -- A transaction that adds the workspace and its owner's membership, or nothing.
  abbrev pub Created : ℕ → Ids → CreateWorkspaceWithDefaultsData → World → World → Type 0
  Created now ids d w w' =
      (m : WorkspaceMember) × (m.user_id ≡ d.owner_id)
      × (m.workspace_id ≡ ids.workspace)
      × (w'.members ≡ w.members ++ m ∷ [])
      × (w'.workspaces ≡ w.workspaces ++ new_workspace now ids d ∷ [])

  create_with_defaults_lem :
      (now : ℕ) (ids : Ids) (d : CreateWorkspaceWithDefaultsData) (w : World)
      → ((create_with_defaults now ids d w).1 ≡ w)
        ⊎ (Created now ids d w (create_with_defaults now ids d w).1
            × (is_ok (create_with_defaults now ids d w).0 ≡ true))
  unfolding create_with_defaults
  create_with_defaults_lem now ids d w =
      let w1 = (create_organization now ids d w).1 in
      let first = create_organization_keeps now ids d w in
      elim (Result-cases (create_organization now ids d w).0) [
        | inr (x, e) ↦ inl (ground arith)
        | inl (u, e1) ↦ elim (Result-cases (insert_workspace now ids d w1).0) [
          | inr (x, e) ↦ inl (ground arith)
          | inl (u, e2) ↦
              let w2 = (insert_workspace now ids d w1).1 in
              let second = insert_workspace_adds now ids d w1 e2 in
              let perms = default_permissions d.default_roles w2 in
              let roles =
                create_roles now ids.workspace perms d.owner_role_name none d.default_roles in
              let third =
                create_roles_keep now ids.workspace perms d.owner_role_name none d.default_roles
                  w2 in
              elim (Result-cases (roles w2).0) [
                | inr (x, e) ↦ inl (ground arith)
                | inl (role, e3) ↦ elim (Result-cases (add_owner now ids d role (roles w2).1).0) [
                  | inr (x, e) ↦ inl (ground arith)
                  | inl (u, e4) ↦
                      let (same, (m, owns, inside, added)) =
                        add_owner_adds now ids d role (roles w2).1 e4 in
                      inr ((m, owns, inside, ground arith, ground arith), ground arith)
                ]
              ]
        ]
      ]

  Created-HasOwners :
      (now : ℕ) (ids : Ids) (d : CreateWorkspaceWithDefaultsData) (w w' : World)
      → HasOwners w
      → Created now ids d w w'
      → HasOwners w'
  Created-HasOwners now ids d w w' owners (m, owns, inside, members, workspaces) =
      rw (members, workspaces)
        (All-append
          (λ (ws : Workspace). ws.deleted_at ≡ none → OwnerMembership (w.members ++ m ∷ []) ws)
          w.workspaces (new_workspace now ids d ∷ [])
          (All-of_Has
            (λ (ws : Workspace). ws.deleted_at ≡ none → OwnerMembership (w.members ++ m ∷ []) ws)
            w.workspaces
            (λ ws has live.
              let (m', has', owns', inside') =
                All-Has (λ (ws : Workspace). ws.deleted_at ≡ none → OwnerMembership w.members ws) ws
                  w.workspaces owners has live in
              (m', Has-append m' w.members (m ∷ []) has', owns', inside')))
          ((λ live. (m, Has-last m w.members, owns, inside)), tt))

  failed_create :
      (now : ℕ) (ids : Ids) (d : CreateWorkspaceWithDefaultsData) (w : World)
      → is_ok (create_with_defaults now ids d w).0 ≡ false
      → (create_with_defaults now ids d w).1 ≡ w
  failed_create now ids d w e = elim (create_with_defaults_lem now ids d w) [
    | inl same ↦ same
    | inr (made, done) ↦ absurd (ground (arith, e, done))
  ]

  create_with_defaults-HasOwners :
      (now : ℕ) (ids : Ids) (d : CreateWorkspaceWithDefaultsData) (w : World)
      → HasOwners w
      → HasOwners (create_with_defaults now ids d w).1
  create_with_defaults-HasOwners now ids d w owners = elim (create_with_defaults_lem now ids d w) [
    | inl same ↦ rw same owners
    | inr (made, done) ↦
        Created-HasOwners now ids d w (create_with_defaults now ids d w).1 owners made
  ]

  -- Creating a workspace keeps every live workspace's owner among its members, the new workspace's owner
  -- included, and writes nothing when it throws.
  pub create_workspace-HasOwners :
      (now : ℕ) (ids : Ids) (slug : String) (input : CreateWorkspaceInput) (w : World)
      → HasOwners w
      → HasOwners (create_workspace now ids slug input w).1
        × (is_ok (create_workspace now ids slug input w).0 ≡ false
            → (create_workspace now ids slug input w).1 ≡ w)
  unfolding create_workspace
  create_workspace-HasOwners now ids slug input w owners =
      (create_with_defaults-HasOwners now ids _ w owners, failed_create now ids _ w)
