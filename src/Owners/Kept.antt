-- ===== src/Owners/Kept.antt =====
-- Changes of the tables that leave each live workspace its owner.
use base_api_nest_js.Base.{
  ◌≡◌, refl, sym, ◌∙◌, Bool, none, List, [], ◌∷◌, ◌++◌, map, Bool-cases, inl, inr, Has, All,
  All-Has, All-of_Has, All-map, Has-map, Has-append,
}
use base_api_nest_js.Prisma.{written}
use base_api_nest_js.World.{World, Workspace, WorkspaceMember}
use base_api_nest_js.Workspaces.Ownership.{HasOwners, OwnerMembership}

-- Each membership is there after the change, perhaps with another role.
abbrev pub MembersStay : World → World → Type 0
MembersStay w w' =
    All
      (λ (m : WorkspaceMember).
        (n : WorkspaceMember) × Has n w'.members
        × (n.user_id ≡ m.user_id)
        × (n.workspace_id ≡ m.workspace_id))
      w.members

-- Each live workspace was one before the change, with the same owner.
abbrev pub WorkspacesWere : World → World → Type 0
WorkspacesWere w w' =
    All
      (λ (ws : Workspace).
        ws.deleted_at ≡ none
        → (old : Workspace) × Has old w.workspaces
          × (old.deleted_at ≡ none)
          × (old.id ≡ ws.id)
          × (old.owner_id ≡ ws.owner_id))
      w'.workspaces

pub Kept-HasOwners :
    (w w' : World) → MembersStay w w' → WorkspacesWere w w' → HasOwners w → HasOwners w'
Kept-HasOwners w w' stay were owners =
    All-of_Has (λ (ws : Workspace). ws.deleted_at ≡ none → OwnerMembership w'.members ws)
      w'.workspaces
      (λ ws has live.
        let (old, had, lived, id, owner) = All-Has _ ws w'.workspaces were has live in
        let (m, hm, owns, inside) = All-Has _ old w.workspaces owners had lived in
        let (n, hn, user, workspace) = All-Has _ m w.members stay hm in
        (n, hn, user ∙ owns ∙ owner, workspace ∙ inside ∙ id))

written_same :
    {R A : Type 0} (field : R → A) (test : R → Bool) (f : R → R) (r : R)
    → field (f r) ≡ field r
    → field (written test f r) ≡ field r
written_same field test f r same = elim (Bool-cases (test r)) [
  | inl fits ↦ rw fits same
  | inr other ↦ rw other
]

written_live :
    (test : Workspace → Bool) (f : Workspace → Workspace) (ws : Workspace)
    → ((f ws).deleted_at ≡ none → ws.deleted_at ≡ none)
    → (written test f ws).deleted_at ≡ none
    → ws.deleted_at ≡ none
written_live test f ws lived live = elim (Bool-cases (test ws)) [
  | inl fits ↦ lived (rw fits at live)
  | inr other ↦ rw other at live
]

-- What an update, an insertion or nothing does to the tables.
module _ (w w' : World) where
  pub workspaces_same : w'.workspaces ≡ w.workspaces → WorkspacesWere w w'
  workspaces_same same =
      rw same (All-of_Has _ w.workspaces (λ ws has live. (ws, has, live, refl, refl)))

  pub members_same : w'.members ≡ w.members → MembersStay w w'
  members_same same = rw same (All-of_Has _ w.members (λ m has. (m, has, refl, refl)))

  pub members_added :
      (new : WorkspaceMember) → w'.members ≡ w.members ++ new ∷ [] → MembersStay w w'
  members_added new same =
      rw same
        (All-of_Has _ w.members (λ m has. (m, Has-append m w.members (new ∷ []) has, refl, refl)))

  module _ (test : WorkspaceMember → Bool) (f : WorkspaceMember → WorkspaceMember) where
    pub members_updated :
        w'.members ≡ map (written test f) w.members
        → ((m : WorkspaceMember) → (f m).user_id ≡ m.user_id)
        → ((m : WorkspaceMember) → (f m).workspace_id ≡ m.workspace_id)
        → MembersStay w w'
    members_updated same user workspace = rw same (
        All-of_Has _ w.members (λ m has. (
          written test f m,
          Has-map (written test f) m w.members has,
          written_same (λ n. n.user_id) test f m (user m),
          written_same (λ n. n.workspace_id) test f m (workspace m),
        )))

  module _ (test : Workspace → Bool) (f : Workspace → Workspace) where
    was :
        (rows : List Workspace)
        → ((ws : Workspace) → (f ws).id ≡ ws.id)
        → ((ws : Workspace) → (f ws).owner_id ≡ ws.owner_id)
        → ((ws : Workspace) → (f ws).deleted_at ≡ none → ws.deleted_at ≡ none)
        → All
            (λ (ws : Workspace).
              ws.deleted_at ≡ none
              → (old : Workspace) × Has old rows
                × (old.deleted_at ≡ none)
                × (old.id ≡ ws.id)
                × (old.owner_id ≡ ws.owner_id))
            (map (written test f) rows)
    was rows id owner lived = All-map _ (written test f) rows (λ ws has live. (
      ws,
      has,
      written_live test f ws (lived ws) live,
      sym (written_same (λ s. s.id) test f ws (id ws)),
      sym (written_same (λ s. s.owner_id) test f ws (owner ws)),
    ))

    pub workspaces_updated :
        w'.workspaces ≡ map (written test f) w.workspaces
        → ((ws : Workspace) → (f ws).id ≡ ws.id)
        → ((ws : Workspace) → (f ws).owner_id ≡ ws.owner_id)
        → ((ws : Workspace) → (f ws).deleted_at ≡ none → ws.deleted_at ≡ none)
        → WorkspacesWere w w'
    workspaces_updated same id owner lived = rw same (was w.workspaces id owner lived)
