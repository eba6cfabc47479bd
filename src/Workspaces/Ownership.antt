-- ===== src/Workspaces/Ownership.antt =====
-- A live workspace always has its owner among its members.
pub mod Transfer
use base_api_nest_js.Base.{
  ap, ℕ, ◌≡◌, ◌≢◌, refl, Bool, true, false, Option, none, some, List, [], ◌∷◌, arith, is_some, not,
  ◌⊎◌, Option-cases, Bool-cases, inl, inr, ◌==◌, ==_iff, Has, All, All-Has, All-of_Has, ◌&&◌,
  filter, filter-Has, sym, ◌∙◌,
}
use base_api_nest_js.Prisma.{Prisma}
use base_api_nest_js.Prisma.Laws.{find_Has, find_test, find_only}
use base_api_nest_js.World.{World, Workspace, WorkspaceMember, Result, ok, err, is_ok}
use base_api_nest_js.Workspaces
use base_api_nest_js.Workspaces.{put_members}
use base_api_nest_js.Workspaces.Members
use base_api_nest_js.Workspaces.Manage.{RemoveMemberInput, remove_member, member_in, is_owner}

abbrev pub OwnerMembership : List WorkspaceMember → Workspace → Type 0
OwnerMembership members ws =
    (m : WorkspaceMember) × Has m members × (m.user_id ≡ ws.owner_id) × (m.workspace_id ≡ ws.id)

-- The owner of every workspace that is not deleted is a member of it.
abbrev pub HasOwners : World → Type 0
HasOwners w =
    All (λ (ws : Workspace). ws.deleted_at ≡ none → OwnerMembership w.members ws) w.workspaces

-- The ids of the two tables are unique.
pub record HasUniqueIds (w : World) : Type 0 where
  pub workspaces :
      All
        (λ (a : Workspace). All (λ (b : Workspace). b.id ≡ a.id → b ≡ a) w.workspaces)
        w.workspaces
  pub members :
      All
        (λ (a : WorkspaceMember). All (λ (b : WorkspaceMember). b.id ≡ a.id → b ≡ a) w.members)
        w.members

-- The rows that a removal went by.
pub record Removal ⦃p : Prisma⦄ (input : RemoveMemberInput) (w w' : World) : Type 0 where
  pub member : WorkspaceMember
  pub rows : List WorkspaceMember
  pub found : p.find (λ (m : WorkspaceMember). m.id == input.member_id) w.members ≡ some member
  pub inside : member.workspace_id ≡ input.workspace_id
  pub not_owner :
      is_owner
        (p.find
          (λ (ws : Workspace). ws.id == input.workspace_id && not (is_some ws.deleted_at))
          w.workspaces)
        member.user_id
      ≡ false
  pub deleted : p.delete (λ (m : WorkspaceMember). m.id == input.member_id) w.members ≡ some rows
  pub left : w' ≡ put_members rows w

module _ ⦃p : Prisma⦄ where
  remove_member_lem :
      (input : RemoveMemberInput) (w : World)
      → ((remove_member input w).1 ≡ w) ⊎ Removal input w (remove_member input w).1
  unfolding remove_member Members.find_by_id Workspaces.find_by_id Members.delete
  remove_member_lem input w =
      elim (Option-cases (p.find (λ (m : WorkspaceMember). m.id == input.member_id) w.members)) [
        | inl missing ↦ inl (ground arith)
        | inr (member, found) ↦
            elim (Option-cases
              (p.delete (λ (m : WorkspaceMember). m.id == input.member_id) w.members)) [
                | inl gone ↦ inl (ground arith)
                | inr (rows, er) ↦ elim (Bool-cases (is_ok (remove_member input w).0)) [
                  | inr refused ↦ inl (ground arith)
                  | inl done ↦ inr (record {
                    member = member;
                    rows = rows;
                    found = found;
                    inside = ground arith;
                    not_owner = ground arith;
                    deleted = er;
                    left = ground arith;
                  })
                ]
              ]
      ]

  -- The removed row is not the owner's.
  owner_stays :
      (input : RemoveMemberInput) (w w' : World) (ws : Workspace) (m : WorkspaceMember)
      → HasUniqueIds w
      → Removal input w w'
      → Has ws w.workspaces
      → ws.deleted_at ≡ none
      → Has m w.members
      → m.user_id ≡ ws.owner_id
      → m.workspace_id ≡ ws.id
      → m.id ≢ input.member_id
  owner_stays input w w' ws m unique r has live hm owns inside same =
      let test = λ (ws : Workspace). ws.id == input.workspace_id && not (is_some ws.deleted_at) in
      let by_id = λ (m : WorkspaceMember). m.id == input.member_id in
      let at : r.member.id ≡ input.member_id =
        (==_iff _ _).0 (find_test by_id w.members r.member r.found) in
      let row : r.member ≡ m =
        All-Has (λ (b : WorkspaceMember). b.id ≡ m.id → b ≡ m) r.member w.members
          (All-Has
            (λ (a : WorkspaceMember). All (λ (b : WorkspaceMember). b.id ≡ a.id → b ≡ a) w.members)
            m w.members unique.members hm)
          (find_Has by_id w.members r.member r.found) (at ∙ sym same) in
      let inside' : ws.id ≡ input.workspace_id = sym inside ∙ (rw (← row) r.inside) in
      let only =
        All-Has (λ (a : Workspace). All (λ (b : Workspace). b.id ≡ a.id → b ≡ a) w.workspaces) ws
          w.workspaces unique.workspaces has in
      let found : p.find test w.workspaces ≡ some ws =
        find_only test w.workspaces ws has (ground arith) (
          All-of_Has (λ (s : Workspace). test s ≡ true → s ≡ ws) w.workspaces
            (λ s ms fits.
              All-Has (λ (b : Workspace). b.id ≡ ws.id → b ≡ ws) s w.workspaces only ms
                (ground arith))) in
      let no_owner : is_owner (some ws) r.member.user_id ≡ false = rw found at r.not_owner in
      let owner : is_owner (some ws) m.user_id ≡ true = ground arith in
      absurd (ground (arith, ap (λ (m : WorkspaceMember). is_owner (some ws) m.user_id) row))

  -- Removing a member, whoever asks and however it ends, keeps every live workspace's owner among its
  -- members. The ids of the workspaces and of the members are unique.
  pub remove_member-HasOwners :
      (input : RemoveMemberInput) (w : World)
      → HasUniqueIds w
      → HasOwners w
      → HasOwners (remove_member input w).1
  remove_member-HasOwners input w unique owners = elim (remove_member_lem input w) [
    | inl same ↦ rw same owners
    | inr r ↦
        let kept = λ (m : WorkspaceMember). not (m.id == input.member_id) in
        let rows : r.rows ≡ filter kept w.members = ground (
          arith,
          r.deleted,
          p.delete_lem (λ (m : WorkspaceMember). m.id == input.member_id) w.members,
        ) in
        rw (r.left, rows)
          (All-of_Has
            (λ (ws : Workspace). ws.deleted_at ≡ none → OwnerMembership (filter kept w.members) ws)
            w.workspaces
            (λ ws has live.
              let (m, hm, owns, inside) =
                All-Has (λ (ws : Workspace). ws.deleted_at ≡ none → OwnerMembership w.members ws) ws
                  w.workspaces owners has live in
              let stays =
                owner_stays input w (remove_member input w).1 ws m unique r has live hm owns
                  inside in
              (m, filter-Has kept m w.members hm (ground arith), owns, inside)))
  ]
