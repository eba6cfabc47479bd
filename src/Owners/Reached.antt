-- ===== src/Owners/Reached.antt =====
-- Every state that the use cases reach, as far as workspaces and members go.
use base_api_nest_js.Base.{ℕ, ◌≡◌, String, Option}
use base_api_nest_js.Prisma.{Prisma}
use base_api_nest_js.Crypto.{Crypto}
use base_api_nest_js.World.{World}
use base_api_nest_js.Auth.Register.{RegisterInput, RegisterDraw, register}
use base_api_nest_js.Auth.Register.Owned.{register-HasOwners, HasOwners-same}
use base_api_nest_js.Oauth.{SignupDraw, OauthProfile, signup}
use base_api_nest_js.Users.Manage.{CreateUserInput, create_user}
use base_api_nest_js.Invitations.{accept_invitation}
use base_api_nest_js.Workspaces.{update_workspace, delete_workspace}
use base_api_nest_js.Workspaces.Create.{Ids, CreateWorkspaceInput, create_workspace}
use base_api_nest_js.Workspaces.Create.Owned.{create_workspace-HasOwners}
use base_api_nest_js.Workspaces.Manage
use base_api_nest_js.Workspaces.Manage.{
  RemoveMemberInput, TransferOwnershipInput, remove_member, update_member_role,
}
use base_api_nest_js.Workspaces.Ownership.{HasOwners, HasUniqueIds, remove_member-HasOwners}
use base_api_nest_js.Workspaces.Ownership.Transfer.Kept.{transfer_ownership-HasOwners}
use base_api_nest_js.Owners.Steps.{
  update_workspace-HasOwners, delete_workspace-HasOwners, accept_invitation-HasOwners,
  create_user-HasOwners, update_member_role-HasOwners,
}
use base_api_nest_js.Owners.Signup.{signup-HasOwners}

module _ ⦃p : Prisma⦄ where
  -- One use case, whoever asks and however it ends. `elsewhere` is any step that leaves the workspaces and the
  -- members as they are. The ids of both tables are unique when a member is removed.
  pub data Step : World → World → Type 0 where
    created :
        (now : ℕ) (ids : Ids) (slug : String) (input : CreateWorkspaceInput) {w w' : World}
        → w' ≡ (create_workspace now ids slug input w).1
        → Step w w'
    registered :
        (c : Crypto) (now : ℕ) (draws : RegisterDraw) (input : RegisterInput) {w w' : World}
        → w' ≡ (register c now draws input w).1
        → Step w w'
    signed_up :
        (now : ℕ) (draws : SignupDraw) (provider : String) (profile : OauthProfile) {w w' : World}
        → w' ≡ (signup now draws provider profile w).1
        → Step w w'
    user_created :
        (c : Crypto) (now id member_id : ℕ) (input : CreateUserInput) {w w' : World}
        → w' ≡ (create_user c now id member_id input w).1
        → Step w w'
    accepted :
        (c : Crypto) (now member_id raw user_id : ℕ) {w w' : World}
        → w' ≡ (accept_invitation c now member_id raw user_id w).1
        → Step w w'
    role_changed :
        (now workspace_id member_id role_id : ℕ) {w w' : World}
        → w' ≡ (update_member_role now workspace_id member_id role_id w).1
        → Step w w'
    removed :
        (input : RemoveMemberInput) {w w' : World}
        → HasUniqueIds w
        → w' ≡ (remove_member input w).1
        → Step w w'
    transferred :
        (c : Crypto) (now : ℕ) (input : TransferOwnershipInput) {w w' : World}
        → w' ≡ (Manage.transfer_ownership c now input w).1
        → Step w w'
    renamed :
        (id : ℕ) (name : Option String) {w w' : World}
        → w' ≡ (update_workspace id name w).1
        → Step w w'
    deleted : (now id : ℕ) {w w' : World} → w' ≡ (delete_workspace now id w).1 → Step w w'
    elsewhere : {w w' : World} → w'.members ≡ w.members → w'.workspaces ≡ w.workspaces → Step w w'

  pub data Reached (start : World) : World → Type 0 where
    here : Reached start start
    next : {w w' : World} → Reached start w → Step w w' → Reached start w'

  Step-HasOwners : {w w' : World} → Step w w' → HasOwners w → HasOwners w'
  Step-HasOwners (created now ids slug input e) h =
      rw e (create_workspace-HasOwners now ids slug input _ h).0
  Step-HasOwners (registered c now draws input e) h =
      rw e (register-HasOwners c now draws input _ h)
  Step-HasOwners (signed_up now draws provider profile e) h =
      rw e (signup-HasOwners now draws provider profile _ h)
  Step-HasOwners (user_created c now id member_id input e) h =
      rw e (create_user-HasOwners c now id member_id input _ h)
  Step-HasOwners (accepted c now member_id raw user_id e) h =
      rw e (accept_invitation-HasOwners c now member_id raw user_id _ h)
  Step-HasOwners (role_changed now workspace_id member_id role_id e) h =
      rw e (update_member_role-HasOwners now workspace_id member_id role_id _ h)
  Step-HasOwners (removed input unique e) h = rw e (remove_member-HasOwners input _ unique h)
  Step-HasOwners (transferred c now input e) h = rw e (transfer_ownership-HasOwners c now input _ h)
  Step-HasOwners (renamed id name e) h = rw e (update_workspace-HasOwners id name _ h)
  Step-HasOwners (deleted now id e) h = rw e (delete_workspace-HasOwners now id _ h)
  Step-HasOwners {w} {w'} (elsewhere members workspaces) h =
      HasOwners-same w w' (members, workspaces) h

  -- If every live workspace's owner is among its members, then so it is in every state that is reached by creating, renaming, deleting and
  -- transferring workspaces, registering, signing up through a provider, creating users, accepting invitations, changing roles, removing
  -- members, and steps that leave both tables alone, in any order, whoever asks and however each ends. The ids of the workspaces and of the
  -- members are unique when a member is removed.
  pub Reached-HasOwners : {start w : World} → HasOwners start → Reached start w → HasOwners w
  Reached-HasOwners h here = h
  Reached-HasOwners h (next r step) = Step-HasOwners step (Reached-HasOwners h r)
