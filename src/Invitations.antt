-- ===== src/Invitations.antt =====
-- Invitations to a workspace: src/modules/invitations (PrismaInvitationsRepository and the use
-- cases). The list of a workspace's invitations keeps the order of the table.
pub mod Accepted
pub mod Pending
use base_api_nest_js.Base.{
  ℕ, ◌+◌, ◌*◌, String, Bool, true, false, Option, none, some, List, not, ◌&&◌, ◌||◌, ltb, ◌==◌,
  str_eq, is_some,
}
use base_api_nest_js.Prisma.{Prisma}
use base_api_nest_js.Crypto.{Crypto}
use base_api_nest_js.World.{
  World, Invitation, WorkspaceMember, User, M, ◌>>=◌, ◌>>◌, pure, gets, saved, or_throw, throw_if,
  enqueue, not_found, bad_request, forbidden, conflict,
}
use base_api_nest_js.Sessions.{day_ms}
use base_api_nest_js.Users
use base_api_nest_js.Rbac.Roles
use base_api_nest_js.Workspaces.Members

abbrev pub put_invitations : List Invitation → World → World
put_invitations rows w = record w { invitations = rows }

-- The unique columns of the table.
abbrev pub same_key : Invitation → Invitation → Bool
same_key a b = a.id == b.id || a.token_hash == b.token_hash

abbrev pub is_pending : ℕ → String → ℕ → Invitation → Bool
is_pending now email workspace_id i =
    str_eq i.email email
    && i.workspace_id == workspace_id
    && not (is_some i.accepted_at)
    && ltb now i.expires_at

abbrev pub accepted : ℕ → Invitation → Invitation
accepted now i = record i { accepted_at = some now }

pub record SendInvitationInput : Type 0 where
  pub workspace_id : ℕ
  pub email : String
  pub role_id : ℕ
  pub invited_by_id : ℕ

-- What AcceptInvitationUseCase answers with.
pub record AcceptInvitationResult : Type 0 where
  pub workspace_id : ℕ
  pub role_id : ℕ

abbrev pub new_invitation : Crypto → ℕ → ℕ → ℕ → SendInvitationInput → Invitation
new_invitation c now id raw input = record {
  id = id;
  email = input.email;
  workspace_id = input.workspace_id;
  role_id = input.role_id;
  invited_by_id = input.invited_by_id;
  token_hash = c.hash_token raw;
  expires_at = now + 7 * day_ms;
  accepted_at = none;
  created_at = now;
}

abbrev pub new_member : ℕ → ℕ → ℕ → Invitation → WorkspaceMember
new_member now id user_id i = record {
  id = id;
  user_id = user_id;
  workspace_id = i.workspace_id;
  role_id = i.role_id;
  joined_at = now;
}

-- `!invitation || invitation.workspaceId !== workspaceId`
abbrev pub invitation_in : ℕ → Option Invitation → Option Invitation
invitation_in workspace_id none = none
invitation_in workspace_id (some i) = elim (i.workspace_id == workspace_id) [
  | true ↦ some i
  | false ↦ none
]

module _ ⦃p : Prisma⦄ where
  unfoldable pub create : Invitation → M Invitation
  create i = do
    rows ← gets (λ w. p.create same_key i w.invitations)
    saved put_invitations rows
    pure i

  unfoldable pub find_by_id : ℕ → M (Option Invitation)
  find_by_id id = gets (λ w. p.find (λ i. i.id == id) w.invitations)

  unfoldable pub find_by_token_hash : ℕ → M (Option Invitation)
  find_by_token_hash h = gets (λ w. p.find (λ i. i.token_hash == h) w.invitations)

  -- ListInvitationsUseCase
  unfoldable pub find_many_by_workspace : ℕ → M (List Invitation)
  find_many_by_workspace workspace_id =
      gets (λ w. p.find_many (λ i. i.workspace_id == workspace_id) w.invitations)

  unfoldable pub find_pending_by_email_and_workspace : ℕ → String → ℕ → M (Option Invitation)
  find_pending_by_email_and_workspace now email workspace_id =
      gets (λ w. p.find (is_pending now email workspace_id) w.invitations)

  unfoldable pub mark_as_accepted : ℕ → ℕ → M (Unit {0})
  mark_as_accepted now id = do
    rows ← gets (λ w. p.update (λ i. i.id == id) (accepted now) w.invitations)
    saved put_invitations rows

  unfoldable pub delete : ℕ → M (Unit {0})
  delete id = do
    rows ← gets (λ w. p.delete (λ i. i.id == id) w.invitations)
    saved put_invitations rows

  -- AcceptInvitationUseCase, up to its first write.
  unfoldable pub check_accept : Crypto → ℕ → ℕ → ℕ → M Invitation
  check_accept c now raw user_id = do
    found ← find_by_token_hash (c.hash_token raw)
    i ← or_throw (not_found "Invitation not found") found
    throw_if (is_some i.accepted_at) (bad_request "Invitation has already been accepted")
    throw_if (ltb i.expires_at now) (bad_request "Invitation has expired")
    owner ← Users.find_by_id user_id
    user ← or_throw (not_found "User not found") owner
    throw_if (not (str_eq user.email i.email))
        (forbidden "This invitation was sent to a different email")
    existing ← Members.find_by_user_and_workspace user_id i.workspace_id
    throw_if (is_some existing) (conflict "You are already a member of this workspace")
    pure i

  -- The rest of it.
  unfoldable pub write_accept : ℕ → ℕ → ℕ → Invitation → M AcceptInvitationResult
  unfolding mark_as_accepted
  write_accept now member_id user_id i = do
    Members.create (new_member now member_id user_id i)
    mark_as_accepted now i.id
    pure (record { workspace_id = i.workspace_id; role_id = i.role_id })

  unfoldable pub accept_invitation : Crypto → ℕ → ℕ → ℕ → ℕ → M AcceptInvitationResult
  unfolding check_accept write_accept
  accept_invitation c now member_id raw user_id = do
    i ← check_accept c now raw user_id
    write_accept now member_id user_id i

  -- `if (existingUser) { … if (membership) throw … }`
  unfoldable pub refuse_member : Option User → ℕ → M (Unit {0})
  refuse_member none workspace_id = pure tt
  refuse_member (some user) workspace_id = do
    membership ← Members.find_by_user_and_workspace user.id workspace_id
    throw_if (is_some membership) (conflict "User is already a member of this workspace")

  -- SendInvitationUseCase; the names that its email shows are not modelled.
  unfoldable pub send_invitation : Crypto → ℕ → ℕ → ℕ → SendInvitationInput → M Invitation
  unfolding refuse_member create
  send_invitation c now id raw input = do
    role ← Roles.find_by_id_in_workspace input.role_id input.workspace_id
    or_throw (not_found "Role not found in this workspace") role
    existing ← Users.find_by_email input.email
    refuse_member existing input.workspace_id
    pending ← find_pending_by_email_and_workspace now input.email input.workspace_id
    throw_if (is_some pending) (conflict "A pending invitation already exists for this email")
    i ← create (new_invitation c now id raw input)
    enqueue (record { template = "invitationEmail"; to = input.email; token = raw })
    pure i

  -- RevokeInvitationUseCase
  unfoldable pub revoke_invitation : ℕ → ℕ → M (Unit {0})
  unfolding delete
  revoke_invitation invitation_id workspace_id = do
    found ← find_by_id invitation_id
    i ←
        or_throw (not_found "Invitation not found in this workspace")
          (invitation_in workspace_id found)
    throw_if (is_some i.accepted_at)
        (bad_request "Invitation has already been accepted and cannot be revoked")
    delete invitation_id
