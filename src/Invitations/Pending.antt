-- ===== src/Invitations/Pending.antt =====
-- At most one pending invitation of an email to a workspace.
use base_api_nest_js.Base.{
  ℕ, ◌+◌, ◌*◌, ◌<◌, ◌≡◌, true, false, none, [], ◌∷◌, ◌++◌, arith, Option-cases, inl, inr, Has,
  All-Has, Has-last, eq_iff,
}
use base_api_nest_js.Prisma.{Prisma}
use base_api_nest_js.Prisma.Laws.{create_rows}
use base_api_nest_js.Crypto.{Crypto}
use base_api_nest_js.World.{World, Invitation, ok, is_ok, Result-cases}
use base_api_nest_js.Sessions.{day_ms}
use base_api_nest_js.Users
use base_api_nest_js.Rbac.Roles
use base_api_nest_js.Workspaces.Members
use base_api_nest_js.Invitations.{
  SendInvitationInput, send_invitation, refuse_member, create, find_pending_by_email_and_workspace,
  is_pending, new_invitation, same_key,
}

module _ ⦃p : Prisma⦄ where
  send_invitation_ok :
      (c : Crypto) (now id raw : ℕ) (input : SendInvitationInput) (w : World) {i : Invitation}
      → (send_invitation c now id raw input w).0 ≡ ok i
      → (p.find (is_pending now input.email input.workspace_id) w.invitations ≡ none)
        × ((send_invitation c now id raw input w).1.invitations
            ≡ w.invitations ++ new_invitation c now id raw input ∷ [])
  unfolding send_invitation Roles.find_by_id_in_workspace Users.find_by_email refuse_member create
      find_pending_by_email_and_workspace Members.find_by_user_and_workspace
  send_invitation_ok c now id raw input w e =
      elim (Option-cases (p.create same_key (new_invitation c now id raw input) w.invitations)) [
        | inl clash ↦ absurd (ground arith)
        | inr (rows, er) ↦
            let added =
              create_rows same_key (new_invitation c now id raw input) w.invitations rows er in
            (ground arith, ground arith)
      ]

  send_invitation_pending :
      (c : Crypto) (now id raw : ℕ) (input : SendInvitationInput) (w : World) (i : Invitation)
      → Has i w.invitations
      → is_pending now input.email input.workspace_id i ≡ true
      → is_ok (send_invitation c now id raw input w).0 ≡ false
  send_invitation_pending c now id raw input w i m here =
      elim (Result-cases (send_invitation c now id raw input w).0) [
        | inr (x, failed) ↦ rw failed
        | inl (sent, done) ↦
            let none_there = (send_invitation_ok c now id raw input w done).0 in
            let test = is_pending now input.email input.workspace_id in
            let off =
              All-Has (λ i. test i ≡ false) i w.invitations
                (p.find_none test w.invitations none_there) m in
            absurd (ground arith)
      ]

  -- Within seven days of an invitation that was sent, a second one of the same email to the same
  -- workspace, in the state that the first one left, is refused, whatever its role and sender.
  pub send_invitation_once :
      (c : Crypto) (now later id id' raw raw' : ℕ) (first second : SendInvitationInput) (w : World)
      {i : Invitation}
      → (send_invitation c now id raw first w).0 ≡ ok i
      → second.email ≡ first.email
      → second.workspace_id ≡ first.workspace_id
      → later < now + 7 * day_ms
      → is_ok (send_invitation c later id' raw' second (send_invitation c now id raw first w).1).0
        ≡ false
  send_invitation_once c now later id id' raw raw' first second w e mail space lt =
      let sent = new_invitation c now id raw first in
      let (_, rows) = send_invitation_ok c now id raw first w e in
      send_invitation_pending c later id' raw' second (send_invitation c now id raw first w).1 sent
        (rw rows (Has-last sent w.invitations)) (ground (arith, eq_iff first.email second.email))
