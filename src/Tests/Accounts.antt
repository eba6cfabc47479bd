-- ===== src/Tests/Accounts.antt =====
-- Recovery, invitations and anonymization at the concrete database.
use base_api_nest_js.Base.{◌≡◌, refl, arith, some, false, All, ◌∷◌, [], ◌++◌, ◌==◌, String, ℕ}
use base_api_nest_js.World.{User, Token, Invitation, is_ok}
use base_api_nest_js.Users
use base_api_nest_js.Users.Manage.{anonymize}
use base_api_nest_js.Users.Manage.Erased.{IsErased, anonymize_erases}
use base_api_nest_js.Sessions
use base_api_nest_js.Sessions.Laws.{AllRevoked}
use base_api_nest_js.Rbac.Roles
use base_api_nest_js.Workspaces.Members
use base_api_nest_js.Auth.Recovery.{
  reset_password, find_by_token_hash, previous_hashes, find_recent_hashes, record_history,
  mark_used, is_dead,
}
use base_api_nest_js.Auth.Recovery.Reset.{reset_password_effect}
use base_api_nest_js.Invitations
use base_api_nest_js.Invitations.{
  AcceptInvitationResult, SendInvitationInput, accept_invitation, send_invitation, new_member,
}
use base_api_nest_js.Invitations.Accepted.{
  MayJoin, accept_invitation_joins, accept_invitation_single_use,
}
use base_api_nest_js.Invitations.Pending.{send_invitation_once}
use base_api_nest_js.Tests.Rows.{rows}
use base_api_nest_js.Tests.{plain, world}

reset_password_effect_example :
    (t : Token) × (rows.find (λ (r : Token). r.token_hash == 1040) world.password_reset_tokens
      ≡ some t)
    × (is_dead 5000 t ≡ false)
    × All
        (λ (u : User).
          u.id ≡ t.user_id → (u.password_hash ≡ some "new") × (u.tokens_invalidated_at ≡ some 5000))
        (reset_password plain 5000 5 2 40 "new" world).1.users
    × AllRevoked t.user_id (reset_password plain 5000 5 2 40 "new" world).1.sessions
unfolding reset_password find_by_token_hash previous_hashes find_recent_hashes record_history
    mark_used Users.find_by_id Users.update Users.invalidate_tokens Sessions.revoke_all_for_user
reset_password_effect_example = reset_password_effect plain 5000 5 2 40 "new" world refl

abbrev joined : AcceptInvitationResult
joined = record { workspace_id = 1; role_id = 3 }

accept_invitation_joins_example :
    (i : Invitation) × (u : User) × MayJoin plain 100 50 3 world i u
    × (joined ≡ record { workspace_id = i.workspace_id; role_id = i.role_id })
    × ((accept_invitation plain 100 9 50 3 world).1.members
        ≡ world.members ++ new_member 100 9 3 i ∷ [])
unfolding accept_invitation Invitations.find_by_token_hash Users.find_by_id
    Members.find_by_user_and_workspace Members.create
accept_invitation_joins_example = accept_invitation_joins plain 100 9 50 3 world refl

accept_invitation_single_use_example :
    is_ok (accept_invitation plain 200 10 50 2 (accept_invitation plain 100 9 50 3 world).1).0
    ≡ false
unfolding accept_invitation Invitations.find_by_token_hash Users.find_by_id
    Members.find_by_user_and_workspace Members.create
accept_invitation_single_use_example =
    accept_invitation_single_use plain 100 200 9 10 50 3 2 world (ground arith) refl

abbrev invite : SendInvitationInput
invite = record { workspace_id = 1; email = "dave@example.com"; role_id = 3; invited_by_id = 1 }

send_invitation_once_example :
    is_ok (send_invitation plain 200 8 61 invite (send_invitation plain 100 7 60 invite world).1).0
    ≡ false
unfolding send_invitation Roles.find_by_id_in_workspace Roles.permissions_of Users.find_by_email
    Invitations.find_pending_by_email_and_workspace Members.find_by_user_and_workspace
send_invitation_once_example =
    send_invitation_once plain 100 200 7 8 60 61 invite invite world refl refl refl (ground arith)

abbrev placeholder : ℕ → String
placeholder id = "deleted@anonymized.local"

anonymize_erases_example :
    IsErased "deleted@anonymized.local" 100 1 (anonymize placeholder 100 1 world).1
unfolding anonymize Users.update
anonymize_erases_example = anonymize_erases placeholder 100 1 world refl
