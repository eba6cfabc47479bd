-- ===== src/Tests/Providers.antt =====
-- The theorems of the sign-in through another provider and of the registration at concrete inputs.
use base_api_nest_js.Base.{
  ℕ, ◌≡◌, ◌⊎◌, refl, arith, String, true, not, ◌&&◌, ◌==◌, is_some, none, some, [], ◌∷◌, Has, find,
}
use base_api_nest_js.World.{World, User, OauthAccount}
use base_api_nest_js.Users
use base_api_nest_js.Sessions
use base_api_nest_js.Auth.Tokens.{TokenPair, Draw, sign_access_token}
use base_api_nest_js.Auth.Login.{truthy}
use base_api_nest_js.Workspaces.Create.{Ids}
use base_api_nest_js.Oauth.{
  OauthStatePayload, login_intent, OauthProfile, HandleCallbackInput, SignupDraw,
  handle_oauth_callback, unlink_oauth_account,
}
use base_api_nest_js.Oauth.Callback.{SignsIn, callback_identity}
use base_api_nest_js.Oauth.Credential.{unlink_keeps_credential}
use base_api_nest_js.Tests.{plain, world, alice, bob, carol}
use base_api_nest_js.Tests.Rows.{rows}

abbrev account_of : ℕ → String → ℕ → OauthAccount
account_of id provider user_id = record {
  id = id;
  provider = provider;
  provider_id = "77";
  user_id = user_id;
  created_at = 5;
}

-- Carol has no password and two linked accounts.
abbrev provider_world : World
provider_world = record world {
  users = alice ∷ bob ∷ record carol { password_hash = none } ∷ [];
  oauth_accounts = account_of 1 "google" 3 ∷ account_of 2 "github" 3 ∷ [];
}

unlink_keeps_credential_example :
    (user : User) × (find
        (λ (u : User). u.id == 3 && not (is_some u.deleted_at))
        provider_world.users
      ≡ some user)
    × ((truthy user.password_hash ≡ true)
        ⊎ ((a : OauthAccount) × Has a (unlink_oauth_account 3 1 provider_world).1.oauth_accounts
            × (a.user_id ≡ 3)))
unfolding unlink_oauth_account Users.find_by_id
unlink_keeps_credential_example =
    unlink_keeps_credential 3 1 provider_world (((λ e. absurd (omega arith)), tt), (tt, tt)) refl

abbrev pub some_ids : Ids
some_ids = record {
  organization = 50;
  workspace = 51;
  member = 52;
  owner_role = 53;
  admin_role = 54;
  member_role = 55;
}

abbrev pub some_draw : SignupDraw
some_draw = record { user = 40; account = 41; workspace = some_ids; slug = "carol-abc" }

abbrev google_state : OauthStatePayload
google_state = record { provider = "google"; intent = login_intent; user_id = none; nonce = 9 }

abbrev google_profile : OauthProfile
google_profile = record { provider_id = "77"; email = "carol@example.com"; name = "Carol" }

abbrev from_google : HandleCallbackInput
from_google = record {
  provider = "google";
  state = some google_state;
  profile = some google_profile;
  expected_nonce_hash = some 1009;
  user_agent = none;
  ip_address = none;
}

abbrev fresh : Draw
fresh = record { session_id = 70; refresh_token = 71 }

abbrev carols_pair : TokenPair
carols_pair = record { access_token = sign_access_token 100 3 70; refresh_token = 71 }

callback_identity_example :
    (state : OauthStatePayload) × (profile : OauthProfile) × (from_google.state ≡ some state)
    × (from_google.profile ≡ some profile)
    × (state.provider ≡ "google")
    × (from_google.expected_nonce_hash ≡ some (plain.hash_token state.nonce))
    × SignsIn some_draw from_google profile provider_world carols_pair
unfolding handle_oauth_callback base_api_nest_js.Auth.Tokens.issue_tokens
    base_api_nest_js.Sessions.Manage.create_session Sessions.create
callback_identity_example =
    callback_identity plain 100 fresh some_draw from_google provider_world carols_pair refl
