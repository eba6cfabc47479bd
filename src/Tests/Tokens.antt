-- ===== src/Tests/Tokens.antt =====
-- Signed tokens with a library whose tokens show what was signed.
use base_api_nest_js.Base.{
  ℕ, ◌+◌, ◌≡◌, refl, arith, String, Option, some, none, true, false, not, is_some, Has, ◌==◌, ltb,
  str_eq, ◌&&◌, if◌then◌else◌, ◌∷◌, [],
}
use base_api_nest_js.World.{World, User, OauthAccount, Result, ok, is_ok}
use base_api_nest_js.Sessions
use base_api_nest_js.Sessions.Manage.{create_session}
use base_api_nest_js.Users
use base_api_nest_js.Oauth.{
  OauthStatePayload, login_intent, OauthProfile, handle_oauth_callback, link_to_user,
  find_by_provider_identity, create,
}
use base_api_nest_js.Oauth.Callback.{is_identity}
use base_api_nest_js.Oauth.Flow.{
  StateCookie, CallbackBody, link_body, set_oauth_state_cookie, read_oauth_state_cookie,
  confirm_link, registry_get, start_oauth, link_start, callback,
}
use base_api_nest_js.Oauth.Flow.Linked.{link_payload, link_confirmed}
use base_api_nest_js.Auth.Tokens.{Draw, issue_tokens}
use base_api_nest_js.Auth.Refresh.{refresh}
use base_api_nest_js.Auth.Refresh.Rotation.{issued}
use base_api_nest_js.Auth.Jwt.{AccessTokenPayload}
use base_api_nest_js.Auth.Keys.{
  Jwt, Keyring, TokenSettings, Claims, SignOptions, VerifyOptions, is_allowed, key_of,
  public_key_for, verify_signed, access_token, sign_challenge_token, sign_state,
  verify_challenge_token, verify_state, authenticate,
}
use base_api_nest_js.Auth.Keys.Apart.{tokens_apart}
use base_api_nest_js.Auth.Keys.Refreshed.{refresh_authenticates}
use base_api_nest_js.Tests.Rows.{rows}
use base_api_nest_js.Tests.{plain, laptop, world}
use base_api_nest_js.Tests.Providers.{some_draw}

abbrev shown_verify : VerifyOptions → ℕ → SignOptions × Claims × ℕ → Option (Claims × ℕ)
shown_verify v now (o, c, at) =
    if str_eq o.private_key v.public_key
      && is_allowed v.issuer o.issuer
      && is_allowed v.audience o.audience
      && ltb now (at + o.expires_in)
    then some (c, at)
    else none

abbrev shown : Jwt
shown = record {
  Token = SignOptions × Claims × ℕ;
  sign = λ o c at. (o, c, at);
  verify = shown_verify;
  header_kid = λ (o, c, at). some o.keyid;
  fits = str_eq;
  header_kid-sign = λ o c at. refl;
  verify-sign = λ v o c at now. refl;
}

abbrev settings : TokenSettings
settings = record { issuer = "api"; audience = "web"; access_expires_in = 900 }

abbrev march : Keyring
march = record {
  current_kid = "march";
  current_private_key = "key of march";
  public_keys = ("march", "key of march") ∷ [];
}

-- The keys were rotated: those of March still verify.
abbrev april : Keyring
april = record {
  current_kid = "april";
  current_private_key = "key of april";
  public_keys = ("april", "key of april") ∷ ("march", "key of march") ∷ [];
}

abbrev state : OauthStatePayload
state = record { provider = "google"; intent = login_intent; user_id = none; nonce = 5 }

abbrev drawn : Draw
drawn = record { session_id = 20; refresh_token = 99 }

abbrev renewed : AccessTokenPayload
renewed = record { id = 1; session_id = 20 }

tokens_apart_example :
    (is_ok (
        verify_challenge_token shown settings april 2000
          (access_token shown settings march 1000 1 10))
      ≡ false)
    × (is_ok (
          verify_challenge_token shown settings april 2000
            (sign_state shown settings march 1000 state))
        ≡ false)
    × (is_ok (verify_state shown settings april 2000 (access_token shown settings march 1000 1 10))
        ≡ false)
    × (is_ok (
          verify_state shown settings april 2000 (sign_challenge_token shown settings march 1000 1))
        ≡ false)
    × (is_ok
          (authenticate shown settings true april 2000
            (sign_challenge_token shown settings march 1000 1)
            world).0
        ≡ false)
    × (is_ok
          (authenticate shown settings true april 2000
            (sign_state shown settings march 1000 state)
            world).0
        ≡ false)
tokens_apart_example = tokens_apart shown settings true march april 1000 2000 1 10 state world

refresh_authenticates_example :
    (authenticate shown settings true april 500000
      (access_token shown settings march 100 1 20)
      (refresh plain 100 drawn 7 world).1).0
    ≡ ok renewed
unfolding refresh issue_tokens create_session Sessions.create Sessions.revoke
    Sessions.find_by_token_hash key_of
refresh_authenticates_example =
    refresh_authenticates shown settings true march april "key of march" plain 100 500000 drawn 7
      world {pair = issued 100 drawn laptop} (refl, refl, refl, refl) refl (ground arith)
      (ground arith) (λ u at e invalid. absurd (ground arith))

-- Past its five minutes a challenge is refused.
challenge_run :
    (verify_challenge_token shown settings april 200000
        (sign_challenge_token shown settings march 1000 1)
      ≡ ok (some 1))
    × (is_ok (
          verify_challenge_token shown settings april 301000
            (sign_challenge_token shown settings march 1000 1))
        ≡ false)
unfolding verify_challenge_token verify_signed public_key_for key_of sign_challenge_token
challenge_run = (refl, refl)

-- Alice links an account of hers at a provider.
abbrev identity : OauthProfile
identity = record { provider_id = "55"; email = "alice@example.com"; name = "Alice" }

abbrev google : String
google = "google"

abbrev cookie : Option StateCookie
cookie = set_oauth_state_cookie 1000 1005

abbrev linking : (Result CallbackBody × Option StateCookie) × World
linking =
    callback (λ name. true) plain shown settings april 2000 drawn some_draw "google"
      (sign_state shown settings march 1000 (link_payload "google" 1 5)) (some identity) cookie none
      none world

link_confirmed_example :
    ((user : User) × (rows.find (λ (u : User). u.id == 1 && not (is_some u.deleted_at)) world.users
        ≡ some user)
      × (hash : String) × (user.password_hash ≡ some hash)
      × (str_eq hash "" ≡ false)
      × (plain.verify_password hash "secret" ≡ true))
    × (google ≡ google)
    × (read_oauth_state_cookie 2000 cookie ≡ some 1005)
    × (given : OauthProfile) × (some identity ≡ some given)
    × (account : OauthAccount) × Has account linking.1.oauth_accounts
    × (is_identity "google" given.provider_id account ≡ true)
    × (account.user_id ≡ 1)
    × (link_body some_draw.account "google" ≡ link_body account.id "google")
unfolding link_start start_oauth confirm_link registry_get Users.find_by_id sign_state callback
    handle_oauth_callback link_to_user find_by_provider_identity create verify_state verify_signed
    public_key_for key_of
link_confirmed_example =
    link_confirmed (λ name. true) plain shown settings march april 1000 2000 5 "google" "secret" 1
      world world drawn some_draw "google" (some identity) cookie none none refl refl
