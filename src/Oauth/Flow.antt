-- ===== src/Oauth/Flow.antt =====
-- From the redirect to a provider to its callback: use-cases/start-oauth.use-case.ts,
-- services/oauth-provider-registry.ts, http/oauth.controller.ts and http/oauth-state-cookie.ts of
-- src/modules/oauth. The address of the provider is shown by the signed state in it. The redirectUri that
-- a state carries is left out: no code reads it.
pub mod Linked
use base_api_nest_js.Base.{
  ℕ, ◌+◌, ◌*◌, String, Bool, true, false, Option, none, some, not, ◌&&◌, ◌||◌, ltb, str_eq, is_some,
  if◌then◌else◌,
}
use base_api_nest_js.Prisma.{Prisma}
use base_api_nest_js.Crypto.{Crypto}
use base_api_nest_js.World.{
  World, User, Result, ok, err, M, ◌>>=◌, ◌>>◌, pure, throw, throw_if, or_throw, unauthorized,
  bad_request, not_found,
}
use base_api_nest_js.Users
use base_api_nest_js.Auth.Tokens.{Draw, AccessToken}
use base_api_nest_js.Auth.Login.{truthy, password_ok}
use base_api_nest_js.Auth.Keys.{Jwt, Keyring, TokenSettings, sign_state, verify_state}
use base_api_nest_js.Oauth.{
  OauthIntent, login_intent, link_intent, OauthStatePayload, OauthProfile, HandleCallbackInput,
  CallbackResult, logged_in, linked, SignupDraw, handle_oauth_callback,
}

pub record StartOauthInput : Type 0 where
  pub provider : String
  pub intent : OauthIntent
  pub user_id : Option ℕ
  pub password : Option String

-- The cookie that ties a flow to a browser; a browser drops it when it expires.
pub record StateCookie : Type 0 where
  pub hash : ℕ
  pub expires_at : ℕ

abbrev pub max_age_ms : ℕ
max_age_ms = 10 * 60 * 1000

abbrev pub set_oauth_state_cookie : ℕ → ℕ → Option StateCookie
set_oauth_state_cookie now hash = some (record { hash = hash; expires_at = now + max_age_ms })

abbrev pub read_oauth_state_cookie : ℕ → Option StateCookie → Option ℕ
read_oauth_state_cookie now none = none
read_oauth_state_cookie now (some cookie) =
    if ltb now cookie.expires_at then some cookie.hash else none

abbrev pub is_oauth_provider_name : String → Bool
is_oauth_provider_name value = str_eq value "google" || str_eq value "github"

-- What the callback answers, and the refresh token that it sets as a cookie.
pub data CallbackBody : Type 0 where
  login_body : (access_token : AccessToken) (refresh_cookie : ℕ) → CallbackBody
  link_body : (account_id : ℕ) (provider : String) → CallbackBody

abbrev pub body_of : CallbackResult → CallbackBody
body_of (logged_in tokens) = login_body tokens.access_token tokens.refresh_token
body_of (linked account_id provider) = link_body account_id provider

-- `!user || !user.passwordHash || !(await CryptoUtil.verifyPassword(…))`, denied.
abbrev pub is_confirmed : Crypto → String → Option User → Bool
is_confirmed c password none = false
is_confirmed c password (some user) = truthy user.password_hash && password_ok c user password

abbrev pub text_or_empty : Option String → String
text_or_empty none = ""
text_or_empty (some s) = s

abbrev pub state_or_none : Result (Option OauthStatePayload) → Option OauthStatePayload
state_or_none (ok payload) = payload
state_or_none (err e) = none

module _ (is_configured : String → Bool) (c : Crypto) (j : Jwt) (s : TokenSettings)
    ⦃p : Prisma⦄ where
  -- OAuthProviderRegistry.get
  unfoldable pub registry_get : String → M (Unit {0})
  registry_get name =
      throw_if (not (is_oauth_provider_name name && is_configured name))
        (not_found "OAuth provider is not configured")

  abbrev pub parse_provider : String → M (Unit {0})
  parse_provider value =
      throw_if (not (is_oauth_provider_name value)) (bad_request "Unsupported OAuth provider")

  -- The checks of a link in StartOAuthUseCase.
  unfoldable pub confirm_link : StartOauthInput → M (Unit {0})
  confirm_link input = do
    user_id ←
        or_throw (bad_request "Linking an OAuth account requires authentication and password")
          input.user_id
    throw_if (not (truthy input.password))
        (bad_request "Linking an OAuth account requires authentication and password")
    user ← Users.find_by_id user_id
    throw_if (not (is_confirmed c (text_or_empty input.password) user))
        (unauthorized "Invalid password")

  -- StartOAuthUseCase, with the nonce that the state's service draws.
  unfoldable pub start_oauth : Keyring → ℕ → ℕ → StartOauthInput → M (j.Token × ℕ)
  unfolding confirm_link registry_get
  start_oauth k now nonce input = do
    elim input.intent [ link_intent ↦ confirm_link input | login_intent ↦ pure tt ]
    registry_get input.provider
    pure (
      sign_state j s k now (record {
        provider = input.provider;
        intent = input.intent;
        user_id = input.user_id;
        nonce = nonce;
      }),
      nonce,
    )

  -- OAuthController.loginStart and linkStart answer with the state and set the cookie.
  unfoldable pub login_start : Keyring → ℕ → ℕ → String → M (j.Token × Option StateCookie)
  unfolding start_oauth
  login_start k now nonce provider = do
    parse_provider provider
    started ←
        start_oauth k now nonce
          (record { provider = provider; intent = login_intent; user_id = none; password = none })
    pure (started.0, set_oauth_state_cookie now (c.hash_token started.1))

  unfoldable pub link_start :
      Keyring → ℕ → ℕ → String → String → ℕ → M (j.Token × Option StateCookie)
  unfolding start_oauth
  link_start k now nonce provider password user_id = do
    parse_provider provider
    started ← start_oauth k now nonce (record {
      provider = provider;
      intent = link_intent;
      user_id = some user_id;
      password = some password;
    })
    pure (started.0, set_oauth_state_cookie now (c.hash_token started.1))

  -- OAuthController.callback: `profile` is what the provider gives for the code. The cookie is cleared
  -- whether the use case returns or throws.
  unfoldable pub callback :
      Keyring
      → ℕ
      → Draw
      → SignupDraw
      → String
      → j.Token
      → Option OauthProfile
      → Option StateCookie
      → Option String
      → Option String
      → World
      → (Result CallbackBody × Option StateCookie) × World
  unfolding handle_oauth_callback
  callback k now draw draws provider state profile cookie user_agent ip_address w =
      let run : M CallbackBody = do
        parse_provider provider
        result ← handle_oauth_callback c now draw draws (record {
          provider = provider;
          state = state_or_none (verify_state j s k now state);
          profile = profile;
          expected_nonce_hash = read_oauth_state_cookie now cookie;
          user_agent = user_agent;
          ip_address = ip_address;
        })
        pure (body_of result)
      in let (r, w') = run w in ((r, none), w')
