-- ===== src/Oauth.antt =====
-- Sign-in through another provider: src/modules/oauth, whose use cases open sessions by Auth/Tokens and
-- create users and workspaces. An input carries what the signature of the state (Auth/Keys), the registry of
-- providers and the exchange of the code give, or nothing where they throw.
pub mod Callback
pub mod Credential
pub mod Flow
use Prim.Native.String
use base_api_nest_js.Base.{
  ℕ, String, Bool, true, false, Option, none, some, List, [], ◌∷◌, not, ◌&&◌, ◌||◌, ◌==◌, leb,
  str_eq, opt_eq, is_some, length,
}
use base_api_nest_js.Prisma.{Prisma}
use base_api_nest_js.Crypto.{Crypto}
use base_api_nest_js.World.{
  World, User, OauthAccount, M, ◌>>=◌, ◌>>◌, pure, throw, gets, saved, or_throw, throw_if,
  audit_log, AuditEntry, Meta, text, unauthorized, bad_request, not_found, conflict, internal,
}
use base_api_nest_js.Users
use base_api_nest_js.Auth.Tokens.{TokenPair, Draw, issue_tokens}
use base_api_nest_js.Auth.Login.{truthy}
use base_api_nest_js.Workspaces.Create.{Ids, create_workspace}

pub data OauthIntent : Type 0 where
  login_intent link_intent : OauthIntent

-- OAuthStatePayload
pub record OauthStatePayload : Type 0 where
  pub provider : String
  pub intent : OauthIntent
  pub user_id : Option ℕ
  pub nonce : ℕ

pub record OauthProfile : Type 0 where
  pub provider_id : String
  pub email : String
  pub name : String

-- HandleCallbackInput, with what the state and the code give.
pub record HandleCallbackInput : Type 0 where
  pub provider : String
  pub state : Option OauthStatePayload
  pub profile : Option OauthProfile
  pub expected_nonce_hash : Option ℕ
  pub user_agent : Option String
  pub ip_address : Option String

-- OAuthLoginResult and OAuthLinkResult.
pub data CallbackResult : Type 0 where
  logged_in : TokenPair → CallbackResult
  linked : (account_id : ℕ) (provider : String) → CallbackResult

-- What the database and the random source draw for a sign-up or a link.
pub record SignupDraw : Type 0 where
  pub user : ℕ
  pub account : ℕ
  pub workspace : Ids
  pub slug : String

abbrev pub put_oauth_accounts : List OauthAccount → World → World
put_oauth_accounts rows w = record w { oauth_accounts = rows }

-- The unique columns of the table.
abbrev pub same_account : OauthAccount → OauthAccount → Bool
same_account a b =
    a.id == b.id || (str_eq a.provider b.provider && str_eq a.provider_id b.provider_id)

abbrev pub oauth_entry : ℕ → String → Option ℕ → String → AuditEntry
oauth_entry user_id action account provider = record {
  user_id = some user_id;
  action = action;
  resource = elim account [ none ↦ none | some id ↦ some "OAuthAccount" ];
  resource_id = account;
  metadata = ("provider", text provider) ∷ [];
  ip_address = none;
  user_agent = none;
}

abbrev pub belongs : ℕ → OauthAccount → Bool
belongs user_id a = a.user_id == user_id

-- `input.expectedNonceHash && hashToken(state.nonce) === input.expectedNonceHash`
abbrev pub from_this_browser : Crypto → OauthStatePayload → Option ℕ → Bool
from_this_browser c state none = false
from_this_browser c state (some hash) = c.hash_token state.nonce == hash

module _ ⦃p : Prisma⦄ where
  unfoldable pub create : OauthAccount → M OauthAccount
  create a = do
    rows ← gets (λ w. p.create same_account a w.oauth_accounts)
    saved put_oauth_accounts rows
    pure a

  unfoldable pub find_by_provider_identity : String → String → M (Option OauthAccount)
  find_by_provider_identity provider provider_id = gets (λ w.
      p.find (λ a. str_eq a.provider provider && str_eq a.provider_id provider_id) w.oauth_accounts)

  -- The order of the rows, which no use case below depends on, is left out.
  unfoldable pub find_by_user_id : ℕ → M (List OauthAccount)
  find_by_user_id user_id = gets (λ w. p.find_many (belongs user_id) w.oauth_accounts)

  unfoldable pub find_by_id_and_user : ℕ → ℕ → M (Option OauthAccount)
  find_by_id_and_user id user_id =
      gets (λ w. p.find (λ a. a.id == id && belongs user_id a) w.oauth_accounts)

  unfoldable pub delete : ℕ → M (Unit {0})
  delete id = do
    rows ← gets (λ w. p.delete (λ a. a.id == id) w.oauth_accounts)
    saved put_oauth_accounts rows

  -- UnlinkOAuthAccountUseCase
  unfoldable pub unlink_oauth_account : ℕ → ℕ → M (Unit {0})
  unfolding find_by_id_and_user find_by_user_id delete
  unlink_oauth_account user_id account_id = do
    found ← find_by_id_and_user account_id user_id
    account ← or_throw (not_found "OAuth account not found") found
    owner ← Users.find_by_id user_id
    user ← or_throw (not_found "User not found") owner
    remaining ← find_by_user_id user_id
    throw_if (not (truthy user.password_hash) && leb (length remaining) 1)
        (bad_request "Cannot unlink the only sign-in method. Set a password first.")
    delete account_id
    audit_log (oauth_entry user_id "oauth.account.unlinked" (some account_id) account.provider)

  unfoldable pub link_to_user : ℕ → ℕ → ℕ → String → OauthProfile → M CallbackResult
  unfolding find_by_provider_identity create
  link_to_user now id user_id provider profile = do
    found ← find_by_provider_identity provider profile.provider_id
    elim found [
      | some existing ↦ do
        throw_if (not (existing.user_id == user_id))
            (conflict "This OAuth account is already linked to another user")
        pure (linked existing.id provider)
      | none ↦ do
        account ← create (record {
          id = id;
          provider = provider;
          provider_id = profile.provider_id;
          user_id = user_id;
          created_at = now;
        })
        audit_log (oauth_entry user_id "oauth.account.linked" (some account.id) provider)
        pure (linked account.id provider)
    ]

  -- The part of `loginOrSignup` for a new user, before the tokens.
  unfoldable pub signup : ℕ → SignupDraw → String → OauthProfile → M User
  unfolding create
  signup now draws provider profile = do
    user ← Users.create now (record {
      id = draws.user;
      email = profile.email;
      name = profile.name;
      password_hash = none;
      email_verified_at = some now;
    })
    create_workspace now draws.workspace draws.slug (record {
      user_id = user.id;
      name = String.◌++◌ user.name "'s Workspace";
      is_personal = some true;
    })
    create (record {
      id = draws.account;
      provider = provider;
      provider_id = profile.provider_id;
      user_id = user.id;
      created_at = now;
    })
    audit_log (oauth_entry user.id "oauth.signup" none provider)
    pure user

  unfoldable pub login_or_signup :
      Crypto → ℕ → Draw → SignupDraw → HandleCallbackInput → OauthProfile → M CallbackResult
  unfolding find_by_provider_identity signup
  login_or_signup c now draw draws input profile = do
    found ← find_by_provider_identity input.provider profile.provider_id
    elim found [
      | some account ↦ do
        tokens ← issue_tokens c now draw account.user_id input.user_agent input.ip_address
        audit_log (oauth_entry account.user_id "oauth.login" none input.provider)
        pure (logged_in tokens)
      | none ↦ do
        by_email ← Users.find_by_email profile.email
        throw_if (is_some by_email) (
            conflict
              "An account with this email already exists. Sign in and link your OAuth account from settings.")
        user ← signup now draws input.provider profile
        tokens ← issue_tokens c now draw user.id input.user_agent input.ip_address
        pure (logged_in tokens)
    ]

  -- HandleOAuthCallbackUseCase
  unfoldable pub handle_oauth_callback :
      Crypto → ℕ → Draw → SignupDraw → HandleCallbackInput → M CallbackResult
  unfolding link_to_user login_or_signup
  handle_oauth_callback c now draw draws input = do
    state ← or_throw (unauthorized "Invalid or expired OAuth state") input.state
    throw_if (not (str_eq state.provider input.provider))
        (unauthorized "OAuth state does not match provider")
    throw_if (not (from_this_browser c state input.expected_nonce_hash))
        (unauthorized "OAuth state was not initiated from this browser")
    profile ← or_throw (internal "Error") input.profile
    elim state.intent [
      | link_intent ↦ elim state.user_id [
        | none ↦ throw (bad_request "Missing user for link intent")
        | some user_id ↦ link_to_user now draws.account user_id input.provider profile
      ]
      | login_intent ↦ login_or_signup c now draw draws input profile
    ]
