-- ===== src/Oauth/Callback.antt =====
-- As whom the callback signs in: src/modules/oauth/use-cases/handle-oauth-callback.use-case.ts.
use base_api_nest_js.Base.{
  ℕ, ◌≡◌, ◌⊎◌, inl, inr, refl, arith, String, Bool, true, not, ◌&&◌, ==_iff, str_eq, eq_iff,
  is_some, Option, none, some, Option-cases, Bool-cases,
}
use base_api_nest_js.Prisma.{Prisma}
use base_api_nest_js.Crypto.{Crypto}
use base_api_nest_js.World.{World, User, OauthAccount, ok, Result-cases}
use base_api_nest_js.Users
use base_api_nest_js.Auth.Tokens.{TokenPair, Draw, issue_tokens}
use base_api_nest_js.Oauth.{
  OauthIntent, login_intent, link_intent, OauthStatePayload, OauthProfile, HandleCallbackInput,
  logged_in, SignupDraw, from_this_browser, find_by_provider_identity, link_to_user, signup,
  login_or_signup, handle_oauth_callback, create,
}

abbrev pub is_identity : String → String → OauthAccount → Bool
is_identity provider provider_id a = str_eq a.provider provider && str_eq a.provider_id provider_id

abbrev pub has_email : String → User → Bool
has_email email u = str_eq u.email email && not (is_some u.deleted_at)

Intent-cases : (i : OauthIntent) → (i ≡ login_intent) ⊎ (i ≡ link_intent)
Intent-cases login_intent = inl refl
Intent-cases link_intent = inr refl

pub nonce_hash :
    (c : Crypto) (state : OauthStatePayload) (expected : Option ℕ)
    → from_this_browser c state expected ≡ true
    → expected ≡ some (c.hash_token state.nonce)
nonce_hash c state none h = absurd (ground arith)
nonce_hash c state (some hash) h =
    let same = (==_iff (c.hash_token state.nonce) hash).0 h in rw same refl

module _ ⦃p : Prisma⦄ where
  issue_tokens-sub :
      (c : Crypto) (now : ℕ) (draw : Draw) (user_id : ℕ) (agent ip : Option String) (w : World)
      (pair : TokenPair)
      → (issue_tokens c now draw user_id agent ip w).0 ≡ ok pair
      → pair.access_token.sub ≡ user_id
  unfolding issue_tokens
  issue_tokens-sub c now draw user_id agent ip w pair e = ground arith

  signup-id :
      (now : ℕ) (draws : SignupDraw) (provider : String) (profile : OauthProfile) (w : World)
      (user : User)
      → (signup now draws provider profile w).0 ≡ ok user
      → user.id ≡ draws.user
  unfolding signup Users.create
  signup-id now draws provider profile w user e = ground arith

  -- The two users that a login through a provider may be for.
  abbrev pub SignsIn : SignupDraw → HandleCallbackInput → OauthProfile → World → TokenPair → Type 0
  SignsIn draws input profile w pair =
      ((account : OauthAccount) × (p.find (is_identity input.provider profile.provider_id)
            w.oauth_accounts
          ≡ some account)
        × (pair.access_token.sub ≡ account.user_id))
      ⊎ ((p.find (is_identity input.provider profile.provider_id) w.oauth_accounts ≡ none)
          × (p.find (has_email profile.email) w.users ≡ none)
          × (pair.access_token.sub ≡ draws.user))

  login_or_signup_identity :
      (c : Crypto) (now : ℕ) (draw : Draw) (draws : SignupDraw) (input : HandleCallbackInput)
      (profile : OauthProfile) (w : World) (pair : TokenPair)
      → (login_or_signup c now draw draws input profile w).0 ≡ ok (logged_in pair)
      → SignsIn draws input profile w pair
  unfolding login_or_signup find_by_provider_identity Users.find_by_email
  login_or_signup_identity c now draw draws input profile w pair e =
      elim (Option-cases
        (p.find (is_identity input.provider profile.provider_id) w.oauth_accounts)) [
          | inr (account, found) ↦
              elim (Result-cases
                (issue_tokens c now draw account.user_id input.user_agent input.ip_address w).0) [
                  | inr (x, failed) ↦ absurd (ground arith)
                  | inl (tokens, done) ↦
                      let sub =
                        issue_tokens-sub c now draw account.user_id input.user_agent
                          input.ip_address w tokens done in
                      inl (account, found, ground arith)
                ]
          | inl unlinked ↦ elim (Option-cases (p.find (has_email profile.email) w.users)) [
            | inr (other, taken) ↦ absurd (ground arith)
            | inl free ↦ elim (Result-cases (signup now draws input.provider profile w).0) [
              | inr (x, failed) ↦ absurd (ground arith)
              | inl (user, made) ↦
                  let id = signup-id now draws input.provider profile w user made in
                  let w' = (signup now draws input.provider profile w).1 in
                  elim (Result-cases
                    (issue_tokens c now draw user.id input.user_agent input.ip_address w').0) [
                      | inr (x, failed) ↦ absurd (ground arith)
                      | inl (tokens, done) ↦
                          let sub =
                            issue_tokens-sub c now draw user.id input.user_agent input.ip_address w'
                              tokens done in
                          inr (unlinked, free, ground arith)
                    ]
            ]
          ]
        ]

  link_no_tokens :
      (now id user_id : ℕ) (provider : String) (profile : OauthProfile) (w : World)
      (pair : TokenPair)
      → (link_to_user now id user_id provider profile w).0 ≡ ok (logged_in pair)
      → ⊥
  unfolding link_to_user find_by_provider_identity create
  link_no_tokens now id user_id provider profile w pair e = ground arith

  callback_login :
      (c : Crypto) (now : ℕ) (draw : Draw) (draws : SignupDraw) (input : HandleCallbackInput)
      (w : World) (state : OauthStatePayload) (profile : OauthProfile) (pair : TokenPair)
      → input.state ≡ some state
      → str_eq state.provider input.provider ≡ true
      → from_this_browser c state input.expected_nonce_hash ≡ true
      → input.profile ≡ some profile
      → (handle_oauth_callback c now draw draws input w).0 ≡ ok (logged_in pair)
      → (login_or_signup c now draw draws input profile w).0 ≡ ok (logged_in pair)
  unfolding handle_oauth_callback
  callback_login c now draw draws input w state profile pair es same ours ep e =
      elim (Intent-cases state.intent) [
        | inl signs_in ↦ ground arith
        | inr links ↦ elim (Option-cases state.user_id) [
          | inl nobody ↦ absurd (ground arith)
          | inr (user_id, eu) ↦ absurd (
              link_no_tokens now draws.account user_id input.provider profile w pair (ground arith))
        ]
      ]

  -- A callback that signs in came with a valid state for this provider, from the browser that asked for
  -- it, and the tokens are those of the user to whom the provider's identity is linked; without such a
  -- link they are those of a new user, and then no user that is not deleted has the profile's email.
  pub callback_identity :
      (c : Crypto) (now : ℕ) (draw : Draw) (draws : SignupDraw) (input : HandleCallbackInput)
      (w : World) (pair : TokenPair)
      → (handle_oauth_callback c now draw draws input w).0 ≡ ok (logged_in pair)
      → (state : OauthStatePayload) × (profile : OauthProfile) × (input.state ≡ some state)
        × (input.profile ≡ some profile)
        × (state.provider ≡ input.provider)
        × (input.expected_nonce_hash ≡ some (c.hash_token state.nonce))
        × SignsIn draws input profile w pair
  unfolding handle_oauth_callback
  callback_identity c now draw draws input w pair e = elim (Option-cases input.state) [
    | inl invalid ↦ absurd (ground arith)
    | inr (state, es) ↦ elim (Bool-cases (str_eq state.provider input.provider)) [
      | inr other ↦ absurd (ground arith)
      | inl same ↦ elim (Bool-cases (from_this_browser c state input.expected_nonce_hash)) [
        | inr foreign ↦ absurd (ground arith)
        | inl ours ↦ elim (Option-cases input.profile) [
          | inl refused ↦ absurd (ground arith)
          | inr (profile, ep) ↦
              let answered =
                callback_login c now draw draws input w state profile pair es same ours ep e in
              (
                state,
                profile,
                es,
                ep,
                (eq_iff state.provider input.provider).0 same,
                nonce_hash c state input.expected_nonce_hash ours,
                login_or_signup_identity c now draw draws input profile w pair answered,
              )
        ]
      ]
    ]
  ]
