-- ===== src/Oauth/Flow/Linked.antt =====
-- To whom a flow that began with a link adds an account.
use base_api_nest_js.Base.{
  ℕ, ◌≡◌, refl, arith, String, Bool, true, false, not, ◌&&◌, ◌==◌, ◌⊎◌, inl, inr, str_eq, eq_iff,
  ==_iff, is_some, Option, none, some, Option-cases, Bool-cases, Has, Has-last, ◌++◌, ◌∷◌, [], sym,
}
use text.Mathlib.TextPositions.{eq_refl}
use base_api_nest_js.Prisma.{Prisma}
use base_api_nest_js.Prisma.Laws.{find_Has, find_test, create_rows}
use base_api_nest_js.Crypto.{Crypto}
use base_api_nest_js.World.{World, User, OauthAccount, ok, is_ok, Result-cases}
use base_api_nest_js.Users
use base_api_nest_js.Auth.Tokens.{Draw}
use base_api_nest_js.Auth.Keys.{Jwt, Keyring, TokenSettings, sign_state, verify_state}
use base_api_nest_js.Auth.Keys.Apart.{state_own}
use base_api_nest_js.Oauth.{
  link_intent, OauthStatePayload, OauthProfile, HandleCallbackInput, CallbackResult, linked,
  SignupDraw, from_this_browser, find_by_provider_identity, link_to_user, handle_oauth_callback,
  create, same_account,
}
use base_api_nest_js.Oauth.Callback.{is_identity, nonce_hash}
use base_api_nest_js.Oauth.Flow.{
  StateCookie, CallbackBody, link_body, read_oauth_state_cookie, is_confirmed, confirm_link,
  registry_get, is_oauth_provider_name, start_oauth, link_start, callback, state_or_none, body_of,
}

abbrev pub link_payload : String → ℕ → ℕ → OauthStatePayload
link_payload provider user_id nonce = record {
  provider = provider;
  intent = link_intent;
  user_id = some user_id;
  nonce = nonce;
}

module _ ⦃p : Prisma⦄ where
  -- What a link leaves.
  abbrev pub Links : ℕ → String → OauthProfile → World → CallbackResult → Type 0
  Links user_id provider profile w r =
      (account : OauthAccount) × Has account w.oauth_accounts
      × (is_identity provider profile.provider_id account ≡ true)
      × (account.user_id ≡ user_id)
      × (r ≡ linked account.id provider)

  link_to_user-Links :
      (now id user_id : ℕ) (provider : String) (profile : OauthProfile) (w : World)
      (r : CallbackResult)
      → (link_to_user now id user_id provider profile w).0 ≡ ok r
      → Links user_id provider profile (link_to_user now id user_id provider profile w).1 r
  unfolding link_to_user find_by_provider_identity create
  link_to_user-Links now id user_id provider profile w r e =
      let test = is_identity provider profile.provider_id in
      elim (Option-cases (p.find test w.oauth_accounts)) [
        | inr (account, found) ↦ elim (Bool-cases (account.user_id == user_id)) [
          | inl same ↦
              let kept : (link_to_user now id user_id provider profile w).1.oauth_accounts
                  ≡ w.oauth_accounts =
                ground arith in
              (
                account,
                rw kept (find_Has test w.oauth_accounts account found),
                find_test test w.oauth_accounts account found,
                (==_iff account.user_id user_id).0 same,
                ground arith,
              )
          | inr other ↦ absurd (ground arith)
        ]
        | inl unlinked ↦
            let new : OauthAccount = record {
              id = id;
              provider = provider;
              provider_id = profile.provider_id;
              user_id = user_id;
              created_at = now;
            } in
            elim (Option-cases (p.create same_account new w.oauth_accounts)) [
              | inl clash ↦ absurd (ground arith)
              | inr (rows, made) ↦
                  let added : (link_to_user now id user_id provider profile w).1.oauth_accounts
                      ≡ w.oauth_accounts ++ new ∷ [] =
                    rw (sym (create_rows same_account new w.oauth_accounts rows made).1)
                      (ground arith) in
                  (
                    new,
                    rw added (Has-last new w.oauth_accounts),
                    rw (eq_refl provider, eq_refl profile.provider_id) refl,
                    refl,
                    ground arith,
                  )
            ]
      ]

  handle_oauth_callback-Links :
      (c : Crypto) (now : ℕ) (draw : Draw) (draws : SignupDraw) (input : HandleCallbackInput)
      (w : World) (provider : String) (user_id nonce : ℕ) (r : CallbackResult)
      → input.state ≡ some (link_payload provider user_id nonce)
      → (handle_oauth_callback c now draw draws input w).0 ≡ ok r
      → (profile : OauthProfile) × (input.profile ≡ some profile)
        × (input.provider ≡ provider)
        × (input.expected_nonce_hash ≡ some (c.hash_token nonce))
        × Links user_id input.provider profile (handle_oauth_callback c now draw draws input w).1 r
  unfolding handle_oauth_callback
  handle_oauth_callback-Links c now draw draws input w provider user_id nonce r es e =
      let state = link_payload provider user_id nonce in
      elim (Bool-cases (str_eq provider input.provider)) [
        | inr other ↦ absurd (ground arith)
        | inl same ↦ elim (Bool-cases (from_this_browser c state input.expected_nonce_hash)) [
          | inr foreign ↦ absurd (ground arith)
          | inl ours ↦ elim (Option-cases input.profile) [
            | inl refused ↦ absurd (ground arith)
            | inr (profile, ep) ↦
                let whole : handle_oauth_callback c now draw draws input w
                    ≡ link_to_user now draws.account user_id input.provider profile w =
                  ground arith in
                let done = rw whole at e in
                (
                  profile,
                  ep,
                  sym ((eq_iff provider input.provider).0 same),
                  nonce_hash c state input.expected_nonce_hash ours,
                  rw whole (
                      link_to_user-Links now draws.account user_id input.provider profile w r done),
                )
          ]
        ]
      ]

  refused_callback :
      (c : Crypto) (now : ℕ) (draw : Draw) (draws : SignupDraw) (input : HandleCallbackInput)
      (w : World)
      → input.state ≡ none
      → is_ok (handle_oauth_callback c now draw draws input w).0 ≡ false
  unfolding handle_oauth_callback
  refused_callback c now draw draws input w absent = ground arith

is_confirmed_lem :
    (c : Crypto) (password : String) (found : Option User)
    → is_confirmed c password found ≡ true
    → (user : User) × (found ≡ some user)
      × (hash : String) × (user.password_hash ≡ some hash)
      × (str_eq hash "" ≡ false)
      × (c.verify_password hash password ≡ true)
is_confirmed_lem c password none e = absurd (ground arith)
is_confirmed_lem c password (some user) e = elim (Option-cases user.password_hash) [
  | inl nothing ↦ absurd (ground arith)
  | inr (hash, has) ↦ let read = rw has at e in (user, refl, hash, has, ground arith, ground arith)
]

module _ (is_configured : String → Bool) (c : Crypto) (j : Jwt) (s : TokenSettings)
    ⦃p : Prisma⦄ where
  link_started :
      (k : Keyring) (now nonce : ℕ) (provider password : String) (user_id : ℕ) (w : World)
      {token : j.Token} {cookie : Option StateCookie}
      → (link_start is_configured c j s k now nonce provider password user_id w).0
        ≡ ok (token, cookie)
      → (is_confirmed c password
            (p.find (λ (u : User). u.id == user_id && not (is_some u.deleted_at)) w.users)
          ≡ true)
        × (token ≡ sign_state j s k now (link_payload provider user_id nonce))
  unfolding link_start start_oauth confirm_link registry_get Users.find_by_id
  link_started k now nonce provider password user_id w {token} {cookie} e =
      elim (Bool-cases (is_oauth_provider_name provider)) [
        | inr unknown ↦ absurd (ground arith)
        | inl known ↦
            elim (Bool-cases (
              is_confirmed c password
                (p.find (λ (u : User). u.id == user_id && not (is_some u.deleted_at)) w.users))) [
                  | inr refused ↦ absurd (ground arith)
                  | inl confirmed ↦ (confirmed, ground arith)
                ]
      ]

  state_given :
      (k later : Keyring) (at now : ℕ) (payload : OauthStatePayload)
      → let given = state_or_none (verify_state j s later now (sign_state j s k at payload)) in
        (given ≡ none) ⊎ (given ≡ some payload)
  state_given k later at now payload =
      elim (Result-cases (verify_state j s later now (sign_state j s k at payload))) [
        | inr (x, refused) ↦ inl (rw refused refl)
        | inl (x, given) ↦ inr (rw (given, state_own j s k later at now payload given) refl)
      ]

  -- A callback that answers without an error to a flow that began with a link came for the same provider and
  -- with the cookie of the flow; the user who began it confirmed the password, and the provider's identity is
  -- now linked to that user, whatever happened in between and whoever sent the callback.
  pub link_confirmed :
      (k later : Keyring) (at now nonce : ℕ) (provider password : String) (user_id : ℕ)
      (w w' : World) (draw : Draw) (draws : SignupDraw) (to : String)
      (profile : Option OauthProfile) (cookie' : Option StateCookie) (agent ip : Option String)
      {token : j.Token} {cookie : Option StateCookie} {body : CallbackBody}
      → (link_start is_configured c j s k at nonce provider password user_id w).0
        ≡ ok (token, cookie)
      → (callback is_configured c j s later now draw draws to token profile cookie' agent ip w').0.0
        ≡ ok body
      → ((user : User) × (p.find
              (λ (u : User). u.id == user_id && not (is_some u.deleted_at))
              w.users
            ≡ some user)
          × (hash : String) × (user.password_hash ≡ some hash)
          × (str_eq hash "" ≡ false)
          × (c.verify_password hash password ≡ true))
        × (to ≡ provider)
        × (read_oauth_state_cookie now cookie' ≡ some (c.hash_token nonce))
        × (identity : OauthProfile) × (profile ≡ some identity)
        × (account : OauthAccount) × Has account
            (callback is_configured c j s later now draw draws to token profile cookie' agent ip
              w').1.oauth_accounts
        × (is_identity provider identity.provider_id account ≡ true)
        × (account.user_id ≡ user_id)
        × (body ≡ link_body account.id provider)
  unfolding callback
  link_confirmed k later at now nonce provider password user_id w w' draw draws to profile cookie'
        agent ip {token} {cookie} {body} began e =
      let (passed, is) = link_started k at nonce provider password user_id w began in
      let confirmed =
        is_confirmed_lem c password
          (p.find (λ (u : User). u.id == user_id && not (is_some u.deleted_at)) w.users) passed in
      let input : HandleCallbackInput = record {
        provider = to;
        state = state_or_none (verify_state j s later now token);
        profile = profile;
        expected_nonce_hash = read_oauth_state_cookie now cookie';
        user_agent = agent;
        ip_address = ip;
      } in
      let answer =
        callback is_configured c j s later now draw draws to token profile cookie' agent ip w' in
      elim (Result-cases (handle_oauth_callback c now draw draws input w').0) [
        | inr (x, failed) ↦ absurd (ground arith)
        | inl (r, done) ↦ elim (state_given k later at now (link_payload provider user_id nonce)) [
          | inl refused ↦
              let absent : input.state ≡ none = rw (is, refused) refl in
              absurd
                (let read = refused_callback c now draw draws input w' absent in cc (read, done))
          | inr given ↦
              let present : input.state ≡ some (link_payload provider user_id nonce) =
                rw (is, given) refl in
              let (identity, ep, same, ours, (account, has, its, mine, linked_to)) =
                handle_oauth_callback-Links c now draw draws input w' provider user_id nonce r
                  present done in
              let world : answer.1 ≡ (handle_oauth_callback c now draw draws input w').1 =
                ground arith in
              let told : body ≡ body_of r = ground arith in
              (
                confirmed,
                same,
                ours,
                identity,
                ep,
                account,
                rw world has,
                rw same at its,
                mine,
                rw (told, linked_to, same) refl,
              )
        ]
      ]
