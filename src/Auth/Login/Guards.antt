-- ===== src/Auth/Login/Guards.antt =====
-- What a login must have passed before a session exists.
use base_api_nest_js.Base.{
  ℕ, ◌≡◌, refl, true, false, Option, none, some, arith, is_some, not, Option-cases, Bool-cases, inl,
  inr, ◌==◌, Has, str_eq, ◌&&◌, eq_iff,
}
use base_api_nest_js.Prisma.{Prisma}
use base_api_nest_js.Crypto.{Crypto}
use base_api_nest_js.World.{World, User, Session, Result, ok, err}
use base_api_nest_js.Sessions
use base_api_nest_js.Sessions.{same_key, put_sessions}
use base_api_nest_js.Sessions.Manage.{create_session, new_session}
use base_api_nest_js.Users
use base_api_nest_js.Auth.Tokens.{TokenPair, Draw, issue_tokens, sign_access_token}
use base_api_nest_js.Auth.Login.{
  LoginInput, LoginResult, tokens, requires_2fa, truthy, is_locked, password_ok, unknown_user,
  locked_user, wrong_password, verified, admitted, known_user, login,
}

-- The session row that a login adds for the user.
abbrev pub login_session : Crypto → ℕ → Draw → LoginInput → User → Session
login_session c now draw input user = new_session c now (record {
  id = draw.session_id;
  user_id = user.id;
  refresh_token = draw.refresh_token;
  user_agent = input.user_agent;
  ip_address = input.ip_address;
})

-- All that stands between a found user and a pair of tokens.
pub record MaySignIn (c : Crypto) (now : ℕ) (input : LoginInput) (user : User) : Type 0 where
  pub password : password_ok c user input.password ≡ true
  pub unlocked : is_locked now user ≡ false
  pub email : is_some user.email_verified_at ≡ true
  pub no_second_factor : user.two_factor_enabled ≡ false

abbrev pub login_pair : ℕ → Draw → User → TokenPair
login_pair now draw user = record {
  access_token = sign_access_token now user.id draw.session_id;
  refresh_token = draw.refresh_token;
}

-- The table of sessions, and the tokens, that a login which answers with tokens leaves.
abbrev pub Granted :
    ⦃p : Prisma⦄ → Crypto → ℕ → Draw → LoginInput → User → World → World → TokenPair → Type 0
Granted ⦃p⦄ c now draw input user w w' pair =
    (p.create same_key (login_session c now draw input user) w.sessions ≡ some w'.sessions)
    × (pair ≡ login_pair now draw user)

-- The tokens that a login answers with, if it does.
abbrev pub tokens_of : Result LoginResult → Option TokenPair
tokens_of (ok (tokens pair)) = some pair
tokens_of (ok (requires_2fa user)) = none
tokens_of (err e) = none

abbrev cleared : User → User
cleared u = record u { deleted_at = none }

module _ ⦃p : Prisma⦄ where
  verified_tokens :
      (c : Crypto) (now : ℕ) (draw : Draw) (input : LoginInput) (user : User) (w : World)
      {pair : TokenPair}
      → (verified c now draw input user w).0 ≡ ok (tokens pair)
      → (user.two_factor_enabled ≡ false)
        × Granted c now draw input user w (verified c now draw input user w).1 pair
  unfolding verified Users.reset_failed_login_attempts issue_tokens create_session Sessions.create
  verified_tokens c now draw input user w e = ground arith

  verified_no_tokens :
      (c : Crypto) (now : ℕ) (draw : Draw) (input : LoginInput) (user : User) (w : World)
      → tokens_of (verified c now draw input user w).0 ≡ none
      → (verified c now draw input user w).1.sessions ≡ w.sessions
  unfolding verified Users.reset_failed_login_attempts issue_tokens create_session Sessions.create
  verified_no_tokens c now draw input user w e = ground arith

  admitted_tokens :
      (c : Crypto) (now : ℕ) (draw : Draw) (input : LoginInput) (user : User) (w : World)
      {pair : TokenPair}
      → (admitted c now draw input user w).0 ≡ ok (tokens pair)
      → (is_some user.email_verified_at ≡ true)
        × (user.two_factor_enabled ≡ false)
        × Granted c now draw input user w (admitted c now draw input user w).1 pair
  unfolding admitted Users.restore
  admitted_tokens c now draw input user w {pair} e =
      elim (Option-cases (p.update (λ u. u.id == user.id) cleared w.users)) [
        | inl missing ↦ ground (arith, verified_tokens c now draw input user w {pair = pair})
        | inr (rows, er) ↦ ground (
          arith,
          verified_tokens c now draw input user w {pair = pair},
          verified_tokens c now draw input user (Users.put_users rows w) {pair = pair},
        )
      ]

  admitted_no_tokens :
      (c : Crypto) (now : ℕ) (draw : Draw) (input : LoginInput) (user : User) (w : World)
      → tokens_of (admitted c now draw input user w).0 ≡ none
      → (admitted c now draw input user w).1.sessions ≡ w.sessions
  unfolding admitted Users.restore
  admitted_no_tokens c now draw input user w e =
      elim (Option-cases (p.update (λ u. u.id == user.id) cleared w.users)) [
        | inl missing ↦ ground (arith, verified_no_tokens c now draw input user w)
        | inr (rows, er) ↦ ground (
          arith,
          verified_no_tokens c now draw input user w,
          verified_no_tokens c now draw input user (Users.put_users rows w),
        )
      ]

  -- A wrong password: an error, and no change in the sessions.
  wrong_password_refused :
      (now : ℕ) (input : LoginInput) (user : User) (w : World)
      → let (r, w') = wrong_password now input user w in
        (tokens_of r ≡ none) × (w'.sessions ≡ w.sessions)
  unfolding wrong_password Users.increment_failed_login_attempts Users.lock_account
  wrong_password_refused now input user w = (ground arith, ground arith)

  known_user_tokens :
      (c : Crypto) (now : ℕ) (draw : Draw) (input : LoginInput) (user : User) (w : World)
      {pair : TokenPair}
      → (known_user c now draw input (some user) w).0 ≡ ok (tokens pair)
      → MaySignIn c now input user
        × Granted c now draw input user w (known_user c now draw input (some user) w).1 pair
  unfolding known_user unknown_user locked_user
  known_user_tokens c now draw input user w {pair} e =
      let refused = (wrong_password_refused now input user w).0 in
      elim (Bool-cases (truthy user.password_hash)) [
        | inr unset ↦ absurd (ground arith)
        | inl set ↦ elim (Bool-cases (is_locked now user)) [
          | inl locked_now ↦ absurd (ground arith)
          | inr open_now ↦ elim (Bool-cases (password_ok c user input.password)) [
            | inr wrong ↦ absurd (ground (arith, refused))
            | inl right ↦
                let taken : known_user c now draw input (some user) w
                    ≡ admitted c now draw input user w =
                  rw (set, open_now, right) in
                let (mail, second, granted) =
                  admitted_tokens c now draw input user w {pair = pair} (rw taken at e) in
                (
                  record {
                    password = right;
                    unlocked = open_now;
                    email = mail;
                    no_second_factor = second;
                  },
                  rw taken granted,
                )
          ]
        ]
      ]

  known_user_no_tokens :
      (c : Crypto) (now : ℕ) (draw : Draw) (input : LoginInput) (found : Option User) (w : World)
      → tokens_of (known_user c now draw input found w).0 ≡ none
      → (known_user c now draw input found w).1.sessions ≡ w.sessions
  unfolding known_user
  known_user_no_tokens c now draw input none w e = refl
  known_user_no_tokens c now draw input (some user) w e =
      ground
        (arith, admitted_no_tokens c now draw input user w, wrong_password_refused now input user w)

  -- A login that answers with tokens found a user of that email that was not anonymized, checked
  -- the password, the lock, the email's verification and the absence of a second factor, and added
  -- one session of that user, to which the access token belongs.
  pub login_grants :
      (c : Crypto) (now : ℕ) (draw : Draw) (input : LoginInput) (w : World) {pair : TokenPair}
      → (login c now draw input w).0 ≡ ok (tokens pair)
      → (user : User) × Has user w.users
        × (user.email ≡ input.email)
        × (user.anonymized_at ≡ none)
        × MaySignIn c now input user
        × Granted c now draw input user w (login c now draw input w).1 pair
  unfolding login Users.find_by_email_including_deleted unknown_user
  login_grants c now draw input w e =
      let test = λ (u : User). str_eq u.email input.email && not (is_some u.anonymized_at) in
      elim (Option-cases (p.find test w.users)) [
        | inl missing ↦ absurd (ground arith)
        | inr (user, ef) ↦
            let (m, h) = p.find_some test w.users user ef in
            let (may, granted) = known_user_tokens c now draw input user w (rw ef at e) in
            (
              user,
              m,
              ground (arith, eq_iff user.email input.email),
              ground arith,
              may,
              rw ef granted,
            )
      ]

  -- A login that does not answer with tokens, by an error or by the challenge of a second factor,
  -- leaves the sessions as they were.
  login_no_tokens :
      (c : Crypto) (now : ℕ) (draw : Draw) (input : LoginInput) (w : World)
      → tokens_of (login c now draw input w).0 ≡ none
      → (login c now draw input w).1.sessions ≡ w.sessions
  unfolding login Users.find_by_email_including_deleted
  login_no_tokens c now draw input w e =
      known_user_no_tokens c now draw input
        (p.find (λ u. str_eq u.email input.email && not (is_some u.anonymized_at)) w.users) w e
