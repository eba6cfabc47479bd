-- ===== src/Auth/Login.antt =====
-- LoginUseCase: src/modules/auth/use-cases/login.use-case.ts.
pub mod Guards
pub mod Lockout
use base_api_nest_js.Base.{
  ℕ, ◌+◌, ◌*◌, String, Bool, true, false, Option, none, some, List, [], ◌∷◌, not, ◌||◌, ltb, leb,
  ◌==◌, str_eq, is_some, if◌then◌else◌,
}
use base_api_nest_js.Prisma.{Prisma}
use base_api_nest_js.Crypto.{Crypto}
use base_api_nest_js.World.{
  World, User, M, ◌>>=◌, ◌>>◌, pure, throw, when, count_metric, audit_log, Meta, text, number, date,
  AuditEntry, unauthorized, forbidden, locked, HttpError,
}
use base_api_nest_js.Users
use base_api_nest_js.Auth.Tokens.{TokenPair, Draw, issue_tokens}

pub record LoginInput : Type 0 where
  pub email : String
  pub password : String
  pub user_agent : Option String
  pub ip_address : Option String

-- The challenge token is shown by the user that it names.
pub data LoginResult : Type 0 where
  tokens : TokenPair → LoginResult
  requires_2fa : ℕ → LoginResult

abbrev pub max_failed_login_attempts : ℕ
max_failed_login_attempts = 5

abbrev pub lockout_duration_ms : ℕ
lockout_duration_ms = 15 * 60 * 1000

abbrev pub account_locked : HttpError
account_locked =
    locked "Account temporarily locked due to too many failed login attempts. Try again later."

-- A nullable text as a condition: null and "" are false.
abbrev pub truthy : Option String → Bool
truthy none = false
truthy (some s) = not (str_eq s "")

-- `user.lockedUntil && user.lockedUntil > new Date()`
abbrev pub is_locked : ℕ → User → Bool
is_locked now u = elim u.locked_until [ none ↦ false | some until ↦ ltb now until ]

abbrev pub or_zero : Option ℕ → ℕ
or_zero none = 0
or_zero (some n) = n

-- `CryptoUtil.verifyPassword(user.passwordHash, …)`, false for a user without a password.
abbrev pub password_ok : Crypto → User → String → Bool
password_ok c u given = elim u.password_hash [ none ↦ false | some h ↦ c.verify_password h given ]

abbrev pub login_entry : LoginInput → Option ℕ → String → List (String × Meta) → AuditEntry
login_entry input user_id action metadata = record {
  user_id = user_id;
  action = action;
  resource = none;
  resource_id = none;
  metadata = metadata;
  ip_address = input.ip_address;
  user_agent = input.user_agent;
}

-- The rest of a failed attempt, after the counter was raised to `attempts`.
abbrev pub failure_action : Bool → String
failure_action true = "auth.account.locked"
failure_action false = "auth.login.failure"

module _ ⦃p : Prisma⦄ where
  unfoldable pub unknown_user : LoginInput → M LoginResult
  unknown_user input = do
    count_metric "login" "failure"
    audit_log (
        login_entry input none "auth.login.failure"
          (("reason", text "unknown_email") ∷ ("email", text input.email) ∷ []))
    throw (unauthorized "Invalid credentials")

  unfoldable pub locked_user : LoginInput → User → M LoginResult
  locked_user input user = do
    count_metric "login" "failure"
    audit_log (
        login_entry input (some user.id) "auth.login.failure" (
          ("reason", text "account_locked")
          ∷ ("lockedUntil", date (or_zero user.locked_until))
          ∷ []))
    throw account_locked

  unfoldable pub wrong_password : ℕ → LoginInput → User → M LoginResult
  wrong_password now input user = do
    count_metric "login" "failure"
    attempts ← Users.increment_failed_login_attempts user.id
    let just_locked = leb max_failed_login_attempts attempts
    when just_locked (Users.lock_account user.id (now + lockout_duration_ms))
    audit_log (
        login_entry input (some user.id) (failure_action just_locked) (
          ("reason", text "invalid_password")
          ∷ ("email", text input.email)
          ∷ ("attempts", number attempts)
          ∷ []))
    throw (unauthorized "Invalid credentials")

  unfoldable pub unverified_email : LoginInput → User → M LoginResult
  unverified_email input user = do
    count_metric "login" "failure"
    audit_log (
        login_entry input (some user.id) "auth.login.failure"
          (("reason", text "email_not_verified") ∷ []))
    throw (forbidden "Email not verified. Check your inbox for the verification link.")

  -- From the point where the email is known to be verified.
  unfoldable pub verified : Crypto → ℕ → Draw → LoginInput → User → M LoginResult
  verified c now draw input user = do
    when (ltb 0 user.failed_login_attempts || is_some user.locked_until)
        (Users.reset_failed_login_attempts user.id)
    if user.two_factor_enabled
        then count_metric "login" "requires_2fa" >> pure (requires_2fa user.id)
        else count_metric "login" "success" >> do
          pair ← issue_tokens c now draw user.id input.user_agent input.ip_address
          pure (tokens pair)

  -- From the point where the password is known to be right.
  unfoldable pub admitted : Crypto → ℕ → Draw → LoginInput → User → M LoginResult
  unfolding unverified_email verified
  admitted c now draw input user = do
    when (is_some user.deleted_at) (Users.restore user.id)
    if is_some user.email_verified_at
        then verified c now draw input user
        else unverified_email input user

  unfoldable pub known_user : Crypto → ℕ → Draw → LoginInput → Option User → M LoginResult
  unfolding unknown_user locked_user wrong_password admitted
  known_user c now draw input none = unknown_user input
  known_user c now draw input (some user) =
      if not (truthy user.password_hash)
      then unknown_user input
      else if is_locked now user
      then locked_user input user
      else if password_ok c user input.password
      then admitted c now draw input user
      else wrong_password now input user

  unfoldable pub login : Crypto → ℕ → Draw → LoginInput → M LoginResult
  unfolding known_user
  login c now draw input = do
    user ← Users.find_by_email_including_deleted input.email
    known_user c now draw input user
