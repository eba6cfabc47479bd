-- ===== src/Auth/Recovery.antt =====
-- Verification of an email and reset of a password: the use cases verify-email,
-- request-email-verification, forgot-password, reset-password and cleanup-expired-tokens of
-- src/modules/auth/use-cases, over the two tables of one-time tokens and the password history.
pub mod SingleUse
pub mod Reset
pub mod Request
use base_api_nest_js.Base.{
  ℕ, ◌+◌, ◌*◌, ◌-◌, String, Bool, true, false, Option, none, some, List, [], ◌∷◌, ◌++◌, map, not,
  ◌&&◌, ◌||◌, ltb, ◌==◌, is_some, any, length, if◌then◌else◌,
}
use base_api_nest_js.Prisma.{Prisma}
use base_api_nest_js.Crypto.{Crypto}
use base_api_nest_js.World.{
  World, User, Token, PasswordHistory, M, ◌>>=◌, ◌>>◌, pure, throw, gets, saved, or_throw, throw_if,
  when, modify, enqueue, bad_request, not_found, ok,
}
use base_api_nest_js.Sessions
use base_api_nest_js.Sessions.{day_ms}
use base_api_nest_js.Users
use base_api_nest_js.Auth.Login.{truthy}

-- The emailVerifyToken and the passwordResetToken table, whose repositories are alike.
pub record TokenTable : Type 0 where
  pub rows : World → List Token
  pub put : List Token → World → World

abbrev pub email_verify : TokenTable
email_verify = record {
  rows = λ w. w.email_verify_tokens;
  put = λ rows w. record w { email_verify_tokens = rows };
}

abbrev pub password_reset : TokenTable
password_reset = record {
  rows = λ w. w.password_reset_tokens;
  put = λ rows w. record w { password_reset_tokens = rows };
}

abbrev pub same_key : Token → Token → Bool
same_key a b = a.id == b.id || a.token_hash == b.token_hash

-- `!record || record.usedAt || record.expiresAt < new Date()` for a record.
abbrev pub is_dead : ℕ → Token → Bool
is_dead now t = is_some t.used_at || ltb t.expires_at now

abbrev pub live_token : ℕ → Option Token → Option Token
live_token now none = none
live_token now (some t) = if is_dead now t then none else some t

abbrev pub new_token : Crypto → ℕ → ℕ → ℕ → ℕ → ℕ → Token
new_token c now ttl id user_id raw = record {
  id = id;
  user_id = user_id;
  token_hash = c.hash_token raw;
  expires_at = now + ttl;
  used_at = none;
  created_at = now;
}

abbrev pub pending_of : ℕ → Token → Bool
pending_of user_id t = t.user_id == user_id && not (is_some t.used_at)

module _ ⦃p : Prisma⦄ (table : TokenTable) where
  unfoldable pub create : Token → M (Unit {0})
  create t = do rows ← gets (λ w. p.create same_key t (table.rows w)); saved table.put rows

  unfoldable pub find_by_token_hash : ℕ → M (Option Token)
  find_by_token_hash h = gets (λ w. p.find (λ t. t.token_hash == h) (table.rows w))

  unfoldable pub mark_used : ℕ → ℕ → M (Unit {0})
  mark_used now id = do
    rows ←
        gets (λ w. p.update (λ t. t.id == id) (λ t. record t { used_at = some now }) (table.rows w))
    saved table.put rows

  unfoldable pub delete_pending_for_user : ℕ → M (Unit {0})
  delete_pending_for_user user_id =
      modify (λ w. table.put (p.delete_many (pending_of user_id) (table.rows w)) w)

  -- The cutoff is `retention_days` before now.
  unfoldable pub delete_expired : ℕ → ℕ → M ℕ
  delete_expired now retention_days w =
      let old = λ (t : Token). ltb (t.expires_at + retention_days * day_ms) now in
      (ok (length (p.find_many old (table.rows w))), table.put (p.delete_many old (table.rows w)) w)

-- The text of a password hash that was found to be there.
abbrev pub or_empty : Option String → String
or_empty none = ""
or_empty (some h) = h

abbrev pub own_hashes : Option String → List String
own_hashes none = []
own_hashes (some h) = if truthy (some h) then h ∷ [] else []

-- PrismaPasswordHistoriesRepository
abbrev pub new_history : ℕ → ℕ → ℕ → String → PasswordHistory
new_history now id user_id password_hash = record {
  id = id;
  user_id = user_id;
  password_hash = password_hash;
  created_at = now;
}

abbrev pub put_histories : List PasswordHistory → World → World
put_histories rows w = record w { password_histories = rows }

abbrev pub newest_of : ⦃p : Prisma⦄ → ℕ → ℕ → List PasswordHistory → List PasswordHistory
newest_of ⦃p⦄ user_id n rows = p.recent (λ h. h.user_id == user_id) (λ h. h.created_at) n rows

module _ ⦃p : Prisma⦄ where
  unfoldable pub find_recent_hashes : ℕ → ℕ → M (List String)
  find_recent_hashes user_id limit = gets (λ w.
      if limit == 0
      then []
      else map (λ (h : PasswordHistory). h.password_hash)
          (newest_of user_id limit w.password_histories))

  -- All rows of the user but the newest ones are deleted.
  abbrev pub pruned : ℕ → ℕ → List PasswordHistory → List PasswordHistory
  pruned user_id retain rows =
      let kept = newest_of user_id retain rows in
      if retain == 0
      then p.delete_many (λ h. h.user_id == user_id) rows
      else p.delete_many
          (λ h. h.user_id == user_id && not (any (λ (k : PasswordHistory). k.id == h.id) kept)) rows

  unfoldable pub record_history : ℕ → ℕ → ℕ → String → ℕ → M (Unit {0})
  record_history now id user_id password_hash retain = do
    rows ← gets (λ w.
        p.create (λ a b. a.id == b.id) (new_history now id user_id password_hash)
          w.password_histories)
    saved put_histories rows
    modify (λ w. put_histories (pruned user_id retain w.password_histories) w)

  -- VerifyEmailUseCase
  unfoldable pub verify_email : Crypto → ℕ → ℕ → M (Unit {0})
  verify_email c now raw = do
    found ← find_by_token_hash email_verify (c.hash_token raw)
    t ← or_throw (bad_request "Invalid or expired verification token") (live_token now found)
    Users.update t.user_id (λ u. record u { email_verified_at = some now })
    mark_used email_verify now t.id

  -- RequestEmailVerificationUseCase
  unfoldable pub request_email_verification : Crypto → ℕ → ℕ → ℕ → ℕ → M (Unit {0})
  request_email_verification c now id raw user_id = do
    found ← Users.find_by_id user_id
    user ← or_throw (not_found "User not found") found
    when (not (is_some user.email_verified_at)) (do
      delete_pending_for_user email_verify user_id
      create email_verify (new_token c now day_ms id user_id raw)
      enqueue (record { template = "verifyEmail"; to = user.email; token = raw }))

  -- ForgotPasswordUseCase: an unknown email is answered as a known one.
  unfoldable pub forgot_password : Crypto → ℕ → ℕ → ℕ → String → M (Unit {0})
  forgot_password c now id raw email = do
    found ← Users.find_by_email email
    elim found [
      | none ↦ pure tt
      | some user ↦ do
        delete_pending_for_user password_reset user.id
        create password_reset (new_token c now (60 * 60 * 1000) id user.id raw)
        enqueue (record { template = "passwordResetEmail"; to = user.email; token = raw })
    ]

  -- The hashes that a new password is held against.
  unfoldable pub previous_hashes : ℕ → User → M (List String)
  unfolding find_recent_hashes
  previous_hashes history_size user = do
    stored ← (if ltb 1 history_size then find_recent_hashes user.id (history_size - 1) else pure [])
    pure (own_hashes user.password_hash ++ stored)

  -- ResetPasswordUseCase, up to its first write: the token and its user.
  unfoldable pub check_reset : Crypto → ℕ → ℕ → ℕ → String → M (Token × User)
  unfolding previous_hashes find_recent_hashes
  check_reset c now history_size raw new_password = do
    found ← find_by_token_hash password_reset (c.hash_token raw)
    t ← or_throw (bad_request "Invalid or expired reset token") (live_token now found)
    owner ← Users.find_by_id t.user_id
    user ← or_throw (bad_request "Invalid or expired reset token") owner
    when (ltb 0 history_size) (do
      hashes ← previous_hashes history_size user
      throw_if (any (λ h. c.verify_password h new_password) hashes)
          (bad_request "Password cannot match any of the last passwords"))
    pure (t, user)

  -- The rest of it.
  unfoldable pub write_reset : Crypto → ℕ → ℕ → ℕ → String → Token → User → M (Unit {0})
  unfolding record_history
  write_reset c now history_size id new_password t user = do
    Users.update t.user_id (λ u. record u { password_hash = some (c.hash_password new_password) })
    when (ltb 0 history_size && truthy user.password_hash)
        (record_history now id user.id (or_empty user.password_hash) (history_size - 1))
    Users.invalidate_tokens now t.user_id
    mark_used password_reset now t.id
    Sessions.revoke_all_for_user now t.user_id none

  unfoldable pub reset_password : Crypto → ℕ → ℕ → ℕ → ℕ → String → M (Unit {0})
  unfolding check_reset write_reset
  reset_password c now history_size id raw new_password = do
    (t, user) ← check_reset c now history_size raw new_password
    write_reset c now history_size id new_password t user

  -- CleanupExpiredTokensUseCase
  unfoldable pub cleanup_expired_tokens : ℕ → ℕ → M (ℕ × ℕ)
  cleanup_expired_tokens now retention_days = do
    verify ← delete_expired email_verify now retention_days
    reset ← delete_expired password_reset now retention_days
    pure (verify, reset)
