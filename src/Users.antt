-- ===== src/Users.antt =====
-- The users table: src/modules/users/repositories/prisma-users.repository.ts. A read that the source
-- caches is the query behind the cache.
pub mod Manage
pub mod Listed
use base_api_nest_js.Base.{
  ℕ, ◌+◌, String, Bool, true, false, Option, none, some, List, not, ◌&&◌, ◌||◌, ltb, ◌==◌, str_eq,
  is_some,
}
use base_api_nest_js.Prisma.{Prisma}
use base_api_nest_js.World.{
  World, User, Session, Token, OauthAccount, WorkspaceMember, M, ◌>>=◌, ◌>>◌, pure, gets, saved,
  modify, or_throw, internal,
}

abbrev pub put_users : List User → World → World
put_users rows w = record w { users = rows }

-- The unique columns of the table.
abbrev pub same_key : User → User → Bool
same_key a b = a.id == b.id || str_eq a.email b.email

-- CreateUserData, with the identifier that the database draws.
pub record CreateUserData : Type 0 where
  pub id : ℕ
  pub email : String
  pub name : String
  pub password_hash : Option String
  pub email_verified_at : Option ℕ

abbrev pub new_user : ℕ → CreateUserData → User
new_user now d = record {
  id = d.id;
  email = d.email;
  name = d.name;
  password_hash = d.password_hash;
  two_factor_enabled = false;
  two_factor_secret = none;
  recovery_codes = none;
  email_verified_at = d.email_verified_at;
  failed_login_attempts = 0;
  locked_until = none;
  tokens_invalidated_at = none;
  created_at = now;
  deleted_at = none;
  anonymized_at = none;
}

-- `deletedAt: { lt: cutoff, not: null }, anonymizedAt: null`
abbrev pub is_pending : ℕ → User → Bool
is_pending cutoff u =
    elim u.deleted_at [ none ↦ false | some at ↦ ltb at cutoff ] && not (is_some u.anonymized_at)

abbrev pub anonymized : String → ℕ → User → User
anonymized placeholder now u = record u {
  email = placeholder;
  name = "Deleted User";
  password_hash = none;
  two_factor_enabled = false;
  two_factor_secret = none;
  recovery_codes = none;
  email_verified_at = none;
  anonymized_at = some now;
}

abbrev pub attempts_of : Option User → ℕ
attempts_of none = 0
attempts_of (some u) = u.failed_login_attempts

module _ ⦃p : Prisma⦄ where
  unfoldable pub create : ℕ → CreateUserData → M User
  create now d = do
    rows ← gets (λ w. p.create same_key (new_user now d) w.users)
    saved put_users rows
    pure (new_user now d)

  unfoldable pub find_by_id : ℕ → M (Option User)
  find_by_id id = gets (λ w. p.find (λ u. u.id == id && not (is_some u.deleted_at)) w.users)

  unfoldable pub find_by_email : String → M (Option User)
  find_by_email email =
      gets (λ w. p.find (λ u. str_eq u.email email && not (is_some u.deleted_at)) w.users)

  unfoldable pub find_by_email_including_deleted : String → M (Option User)
  find_by_email_including_deleted email =
      gets (λ w. p.find (λ u. str_eq u.email email && not (is_some u.anonymized_at)) w.users)

  unfoldable pub find_pending_anonymization : ℕ → M (List User)
  find_pending_anonymization cutoff = gets (λ w. p.find_many (is_pending cutoff) w.users)

  -- `memberships: { some: { workspaceId } }`
  unfoldable pub find_by_id_in_workspace : ℕ → ℕ → M (Option User)
  find_by_id_in_workspace id workspace_id = gets (λ w.
      p.find
        (λ u.
          u.id == id
          && not (is_some u.deleted_at)
          && is_some (
              p.find (λ (m : WorkspaceMember). m.user_id == u.id && m.workspace_id == workspace_id)
                w.members))
        w.users)

  -- `update` of one row; the other methods are this one at their fields.
  unfoldable pub update : ℕ → (User → User) → M (Unit {0})
  update id change = do
    rows ← gets (λ w. p.update (λ u. u.id == id) change w.users)
    saved put_users rows

  unfoldable pub soft_delete : ℕ → ℕ → M (Unit {0})
  unfolding update
  soft_delete now id = update id (λ u. record u { deleted_at = some now })

  unfoldable pub restore : ℕ → M (Unit {0})
  unfolding update
  restore id = update id (λ u. record u { deleted_at = none })

  unfoldable pub increment_failed_login_attempts : ℕ → M ℕ
  unfolding update
  increment_failed_login_attempts id = do
    update id (λ u. record u { failed_login_attempts = u.failed_login_attempts + 1 })
    gets (λ w. attempts_of (p.find (λ (u : User). u.id == id) w.users))

  unfoldable pub lock_account : ℕ → ℕ → M (Unit {0})
  unfolding update
  lock_account id until = update id (λ u. record u { locked_until = some until })

  unfoldable pub reset_failed_login_attempts : ℕ → M (Unit {0})
  unfolding update
  reset_failed_login_attempts id =
      update id (λ u. record u { failed_login_attempts = 0; locked_until = none })

  unfoldable pub invalidate_tokens : ℕ → ℕ → M (Unit {0})
  unfolding update
  invalidate_tokens now id = update id (λ u. record u { tokens_invalidated_at = some now })
