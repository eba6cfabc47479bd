-- ===== src/Users/Manage.antt =====
-- The use cases of src/modules/users/use-cases, and the anonymization of
-- prisma-users.repository.ts.
pub mod Erased
use base_api_nest_js.Base.{
  ℕ, ◌+◌, ◌*◌, ◌-◌, String, Bool, true, false, Option, none, some, List, [], ◌∷◌, not, ◌&&◌, ◌||◌,
  ltb, ◌==◌, str_eq, is_some,
}
use base_api_nest_js.Prisma.{Prisma}
use base_api_nest_js.Crypto.{Crypto}
use base_api_nest_js.World.{
  World, User, Session, Token, OauthAccount, M, Result, ok, err, ◌>>=◌, ◌>>◌, pure, or_throw,
  throw_if, not_found, conflict, forbidden, modify, count_metric,
}
use base_api_nest_js.Sessions.{put_sessions, day_ms}
use base_api_nest_js.Users
use base_api_nest_js.Users.{new_user, anonymized}
use base_api_nest_js.Rbac.Roles
use base_api_nest_js.Workspaces
use base_api_nest_js.Workspaces.{atomically}
use base_api_nest_js.Workspaces.Members
use base_api_nest_js.Workspaces.Manage.{is_owner}

pub record CreateUserInput : Type 0 where
  pub workspace_id : ℕ
  pub email : String
  pub name : String
  pub password : String
  pub role_id : ℕ

-- An absent field is `none`.
pub record UpdateUserInput : Type 0 where
  pub id : ℕ
  pub workspace_id : ℕ
  pub email : Option String
  pub name : Option String

abbrev pub or_keep : Option String → String → String
or_keep none old = old
or_keep (some new) old = new

-- `input.email && input.email !== user.email`
abbrev pub changes_email : Option String → User → Bool
changes_email none user = false
changes_email (some email) user = not (str_eq email "") && not (str_eq email user.email)

-- `existing && existing.id !== user.id`
abbrev pub is_other : Option User → User → Bool
is_other none user = false
is_other (some existing) user = not (existing.id == user.id)

-- `try { … ; count++ } catch { log }`
abbrev pub attempt : M (Unit {0}) → M Bool
attempt m w = let (r, w') = m w in elim r [ ok _ ↦ (ok true, w') | err _ ↦ (ok false, w') ]

abbrev pub counting : Bool → ℕ → ℕ
counting true n = n + 1
counting false n = n

module _ ⦃p : Prisma⦄ where
  unfoldable pub create_user : Crypto → ℕ → ℕ → ℕ → CreateUserInput → M User
  create_user c now id member_id input = do
    existing ← Users.find_by_email input.email
    throw_if (is_some existing) (conflict "Email already in use")
    role ← Roles.find_by_id_in_workspace input.role_id input.workspace_id
    or_throw (not_found "Role not found in this workspace") role
    user ← Users.create now (record {
      id = id;
      email = input.email;
      name = input.name;
      password_hash = some (c.hash_password input.password);
      email_verified_at = none;
    })
    Members.create (record {
      id = member_id;
      user_id = user.id;
      workspace_id = input.workspace_id;
      role_id = input.role_id;
      joined_at = now;
    })
    pure user

  unfoldable pub get_user_by_id : ℕ → ℕ → M User
  get_user_by_id id workspace_id = do
    found ← Users.find_by_id_in_workspace id workspace_id
    or_throw (not_found "User not found") found

  -- `if (input.email && input.email !== user.email) …`
  unfoldable pub refuse_taken : Option String → User → M (Unit {0})
  refuse_taken none user = pure tt
  refuse_taken (some email) user = elim (changes_email (some email) user) [
    | false ↦ pure tt
    | true ↦ do
      existing ← Users.find_by_email email
      throw_if (is_other existing user) (conflict "Email already in use")
  ]

  unfoldable pub update_user : UpdateUserInput → M (Unit {0})
  unfolding refuse_taken
  update_user input = do
    found ← Users.find_by_id_in_workspace input.id input.workspace_id
    user ← or_throw (not_found "User not found") found
    refuse_taken input.email user
    Users.update input.id
        (λ u. record u { email = or_keep input.email u.email; name = or_keep input.name u.name })

  unfoldable pub delete_user : ℕ → ℕ → ℕ → M (Unit {0})
  delete_user now id workspace_id = do
    found ← Users.find_by_id_in_workspace id workspace_id
    user ← or_throw (not_found "User not found") found
    workspace ← Workspaces.find_by_id workspace_id
    throw_if (is_owner workspace id) (forbidden "Cannot delete the workspace owner")
    Users.soft_delete now id

  -- The rows that a transaction of `anonymize` deletes.
  abbrev pub without_rows : ℕ → World → World
  without_rows id w = record w {
    sessions = p.delete_many (λ s. s.user_id == id) w.sessions;
    oauth_accounts = p.delete_many (λ a. a.user_id == id) w.oauth_accounts;
    email_verify_tokens = p.delete_many (λ t. t.user_id == id) w.email_verify_tokens;
    password_reset_tokens = p.delete_many (λ t. t.user_id == id) w.password_reset_tokens;
  }

  -- PrismaUsersRepository.anonymize; `placeholder` is the email that it makes of the id.
  unfoldable pub anonymize : (ℕ → String) → ℕ → ℕ → M (Unit {0})
  anonymize placeholder now id =
      atomically (do modify (without_rows id); Users.update id (anonymized (placeholder id) now))

  unfoldable pub anonymize_all : (ℕ → String) → ℕ → List User → M ℕ
  anonymize_all placeholder now [] = pure 0
  anonymize_all placeholder now (user ∷ users) = do
    done ← attempt (anonymize placeholder now user.id)
    count ← anonymize_all placeholder now users
    pure (counting done count)

  -- AnonymizeExpiredUsersUseCase
  unfoldable pub anonymize_expired_users : (ℕ → String) → ℕ → M ℕ
  anonymize_expired_users placeholder now = do
    expired ← Users.find_pending_anonymization (now - 30 * day_ms)
    anonymize_all placeholder now expired
