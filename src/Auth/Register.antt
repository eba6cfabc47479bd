-- ===== src/Auth/Register.antt =====
-- Registration and the administrator's sign-out of a user: src/modules/auth/use-cases/register.use-case.ts,
-- get-me.use-case.ts and src/modules/admin/use-cases/invalidate-user-tokens.use-case.ts.
pub mod Owned
use Prim.Native.String
use base_api_nest_js.Base.{ℕ, String, Bool, true, Option, none, some, is_some}
use base_api_nest_js.Prisma.{Prisma}
use base_api_nest_js.Crypto.{Crypto}
use base_api_nest_js.World.{
  World, User, M, ◌>>=◌, ◌>>◌, pure, when, throw, or_throw, count_metric, conflict, not_found,
}
use base_api_nest_js.Users
use base_api_nest_js.Sessions
use base_api_nest_js.Auth.Recovery.{request_email_verification}
use base_api_nest_js.Workspaces.Create.{Ids, CreateWorkspaceInput, create_workspace}

pub record RegisterInput : Type 0 where
  pub email : String
  pub name : String
  pub password : String

-- What the database and the random source draw: the user, the verification token and the workspace.
pub record RegisterDraw : Type 0 where
  pub user : ℕ
  pub token : ℕ
  pub raw_token : ℕ
  pub workspace : Ids
  pub slug : String

-- `{ id, email, name }`
pub record Profile : Type 0 where
  pub id : ℕ
  pub email : String
  pub name : String

abbrev pub profile_of : User → Profile
profile_of user = record { id = user.id; email = user.email; name = user.name }

abbrev pub workspace_input : ℕ → RegisterInput → CreateWorkspaceInput
workspace_input user_id input = record {
  user_id = user_id;
  name = String.◌++◌ input.name "'s Workspace";
  is_personal = some true;
}

module _ ⦃p : Prisma⦄ where
  -- RegisterUseCase
  unfoldable pub register : Crypto → ℕ → RegisterDraw → RegisterInput → M Profile
  register c now draws input = do
    existing ← Users.find_by_email input.email
    when (is_some existing)
        (count_metric "register" "conflict" >> throw (conflict "Email already registered"))
    user ← Users.create now (record {
      id = draws.user;
      email = input.email;
      name = input.name;
      password_hash = some (c.hash_password input.password);
      email_verified_at = none;
    })
    create_workspace now draws.workspace draws.slug (workspace_input user.id input)
    request_email_verification c now draws.token draws.raw_token user.id
    count_metric "register" "success"
    pure (profile_of user)

  -- InvalidateUserTokensUseCase
  unfoldable pub invalidate_user_tokens : ℕ → ℕ → M (Unit {0})
  invalidate_user_tokens now user_id = do
    found ← Users.find_by_id user_id
    or_throw (not_found "User not found") found
    Users.invalidate_tokens now user_id
    Sessions.revoke_all_for_user now user_id none
