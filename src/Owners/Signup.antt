-- ===== src/Owners/Signup.antt =====
-- The new user of a callback: `loginOrSignup` of
-- src/modules/oauth/use-cases/handle-oauth-callback.use-case.ts.
use Prim.Native.String
use base_api_nest_js.Base.{ℕ, inl, inr, arith, String, some, none, true}
use base_api_nest_js.Prisma.{Prisma}
use base_api_nest_js.World.{World, Result-cases}
use base_api_nest_js.Users
use base_api_nest_js.Oauth
use base_api_nest_js.Oauth.{SignupDraw, OauthProfile, signup}
use base_api_nest_js.Workspaces.Create.{CreateWorkspaceInput, create_workspace}
use base_api_nest_js.Workspaces.Create.Owned.{create_workspace-HasOwners}
use base_api_nest_js.Workspaces.Ownership.{HasOwners}
use base_api_nest_js.Auth.Register.Owned.{HasOwners-same, create_user_keeps}

module _ ⦃p : Prisma⦄ where
  abbrev new_data : ℕ → SignupDraw → OauthProfile → Users.CreateUserData
  new_data now draws profile = record {
    id = draws.user;
    email = profile.email;
    name = profile.name;
    password_hash = none;
    email_verified_at = some now;
  }

  abbrev own_workspace : ℕ → String → CreateWorkspaceInput
  own_workspace user_id name = record {
    user_id = user_id;
    name = String.◌++◌ name "'s Workspace";
    is_personal = some true;
  }

  pub signup-HasOwners :
      (now : ℕ) (draws : SignupDraw) (provider : String) (profile : OauthProfile) (w : World)
      → HasOwners w
      → HasOwners (signup now draws provider profile w).1
  unfolding signup Oauth.create
  signup-HasOwners now draws provider profile w owners =
      let (made, w1) = Users.create now (new_data now draws profile) w in
      let first =
        HasOwners-same w w1 (create_user_keeps now (new_data now draws profile) w) owners in
      let w' = (signup now draws provider profile w).1 in
      elim (Result-cases made) [
        | inr (x, failed) ↦ HasOwners-same w1 w' (ground arith, ground arith) first
        | inl (user, done) ↦
            let input = own_workspace user.id user.name in
            let (created, w2) = create_workspace now draws.workspace draws.slug input w1 in
            let second =
              (create_workspace-HasOwners now draws.workspace draws.slug input w1 first).0 in
            elim (Result-cases created) [
              | inr (x, failed) ↦ HasOwners-same w2 w' (ground arith, ground arith) second
              | inl (ws, built) ↦ HasOwners-same w2 w' (ground arith, ground arith) second
            ]
      ]
