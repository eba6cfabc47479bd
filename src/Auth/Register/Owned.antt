-- ===== src/Auth/Register/Owned.antt =====
-- The workspaces after a registration, src/modules/auth/use-cases/register.use-case.ts.
use base_api_nest_js.Base.{
  ℕ, ◌≡◌, inl, inr, arith, String, Bool, not, ◌&&◌, str_eq, is_some, none, some, Option-cases,
}
use base_api_nest_js.Prisma.{Prisma}
use base_api_nest_js.Crypto.{Crypto}
use base_api_nest_js.World.{World, User, Result-cases}
use base_api_nest_js.Users
use base_api_nest_js.Auth.Recovery
use base_api_nest_js.Auth.Recovery.{
  request_email_verification, email_verify, delete_pending_for_user,
}
use base_api_nest_js.Workspaces.Ownership.{HasOwners}
use base_api_nest_js.Workspaces.Create.{create_workspace}
use base_api_nest_js.Workspaces.Create.Owned.{create_workspace-HasOwners}
use base_api_nest_js.Auth.Register.{RegisterInput, RegisterDraw, register, workspace_input}

abbrev pub SameOwners : World → World → Type 0
SameOwners w w' = (w'.members ≡ w.members) × (w'.workspaces ≡ w.workspaces)

pub HasOwners-same : (w w' : World) → SameOwners w w' → HasOwners w → HasOwners w'
HasOwners-same w w' (members, workspaces) owners = rw (members, workspaces) owners

module _ ⦃p : Prisma⦄ where
  pub create_user_keeps :
      (now : ℕ) (d : Users.CreateUserData) (w : World) → SameOwners w (Users.create now d w).1
  unfolding Users.create
  create_user_keeps now d w = ground arith

  request_keeps :
      (c : Crypto) (now id raw user_id : ℕ) (w : World)
      → SameOwners w (request_email_verification c now id raw user_id w).1
  unfolding request_email_verification Recovery.create delete_pending_for_user Users.find_by_id
  request_keeps c now id raw user_id w = ground arith

  abbrev pub new_data : Crypto → RegisterDraw → RegisterInput → Users.CreateUserData
  new_data c draws input = record {
    id = draws.user;
    email = input.email;
    name = input.name;
    password_hash = some (c.hash_password input.password);
    email_verified_at = none;
  }

  abbrev has_email : String → User → Bool
  has_email email u = str_eq u.email email && not (is_some u.deleted_at)

  -- A registration, however it ends, keeps every live workspace's owner among its members, also where
  -- it creates the personal workspace.
  pub register-HasOwners :
      (c : Crypto) (now : ℕ) (draws : RegisterDraw) (input : RegisterInput) (w : World)
      → HasOwners w
      → HasOwners (register c now draws input w).1
  unfolding register Users.find_by_email
  register-HasOwners c now draws input w owners =
      let (made, w1) = Users.create now (new_data c draws input) w in
      let first = HasOwners-same w w1 (create_user_keeps now (new_data c draws input) w) owners in
      elim (Option-cases (p.find (has_email input.email) w.users)) [
        | inr (other, taken) ↦
            HasOwners-same w (register c now draws input w).1 (ground arith, ground arith) owners
        | inl free ↦ elim (Result-cases made) [
          | inr (x, failed) ↦
              HasOwners-same w1 (register c now draws input w).1 (ground arith, ground arith) first
          | inl (user, done) ↦
              let input' = workspace_input user.id input in
              let (created, w2) = create_workspace now draws.workspace draws.slug input' w1 in
              let second =
                (create_workspace-HasOwners now draws.workspace draws.slug input' w1 first).0 in
              elim (Result-cases created) [
                | inr (x, failed) ↦
                    HasOwners-same w2 (register c now draws input w).1 (ground arith, ground arith)
                      second
                | inl (ws, built) ↦
                    let w3 =
                      (request_email_verification c now draws.token draws.raw_token user.id w2).1 in
                    let third =
                      HasOwners-same w2 w3
                        (request_keeps c now draws.token draws.raw_token user.id w2) second in
                    HasOwners-same w3 (register c now draws input w).1 (ground arith, ground arith)
                      third
              ]
        ]
      ]
