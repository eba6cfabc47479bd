-- ===== src/Auth/Login/Lockout/Held.antt =====
-- The lock holds against every attempt of its quarter of an hour.
use base_api_nest_js.Base.{
  ℕ, String, ◌+◌, ◌≤◌, ◌<◌, ◌≡◌, true, false, none, List, [], ◌∷◌, Has, All, sym, ◌∙◌,
}
use base_api_nest_js.Prisma.{Prisma}
use base_api_nest_js.Crypto.{Crypto}
use base_api_nest_js.World.{World, User, Result, err, unauthorized}
use base_api_nest_js.Auth.Tokens.{Draw}
use base_api_nest_js.Auth.Login.{
  LoginInput, LoginResult, truthy, is_locked, password_ok, wrong_password, login,
  lockout_duration_ms, account_locked,
}
use base_api_nest_js.Auth.Login.Lockout.{
  HasUniqueUsers, LockedUntil, counted, shut, wrong_password_lem, shut-LockedUntil, shut-Has,
  failed_login, locked_login,
}

pub record Attempt : Type 0 where
  pub now : ℕ
  pub draw : Draw
  pub input : LoginInput

module _ ⦃p : Prisma⦄ where
  -- The answers to one attempt after the other.
  abbrev pub answers : Crypto → List Attempt → World → List (Result LoginResult)
  answers c [] w = []
  answers c (a ∷ attempts) w =
      (login c a.now a.draw a.input w).0 ∷ answers c attempts (login c a.now a.draw a.input w).1

  locked_answers :
      (c : Crypto) (until : ℕ) (email : String) (attempts : List Attempt) (w : World) (user : User)
      → LockedUntil until email w.users
      → Has user w.users
      → user.email ≡ email
      → user.anonymized_at ≡ none
      → All (λ (a : Attempt). (a.input.email ≡ email) × (a.now < until)) attempts
      → All (λ (r : Result LoginResult). r ≡ err account_locked) (answers c attempts w)
  locked_answers c until email [] w user locked m mail kept all = tt
  locked_answers c until email (a ∷ attempts) w user locked m mail kept ((same, soon), all) =
      let (refused, users) =
        locked_login c a.now until a.draw a.input w user (rw same locked) soon m (mail ∙ sym same)
          kept in
      let w' = (login c a.now a.draw a.input w).1 in
      (
        refused,
        locked_answers c until email attempts w' user (rw users locked) (rw users m) mail kept all,
      )

  -- The user of an email that is not anonymized, not locked at the time and has failed at least four
  -- times gives a wrong password. That attempt is answered as any wrong password is; and in any run of
  -- further attempts for the email within fifteen minutes, however long and with the right password too,
  -- each is answered 423. The ids and the emails of the users table are unique to begin with.
  pub login_lockout :
      (c : Crypto) (now : ℕ) (draw : Draw) (input : LoginInput) (attempts : List Attempt)
      (w : World) (user : User)
      → HasUniqueUsers w.users
      → Has user w.users
      → user.email ≡ input.email
      → user.anonymized_at ≡ none
      → truthy user.password_hash ≡ true
      → is_locked now user ≡ false
      → 4 ≤ user.failed_login_attempts
      → password_ok c user input.password ≡ false
      → All
          (λ (a : Attempt). (a.input.email ≡ input.email) × (a.now < now + lockout_duration_ms))
          attempts
      → ((login c now draw input w).0 ≡ err (unauthorized "Invalid credentials"))
        × All
            (λ (r : Result LoginResult). r ≡ err account_locked)
            (answers c attempts (login c now draw input w).1)
  login_lockout c now draw input attempts w user unique m mail kept set free four wrong all =
      let taken = failed_login c now draw input w user unique m mail kept set free wrong in
      let (refused, users) = wrong_password_lem now input user w unique m four in
      let until = now + lockout_duration_ms in
      rw taken (
        refused,
        locked_answers c until input.email attempts (wrong_password now input user w).1
            (shut until (counted user))
            (rw (users, sym mail) (shut-LockedUntil until user w.users unique m set))
            (rw users (shut-Has until user w.users m)) mail kept all,
      )
