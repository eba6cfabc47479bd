-- ===== src/Auth/Login/Lockout.antt =====
-- The lockout: the fifth failure in a row shuts the account for a quarter of an hour.
pub mod Held
use base_api_nest_js.Base.{
  ℕ, String, ◌+◌, ◌≤◌, ◌<◌, ◌≡◌, true, false, none, some, List, arith, is_some, not, Option-cases,
  inl, inr, ◌==◌, Has, All, All-Has, All-map, All-map-map, All-of_Has, sym, ◌∙◌, Has-map, str_eq,
  ◌&&◌, eq_iff, map,
}
use base_api_nest_js.Prisma.{Prisma, written}
use base_api_nest_js.Prisma.Laws.{find_only, update_Has, find_Has, find_test}
use base_api_nest_js.Crypto.{Crypto}
use base_api_nest_js.World.{World, User, err, unauthorized}
use base_api_nest_js.Users
use base_api_nest_js.Users.{put_users}
use base_api_nest_js.Auth.Tokens.{Draw}
use base_api_nest_js.Auth.Login.{
  LoginInput, truthy, is_locked, password_ok, locked_user, wrong_password, known_user, login,
  lockout_duration_ms, account_locked,
}

-- The unique columns of the users table: rows with one email, or one id, are one row.
pub record HasUniqueUsers (rows : List User) : Type 0 where
  pub emails : All (λ (a : User). All (λ (b : User). b.email ≡ a.email → b ≡ a) rows) rows
  pub ids : All (λ (a : User). All (λ (b : User). b.id ≡ a.id → b ≡ a) rows) rows

-- Every row of the email is locked until then, and has a password.
abbrev pub LockedUntil : ℕ → String → List User → Type 0
LockedUntil until email rows =
    All
      (λ (u : User).
        u.email ≡ email → (u.locked_until ≡ some until) × (truthy u.password_hash ≡ true))
      rows

abbrev pub counted : User → User
counted u = record u { failed_login_attempts = u.failed_login_attempts + 1 }

abbrev pub shut : ℕ → User → User
shut until u = record u { locked_until = some until }

module _ ⦃p : Prisma⦄ where
  -- The counter that the failed attempt reads back.
  find_counted :
      (user : User) (rows : List User)
      → HasUniqueUsers rows
      → Has user rows
      → p.find (λ u. u.id == user.id) (map (written (λ u. u.id == user.id) counted) rows)
        ≡ some (counted user)
  find_counted user rows unique m =
      let test = λ (u : User). u.id == user.id in
      let f = written test counted in
      let self : f user ≡ counted user = ground arith in
      let only =
        All-Has (λ (a : User). All (λ (b : User). b.id ≡ a.id → b ≡ a) rows) user rows unique.ids
          m in
      find_only test (map f rows) (counted user) (rw self at (Has-map f user rows m)) (ground arith)
        (All-map (λ (v : User). test v ≡ true → v ≡ counted user) f rows
          (λ r mr h.
            let at = All-Has (λ (b : User). b.id ≡ user.id → b ≡ user) r rows only mr in
            let same : r ≡ user = at (ground arith) in rw same self))

  pub shut-LockedUntil :
      (until : ℕ) (user : User) (rows : List User)
      → HasUniqueUsers rows
      → Has user rows
      → truthy user.password_hash ≡ true
      → LockedUntil until user.email (
          map
            (written (λ u. u.id == user.id) (shut until))
            (map (written (λ u. u.id == user.id) counted) rows))
  shut-LockedUntil until user rows unique m set =
      let test = λ (u : User). u.id == user.id in
      let only =
        All-Has (λ (a : User). All (λ (b : User). b.email ≡ a.email → b ≡ a) rows) user rows
          unique.emails m in
      All-map-map
        (λ (u : User).
          u.email ≡ user.email → (u.locked_until ≡ some until) × (truthy u.password_hash ≡ true))
        (written test (shut until)) (written test counted) rows
        (λ r mr h.
          let at = All-Has (λ (b : User). b.email ≡ user.email → b ≡ user) r rows only mr in
          let same : r ≡ user = at (ground arith) in rw same (ground arith))

  -- The failed attempt that reaches the limit writes the user's row twice.
  pub wrong_password_lem :
      (now : ℕ) (input : LoginInput) (user : User) (w : World)
      → HasUniqueUsers w.users
      → Has user w.users
      → 4 ≤ user.failed_login_attempts
      → ((wrong_password now input user w).0 ≡ err (unauthorized "Invalid credentials"))
        × ((wrong_password now input user w).1.users
            ≡ map
                (written (λ u. u.id == user.id) (shut (now + lockout_duration_ms)))
                (map (written (λ u. u.id == user.id) counted) w.users))
  unfolding wrong_password Users.increment_failed_login_attempts Users.lock_account
  wrong_password_lem now input user w unique m four =
      let test = λ (u : User). u.id == user.id in
      let once = update_Has test counted w.users user m (ground arith) in
      let read = find_counted user w.users unique m in
      let self : written test counted user ≡ counted user = ground arith in
      let twice =
        update_Has test (shut (now + lockout_duration_ms)) (map (written test counted) w.users)
          (counted user) (rw self at (Has-map (written test counted) user w.users m))
          (ground arith) in
      (ground arith, ground arith)

  -- The row that it leaves for the user.
  pub shut-Has :
      (until : ℕ) (user : User) (rows : List User)
      → Has user rows
      → Has (shut until (counted user)) (
          map
            (written (λ u. u.id == user.id) (shut until))
            (map (written (λ u. u.id == user.id) counted) rows))
  shut-Has until user rows m =
      let test = λ (u : User). u.id == user.id in
      let self : written test counted user ≡ counted user = ground arith in
      let end : written test (shut until) (counted user) ≡ shut until (counted user) =
        ground arith in
      rw end at (
        Has-map (written test (shut until)) (counted user) (map (written test counted) rows)
          (rw self at (Has-map (written test counted) user rows m)))

  pub failed_login :
      (c : Crypto) (now : ℕ) (draw : Draw) (input : LoginInput) (w : World) (user : User)
      → HasUniqueUsers w.users
      → Has user w.users
      → user.email ≡ input.email
      → user.anonymized_at ≡ none
      → truthy user.password_hash ≡ true
      → is_locked now user ≡ false
      → password_ok c user input.password ≡ false
      → login c now draw input w ≡ wrong_password now input user w
  unfolding login Users.find_by_email_including_deleted known_user
  failed_login c now draw input w user unique m mail kept set free wrong =
      let test = λ (u : User). str_eq u.email input.email && not (is_some u.anonymized_at) in
      let only =
        All-Has (λ (a : User). All (λ (b : User). b.email ≡ a.email → b ≡ a) w.users) user w.users
          unique.emails m in
      let found = find_only test w.users user m (ground (arith, eq_iff user.email input.email)) (
        All-of_Has (λ (u : User). test u ≡ true → u ≡ user) w.users
          (λ u mu h.
            All-Has (λ (b : User). b.email ≡ user.email → b ≡ user) u w.users only mu
              ((eq_iff u.email input.email).0 (ground arith) ∙ sym mail))) in
      rw (found, set, free, wrong)

  pub locked_login :
      (c : Crypto) (now until : ℕ) (draw : Draw) (input : LoginInput) (w : World) (user : User)
      → LockedUntil until input.email w.users
      → now < until
      → Has user w.users
      → user.email ≡ input.email
      → user.anonymized_at ≡ none
      → ((login c now draw input w).0 ≡ err account_locked)
        × ((login c now draw input w).1.users ≡ w.users)
  unfolding login Users.find_by_email_including_deleted known_user locked_user
  locked_login c now until draw input w user h lt m mail kept =
      let test = λ (u : User). str_eq u.email input.email && not (is_some u.anonymized_at) in
      elim (Option-cases (p.find test w.users)) [
        | inl missing ↦
            let off =
              All-Has (λ u. test u ≡ false) user w.users (p.find_none test w.users missing) m in
            absurd (ground (arith, eq_iff user.email input.email))
        | inr (u, found) ↦
            let fits = find_test test w.users u found in
            let at =
              All-Has
                (λ (v : User).
                  v.email ≡ input.email
                  → (v.locked_until ≡ some until) × (truthy v.password_hash ≡ true))
                u w.users h (find_Has test w.users u found)
                (ground (arith, eq_iff u.email input.email)) in
            let shut_now : is_locked now u ≡ true = rw at.0 (ground arith) in
            (ground arith, ground arith)
      ]
