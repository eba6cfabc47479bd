-- ===== src/Auth/Recovery/Reset.antt =====
-- What a reset of a password changes, and what it refuses.
pub mod Reused
use base_api_nest_js.Base.{
  ℕ, ◌-◌, String, ◌≡◌, true, false, none, some, List, [], ◌++◌, map, ◌==◌, ◌&&◌, is_some, ltb,
  Option-cases, Bool-cases, inl, inr, Has, All, arith, ==_iff, if◌then◌else◌, any-true, not,
  All-map-map, ◌∙◌, subst,
}
use base_api_nest_js.Prisma.{Prisma, written}
use base_api_nest_js.Prisma.Laws.{find_Has, find_test, update_rows}
use base_api_nest_js.Crypto.{Crypto}
use base_api_nest_js.World.{
  World, Token, User, PasswordHistory, ok, err, bad_request, Result-cases, bind_ok, bind_err,
  HttpError,
}
use base_api_nest_js.Sessions
use base_api_nest_js.Sessions.{to_revoke, mark_revoked, put_sessions}
use base_api_nest_js.Sessions.Laws.{AllRevoked, AllRevoked-revoke_all}
use base_api_nest_js.Users
use base_api_nest_js.Users.{put_users}
use base_api_nest_js.Auth.Recovery.{
  find_by_token_hash, mark_used, is_dead, live_token, check_reset, write_reset, reset_password,
  previous_hashes, find_recent_hashes, newest_of, own_hashes, record_history,
}
use base_api_nest_js.Auth.Recovery.SingleUse.{
  HasUniqueHashes, IsUsed, IsUsed-mark, live_token_used, live_token-some, used,
}

abbrev pub with_password : String → User → User
with_password hash u = record u { password_hash = some hash }

abbrev pub signed_out : ℕ → User → User
signed_out now u = record u { tokens_invalidated_at = some now }

module _ ⦃p : Prisma⦄ where
  check_reset_ok :
      (c : Crypto) (now history_size raw : ℕ) (new_password : String) (w : World) {t : Token}
      {user : User}
      → (check_reset c now history_size raw new_password w).0 ≡ ok (t, user)
      → (p.find (λ r. r.token_hash == c.hash_token raw) w.password_reset_tokens ≡ some t)
        × (is_dead now t ≡ false)
        × (user.id ≡ t.user_id)
  unfolding check_reset find_by_token_hash Users.find_by_id
  check_reset_ok c now history_size raw new_password w {t} {user} e =
      let found = p.find (λ r. r.token_hash == c.hash_token raw) w.password_reset_tokens in
      elim (Option-cases (live_token now found)) [
        | inl missing ↦ absurd (ground arith)
        | inr (t', et) ↦
            let test = λ (u : User). u.id == t'.user_id && not (is_some u.deleted_at) in
            elim (Option-cases (p.find test w.users)) [
              | inl gone ↦ absurd (ground arith)
              | inr (user', eu) ↦
                  let (ef, alive) = live_token-some now found t' et in
                  let fits = find_test test w.users user' eu in
                  let same : (t' ≡ t) × (user' ≡ user) = ground arith in
                  rw (← same.0, ← same.1) (ef, alive, ground arith)
            ]
      ]

  check_reset_keeps :
      (c : Crypto) (now history_size raw : ℕ) (new_password : String) (w : World)
      → (check_reset c now history_size raw new_password w).1 ≡ w
  unfolding check_reset find_by_token_hash Users.find_by_id previous_hashes find_recent_hashes
  check_reset_keeps c now history_size raw new_password w = ground arith

  write_reset_ok :
      (c : Crypto) (now history_size id : ℕ) (new_password : String) (t : Token) (user : User)
      (w : World)
      → (write_reset c now history_size id new_password t user w).0 ≡ ok tt
      → let w' = (write_reset c now history_size id new_password t user w).1 in
        (users users' : List User) × (p.update
            (λ u. u.id == t.user_id)
            (with_password (c.hash_password new_password))
            w.users
          ≡ some users)
        × (p.update (λ u. u.id == t.user_id) (signed_out now) users ≡ some users')
        × (w'.users ≡ users')
        × (p.update (λ r. r.id == t.id) (used now) w.password_reset_tokens
            ≡ some w'.password_reset_tokens)
        × (w'.sessions ≡ p.update_many (to_revoke t.user_id none) (mark_revoked now) w.sessions)
  unfolding write_reset record_history mark_used Users.update Users.invalidate_tokens
      Sessions.revoke_all_for_user
  write_reset_ok c now history_size id new_password t user w e =
      elim (Option-cases (
        p.update (λ u. u.id == t.user_id) (with_password (c.hash_password new_password)) w.users)) [
          | inl gone ↦ absurd (ground arith)
          | inr (users, eu) ↦
              elim (Option-cases (p.update (λ u. u.id == t.user_id) (signed_out now) users)) [
                | inl gone ↦ absurd (ground arith)
                | inr (users', eu') ↦
                    elim (Option-cases
                      (p.update (λ r. r.id == t.id) (used now) w.password_reset_tokens)) [
                        | inl lost ↦ absurd (ground arith)
                        | inr (rows, er) ↦
                            (users, users', eu, eu', ground arith, ground arith, ground arith)
                      ]
              ]
        ]

  check_reset_used :
      (c : Crypto) (now history_size raw : ℕ) (new_password : String) (w : World)
      → IsUsed (c.hash_token raw) w.password_reset_tokens
      → (check_reset c now history_size raw new_password w).0
        ≡ err (bad_request "Invalid or expired reset token")
  unfolding check_reset find_by_token_hash
  check_reset_used c now history_size raw new_password w spent =
      rw (live_token_used now (c.hash_token raw) w.password_reset_tokens spent)

  reset_password_accepted :
      (c : Crypto) (now history_size id raw : ℕ) (new_password : String) (w : World) (t : Token)
      (user : User)
      → (check_reset c now history_size raw new_password w).0 ≡ ok (t, user)
      → reset_password c now history_size id raw new_password w
        ≡ write_reset c now history_size id new_password t user w
  unfolding reset_password
  reset_password_accepted c now history_size id raw new_password w t user e =
      bind_ok (check_reset c now history_size raw new_password)
        (λ (t, user). write_reset c now history_size id new_password t user) w (t, user) e
        (check_reset_keeps c now history_size raw new_password w)

  pub reset_password_refused :
      (c : Crypto) (now history_size id raw : ℕ) (new_password : String) (w : World) (x : HttpError)
      → (check_reset c now history_size raw new_password w).0 ≡ err x
      → reset_password c now history_size id raw new_password w ≡ (err x, w)
  unfolding reset_password
  reset_password_refused c now history_size id raw new_password w x e =
      bind_err (check_reset c now history_size raw new_password)
        (λ (t, user). write_reset c now history_size id new_password t user) w x e
      ∙ rw (check_reset_keeps c now history_size raw new_password w)

  -- A successful reset: the token that the table has for the hash was neither used nor expired. Every row of its user
  -- has the new password's hash and the time of the reset as the time before which tokens are
  -- invalid, and every session of the user is revoked.
  pub reset_password_effect :
      (c : Crypto) (now history_size id raw : ℕ) (new_password : String) (w : World)
      → (reset_password c now history_size id raw new_password w).0 ≡ ok tt
      → let w' = (reset_password c now history_size id raw new_password w).1 in
        (t : Token) × (p.find (λ r. r.token_hash == c.hash_token raw) w.password_reset_tokens
          ≡ some t)
        × (is_dead now t ≡ false)
        × All
            (λ (u : User).
              u.id ≡ t.user_id
              → (u.password_hash ≡ some (c.hash_password new_password))
                × (u.tokens_invalidated_at ≡ some now))
            w'.users
        × AllRevoked t.user_id w'.sessions
  reset_password_effect c now history_size id raw new_password w e =
      elim (Result-cases (check_reset c now history_size raw new_password w).0) [
        | inr (x, refused) ↦ absurd (
            ground (
              arith,
              rw (reset_password_refused c now history_size id raw new_password w x refused) at e,
            ))
        | inl ((t, user), checked) ↦
            let taken =
              reset_password_accepted c now history_size id raw new_password w t user checked in
            let (ef, alive, own) = check_reset_ok c now history_size raw new_password w checked in
            let (users, users', eu, eu', ew, er, es) =
              write_reset_ok c now history_size id new_password t user w (rw taken at e) in
            (
              t,
              ef,
              alive,
              rw
                  (
                    taken,
                    ew,
                    update_rows (λ u. u.id == t.user_id) (signed_out now) users users' eu',
                    update_rows (λ u. u.id == t.user_id)
                        (with_password (c.hash_password new_password)) w.users users eu,
                  )
                  (All-map-map
                    (λ (u : User).
                      u.id ≡ t.user_id
                      → (u.password_hash ≡ some (c.hash_password new_password))
                        × (u.tokens_invalidated_at ≡ some now))
                    (written (λ (u : User). u.id == t.user_id) (signed_out now))
                    (written (λ (u : User). u.id == t.user_id)
                      (with_password (c.hash_password new_password)))
                    w.users (λ u m. ground arith)),
              rw (taken, es) (AllRevoked-revoke_all now t.user_id w.sessions),
            )
      ]

  -- A reset token that was accepted once is refused the second time, whenever that is and whatever
  -- the new password, and the second attempt changes nothing. The token hashes of the table are
  -- unique to begin with.
  pub reset_password_single_use :
      (c : Crypto) (now later history_size id id' raw : ℕ) (first second : String) (w : World)
      → HasUniqueHashes w.password_reset_tokens
      → (reset_password c now history_size id raw first w).0 ≡ ok tt
      → let w' = (reset_password c now history_size id raw first w).1 in
        reset_password c later history_size id' raw second w'
        ≡ (err (bad_request "Invalid or expired reset token"), w')
  reset_password_single_use c now later history_size id id' raw first second w u e =
      elim (Result-cases (check_reset c now history_size raw first w).0) [
        | inr (x, refused) ↦ absurd (
            ground
              (arith, rw (reset_password_refused c now history_size id raw first w x refused) at e))
        | inl ((t, user), checked) ↦
            let taken = reset_password_accepted c now history_size id raw first w t user checked in
            let (ef, alive, own) = check_reset_ok c now history_size raw first w checked in
            let test = λ (r : Token). r.token_hash == c.hash_token raw in
            let (users, users', eu, eu', ew, er, es) =
              write_reset_ok c now history_size id first t user w (rw taken at e) in
            let w' = (write_reset c now history_size id first t user w).1 in
            let same : t.token_hash ≡ c.hash_token raw =
              (==_iff _ _).0 (find_test test w.password_reset_tokens t ef) in
            let spent =
              IsUsed-mark now t w.password_reset_tokens w'.password_reset_tokens u
                (find_Has test w.password_reset_tokens t ef) er in
            rw taken (
              reset_password_refused c later history_size id' raw second w'
                (bad_request "Invalid or expired reset token")
                (check_reset_used c later history_size raw second w'
                  (subst (λ h. IsUsed h w'.password_reset_tokens) same spent)))
      ]
