-- ===== src/Auth/Recovery/Reset/Reused.antt =====
-- A reset to a password that the user has, or had not long ago.
use base_api_nest_js.Base.{
  ℕ, ◌-◌, String, ◌≡◌, true, false, some, List, [], ◌++◌, map, ◌==◌, ◌&&◌, is_some, ltb, Bool-cases,
  inl, inr, Has, arith, if◌then◌else◌, any-true, not,
}
use base_api_nest_js.Prisma.{Prisma}
use base_api_nest_js.Crypto.{Crypto}
use base_api_nest_js.World.{World, Token, User, PasswordHistory, err, bad_request}
use base_api_nest_js.Users
use base_api_nest_js.Users.{put_users}
use base_api_nest_js.Auth.Recovery.{
  find_by_token_hash, is_dead, check_reset, reset_password, previous_hashes, find_recent_hashes,
  newest_of, own_hashes,
}
use base_api_nest_js.Auth.Recovery.Reset.{reset_password_refused}

-- The password hashes that the user's new password must not match: the current one and the newest
-- of the history, `history_size` in all.
abbrev pub held_against : ⦃p : Prisma⦄ → ℕ → User → World → List String
held_against ⦃p⦄ history_size user w =
    own_hashes user.password_hash
    ++ (if ltb 1 history_size && not (history_size - 1 == 0)
        then map (λ (h : PasswordHistory). h.password_hash)
            (newest_of user.id (history_size - 1) w.password_histories)
        else [])

module _ ⦃p : Prisma⦄ where
  check_reset_reused :
      (c : Crypto) (now history_size raw : ℕ) (new_password : String) (w : World) (t : Token)
      (user : User) (hash : String)
      → p.find (λ r. r.token_hash == c.hash_token raw) w.password_reset_tokens ≡ some t
      → is_dead now t ≡ false
      → p.find (λ u. u.id == t.user_id && not (is_some u.deleted_at)) w.users ≡ some user
      → ltb 0 history_size ≡ true
      → Has hash (held_against history_size user w)
      → c.verify_password hash new_password ≡ true
      → (check_reset c now history_size raw new_password w).0
        ≡ err (bad_request "Password cannot match any of the last passwords")
  unfolding check_reset find_by_token_hash Users.find_by_id previous_hashes find_recent_hashes
  check_reset_reused c now history_size raw new_password w t user hash ef alive eu some_kept m
        same =
      let hit =
        any-true (λ h. c.verify_password h new_password) hash (held_against history_size user w) m
          same in
      elim (Bool-cases (ltb 1 history_size)) [
        | inl more ↦ elim (Bool-cases (history_size - 1 == 0)) [
          | inl one ↦ ground arith
          | inr many ↦ rw (ef, alive, eu, some_kept, more, many) (ground arith)
        ]
        | inr only ↦ rw (ef, alive, eu, some_kept, only) (ground arith)
      ]

  -- A reset to the current password, or to one of the last ones kept in the history, is refused
  -- before anything is written.
  pub reset_password_reused :
      (c : Crypto) (now history_size id raw : ℕ) (new_password : String) (w : World) (t : Token)
      (user : User) (hash : String)
      → p.find (λ r. r.token_hash == c.hash_token raw) w.password_reset_tokens ≡ some t
      → is_dead now t ≡ false
      → p.find (λ u. u.id == t.user_id && not (is_some u.deleted_at)) w.users ≡ some user
      → ltb 0 history_size ≡ true
      → Has hash (held_against history_size user w)
      → c.verify_password hash new_password ≡ true
      → reset_password c now history_size id raw new_password w
        ≡ (err (bad_request "Password cannot match any of the last passwords"), w)
  reset_password_reused c now history_size id raw new_password w t user hash ef alive eu some_kept m
        same =
      reset_password_refused c now history_size id raw new_password w
        (bad_request "Password cannot match any of the last passwords")
        (check_reset_reused c now history_size raw new_password w t user hash ef alive eu some_kept
          m same)
