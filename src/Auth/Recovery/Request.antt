-- ===== src/Auth/Recovery/Request.antt =====
-- A request for a reset of the password.
use base_api_nest_js.Base.{
  ℕ, ◌*◌, String, ◌≡◌, refl, Bool, true, some, List, [], ◌∷◌, ◌++◌, filter, not, ◌&&◌, is_some,
  str_eq, Bool-cases, Option-cases, inl, inr, arith,
}
use base_api_nest_js.Prisma.{Prisma}
use base_api_nest_js.Prisma.Laws.{create_rows}
use base_api_nest_js.Crypto.{Crypto}
use base_api_nest_js.World.{World, User, ok}
use base_api_nest_js.Users
use base_api_nest_js.Auth.Recovery.{
  forgot_password, create, delete_pending_for_user, new_token, pending_of, same_key,
}

abbrev pub one_hour_ms : ℕ
one_hour_ms = 60 * 60 * 1000

-- What a filter keeps of the rows that it dropped before, and of one more that fits it.
filter-replaced :
    {R : Type 0} (test : R → Bool) (r : R) (rows : List R)
    → test r ≡ true
    → filter test (filter (λ x. not (test x)) rows ++ r ∷ []) ≡ r ∷ []
filter-replaced test r [] h = rw h refl
filter-replaced test r (x ∷ rows) h = elim (Bool-cases (test x)) [
  | inl fits ↦ rw fits (filter-replaced test r rows h)
  | inr off ↦ rw (off, off) (filter-replaced test r rows h)
]

module _ ⦃p : Prisma⦄ where
  -- A request for the email of a user that was not deleted, if it does not fail, leaves one pending
  -- reset token of the user, the one that it drew, valid for an hour; and queues one email with it
  -- to that address.
  pub forgot_password_pending :
      (c : Crypto) (now id raw : ℕ) (email : String) (w : World) (user : User)
      → p.find (λ u. str_eq u.email email && not (is_some u.deleted_at)) w.users ≡ some user
      → (forgot_password c now id raw email w).0 ≡ ok tt
      → let w' = (forgot_password c now id raw email w).1 in
        (filter (pending_of user.id) w'.password_reset_tokens
          ≡ new_token c now one_hour_ms id user.id raw ∷ [])
        × (w'.outbox
            ≡ w.outbox
              ++ record { template = "passwordResetEmail"; to = user.email; token = raw } ∷ [])
  unfolding forgot_password Users.find_by_email create delete_pending_for_user
  forgot_password_pending c now id raw email w user found e =
      let t = new_token c now one_hour_ms id user.id raw in
      let left = p.delete_many (pending_of user.id) w.password_reset_tokens in
      elim (Option-cases (p.create same_key t left)) [
        | inl clash ↦ absurd (ground arith)
        | inr (rows, er) ↦
            let added = (create_rows same_key t left rows er).1 in
            let after : (forgot_password c now id raw email w).1.password_reset_tokens ≡ rows =
              ground arith in
            let mine : pending_of user.id t ≡ true = ground arith in
            (
              rw (after, added, p.delete_many_lem (pending_of user.id) w.password_reset_tokens)
                  (filter-replaced (pending_of user.id) t w.password_reset_tokens mine),
              ground arith,
            )
      ]
