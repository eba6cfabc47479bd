-- ===== src/Auth/Recovery/SingleUse.antt =====
-- The tokens of an email's verification and of a password's reset work once.
use base_api_nest_js.Base.{
  ℕ, ◌≡◌, true, false, Option, none, some, List, ◌==◌, is_some, Option-cases, inl, inr, Has, All,
  All-Has, All-map, arith, ==_iff,
}
use base_api_nest_js.Prisma.{Prisma, written}
use base_api_nest_js.Prisma.Laws.{find_Has, find_test, update_rows}
use base_api_nest_js.Crypto.{Crypto}
use base_api_nest_js.World.{World, Token, User, ok, err, bad_request}
use base_api_nest_js.Users
use base_api_nest_js.Auth.Recovery.{
  find_by_token_hash, mark_used, is_dead, live_token, verify_email,
}

-- No two rows share a token hash: the unique index of the tables.
abbrev pub HasUniqueHashes : List Token → Type 0
HasUniqueHashes rows = All (λ t. All (λ r. r.token_hash ≡ t.token_hash → r.id ≡ t.id) rows) rows

-- Every token with this hash is used.
abbrev pub IsUsed : ℕ → List Token → Type 0
IsUsed h rows = All (λ t. t.token_hash ≡ h → is_some t.used_at ≡ true) rows

abbrev pub used : ℕ → Token → Token
used now t = record t { used_at = some now }

module _ ⦃p : Prisma⦄ where
  pub IsUsed-mark :
      (now : ℕ) (t : Token) (rows rows' : List Token)
      → HasUniqueHashes rows
      → Has t rows
      → p.update (λ r. r.id == t.id) (used now) rows ≡ some rows'
      → IsUsed t.token_hash rows'
  IsUsed-mark now t rows rows' u m e =
      let same =
        All-Has (λ (a : Token). All (λ (r : Token). r.token_hash ≡ a.token_hash → r.id ≡ a.id) rows)
          t rows u m in
      rw (update_rows (λ r. r.id == t.id) (used now) rows rows' e) (
        All-map (λ (r : Token). r.token_hash ≡ t.token_hash → is_some r.used_at ≡ true)
          (written (λ (r : Token). r.id == t.id) (used now)) rows
          (λ r mr.
            let at =
              All-Has (λ (r : Token). r.token_hash ≡ t.token_hash → r.id ≡ t.id) r rows same mr in
            ground arith))

  -- The lookup of a used token ends in nothing.
  pub live_token_used :
      (now h : ℕ) (rows : List Token)
      → IsUsed h rows
      → live_token now (p.find (λ t. t.token_hash == h) rows) ≡ none
  live_token_used now h rows spent =
      let test = λ (t : Token). t.token_hash == h in
      elim (Option-cases (p.find test rows)) [
        | inl missing ↦ rw missing
        | inr (t, e) ↦
            let at =
              All-Has (λ (r : Token). r.token_hash ≡ h → is_some r.used_at ≡ true) t rows spent
                (find_Has test rows t e) in
            let gone : is_some t.used_at ≡ true = at ((==_iff _ _).0 (find_test test rows t e)) in
            rw (e, gone)
      ]

  pub live_token-some :
      (now : ℕ) (found : Option Token) (t : Token)
      → live_token now found ≡ some t
      → (found ≡ some t) × (is_dead now t ≡ false)
  live_token-some now none t e = ground arith
  live_token-some now (some s) t e = ground arith

abbrev pub verified_at : ℕ → User → User
verified_at now u = record u { email_verified_at = some now }

module _ ⦃p : Prisma⦄ where
  verify_email_ok :
      (c : Crypto) (now raw : ℕ) (w : World)
      → (verify_email c now raw w).0 ≡ ok tt
      → (t : Token) × (p.find (λ r. r.token_hash == c.hash_token raw) w.email_verify_tokens
          ≡ some t)
        × (is_dead now t ≡ false)
        × (users : List User) × (p.update (λ u. u.id == t.user_id) (verified_at now) w.users
            ≡ some users)
        × (rows : List Token) × (p.update (λ r. r.id == t.id) (used now) w.email_verify_tokens
            ≡ some rows)
        × ((verify_email c now raw w).1 ≡ record w { users = users; email_verify_tokens = rows })
  unfolding verify_email find_by_token_hash mark_used Users.update
  verify_email_ok c now raw w e =
      let found = p.find (λ r. r.token_hash == c.hash_token raw) w.email_verify_tokens in
      elim (Option-cases (live_token now found)) [
        | inl missing ↦ absurd (ground arith)
        | inr (t, et) ↦
            elim (Option-cases (p.update (λ u. u.id == t.user_id) (verified_at now) w.users)) [
              | inl gone ↦ absurd (ground arith)
              | inr (users, eu) ↦
                  elim (Option-cases
                    (p.update (λ r. r.id == t.id) (used now) w.email_verify_tokens)) [
                      | inl lost ↦ absurd (ground arith)
                      | inr (rows, er) ↦
                          let (ef, alive) = live_token-some now found t et in
                          (t, ef, alive, users, eu, rows, er, ground arith)
                    ]
            ]
      ]

  -- A verification token that was accepted once is refused the second time, whenever that is, and
  -- the second attempt changes nothing. The token hashes of the table are unique to begin with.
  verify_email_single_use :
      (c : Crypto) (now later raw : ℕ) (w : World)
      → HasUniqueHashes w.email_verify_tokens
      → (verify_email c now raw w).0 ≡ ok tt
      → verify_email c later raw (verify_email c now raw w).1
        ≡ (err (bad_request "Invalid or expired verification token"), (verify_email c now raw w).1)
  unfolding verify_email find_by_token_hash
  verify_email_single_use c now later raw w u e =
      let test = λ (r : Token). r.token_hash == c.hash_token raw in
      let (t, ef, alive, users, eu, rows, er, ew) = verify_email_ok c now raw w e in
      let same : t.token_hash ≡ c.hash_token raw =
        (==_iff _ _).0 (find_test test w.email_verify_tokens t ef) in
      let spent =
        IsUsed-mark now t w.email_verify_tokens rows u (find_Has test w.email_verify_tokens t ef)
          er in
      let refused = live_token_used later (c.hash_token raw) rows (rw same at spent) in
      rw (ew, refused)

  -- A verification token that is accepted is in the table, neither used nor expired, and every row
  -- of its user has its email verified at that time.
  verify_email_verifies :
      (c : Crypto) (now raw : ℕ) (w : World)
      → (verify_email c now raw w).0 ≡ ok tt
      → (t : Token) × Has t w.email_verify_tokens
        × (t.token_hash ≡ c.hash_token raw)
        × (is_dead now t ≡ false)
        × All
            (λ (u : User). u.id ≡ t.user_id → u.email_verified_at ≡ some now)
            (verify_email c now raw w).1.users
  verify_email_verifies c now raw w e =
      let test = λ (r : Token). r.token_hash == c.hash_token raw in
      let (t, ef, alive, users, eu, rows, er, ew) = verify_email_ok c now raw w e in
      (
        t,
        find_Has test w.email_verify_tokens t ef,
        (==_iff _ _).0 (find_test test w.email_verify_tokens t ef),
        alive,
        rw (ew, update_rows (λ u. u.id == t.user_id) (verified_at now) w.users users eu)
            (All-map (λ (u : User). u.id ≡ t.user_id → u.email_verified_at ≡ some now)
              (written (λ (u : User). u.id == t.user_id) (verified_at now)) w.users
              (λ u m. ground arith)),
      )
