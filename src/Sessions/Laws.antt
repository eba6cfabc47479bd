-- ===== src/Sessions/Laws.antt =====
-- The repository's queries, seen through the rows that they leave.
use base_api_nest_js.Base.{
  ℕ, ◌≡◌, refl, ◌≢◌, Bool, true, false, none, some, List, [], ◌∷◌, ◌++◌, map, ◌==◌, is_some, any,
  Has, All, All-Has, All-append, All-map, any-false, arith, Has-map, Has-last, All-of_Has,
}
use base_api_nest_js.Prisma.{Prisma, written}
use base_api_nest_js.Prisma.Laws.{find_only}
use base_api_nest_js.World.{Session}
use base_api_nest_js.Sessions.{to_revoke, mark_revoked, same_key}

-- No two rows share a refresh-token hash: the unique index of the table.
abbrev pub HasUniqueHashes : List Session → Type 0
HasUniqueHashes rows =
    All (λ s. All (λ r. r.refresh_token_hash ≡ s.refresh_token_hash → r.id ≡ s.id) rows) rows

-- Every session of the user is revoked.
abbrev pub AllRevoked : ℕ → List Session → Type 0
AllRevoked user rows = All (λ s. s.user_id ≡ user → is_some s.revoked_at ≡ true) rows

module _ ⦃p : Prisma⦄ where
  pub find_Has :
      (test : Session → Bool) (rows : List Session) (s : Session)
      → p.find test rows ≡ some s
      → Has s rows
  find_Has test rows s e = (p.find_some test rows s e).0

  pub find_test :
      (test : Session → Bool) (rows : List Session) (s : Session)
      → p.find test rows ≡ some s
      → test s ≡ true
  find_test test rows s e = (p.find_some test rows s e).1

  pub AllRevoked-revoke_all :
      (now user : ℕ) (rows : List Session)
      → AllRevoked user (p.update_many (to_revoke user none) (mark_revoked now) rows)
  AllRevoked-revoke_all now user rows =
      rw (p.update_many_lem (to_revoke user none) (mark_revoked now) rows) (
        All-map (λ (s : Session). s.user_id ≡ user → is_some s.revoked_at ≡ true)
          (written (to_revoke user none) (mark_revoked now)) rows (λ s m. ground arith))

-- Every session with this token hash is revoked.
abbrev pub IsSpent : ℕ → List Session → Type 0
IsSpent h rows = All (λ s. s.refresh_token_hash ≡ h → is_some s.revoked_at ≡ true) rows

module _ ⦃p : Prisma⦄ where
  pub update_rows :
      (test : Session → Bool) (f : Session → Session) (rows rows' : List Session)
      → p.update test f rows ≡ some rows'
      → rows' ≡ map (written test f) rows
  update_rows test f rows rows' e = ground (arith, p.update_lem test f rows)

  pub create_rows :
      (s : Session) (rows rows' : List Session)
      → p.create same_key s rows ≡ some rows'
      → (any (same_key s) rows ≡ false) × (rows' ≡ rows ++ s ∷ [])
  create_rows s rows rows' e = ground (arith, p.create_lem same_key s rows)

  -- The unique index makes the presented token's session the only one with its hash.
  pub IsSpent-revoke :
      (now : ℕ) (s : Session) (rows rows' : List Session)
      → HasUniqueHashes rows
      → Has s rows
      → p.update (λ r. r.id == s.id) (mark_revoked now) rows ≡ some rows'
      → IsSpent s.refresh_token_hash rows'
  IsSpent-revoke now s rows rows' u m e =
      let same =
        All-Has
          (λ (a : Session).
            All (λ (r : Session). r.refresh_token_hash ≡ a.refresh_token_hash → r.id ≡ a.id) rows)
          s rows u m in
      rw (update_rows (λ r. r.id == s.id) (mark_revoked now) rows rows' e) (
        All-map
          (λ (r : Session).
            r.refresh_token_hash ≡ s.refresh_token_hash → is_some r.revoked_at ≡ true)
          (written (λ (r : Session). r.id == s.id) (mark_revoked now)) rows
          (λ r mr.
            let at =
              All-Has (λ (r : Session). r.refresh_token_hash ≡ s.refresh_token_hash → r.id ≡ s.id) r
                rows same mr in
            ground arith))

  pub IsSpent-create :
      (h : ℕ) (s : Session) (rows rows' : List Session)
      → IsSpent h rows
      → s.refresh_token_hash ≢ h
      → p.create same_key s rows ≡ some rows'
      → IsSpent h rows'
  IsSpent-create h s rows rows' spent ne e = rw (create_rows s rows rows' e).1 (
      All-append (λ (r : Session). r.refresh_token_hash ≡ h → is_some r.revoked_at ≡ true) rows
        (s ∷ []) spent ((λ eq. absurd (ne eq)), tt))

  -- A created session has a hash that no row had.
  pub create_fresh :
      (s r : Session) (rows rows' : List Session)
      → p.create same_key s rows ≡ some rows'
      → Has r rows
      → s.refresh_token_hash ≢ r.refresh_token_hash
  create_fresh s r rows rows' e m =
      let off =
        All-Has (λ (r : Session). same_key s r ≡ false) r rows
          (any-false (same_key s) rows (create_rows s rows rows' e).0) m in
      ground arith

  -- Revoking keeps every hash.
  pub Has-revoke :
      (now id : ℕ) (s : Session) (rows rows' : List Session)
      → Has s rows
      → p.update (λ r. r.id == id) (mark_revoked now) rows ≡ some rows'
      → (s' : Session) × Has s' rows' × (s'.refresh_token_hash ≡ s.refresh_token_hash)
  Has-revoke now id s rows rows' m e =
      let f = written (λ (r : Session). r.id == id) (mark_revoked now) in
      (
        f s,
        rw (update_rows (λ r. r.id == id) (mark_revoked now) rows rows' e) (Has-map f s rows m),
        ground arith,
      )

  -- The id of a created session leads to it.
  pub create_found :
      (s : Session) (rows rows' : List Session)
      → p.create same_key s rows ≡ some rows'
      → p.find (λ r. r.id == s.id) rows' ≡ some s
  create_found s rows rows' e =
      let (free, added) = create_rows s rows rows' e in
      let test = λ (r : Session). r.id == s.id in
      let off = any-false (same_key s) rows free in
      rw added (
        find_only test (rows ++ s ∷ []) s (Has-last s rows) (ground arith) (
          All-append (λ (r : Session). test r ≡ true → r ≡ s) rows (s ∷ [])
            (All-of_Has (λ (r : Session). test r ≡ true → r ≡ s) rows
              (λ r m h.
                let clear = All-Has (λ (r : Session). same_key s r ≡ false) r rows off m in
                absurd (ground arith)))
            ((λ h. refl), tt)))
