-- ===== src/Auth/Refresh/Rotation.antt =====
-- Rotation of refresh tokens: each token works once, and a second use signs the user out everywhere.
use base_api_nest_js.Base.{
  ℕ, ◌≡◌, refl, true, false, Option, none, some, List, arith, is_some, Option-cases, Bool-cases,
  inl, inr, ◌==◌, Has, All-Has, ==_iff, sym, ◌∙◌, Has-last,
}
use base_api_nest_js.Prisma.{Prisma}
use base_api_nest_js.Crypto.{Crypto}
use base_api_nest_js.World.{World, Session, ok, err, unauthorized}
use base_api_nest_js.Sessions
use base_api_nest_js.Sessions.{mark_revoked, same_key, put_sessions}
use base_api_nest_js.Sessions.Manage.{create_session, new_session}
use base_api_nest_js.Sessions.Laws.{
  AllRevoked, AllRevoked-revoke_all, IsSpent, IsSpent-revoke, IsSpent-create, HasUniqueHashes,
  create_fresh, Has-revoke, find_Has, find_test, create_rows,
}
use base_api_nest_js.Auth.Tokens.{TokenPair, Draw, sign_access_token, issue_tokens}
use base_api_nest_js.Auth.Refresh.{is_stale, rotate, refresh}

-- The row that a rotation adds.
abbrev pub successor : Crypto → ℕ → Draw → Session → Session
successor c now draw s = new_session c now (record {
  id = draw.session_id;
  user_id = s.user_id;
  refresh_token = draw.refresh_token;
  user_agent = s.user_agent;
  ip_address = s.ip_address;
})

-- The tokens of the session that a rotation adds.
abbrev pub issued : ℕ → Draw → Session → TokenPair
issued now draw s = record {
  access_token = sign_access_token now s.user_id draw.session_id;
  refresh_token = draw.refresh_token;
}

module _ ⦃p : Prisma⦄ where
  pub rotate_ok :
      (c : Crypto) (now : ℕ) (draw : Draw) (found : Option Session) (w : World) {pair : TokenPair}
      → (rotate c now draw found w).0 ≡ ok pair
      → (s : Session) × (found ≡ some s)
        × (is_stale now s ≡ false)
        × (rows : List Session) × (p.update (λ r. r.id == s.id) (mark_revoked now) w.sessions
            ≡ some rows)
        × (rows' : List Session) × (p.create same_key (successor c now draw s) rows ≡ some rows')
        × ((rotate c now draw found w).1 ≡ put_sessions rows' w)
        × (pair ≡ issued now draw s)
  unfolding rotate issue_tokens create_session Sessions.create Sessions.revoke
      Sessions.revoke_all_for_user
  rotate_ok c now draw none w e = cc
  rotate_ok c now draw (some s) w e = elim (Bool-cases (is_stale now s)) [
    | inl stale ↦ absurd (ground arith)
    | inr fresh ↦ elim (Option-cases (p.update (λ r. r.id == s.id) (mark_revoked now) w.sessions)) [
      | inl missing ↦ absurd (ground arith)
      | inr (rows, er) ↦ elim (Option-cases (p.create same_key (successor c now draw s) rows)) [
        | inl clash ↦ absurd (ground arith)
        | inr (rows', ec) ↦ (s, refl, fresh, rows, er, rows', ec, ground arith, ground arith)
      ]
    ]
  ]

  rotated-IsSpent :
      (c : Crypto) (now : ℕ) (draw : Draw) (s : Session) (t rows rows' : List Session)
      → HasUniqueHashes t
      → Has s t
      → p.update (λ r. r.id == s.id) (mark_revoked now) t ≡ some rows
      → p.create same_key (successor c now draw s) rows ≡ some rows'
      → IsSpent s.refresh_token_hash rows'
  rotated-IsSpent c now draw s t rows rows' u m er ec =
      let (s', m', same) = Has-revoke now s.id s t rows m er in
      let fresh = create_fresh (successor c now draw s) s' rows rows' ec m' in
      IsSpent-create s.refresh_token_hash (successor c now draw s) rows rows'
        (IsSpent-revoke now s t rows u m er) (λ e. fresh (e ∙ sym same)) ec

  refresh_spends :
      (c : Crypto) (now : ℕ) (draw : Draw) (token : ℕ) (w : World) {pair : TokenPair}
      → HasUniqueHashes w.sessions
      → (refresh c now draw token w).0 ≡ ok pair
      → IsSpent (c.hash_token token) (refresh c now draw token w).1.sessions
  unfolding refresh Sessions.find_by_token_hash
  refresh_spends c now draw token w u e =
      let test = λ (r : Session). r.refresh_token_hash == c.hash_token token in
      let (s, ef, fresh, rows, er, rows', ec, ew, _) =
        rotate_ok c now draw (p.find test w.sessions) w e in
      let same : s.refresh_token_hash ≡ c.hash_token token =
        (==_iff _ _).0 (find_test test w.sessions s ef) in
      rw (ew, ← same)
        (rotated-IsSpent c now draw s w.sessions rows rows' u (find_Has test w.sessions s ef) er ec)

  -- A token whose sessions are all revoked is refused.
  refresh_spent :
      (c : Crypto) (now : ℕ) (draw : Draw) (token : ℕ) (w : World)
      → IsSpent (c.hash_token token) w.sessions
      → (refresh c now draw token w).0 ≡ err (unauthorized "Invalid session")
  unfolding refresh Sessions.find_by_token_hash rotate Sessions.revoke_all_for_user
  refresh_spent c now draw token w spent =
      let test = λ (r : Session). r.refresh_token_hash == c.hash_token token in
      elim (Option-cases (p.find test w.sessions)) [
        | inl missing ↦ rw missing
        | inr (s, ef) ↦
            let at =
              All-Has
                (λ (r : Session).
                  r.refresh_token_hash ≡ c.hash_token token → is_some r.revoked_at ≡ true)
                s w.sessions spent (find_Has test w.sessions s ef) in
            let revoked : is_some s.revoked_at ≡ true =
              at ((==_iff _ _).0 (find_test test w.sessions s ef)) in
            rw (ef, revoked)
      ]

  -- A refresh token that was exchanged once is refused the second time, whatever the clock and the
  -- draws are by then. The token hashes of the session table are unique to begin with.
  pub refresh_single_use :
      (c : Crypto) (now later : ℕ) (draw draw' : Draw) (token : ℕ) (w : World) {pair : TokenPair}
      → HasUniqueHashes w.sessions
      → (refresh c now draw token w).0 ≡ ok pair
      → (refresh c later draw' token (refresh c now draw token w).1).0
        ≡ err (unauthorized "Invalid session")
  refresh_single_use c now later draw draw' token w u e =
      refresh_spent c later draw' token (refresh c now draw token w).1
        (refresh_spends c now draw token w u e)

  -- A refresh with the token of a revoked or expired session is refused, revokes every session of
  -- the session's user, and changes nothing else.
  pub refresh_reuse :
      (c : Crypto) (now : ℕ) (draw : Draw) (token : ℕ) (w : World) (s : Session)
      → p.find (λ r. r.refresh_token_hash == c.hash_token token) w.sessions ≡ some s
      → is_stale now s ≡ true
      → ((refresh c now draw token w).0 ≡ err (unauthorized "Invalid session"))
        × AllRevoked s.user_id (refresh c now draw token w).1.sessions
        × ((refresh c now draw token w).1 ≡ put_sessions (refresh c now draw token w).1.sessions w)
  unfolding refresh Sessions.find_by_token_hash rotate Sessions.revoke_all_for_user
  refresh_reuse c now draw token w s ef stale =
      rw (ef, stale) (refl, AllRevoked-revoke_all now s.user_id w.sessions, refl)

  -- A successful refresh answers with the drawn token and an access token for the session that it
  -- adds: a session of the presented session's user, not revoked, valid for seven days. The
  -- presented session was neither revoked nor expired.
  pub refresh_rotates :
      (c : Crypto) (now : ℕ) (draw : Draw) (token : ℕ) (w : World) {pair : TokenPair}
      → (refresh c now draw token w).0 ≡ ok pair
      → (s : Session) × Has s w.sessions
        × (s.refresh_token_hash ≡ c.hash_token token)
        × (is_stale now s ≡ false)
        × (pair ≡ issued now draw s)
        × Has (successor c now draw s) (refresh c now draw token w).1.sessions
  unfolding refresh Sessions.find_by_token_hash
  refresh_rotates c now draw token w e =
      let test = λ (r : Session). r.refresh_token_hash == c.hash_token token in
      let (s, ef, fresh, rows, er, rows', ec, ew, ep) =
        rotate_ok c now draw (p.find test w.sessions) w e in
      (
        s,
        find_Has test w.sessions s ef,
        (==_iff _ _).0 (find_test test w.sessions s ef),
        fresh,
        ep,
        rw (ew, (create_rows (successor c now draw s) rows rows' ec).1)
            (Has-last (successor c now draw s) rows),
      )
