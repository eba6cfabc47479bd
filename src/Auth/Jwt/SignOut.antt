-- ===== src/Auth/Jwt/SignOut.antt =====
-- Which access tokens pass the strategy: those of an active session, until a revocation of the
-- session or a reset of the password.
use base_api_nest_js.Base.{
  ℕ, ◌*◌, ◌/◌, ◌<◌, ◌≤◌, String, ◌≡◌, Bool, true, false, Option, none, some, refl, ltb, ◌==◌,
  is_some, Option-cases, Bool-cases, inl, inr, Has, All, All-Has, All-map, arith, ==_iff,
  All-of_Has, ◌∙◌, sym, subst, map,
}
use base_api_nest_js.Prisma.{Prisma, written}
use base_api_nest_js.Prisma.Laws.{find_Has, find_test, update_rows}
use base_api_nest_js.Crypto.{Crypto}
use base_api_nest_js.World.{World, User, Token, Session, ok, is_ok, pure, Result-cases}
use base_api_nest_js.Sessions
use base_api_nest_js.Sessions.{mark_revoked}
use base_api_nest_js.Sessions.Manage.{revoke_session}
use base_api_nest_js.Auth.Tokens.{AccessToken}
use base_api_nest_js.Auth.Recovery.{reset_password}
use base_api_nest_js.Auth.Recovery.Reset.{reset_password_effect}
use base_api_nest_js.Auth.Jwt.{
  invalidated_at, as_read, throw_if_invalidated, find_tokens_invalidated_at, validate,
}

module _ ⦃p : Prisma⦄ where
  -- A time before which the user's tokens are invalid, if there is one, is read from the database and is
  -- not after the second of the token.
  abbrev pub IsCurrent : Bool → AccessToken → World → Type 0
  IsCurrent cached token w =
      (u : User) (at : ℕ)
      → p.find (λ (r : User). r.id == token.sub) w.users ≡ some u
      → u.tokens_invalidated_at ≡ some at
      → (cached ≡ false) × (at ≤ token.iat * 1000)

  -- What an access token needs: the session of its id is neither revoked nor expired, and the token is
  -- current.
  abbrev pub MayPass : Bool → ℕ → AccessToken → World → Type 0
  MayPass cached now token w =
      ((s : Session) × (p.find (λ (r : Session). r.id == token.session_id) w.sessions ≡ some s)
        × (s.revoked_at ≡ none)
        × (now ≤ s.expires_at))
      × IsCurrent cached token w

  pub in_time_passes :
      (cached : Bool) (iat : ℕ) (found : Option User)
      → ((u : User) (at : ℕ)
          → found ≡ some u
          → u.tokens_invalidated_at ≡ some at
          → (cached ≡ false) × (at ≤ iat * 1000))
      → throw_if_invalidated iat (as_read cached (invalidated_at found)) ≡ pure tt
  in_time_passes cached iat none h = refl
  in_time_passes cached iat (some u) h = elim (Option-cases u.tokens_invalidated_at) [
    | inl never ↦ rw never refl
    | inr (at, e) ↦
        let (queried, early) = h u at refl e in
        let kept : ltb (iat * 1000) at ≡ false = ground arith in rw (e, queried, kept) refl
  ]

  passes_in_time :
      (cached : Bool) (iat : ℕ) (w : World) (u : User) (at : ℕ)
      → is_ok (throw_if_invalidated iat (as_read cached (invalidated_at (some u))) w).0 ≡ true
      → u.tokens_invalidated_at ≡ some at
      → (cached ≡ false) × (at ≤ iat * 1000)
  passes_in_time cached iat w u at passed e = elim (Bool-cases cached) [
    | inl hit ↦ absurd (let read = rw (e, hit) at passed in cc read)
    | inr queried ↦ let read = rw (e, queried) at passed in (queried, ground arith)
  ]

  -- An access token passes just if its session is neither revoked nor expired, and its user's tokens were not
  -- invalidated after the token's second; where the tokens were ever invalidated, the cache must not have
  -- answered. The answer is the token's user and session, and nothing is written.
  pub validate_iff :
      (cached : Bool) (now : ℕ) (token : AccessToken) (w : World)
      → (is_ok (validate cached now token w).0 ≡ true → MayPass cached now token w)
        × (MayPass cached now token w
            → validate cached now token w
              ≡ (ok (record { id = token.sub; session_id = token.session_id }), w))
  unfolding validate Sessions.find_by_id find_tokens_invalidated_at
  validate_iff cached now token w =
      let test = λ (s : Session). s.id == token.session_id in
      let known = p.find (λ (u : User). u.id == token.sub) w.users in
      let dates = throw_if_invalidated token.iat (as_read cached (invalidated_at known)) w in
      (
        (λ passed. elim (Option-cases (p.find test w.sessions)) [
          | inl missing ↦ absurd (ground arith)
          | inr (s, found) ↦ elim (Option-cases s.revoked_at) [
            | inr (at, revoked) ↦ absurd (ground arith)
            | inl active ↦ elim (Result-cases dates.0) [
              | inr (x, late) ↦ absurd (ground arith)
              | inl (done, early) ↦ (
                (s, found, active, ground arith),
                (λ u at here e.
                    passes_in_time cached token.iat w u at
                      (let read : is_ok dates.0 ≡ true = rw early refl in rw here at read) e),
              )
            ]
          ]
        ]),
        (λ ((s, found, active, alive), early).
            let passed = in_time_passes cached token.iat known early in
            let fresh : ltb s.expires_at now ≡ false = ground arith in
            rw (found, active, fresh, passed) refl),
      )

  validate_revoked :
      (cached : Bool) (now : ℕ) (token : AccessToken) (w : World)
      → All (λ (s : Session). s.id ≡ token.session_id → is_some s.revoked_at ≡ true) w.sessions
      → is_ok (validate cached now token w).0 ≡ false
  unfolding validate Sessions.find_by_id
  validate_revoked cached now token w gone =
      let test = λ (s : Session). s.id == token.session_id in
      elim (Option-cases (p.find test w.sessions)) [
        | inl missing ↦ ground arith
        | inr (s, ef) ↦
            let at =
              All-Has (λ (s : Session). s.id ≡ token.session_id → is_some s.revoked_at ≡ true) s
                w.sessions gone (find_Has test w.sessions s ef) in
            let revoked : is_some s.revoked_at ≡ true =
              at ((==_iff _ _).0 (find_test test w.sessions s ef)) in
            rw (ef, revoked)
      ]

  validate_invalidated :
      (cached : Bool) (now at : ℕ) (token : AccessToken) (w : World)
      → All (λ (u : User). u.id ≡ token.sub → u.tokens_invalidated_at ≡ some at) w.users
      → (u : User) → Has u w.users
      → u.id ≡ token.sub
      → token.iat * 1000 < at
      → is_ok (validate cached now token w).0 ≡ false
  unfolding validate Sessions.find_by_id find_tokens_invalidated_at
  validate_invalidated cached now at token w all_out u m own early =
      let test = λ (v : User). v.id == token.sub in
      elim (Option-cases (p.find test w.users)) [
        | inl missing ↦
            let off =
              All-Has (λ v. test v ≡ false) u w.users (p.find_none test w.users missing) m in
            absurd (ground arith)
        | inr (v, ef) ↦
            let out =
              All-Has (λ (v : User). v.id ≡ token.sub → v.tokens_invalidated_at ≡ some at) v w.users
                all_out (find_Has test w.users v ef)
                ((==_iff _ _).0 (find_test test w.users v ef)) in
            ground arith
      ]

  revoke_session_revokes :
      (now id user_id : ℕ) (w : World)
      → All (λ (a : Session). All (λ (b : Session). b.id ≡ a.id → b ≡ a) w.sessions) w.sessions
      → (revoke_session now id user_id w).0 ≡ ok tt
      → All
          (λ (s : Session). s.id ≡ id → is_some s.revoked_at ≡ true)
          (revoke_session now id user_id w).1.sessions
  unfolding revoke_session Sessions.find_by_id Sessions.revoke
  revoke_session_revokes now id user_id w unique e =
      let test = λ (s : Session). s.id == id in
      let gone = λ (s : Session). s.id ≡ id → is_some s.revoked_at ≡ true in
      let after = (revoke_session now id user_id w).1.sessions in
      elim (Option-cases (p.find test w.sessions)) [
        | inl missing ↦ absurd (ground arith)
        | inr (s, ef) ↦ elim (Bool-cases (is_some s.revoked_at)) [
          | inl already ↦
              let kept : after ≡ w.sessions = ground arith in
              let own : s.id ≡ id = (==_iff _ _).0 (find_test test w.sessions s ef) in
              let only =
                All-Has (λ (a : Session). All (λ (b : Session). b.id ≡ a.id → b ≡ a) w.sessions) s
                  w.sessions unique (find_Has test w.sessions s ef) in
              subst (All gone) (sym kept) (
                All-of_Has gone w.sessions (λ r m er.
                  let same =
                    All-Has (λ (b : Session). b.id ≡ s.id → b ≡ s) r w.sessions only m
                      (er ∙ sym own) in
                  rw same already))
          | inr active ↦ elim (Option-cases (p.update test (mark_revoked now) w.sessions)) [
            | inl lost ↦ absurd (ground arith)
            | inr (rows, er) ↦
                let left : after ≡ map (written test (mark_revoked now)) w.sessions =
                  ground (arith, update_rows test (mark_revoked now) w.sessions rows er) in
                subst (All gone) (sym left)
                  (All-map gone (written test (mark_revoked now)) w.sessions (λ r m. ground arith))
          ]
        ]
      ]

  -- A session that its user revoked: no access token of the session passes afterwards, whatever the
  -- time. The ids of the session table are unique to begin with.
  pub revoke_session_signs_out :
      (cached : Bool) (now later user_id : ℕ) (token : AccessToken) (w : World)
      → All (λ (a : Session). All (λ (b : Session). b.id ≡ a.id → b ≡ a) w.sessions) w.sessions
      → (revoke_session now token.session_id user_id w).0 ≡ ok tt
      → is_ok (validate cached later token (revoke_session now token.session_id user_id w).1).0
        ≡ false
  revoke_session_signs_out cached now later user_id token w unique e =
      validate_revoked cached later token (revoke_session now token.session_id user_id w).1
        (revoke_session_revokes now token.session_id user_id w unique e)

  -- Once the password of the user was reset, an access token of the user that was issued in an
  -- earlier second no longer passes, whatever the time and the cache. The user's row is still in the table.
  pub reset_password_signs_out :
      (cached : Bool) (c : Crypto) (now later history_size id raw : ℕ) (new_password : String)
      (token : AccessToken) (w : World) (t : Token) (u : User)
      → p.find (λ r. r.token_hash == c.hash_token raw) w.password_reset_tokens ≡ some t
      → (reset_password c now history_size id raw new_password w).0 ≡ ok tt
      → token.sub ≡ t.user_id
      → token.iat < now / 1000
      → Has u (reset_password c now history_size id raw new_password w).1.users
      → u.id ≡ token.sub
      → is_ok
          (validate cached later token
            (reset_password c now history_size id raw new_password w).1).0
        ≡ false
  reset_password_signs_out cached c now later history_size id raw new_password token w t u ef e own
        early m same =
      let (t', ef', alive, users, sessions) =
        reset_password_effect c now history_size id raw new_password w e in
      let w' = (reset_password c now history_size id raw new_password w).1 in
      let agree : t'.user_id ≡ token.sub = ground arith in
      validate_invalidated cached later now token w'
        (All-of_Has (λ (v : User). v.id ≡ token.sub → v.tokens_invalidated_at ≡ some now) w'.users
          (λ v mv ev.
            (All-Has
              (λ (v : User).
                v.id ≡ t'.user_id
                → (v.password_hash ≡ some (c.hash_password new_password))
                  × (v.tokens_invalidated_at ≡ some now))
              v w'.users users mv (ev ∙ sym agree)).1))
        u m same (omega arith)
