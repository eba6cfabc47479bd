-- ===== src/Auth/Jwt/Issued.antt =====
-- The tokens that a refresh issues pass the strategy.
use base_api_nest_js.Base.{ℕ, Bool, ◌/◌, ◌+◌, ◌*◌, ◌≤◌, ◌≡◌, refl, false, ◌==◌, ltb, arith}
use base_api_nest_js.Prisma.{Prisma}
use base_api_nest_js.Crypto.{Crypto}
use base_api_nest_js.World.{World, User, Session, ok}
use base_api_nest_js.Sessions
use base_api_nest_js.Sessions.{day_ms}
use base_api_nest_js.Sessions.Laws.{create_found}
use base_api_nest_js.Auth.Tokens.{Draw, TokenPair}
use base_api_nest_js.Auth.Refresh.{refresh}
use base_api_nest_js.Auth.Refresh.Rotation.{rotate_ok, successor, issued}
use base_api_nest_js.Auth.Jwt.{find_tokens_invalidated_at, validate}
use base_api_nest_js.Auth.Jwt.SignOut.{IsCurrent, in_time_passes}

module _ ⦃p : Prisma⦄ where
  -- The access token of a successful refresh passes the strategy for seven days, in the state that
  -- the refresh leaves, if its user's tokens were not invalidated.
  pub refresh_token_accepted :
      (cached : Bool) (c : Crypto) (now later : ℕ) (draw : Draw) (token : ℕ) (w : World)
      {pair : TokenPair}
      → (refresh c now draw token w).0 ≡ ok pair
      → later ≤ now + 7 * day_ms
      → IsCurrent cached pair.access_token w
      → (validate cached later pair.access_token (refresh c now draw token w).1).0
        ≡ ok (record { id = pair.access_token.sub; session_id = pair.access_token.session_id })
  unfolding refresh Sessions.find_by_token_hash validate Sessions.find_by_id
      find_tokens_invalidated_at
  refresh_token_accepted cached c now later draw token w {pair} e in_time kept =
      let test = λ (r : Session). r.refresh_token_hash == c.hash_token token in
      let (s, ef, fresh, rows, er, rows', ec, ew, ep) =
        rotate_ok c now draw (p.find test w.sessions) w e in
      let found = create_found (successor c now draw s) rows rows' ec in
      let kept' : IsCurrent cached (issued now draw s).access_token w = rw ep at kept in
      let passed =
        in_time_passes cached (now / 1000) (p.find (λ (u : User). u.id == s.user_id) w.users)
          kept' in
      let alive : ltb (now + 7 * day_ms) later ≡ false = ground arith in
      rw (ew, ep, found, alive, passed) refl
