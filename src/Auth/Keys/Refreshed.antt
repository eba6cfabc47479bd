-- ===== src/Auth/Keys/Refreshed.antt =====
-- The signed access token of a refresh at a request that carries it.
use base_api_nest_js.Base.{
  ℕ, Bool, ◌+◌, ◌*◌, ◌/◌, ◌<◌, ◌≤◌, ◌≡◌, String, false, some, ◌==◌, ap, sym,
}
use base_api_nest_js.Prisma.{Prisma}
use base_api_nest_js.Crypto.{Crypto}
use base_api_nest_js.World.{World, User, Session, ok}
use base_api_nest_js.Sessions
use base_api_nest_js.Sessions.{day_ms}
use base_api_nest_js.Auth.Tokens.{Draw, TokenPair}
use base_api_nest_js.Auth.Refresh.{refresh}
use base_api_nest_js.Auth.Refresh.Rotation.{rotate_ok}
use base_api_nest_js.Auth.Jwt.Issued.{refresh_token_accepted}
use base_api_nest_js.Auth.Keys.{Jwt, Keyring, TokenSettings, access_token, authenticate}
use base_api_nest_js.Auth.Keys.Accepted.{Holds, access_token_reaches}

module _ ⦃p : Prisma⦄ (j : Jwt) (s : TokenSettings) where
  -- The signed access token of a successful refresh authenticates its user and the new session under every
  -- keyring that holds its key, until it or its session expires, if its user's tokens were never
  -- invalidated, or no later than its second and the cache does not hold that time.
  pub refresh_authenticates :
      (cached : Bool) (k k' : Keyring) (pem : String) (c : Crypto) (now later : ℕ) (draw : Draw)
      (token : ℕ) (w : World) {pair : TokenPair}
      → Holds j k' k pem
      → (refresh c now draw token w).0 ≡ ok pair
      → later / 1000 < now / 1000 + s.access_expires_in
      → later ≤ now + 7 * day_ms
      → ((u : User) (at : ℕ)
          → p.find (λ (r : User). r.id == pair.access_token.sub) w.users ≡ some u
          → u.tokens_invalidated_at ≡ some at
          → (cached ≡ false) × (at ≤ pair.access_token.iat * 1000))
      → (authenticate j s cached k' later
          (access_token j s k now pair.access_token.sub pair.access_token.session_id)
          (refresh c now draw token w).1).0
        ≡ ok (record { id = pair.access_token.sub; session_id = pair.access_token.session_id })
  unfolding refresh Sessions.find_by_token_hash
  refresh_authenticates cached k k' pem c now later draw token w {pair} held e alive in_time kept =
      let test = λ (r : Session). r.refresh_token_hash == c.hash_token token in
      let (old, ef, fresh, rows, er, rows', ec, ew, ep) =
        rotate_ok c now draw (p.find test w.sessions) w e in
      let iat : now / 1000 ≡ pair.access_token.iat = ap (λ t. t.access_token.iat) (sym ep) in
      rw
        (
          access_token_reaches j s cached k k' pem now later pair.access_token.sub
              pair.access_token.session_id (refresh c now draw token w).1 held alive,
          iat,
        )
        (refresh_token_accepted cached c now later draw token w e in_time kept)
