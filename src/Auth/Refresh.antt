-- ===== src/Auth/Refresh.antt =====
-- RefreshTokenUseCase: src/modules/auth/use-cases/refresh-token.use-case.ts.
pub mod Rotation
use base_api_nest_js.Base.{ℕ, Bool, Option, none, some, ltb, ◌||◌, is_some, if◌then◌else◌}
use base_api_nest_js.Prisma.{Prisma}
use base_api_nest_js.Crypto.{Crypto}
use base_api_nest_js.World.{Session, M, ◌>>=◌, ◌>>◌, throw, unauthorized}
use base_api_nest_js.Sessions
use base_api_nest_js.Auth.Tokens.{TokenPair, Draw, issue_tokens}

abbrev pub is_stale : ℕ → Session → Bool
is_stale now s = is_some s.revoked_at || ltb s.expires_at now

module _ ⦃p : Prisma⦄ where
  -- A stale session is taken for a stolen token: every session of its user is revoked.
  unfoldable pub rotate : Crypto → ℕ → Draw → Option Session → M TokenPair
  rotate c now draw none = throw (unauthorized "Invalid session")
  rotate c now draw (some session) =
      if is_stale now session
      then (do
        Sessions.revoke_all_for_user now session.user_id none
        throw (unauthorized "Invalid session"))
      else do
        Sessions.revoke now session.id
        issue_tokens c now draw session.user_id session.user_agent session.ip_address

  unfoldable pub refresh : Crypto → ℕ → Draw → ℕ → M TokenPair
  unfolding rotate
  refresh c now draw refresh_token = do
    session ← Sessions.find_by_token_hash (c.hash_token refresh_token)
    rotate c now draw session
