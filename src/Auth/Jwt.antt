-- ===== src/Auth/Jwt.antt =====
-- JwtStrategy.validate: src/modules/auth/strategies/jwt.strategy.ts. The claims reach it after the
-- signature, the issuer and the expiry were checked.
pub mod SignOut
pub mod Issued
use base_api_nest_js.Base.{
  ℕ, ◌*◌, Bool, Option, none, some, ltb, ◌||◌, ◌==◌, is_some, false, if◌then◌else◌,
}
use base_api_nest_js.Prisma.{Prisma}
use base_api_nest_js.World.{
  World, User, Session, M, ◌>>=◌, ◌>>◌, pure, gets, throw, throw_if, unauthorized, internal,
  or_throw,
}
use base_api_nest_js.Sessions
use base_api_nest_js.Auth.Tokens.{AccessToken}

pub record AccessTokenPayload : Type 0 where
  pub id : ℕ
  pub session_id : ℕ

-- The date as the cached method gives it: a Date from the query, and a text where the cache answers,
-- which stores JSON.
pub data ReadDate : Type 0 where
  queried : ℕ → ReadDate
  json_text : ReadDate

-- `cached` says whether the cache holds the user's date. It never holds a missing one: CacheService.wrap
-- takes null for no entry.
abbrev pub as_read : Bool → Option ℕ → Option ReadDate
as_read cached none = none
as_read cached (some at) = some (if cached then json_text else queried at)

-- `invalidatedAt && payload.iat * 1000 < invalidatedAt.getTime()`, and a text has no getTime.
abbrev pub throw_if_invalidated : ℕ → Option ReadDate → M (Unit {0})
throw_if_invalidated iat none = pure tt
throw_if_invalidated iat (some (queried at)) =
    throw_if (ltb (iat * 1000) at) (unauthorized "Token has been invalidated")
throw_if_invalidated iat (some json_text) = throw (internal "TypeError")

abbrev pub invalidated_at : Option User → Option ℕ
invalidated_at none = none
invalidated_at (some user) = user.tokens_invalidated_at

module _ ⦃p : Prisma⦄ where
  -- PrismaUsersRepository.findTokensInvalidatedAt
  unfoldable pub find_tokens_invalidated_at : Bool → ℕ → M (Option ReadDate)
  find_tokens_invalidated_at cached id =
      gets (λ w. as_read cached (invalidated_at (p.find (λ (u : User). u.id == id) w.users)))

  unfoldable pub validate : Bool → ℕ → AccessToken → M AccessTokenPayload
  unfolding find_tokens_invalidated_at
  validate cached now payload = do
    found ← Sessions.find_by_id payload.session_id
    session ← or_throw (unauthorized "Session is no longer active") found
    throw_if (is_some session.revoked_at || ltb session.expires_at now)
        (unauthorized "Session is no longer active")
    invalidated ← find_tokens_invalidated_at cached payload.sub
    throw_if_invalidated payload.iat invalidated
    pure (record { id = payload.sub; session_id = payload.session_id })
