-- ===== src/Auth/Tokens.antt =====
-- The access tokens of TokenService (src/modules/auth/services/token.service.ts) and the pair of
-- tokens that a login, a refresh and an OAuth callback answer with. A signed JWT is shown by its
-- claims; `iat` is in whole seconds.
use base_api_nest_js.Base.{ℕ, ◌/◌, String, Option}
use base_api_nest_js.Prisma.{Prisma}
use base_api_nest_js.Crypto.{Crypto}
use base_api_nest_js.World.{M, ◌>>=◌, pure}
use base_api_nest_js.Sessions.Manage.{create_session}

pub record AccessToken : Type 0 where
  pub sub : ℕ
  pub session_id : ℕ
  pub iat : ℕ

pub record TokenPair : Type 0 where
  pub access_token : AccessToken
  pub refresh_token : ℕ

-- What a call draws: the identifier of the new session's row and the random refresh token.
pub record Draw : Type 0 where
  pub session_id : ℕ
  pub refresh_token : ℕ

abbrev pub sign_access_token : ℕ → ℕ → ℕ → AccessToken
sign_access_token now user_id session_id = record {
  sub = user_id;
  session_id = session_id;
  iat = now / 1000;
}

module _ ⦃p : Prisma⦄ where
  -- LoginUseCase.issueTokens, and the end of RefreshTokenUseCase.execute.
  unfoldable pub issue_tokens : Crypto → ℕ → Draw → ℕ → Option String → Option String → M TokenPair
  issue_tokens c now draw user_id user_agent ip_address = do
    session ← create_session c now (record {
      id = draw.session_id;
      user_id = user_id;
      refresh_token = draw.refresh_token;
      user_agent = user_agent;
      ip_address = ip_address;
    })
    pure (record {
      access_token = sign_access_token now user_id session.id;
      refresh_token = draw.refresh_token;
    })
