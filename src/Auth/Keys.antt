-- ===== src/Auth/Keys.antt =====
-- Signed tokens: jwt-key-resolver.service.ts and token.service.ts of src/modules/auth/services, the options
-- of src/modules/auth/strategies/jwt.strategy.ts, and src/modules/oauth/services/oauth-state.service.ts.
-- The library that signs and verifies is a parameter, and with it the decoding of a token's header, which
-- kidFromToken leaves to Buffer and JSON. Times are in milliseconds, and the claims `iat` and
-- `exp` in seconds.
pub mod Apart
pub mod Accepted
pub mod Refreshed
use base_api_nest_js.Base.{
  ℕ, ◌+◌, ◌*◌, ◌/◌, ◌≡◌, String, Bool, true, false, not, ◌&&◌, ltb, str_eq, Option, none, some,
  List, [], ◌∷◌, if◌then◌else◌,
}
use base_api_nest_js.Prisma.{Prisma}
use base_api_nest_js.World.{World, Result, ok, err, M, throw, unauthorized, internal}
use base_api_nest_js.Oauth.{OauthStatePayload}
use base_api_nest_js.Auth.Tokens.{AccessToken}
use base_api_nest_js.Auth.Jwt.{AccessTokenPayload, validate}

-- The claims that the code writes and reads; `state` is the rest of an OAuth state's payload.
pub record Claims : Type 0 where
  pub sub : Option ℕ
  pub session_id : Option ℕ
  pub type : Option String
  pub state : Option OauthStatePayload

pub record SignOptions : Type 0 where
  pub private_key : String
  pub keyid : String
  pub expires_in : ℕ
  pub issuer : Option String
  pub audience : Option String

pub record VerifyOptions : Type 0 where
  pub public_key : String
  pub issuer : Option String
  pub audience : Option String

-- `===` on a claim that may be missing.
abbrev pub is_claim : String → Option String → Bool
is_claim name none = false
is_claim name (some claim) = str_eq claim name

-- A verification without the option does not look at the claim.
abbrev pub is_allowed : Option String → Option String → Bool
is_allowed none claim = true
is_allowed (some name) claim = is_claim name claim

-- JwtService: `sign` and `verify` take the time in seconds, and `verify` answers with the claims and `iat`.
-- `fits` tells whether a public key is that of a private key, and `header_kid` is the header's key id.
pub record Jwt : Type 1 where
  pub Token : Type 0
  pub sign : SignOptions → Claims → ℕ → Token
  pub verify : VerifyOptions → ℕ → Token → Option (Claims × ℕ)
  pub header_kid : Token → Option String
  pub fits : String → String → Bool
  pub header_kid-sign :
      (o : SignOptions) (c : Claims) (at : ℕ) → header_kid (sign o c at) ≡ some o.keyid
  pub verify-sign :
      (v : VerifyOptions) (o : SignOptions) (c : Claims) (at now : ℕ)
      → verify v now (sign o c at) ≡ (
          if fits o.private_key v.public_key
            && is_allowed v.issuer o.issuer
            && is_allowed v.audience o.audience
            && ltb now (at + o.expires_in)
          then some (c, at)
          else none)

-- JwtKeyResolverService, as the environment fills it.
pub record Keyring : Type 0 where
  pub current_kid : String
  pub current_private_key : String
  pub public_keys : List (String × String)

-- JWT_ISSUER, JWT_AUDIENCE and JWT_ACCESS_EXPIRES_IN in seconds.
pub record TokenSettings : Type 0 where
  pub issuer : String
  pub audience : String
  pub access_expires_in : ℕ

-- `this.publicKeys.get(kid)`
unfoldable pub key_of : String → List (String × String) → Option String
key_of kid [] = none
key_of kid ((k, pem) ∷ keys) = let rest = key_of kid keys in if str_eq k kid then some pem else rest

abbrev pub known_key : Option String → Result String
known_key none = err (unauthorized "Unknown signing key")
known_key (some pem) = if str_eq pem "" then err (unauthorized "Unknown signing key") else ok pem

unfoldable pub public_key_for : Keyring → Option String → Result String
unfolding key_of
public_key_for k none = err (unauthorized "Missing kid in token header")
public_key_for k (some kid) =
    if str_eq kid ""
    then err (unauthorized "Missing kid in token header")
    else known_key (key_of kid k.public_keys)

abbrev pub challenge_type : String
challenge_type = "2fa-challenge"

abbrev pub state_type : String
state_type = "oauth-state"

-- '5m'
abbrev pub five_minutes : ℕ
five_minutes = 300

abbrev pub access_claims : ℕ → ℕ → Claims
access_claims user_id session_id = record {
  sub = some user_id;
  session_id = some session_id;
  type = none;
  state = none;
}

abbrev pub challenge_claims : ℕ → Claims
challenge_claims user_id = record {
  sub = some user_id;
  session_id = none;
  type = some challenge_type;
  state = none;
}

abbrev pub state_claims : OauthStatePayload → Claims
state_claims payload = record {
  sub = none;
  session_id = none;
  type = some state_type;
  state = some payload;
}

abbrev pub state_options : Keyring → SignOptions
state_options k = record {
  private_key = k.current_private_key;
  keyid = k.current_kid;
  expires_in = five_minutes;
  issuer = none;
  audience = none;
}

module _ (j : Jwt) (s : TokenSettings) where
  -- The options of TokenService, which state the issuer and the audience.
  abbrev pub named_options : Keyring → ℕ → SignOptions
  named_options k expires_in = record {
    private_key = k.current_private_key;
    keyid = k.current_kid;
    expires_in = expires_in;
    issuer = some s.issuer;
    audience = some s.audience;
  }

  -- TokenService.signAccessToken
  unfoldable pub access_token : Keyring → ℕ → ℕ → ℕ → j.Token
  access_token k now user_id session_id =
      j.sign (named_options k s.access_expires_in) (access_claims user_id session_id) (now / 1000)

  unfoldable pub sign_challenge_token : Keyring → ℕ → ℕ → j.Token
  sign_challenge_token k now user_id =
      j.sign (named_options k five_minutes) (challenge_claims user_id) (now / 1000)

  -- OAuthStateService.sign, with the drawn nonce in the payload.
  unfoldable pub sign_state : Keyring → ℕ → OauthStatePayload → j.Token
  sign_state k now payload = j.sign (state_options k) (state_claims payload) (now / 1000)

  -- `named` says whether the issuer and the audience are checked.
  abbrev pub verify_options : Bool → String → VerifyOptions
  verify_options named public_key = record {
    public_key = public_key;
    issuer = if named then some s.issuer else none;
    audience = if named then some s.audience else none;
  }

  -- The claims of a token whose key is known.
  unfoldable pub verify_signed : Bool → Keyring → ℕ → j.Token → Result (Claims × ℕ)
  unfolding public_key_for
  verify_signed named k now token = elim (public_key_for k (j.header_kid token)) [
    | err e ↦ err e
    | ok public_key ↦ elim (j.verify (verify_options named public_key) (now / 1000) token) [
      | none ↦ err (internal "JsonWebTokenError")
      | some claims ↦ ok claims
    ]
  ]

  unfoldable pub verify_challenge_token : Keyring → ℕ → j.Token → Result (Option ℕ)
  unfolding verify_signed
  verify_challenge_token k now token = elim (verify_signed true k now token) [
    | err e ↦ err e
    | ok (payload, iat) ↦
        if not (is_claim challenge_type payload.type)
        then err (internal "Invalid challenge token")
        else ok payload.sub
  ]

  -- OAuthStateService.verify, which answers every failure alike.
  unfoldable pub verify_state : Keyring → ℕ → j.Token → Result (Option OauthStatePayload)
  unfolding verify_signed
  verify_state k now token = elim (verify_signed false k now token) [
    | err e ↦ err (unauthorized "Invalid or expired OAuth state")
    | ok (payload, iat) ↦
        if not (is_claim state_type payload.type)
        then err (unauthorized "Invalid or expired OAuth state")
        else ok payload.state
  ]

  module _ ⦃p : Prisma⦄ where
    -- A query for the session of a token without `sessionId` is refused by the client.
    abbrev pub validate_claims : Bool → ℕ → Claims × ℕ → M AccessTokenPayload
    validate_claims cached now (claims, iat) = elim claims.session_id [
      | none ↦ throw (internal "PrismaClientValidationError")
      | some session_id ↦ elim claims.sub [
        | none ↦ throw (internal "PrismaClientValidationError")
        | some sub ↦ validate cached now (record { sub = sub; session_id = session_id; iat = iat })
      ]
    ]

    -- JwtStrategy: the signature, the issuer, the audience and the expiry, and then the claims.
    unfoldable pub authenticate : Bool → Keyring → ℕ → j.Token → M AccessTokenPayload
    unfolding verify_signed validate
    authenticate cached k now token = elim (verify_signed true k now token) [
      | err e ↦ throw (unauthorized "Unauthorized")
      | ok claims ↦ validate_claims cached now claims
    ]
