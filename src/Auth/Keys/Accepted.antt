-- ===== src/Auth/Keys/Accepted.antt =====
-- Signed tokens under a keyring that still holds the key of their time.
use base_api_nest_js.Base.{
  ℕ, ◌+◌, ◌/◌, ◌<◌, ◌≡◌, refl, String, Bool, true, false, some, none, ltb, str_eq, arith,
  if◌then◌else◌,
}
use text.Mathlib.TextPositions.{eq_refl}
use base_api_nest_js.Prisma.{Prisma}
use base_api_nest_js.World.{World, ok}
use base_api_nest_js.Oauth.{OauthStatePayload}
use base_api_nest_js.Auth.Jwt.{validate}
use base_api_nest_js.Auth.Keys.{
  Jwt, Keyring, TokenSettings, Claims, SignOptions, key_of, public_key_for, verify_signed,
  access_token, sign_challenge_token, verify_challenge_token, authenticate, five_minutes,
  named_options, state_options, access_claims, challenge_claims, state_claims, sign_state,
  verify_state, is_allowed,
}

-- The keyring `later` holds the public key `pem` of the one that signs.
abbrev pub Holds : Jwt → Keyring → Keyring → String → Type 0
Holds j later k pem =
    (str_eq k.current_kid "" ≡ false)
    × (key_of k.current_kid later.public_keys ≡ some pem)
    × (str_eq pem "" ≡ false)
    × (j.fits k.current_private_key pem ≡ true)

module _ (j : Jwt) (s : TokenSettings) where
  verify_signed-sign :
      (k later : Keyring) (pem : String) (o : SignOptions) (c : Claims) (at now : ℕ) (named : Bool)
      → Holds j later k pem
      → (o.private_key ≡ k.current_private_key)
      → (o.keyid ≡ k.current_kid)
      → (is_allowed (if named then some s.issuer else none) o.issuer ≡ true)
      → (is_allowed (if named then some s.audience else none) o.audience ≡ true)
      → now / 1000 < at + o.expires_in
      → verify_signed j s named later now (j.sign o c at) ≡ ok (c, at)
  unfolding verify_signed public_key_for
  verify_signed-sign k later pem o c at now named (has_kid, known, full, fits) key kid issuer
        audience in_time =
      let alive : ltb (now / 1000) (at + o.expires_in) ≡ true = ground arith in
      let found : public_key_for later (j.header_kid (j.sign o c at)) ≡ ok pem =
        rw (j.header_kid-sign o c at, kid, has_kid, known, full, public_key_for) refl in
      rw (found, j.verify-sign, key, fits, issuer, audience, alive, verify_signed) refl

  -- A challenge names the user it was signed for for five minutes, under every keyring that holds its key.
  pub challenge_token_names :
      (k later : Keyring) (pem : String) (at now user_id : ℕ)
      → Holds j later k pem
      → now / 1000 < at / 1000 + five_minutes
      → verify_challenge_token j s later now (sign_challenge_token j s k at user_id)
        ≡ ok (some user_id)
  unfolding verify_challenge_token sign_challenge_token
  challenge_token_names k later pem at now user_id held in_time =
      let claims =
        verify_signed-sign k later pem (named_options j s k five_minutes) (challenge_claims user_id)
          (at / 1000) now true held refl refl (eq_refl s.issuer) (eq_refl s.audience) in_time in
      rw (claims, verify_challenge_token) refl

  pub state_returns :
      (k later : Keyring) (pem : String) (at now : ℕ) (payload : OauthStatePayload)
      → Holds j later k pem
      → now / 1000 < at / 1000 + five_minutes
      → verify_state j s later now (sign_state j s k at payload) ≡ ok (some payload)
  unfolding verify_state sign_state
  state_returns k later pem at now payload held in_time =
      let claims =
        verify_signed-sign k later pem (state_options k) (state_claims payload) (at / 1000) now
          false held refl refl refl refl in_time in
      rw (claims, verify_state) refl

  module _ ⦃p : Prisma⦄ where
    pub access_token_reaches :
        (cached : Bool) (k later : Keyring) (pem : String) (at now user_id session_id : ℕ)
        (w : World)
        → Holds j later k pem
        → now / 1000 < at / 1000 + s.access_expires_in
        → authenticate j s cached later now (access_token j s k at user_id session_id) w
          ≡ validate cached now
              (record { sub = user_id; session_id = session_id; iat = at / 1000 })
              w
    unfolding authenticate access_token
    access_token_reaches cached k later pem at now user_id session_id w held in_time =
        let claims =
          verify_signed-sign k later pem (named_options j s k s.access_expires_in)
            (access_claims user_id session_id) (at / 1000) now true held refl refl
            (eq_refl s.issuer) (eq_refl s.audience) in_time in
        rw (claims, authenticate) refl
