-- ===== src/Auth/Keys/Apart.antt =====
-- The three kinds of signed tokens: one key signs them all, and the claims tell them apart.
use base_api_nest_js.Base.{
  ℕ, ◌+◌, ◌/◌, ◌≡◌, refl, Bool, true, false, none, some, inl, inr, Option, Option, Option-cases,
  Bool-cases, ltb, ◌&&◌,
}
use base_api_nest_js.Prisma.{Prisma}
use base_api_nest_js.World.{World, ok, is_ok, Result-cases}
use base_api_nest_js.Oauth.{OauthStatePayload}
use base_api_nest_js.Auth.Keys.{
  Jwt, Keyring, TokenSettings, Claims, SignOptions, VerifyOptions, public_key_for, verify_signed,
  access_token, sign_challenge_token, verify_challenge_token, authenticate, sign_state,
  verify_state, is_allowed, is_claim, challenge_type, state_type, verify_options, state_options,
  access_claims, challenge_claims, state_claims,
}

module _ (j : Jwt) (s : TokenSettings) where
  verify-same :
      (v : VerifyOptions) (o : SignOptions) (c : Claims) (at now : ℕ) {x : Claims × ℕ}
      → j.verify v now (j.sign o c at) ≡ some x
      → x ≡ (c, at)
  verify-same v o c at now {x} e =
      let law = j.verify-sign v o c at now in
      let test =
        j.fits o.private_key v.public_key
        && is_allowed v.issuer o.issuer
        && is_allowed v.audience o.audience
        && ltb now (at + o.expires_in) in
      elim (Bool-cases test) [
        | inl passed ↦ let read = rw passed at law in cc (read, e)
        | inr failed ↦ let read = rw failed at law in absurd (cc (read, e))
      ]

  -- A verification gives the claims that were signed or fails.
  verify_signed-same :
      (named : Bool) (k : Keyring) (o : SignOptions) (c : Claims) (at now : ℕ) {x : Claims × ℕ}
      → verify_signed j s named k now (j.sign o c at) ≡ ok x
      → x ≡ (c, at)
  unfolding verify_signed
  verify_signed-same named k o c at now {x} e =
      elim (Result-cases (public_key_for k (j.header_kid (j.sign o c at)))) [
        | inr (http, refused) ↦ absurd (let read = rw (refused, verify_signed) at e in cc (read))
        | inl (pem, found) ↦
            let v = verify_options j s named pem in
            elim (Option-cases (j.verify v (now / 1000) (j.sign o c at))) [
              | inl failed ↦ absurd (let read = rw (found, failed, verify_signed) at e in cc (read))
              | inr (y, passed) ↦
                  let read = rw (found, passed, verify_signed) at e in
                  let same = verify-same v o c at (now / 1000) passed in cc (read, same)
            ]
      ]

  challenge_refused :
      (k : Keyring) (o : SignOptions) (c : Claims) (at now : ℕ)
      → is_claim challenge_type c.type ≡ false
      → is_ok (verify_challenge_token j s k now (j.sign o c at)) ≡ false
  unfolding verify_challenge_token
  challenge_refused k o c at now other =
      elim (Result-cases (verify_signed j s true k now (j.sign o c at))) [
        | inl (x, e) ↦
            rw (e, verify_signed-same true k o c at now e, other, verify_challenge_token) refl
        | inr (x, e) ↦ rw (e, verify_challenge_token) refl
      ]

  state_refused :
      (k : Keyring) (o : SignOptions) (c : Claims) (at now : ℕ)
      → is_claim state_type c.type ≡ false
      → is_ok (verify_state j s k now (j.sign o c at)) ≡ false
  unfolding verify_state
  state_refused k o c at now other =
      elim (Result-cases (verify_signed j s false k now (j.sign o c at))) [
        | inl (x, e) ↦ rw (e, verify_signed-same false k o c at now e, other, verify_state) refl
        | inr (x, e) ↦ rw (e, verify_state) refl
      ]

  -- A signed state gives its own payload or is refused.
  pub state_own :
      (k later : Keyring) (at now : ℕ) (payload : OauthStatePayload) {x : Option OauthStatePayload}
      → verify_state j s later now (sign_state j s k at payload) ≡ ok x
      → x ≡ some payload
  unfolding verify_state sign_state
  state_own k later at now payload {x} e =
      let c = state_claims payload in
      elim (Result-cases
        (verify_signed j s false later now (j.sign (state_options k) c (at / 1000)))) [
          | inl (y, done) ↦
              let same = verify_signed-same false later (state_options k) c (at / 1000) now done in
              let read = rw (done, same, verify_state) at e in cc (read)
          | inr (y, failed) ↦ absurd (let read = rw (failed, verify_state) at e in cc (read))
        ]

  module _ ⦃p : Prisma⦄ where
    access_refused :
        (cached : Bool) (k : Keyring) (o : SignOptions) (c : Claims) (at now : ℕ) (w : World)
        → c.session_id ≡ none
        → is_ok (authenticate j s cached k now (j.sign o c at) w).0 ≡ false
    unfolding authenticate
    access_refused cached k o c at now w other =
        elim (Result-cases (verify_signed j s true k now (j.sign o c at))) [
          | inl (x, e) ↦ rw (e, verify_signed-same true k o c at now e, other, authenticate) refl
          | inr (x, e) ↦ rw (e, authenticate) refl
        ]

    -- Whatever the keyrings and the times, a signed token of one kind is refused where a token of
    -- another kind is expected.
    pub tokens_apart :
        (cached : Bool) (k later : Keyring) (at now user_id session_id : ℕ)
        (payload : OauthStatePayload) (w : World)
        → (is_ok (verify_challenge_token j s later now (access_token j s k at user_id session_id))
            ≡ false)
          × (is_ok (verify_challenge_token j s later now (sign_state j s k at payload)) ≡ false)
          × (is_ok (verify_state j s later now (access_token j s k at user_id session_id)) ≡ false)
          × (is_ok (verify_state j s later now (sign_challenge_token j s k at user_id)) ≡ false)
          × (is_ok (authenticate j s cached later now (sign_challenge_token j s k at user_id) w).0
              ≡ false)
          × (is_ok (authenticate j s cached later now (sign_state j s k at payload) w).0 ≡ false)
    unfolding access_token sign_challenge_token sign_state
    tokens_apart cached k later at now user_id session_id payload w = (
      challenge_refused later _ (access_claims user_id session_id) _ now refl,
      challenge_refused later _ (state_claims payload) _ now refl,
      state_refused later _ (access_claims user_id session_id) _ now refl,
      state_refused later _ (challenge_claims user_id) _ now refl,
      access_refused cached later _ (challenge_claims user_id) _ now w refl,
      access_refused cached later _ (state_claims payload) _ now w refl,
    )
