-- ===== src/Auth/TwoFactor.antt =====
-- The second factor: TwoFactorService (src/modules/auth/services/two-factor.service.ts) and the use
-- cases setup-2fa, enable-2fa, disable-2fa and verify-2fa of src/modules/auth/use-cases.
pub mod Recovery
pub mod Enrolment
use base_api_nest_js.Base.{
  ℕ, String, Bool, true, false, Option, none, some, List, [], ◌∷◌, not, ◌&&◌, ◌||◌, ◌==◌, map,
  if◌then◌else◌, ◌≡◌, ◌≢◌,
}
use base_api_nest_js.Prisma.{Prisma}
use base_api_nest_js.Crypto.{Crypto}
use base_api_nest_js.World.{
  World, User, M, ◌>>=◌, ◌>>◌, pure, throw, or_throw, throw_if, when, count_metric, audit_log, Meta,
  text, AuditEntry, unauthorized, bad_request, not_found, internal,
}
use base_api_nest_js.Users
use base_api_nest_js.Auth.Tokens.{TokenPair, Draw, issue_tokens}
use base_api_nest_js.Auth.Login.{truthy, password_ok}
use base_api_nest_js.Auth.Totp.{Hmac, verify_token, base32_encode}

-- What CryptoUtil takes from the crypto module for the second factor: AES-256-GCM under the
-- application's key, with a drawn vector, whose text is never empty; and the hash of a code.
pub record SecretBox : Type 0 where
  pub encrypt : ℕ → List ℕ → List ℕ
  pub decrypt : List ℕ → Option (List ℕ)
  pub hash_code : List ℕ → ℕ
  pub hmac : Hmac
  pub decrypt-encrypt : (iv : ℕ) (secret : List ℕ) → decrypt (encrypt iv secret) ≡ some secret
  pub encrypt_some : (iv : ℕ) (secret : List ℕ) → encrypt iv secret ≢ []

-- `!!user.twoFactorSecret`
abbrev pub has_secret : Option (List ℕ) → Bool
has_secret none = false
has_secret (some []) = false
has_secret (some (c ∷ cs)) = true

abbrev pub or_empty : Option (List ℕ) → List ℕ
or_empty none = []
or_empty (some cs) = cs

-- `indexOf` and `splice` of the first hash that is found.
unfoldable pub remove_first : ℕ → List ℕ → Option (List ℕ)
remove_first h [] = none
remove_first h (x ∷ xs) =
    let rest = remove_first h xs in
    if h == x then some xs else elim rest [ none ↦ none | some ys ↦ some (x ∷ ys) ]

-- `hashRecoveryCodes`
abbrev pub hash_recovery_codes : SecretBox → List (List ℕ) → List ℕ
hash_recovery_codes s codes = map s.hash_code codes

-- `consumeRecoveryCode`: the hashes that are left, if the code is one of them.
abbrev pub consume_recovery_code : SecretBox → Option (List ℕ) → List ℕ → Option (List ℕ)
consume_recovery_code s none plain = none
consume_recovery_code s (some hashes) plain = remove_first (s.hash_code plain) hashes

-- `user.passwordHash && await CryptoUtil.verifyPassword(…)`
abbrev pub password_matches : Crypto → User → String → Bool
password_matches c user password = truthy user.password_hash && password_ok c user password

abbrev pub entry : Option ℕ → String → List (String × Meta) → AuditEntry
entry user_id action metadata = record {
  user_id = user_id;
  action = action;
  resource = none;
  resource_id = none;
  metadata = metadata;
  ip_address = none;
  user_agent = none;
}

-- What a challenge token names, if it is valid: its signature and expiry are the library's to check.
pub record VerifyInput : Type 0 where
  pub challenge : Option ℕ
  pub code : List ℕ
  pub user_agent : Option String
  pub ip_address : Option String

abbrev pub verify_entry : VerifyInput → Option ℕ → String → AuditEntry
verify_entry input user_id reason = record {
  user_id = user_id;
  action = "auth.2fa.verify.failure";
  resource = none;
  resource_id = none;
  metadata = ("reason", text reason) ∷ [];
  ip_address = input.ip_address;
  user_agent = input.user_agent;
}

-- `!user || !user.twoFactorEnabled || !user.twoFactorSecret` is false.
abbrev pub enrolled : Option User → Option User
enrolled none = none
enrolled (some user) =
    if user.two_factor_enabled && has_secret user.two_factor_secret then some user else none

-- `decryptSecret` and `verifyToken`, whose errors are thrown.
unfoldable pub check_code : SecretBox → ℕ → User → List ℕ → M Bool
check_code s now user code = do
  secret ← or_throw (internal "Error") (s.decrypt (or_empty user.two_factor_secret))
  or_throw (internal "Error") (verify_token s.hmac secret code now)

module _ ⦃p : Prisma⦄ where
  -- `if (!totpOk) { … }`
  unfoldable pub recover : SecretBox → VerifyInput → User → M (Unit {0})
  recover s input user = elim (consume_recovery_code s user.recovery_codes input.code) [
    | none ↦ do
      count_metric "two_factor_verify" "invalid_code"
      audit_log (verify_entry input (some user.id) "invalid_code")
      throw (unauthorized "Invalid code")
    | some remaining ↦ Users.update user.id (λ u. record u { recovery_codes = some remaining })
  ]

  unfoldable pub verify_user : Crypto → SecretBox → ℕ → Draw → VerifyInput → ℕ → M TokenPair
  unfolding check_code recover
  verify_user c s now draw input user_id = do
    found ← Users.find_by_id user_id
    user ← or_throw (bad_request "2FA is not enabled for this user") (enrolled found)
    totp_ok ← check_code s now user input.code
    when (not totp_ok) (recover s input user)
    count_metric "two_factor_verify" "success"
    issue_tokens c now draw user_id input.user_agent input.ip_address

  -- VerifyTwoFactorUseCase
  unfoldable pub verify_two_factor : Crypto → SecretBox → ℕ → Draw → VerifyInput → M TokenPair
  unfolding verify_user
  verify_two_factor c s now draw input = elim input.challenge [
    | none ↦ do
      count_metric "two_factor_verify" "invalid_challenge"
      audit_log (verify_entry input none "invalid_challenge")
      throw (unauthorized "Invalid or expired challenge")
    | some user_id ↦ verify_user c s now draw input user_id
  ]

  -- SetupTwoFactorUseCase: `bytes` are the drawn ones; the URL of the answer is not modelled.
  unfoldable pub setup_two_factor : Crypto → SecretBox → ℕ → List ℕ → ℕ → String → M (List ℕ)
  setup_two_factor c s iv bytes user_id password = do
    found ← Users.find_by_id user_id
    user ← or_throw (not_found "User not found") found
    throw_if user.two_factor_enabled (bad_request "2FA is already enabled")
    when (not (password_matches c user password)) (do
      audit_log (entry (some user_id) "auth.password.invalid" (("context", text "2fa_setup") ∷ []))
      throw (unauthorized "Invalid password"))
    Users.update user_id
        (λ u. record u { two_factor_secret = some (s.encrypt iv (base32_encode bytes)) })
    pure (base32_encode bytes)

  -- EnableTwoFactorUseCase: `codes` are the drawn recovery codes.
  unfoldable pub enable_two_factor :
      Crypto → SecretBox → ℕ → List (List ℕ) → ℕ → String → List ℕ → M (List (List ℕ))
  unfolding check_code
  enable_two_factor c s now codes user_id password code = do
    found ← Users.find_by_id user_id
    user ← elim found [
      | none ↦ count_metric "two_factor_enable" "not_found" >> throw (not_found "User not found")
      | some user ↦ pure user
    ]
    throw_if user.two_factor_enabled (bad_request "2FA is already enabled")
    throw_if (not (has_secret user.two_factor_secret)) (bad_request "Run setup before enabling")
    when (not (password_matches c user password)) (do
      count_metric "two_factor_enable" "invalid_password"
      audit_log (entry (some user_id) "auth.password.invalid" (("context", text "2fa_enable") ∷ []))
      throw (unauthorized "Invalid password"))
    valid ← check_code s now user code
    when (not valid) (do
      count_metric "two_factor_enable" "invalid_code"
      audit_log
          (entry (some user_id) "auth.2fa.enable.failure" (("reason", text "invalid_code") ∷ []))
      throw (unauthorized "Invalid code"))
    Users.update user_id (λ u. record u {
      two_factor_enabled = true;
      recovery_codes = some (hash_recovery_codes s codes);
    })
    count_metric "two_factor_enable" "success"
    pure codes

  -- DisableTwoFactorUseCase
  unfoldable pub disable_two_factor : Crypto → SecretBox → ℕ → ℕ → String → List ℕ → M (Unit {0})
  unfolding check_code
  disable_two_factor c s now user_id password code = do
    found ← Users.find_by_id user_id
    present ← or_throw (not_found "User not found") found
    user ← or_throw (bad_request "2FA is not enabled") (enrolled (some present))
    when (not (password_matches c user password)) (do
      audit_log
          (entry (some user_id) "auth.password.invalid" (("context", text "2fa_disable") ∷ []))
      throw (unauthorized "Invalid password"))
    valid ← check_code s now user code
    when (not valid) (do
      audit_log
          (entry (some user_id) "auth.2fa.disable.failure" (("reason", text "invalid_code") ∷ []))
      throw (unauthorized "Invalid code"))
    Users.update user_id (λ u. record u {
      two_factor_enabled = false;
      two_factor_secret = none;
      recovery_codes = none;
    })
