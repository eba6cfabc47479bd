-- ===== src/Crypto.antt =====
-- The cryptography that CryptoUtil (src/shared/utils/crypto.util.ts) takes from argon2 and the
-- crypto module of Node: a password hash, its check, and SHA-256 of a token.
use base_api_nest_js.Base.{ℕ, String, Bool}

pub record Crypto : Type 0 where
  pub hash_token : ℕ → ℕ
  pub hash_password : String → String
  pub verify_password : String → String → Bool
