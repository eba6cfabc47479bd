-- ===== src/Tests/Factors.antt =====
-- The theorems of the second factor, of the password policy, of idempotent requests and of new
-- workspaces at concrete inputs.
use base_api_nest_js.Base.{
  is_space, ℕ, ◌+◌, ◌*◌, ◌≡◌, ◌≢◌, ◌↔◌, ◌⊎◌, refl, arith, true, false, Option, none, some, List, [],
  ◌∷◌, codes, All,
}
use base_api_nest_js.World.{World, User, ok, is_ok}
use base_api_nest_js.Users
use base_api_nest_js.Auth.Tokens.{Draw}
use base_api_nest_js.Auth.Totp.{
  Hmac, base32_encode, base32_decode, index_of, char_at, code_of, generate_token, verify_token,
}
use base_api_nest_js.Auth.Totp.RoundTrip.{base32_decode-base32_encode}
use base_api_nest_js.Auth.Totp.Window.{verify_token_iff}
use base_api_nest_js.Auth.TwoFactor.{
  SecretBox, VerifyInput, verify_two_factor, setup_two_factor, enable_two_factor,
  hash_recovery_codes,
}
use base_api_nest_js.Auth.TwoFactor.Recovery.{recovery_code_single_use}
use base_api_nest_js.Auth.TwoFactor.Enrolment.{setup_then_enable}
use base_api_nest_js.Password.{PasswordContext, validate_password_policy}
use base_api_nest_js.Password.Accepted.{IsStrong, validate_password_policy_iff}
use base_api_nest_js.Idempotency.{Call, answered, responded, handle, serve, gc_memory, lookup}
use base_api_nest_js.Idempotency.Replayed.{handled_once}
use base_api_nest_js.Workspaces.Create.{Ids, CreateWorkspaceInput}
use base_api_nest_js.Tests.{plain, world, alice, bob, carol}
use base_api_nest_js.Tests.Rows.{rows}

-- A digest of twenty bytes that depends on the last byte of the message.
abbrev digest : List ℕ → List ℕ
digest message =
    1 ∷ 2 ∷ 3 ∷ 4 ∷ 5 ∷ 6 ∷ 7 ∷ 8 ∷ 9 ∷ 10 ∷ 11 ∷ 12 ∷ 13 ∷ 14 ∷ 15 ∷ 16 ∷ 17 ∷ 18 ∷ 19 ∷ 3 ∷ []

abbrev mac : Hmac
mac = record {
  sha1 = λ key message. digest message;
  sha1_length = λ key message. refl;
  sha1_bytes = λ key message. omega arith;
}

base32_decode-base32_encode_example :
    base32_decode (base32_encode (72 ∷ 105 ∷ 255 ∷ [])) ≡ some (72 ∷ 105 ∷ 255 ∷ [])
base32_decode-base32_encode_example =
    base32_decode-base32_encode (72 ∷ 105 ∷ 255 ∷ []) (omega arith)

abbrev secret : List ℕ
secret = codes "JBSWY3DP"

verify_token_iff_example : (verify_token mac secret (codes "438087") 59000 ≡ some true) ↔ (
    (generate_token mac secret 29000 ≡ some (codes "438087"))
    ⊎ (generate_token mac secret 59000 ≡ some (codes "438087"))
    ⊎ (generate_token mac secret 89000 ≡ some (codes "438087")))
unfolding base32_decode is_space index_of
verify_token_iff_example =
    verify_token_iff mac secret (codes "438087") 59000 refl (omega arith) (omega arith)

abbrev password : List ℕ
password = codes "Tr0ub4dor&3xK"

abbrev nobody : PasswordContext
nobody = record { email = some (codes "al@example.com"); name = none }

validate_password_policy_iff_example :
    (validate_password_policy (λ s. s) password nobody ≡ []) ↔ IsStrong (λ s. s) password nobody
validate_password_policy_iff_example = validate_password_policy_iff (λ s. s) password nobody

-- A handler that counts its runs.
abbrev call_at : ℕ → Call ℕ
call_at now = record {
  next = λ runs. (answered 201 7, runs + 1);
  key = "idem:user-1:POST:/workspaces:a";
  body_hash = 5;
  ttl_ms = 1000;
  now = now;
  done_at = now + 10;
}

handled_once_example :
    ((handle (λ b. b) (call_at 100) [] 0).0 ≡ responded 201 7)
    × (let (m', s') =
          serve
            (λ b. b)
            (call_at 200 ∷ [])
            (handle (λ b. b) (call_at 100) [] 0).1
            (handle (λ b. b) (call_at 100) [] 0).2 in
        handle (λ b. b) (call_at 300) m' s' ≡ (responded 201 7, gc_memory 300 m', s'))
unfolding lookup gc_memory
handled_once_example =
    handled_once (λ b. b) (call_at 100) [] 0 1 201 7 (call_at 200 ∷ []) (call_at 300) refl refl
      (omega arith) refl refl (omega arith)

abbrev ids : Ids
ids = record {
  organization = 50;
  workspace = 51;
  member = 52;
  owner_role = 53;
  admin_role = 54;
  member_role = 55;
}

abbrev wanted : CreateWorkspaceInput
wanted = record { user_id = 2; name = "Bob's"; is_personal = some true }

abbrev code_hash : List ℕ → ℕ
code_hash [] = 7
code_hash (x ∷ xs) = x + 3 * code_hash xs

abbrev opened : List ℕ → Option (List ℕ)
opened [] = none
opened (x ∷ xs) = some xs

not_empty : {x : ℕ} {xs : List ℕ} → x ∷ xs ≢ []
not_empty e = ground arith

abbrev box : SecretBox
box = record {
  encrypt = λ iv secret. iv ∷ secret;
  decrypt = opened;
  hash_code = code_hash;
  hmac = mac;
  decrypt-encrypt = λ iv secret. refl;
  encrypt_some = λ iv secret e. not_empty e;
}

abbrev enrolled_bob : User
enrolled_bob = record bob {
  two_factor_enabled = true;
  two_factor_secret = some (9 ∷ secret);
  recovery_codes = some (code_hash (codes "ab-cd") ∷ code_hash (codes "ef-gh") ∷ []);
}

abbrev enrolled_world : World
enrolled_world = record world { users = alice ∷ enrolled_bob ∷ carol ∷ [] }

abbrev challenge : VerifyInput
challenge = record {
  challenge = some 2;
  code = codes "ef-gh";
  user_agent = none;
  ip_address = none;
}

abbrev draw : Draw
draw = record { session_id = 70; refresh_token = 71 }

recovery_code_single_use_example :
    is_ok
      (verify_two_factor plain box 70000 draw challenge
        (verify_two_factor plain box 60000 draw challenge enrolled_world).1).0
    ≡ false
unfolding verify_two_factor Users.find_by_id verify_token
    base_api_nest_js.Auth.TwoFactor.remove_first Users.update
    base_api_nest_js.Auth.Tokens.issue_tokens base_api_nest_js.Sessions.Manage.create_session
    base_api_nest_js.Sessions.create
recovery_code_single_use_example =
    recovery_code_single_use plain box 60000 70000 draw draw challenge challenge 2 enrolled_bob
      (code_hash (codes "ab-cd") ∷ code_hash (codes "ef-gh") ∷ []) enrolled_world refl refl refl
      refl refl refl (((λ e. absurd (omega arith)), tt), (tt, tt)) refl

abbrev bob_world : World
bob_world = record world { users = bob ∷ [] }

setup_then_enable_example :
    let (answer, w') = setup_two_factor plain box 9 (1 ∷ 2 ∷ 3 ∷ 4 ∷ 5 ∷ []) 2 "secret" bob_world in
    let (answer', w'') =
      enable_two_factor plain box 60000 (codes "ab-cd" ∷ []) 2 "secret" (codes "438087") w' in
    (answer ≡ ok (base32_encode (1 ∷ 2 ∷ 3 ∷ 4 ∷ 5 ∷ [])))
    × (answer' ≡ ok (codes "ab-cd" ∷ []))
    × All
        (λ (u : User).
          u.id ≡ 2
          → (u.two_factor_enabled ≡ true)
            × (u.recovery_codes ≡ some (hash_recovery_codes box (codes "ab-cd" ∷ []))))
        w''.users
unfolding setup_two_factor generate_token base_api_nest_js.Auth.Totp.generate_code base32_decode
    base32_encode char_at is_space index_of base_api_nest_js.Auth.Totp.truncated
setup_then_enable_example =
    setup_then_enable plain box 9 60000 (1 ∷ 2 ∷ 3 ∷ 4 ∷ 5 ∷ []) (codes "438087")
      (codes "ab-cd" ∷ []) 2 "secret" bob_world bob (((λ e. refl), tt), tt) refl refl refl
      (omega arith) (omega arith) (omega arith) refl
