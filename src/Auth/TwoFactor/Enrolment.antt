-- ===== src/Auth/TwoFactor/Enrolment.antt =====
-- Setting up and enabling the second factor, one after the other.
use base_api_nest_js.Base.{
  ℕ, ◌^◌, ◌<◌, ◌≤◌, ◌≡◌, ◌≢◌, refl, Bool, true, false, some, List, [], ◌∷◌, map, not, ◌&&◌, ◌==◌,
  String, is_some, arith, All, All-Has, All-map, All-of_Has, inl, inr,
}
use base_api_nest_js.Prisma.{Prisma, written}
use base_api_nest_js.Prisma.Laws.{find_Has, find_test, find_updated, update_Has}
use base_api_nest_js.Crypto.{Crypto}
use base_api_nest_js.World.{World, User, ok}
use base_api_nest_js.Users
use base_api_nest_js.Users.{put_users}
use base_api_nest_js.Auth.Totp.{base32_encode, generate_token}
use base_api_nest_js.Auth.Totp.RoundTrip.{IsBytes, base32_decode-base32_encode}
use base_api_nest_js.Auth.Totp.Window.{verify_token_iff}
use base_api_nest_js.Auth.TwoFactor.{
  SecretBox, has_secret, password_matches, hash_recovery_codes, check_code, setup_two_factor,
  enable_two_factor,
}

abbrev pub HasUniqueIds : List User → Type 0
HasUniqueIds rows = All (λ (a : User). All (λ (b : User). b.id ≡ a.id → b ≡ a) rows) rows

abbrev pub with_secret : List ℕ → User → User
with_secret secret u = record u { two_factor_secret = some secret }

abbrev pub enabled : List ℕ → User → User
enabled hashes u = record u { two_factor_enabled = true; recovery_codes = some hashes }

abbrev active : ℕ → User → Bool
active id u = u.id == id && not (is_some u.deleted_at)

has_secret-some : (cs : List ℕ) → cs ≢ [] → has_secret (some cs) ≡ true
has_secret-some [] h = absurd (h refl)
has_secret-some (c ∷ cs) h = refl

check_code_right :
    (s : SecretBox) (now iv : ℕ) (bytes code : List ℕ) (user : User) (w : World)
    → IsBytes bytes
    → 30000 ≤ now
    → now < 2 ^ 64
    → generate_token s.hmac (base32_encode bytes) now ≡ some code
    → user.two_factor_secret ≡ some (s.encrypt iv (base32_encode bytes))
    → check_code s now user code w ≡ (ok true, w)
unfolding check_code
check_code_right s now iv bytes code user w byte late soon made stored =
    let opened = s.decrypt-encrypt iv (base32_encode bytes) in
    let accepted =
      (verify_token_iff s.hmac (base32_encode bytes) code now
          (base32_decode-base32_encode bytes byte) late soon).1
        (inr (inl made)) in
    ground (arith, opened, accepted)

module _ ⦃p : Prisma⦄ where
  setup_two_factor_lem :
      (c : Crypto) (s : SecretBox) (iv : ℕ) (bytes : List ℕ) (id : ℕ) (password : String)
      (w : World) (user : User)
      → p.find (active id) w.users ≡ some user
      → user.two_factor_enabled ≡ false
      → password_matches c user password ≡ true
      → setup_two_factor c s iv bytes id password w ≡ (
        ok (base32_encode bytes),
        put_users
            (map
              (written (λ u. u.id == id) (with_secret (s.encrypt iv (base32_encode bytes))))
              w.users)
            w,
      )
  unfolding setup_two_factor Users.find_by_id Users.update
  setup_two_factor_lem c s iv bytes id password w user found off right =
      let stored = with_secret (s.encrypt iv (base32_encode bytes)) in
      let fits = find_test (active id) w.users user found in
      let saved_rows =
        update_Has (λ u. u.id == id) stored w.users user (find_Has (active id) w.users user found)
          (ground arith) in
      ground arith

  enable_two_factor_lem :
      (c : Crypto) (s : SecretBox) (now : ℕ) (codes : List (List ℕ)) (id : ℕ) (password : String)
      (code : List ℕ) (w : World) (user : User)
      → p.find (active id) w.users ≡ some user
      → user.two_factor_enabled ≡ false
      → has_secret user.two_factor_secret ≡ true
      → password_matches c user password ≡ true
      → check_code s now user code w ≡ (ok true, w)
      → ((enable_two_factor c s now codes id password code w).0 ≡ ok codes)
        × ((enable_two_factor c s now codes id password code w).1.users
            ≡ map (written (λ u. u.id == id) (enabled (hash_recovery_codes s codes))) w.users)
  unfolding enable_two_factor Users.find_by_id Users.update
  enable_two_factor_lem c s now codes id password code w user found off secret right checked =
      let fits = find_test (active id) w.users user found in
      let saved_rows =
        update_Has (λ u. u.id == id) (enabled (hash_recovery_codes s codes)) w.users user
          (find_Has (active id) w.users user found) (ground arith) in
      (ground arith, ground arith)

  -- A user without a second factor sets one up with the right password, and within the same half
  -- minute enables it with the password and the code that the answered secret gives. Both answer,
  -- the first with the secret and the second with the recovery codes; then the factor is on, and
  -- the hashes of those codes are stored. The ids of the users are unique, and the clock is past
  -- its first half minute.
  pub setup_then_enable :
      (c : Crypto) (s : SecretBox) (iv now : ℕ) (bytes code : List ℕ) (codes : List (List ℕ))
      (id : ℕ) (password : String) (w : World) (user : User)
      → HasUniqueIds w.users
      → p.find (active id) w.users ≡ some user
      → user.two_factor_enabled ≡ false
      → password_matches c user password ≡ true
      → IsBytes bytes
      → 30000 ≤ now
      → now < 2 ^ 64
      → generate_token s.hmac (base32_encode bytes) now ≡ some code
      → let (secret, w') = setup_two_factor c s iv bytes id password w in
        let (answer, w'') = enable_two_factor c s now codes id password code w' in
        (secret ≡ ok (base32_encode bytes))
        × (answer ≡ ok codes)
        × All
            (λ (u : User).
              u.id ≡ id
              → (u.two_factor_enabled ≡ true)
                × (u.recovery_codes ≡ some (hash_recovery_codes s codes)))
            w''.users
  setup_then_enable c s iv now bytes code codes id password w user unique found off right byte late
        soon made =
      let stored = with_secret (s.encrypt iv (base32_encode bytes)) in
      let set = setup_two_factor_lem c s iv bytes id password w user found off right in
      let w' = put_users (map (written (λ u. u.id == id) stored) w.users) w in
      let fits = find_test (active id) w.users user found in
      let has = find_Has (active id) w.users user found in
      let mine : user.id ≡ id = ground arith in
      let only =
        All-Has (λ (a : User). All (λ (b : User). b.id ≡ a.id → b ≡ a) w.users) user w.users unique
          has in
      let found' =
        find_updated (active id) (λ (u : User). u.id == id) stored w.users user has (ground arith)
          (ground arith)
          (All-of_Has (λ (b : User). (b.id == id) ≡ true → b ≡ user) w.users
            (λ b mb hb.
              All-Has (λ (b : User). b.id ≡ user.id → b ≡ user) b w.users only mb (ground arith)))
          (λ u h. ground arith) in
      let (answer, users) =
        enable_two_factor_lem c s now codes id password code w' (stored user) found' off
          (has_secret-some _ (s.encrypt_some iv (base32_encode bytes))) right
          (check_code_right s now iv bytes code (stored user) w' byte late soon made refl) in
      rw set (
        refl,
        answer,
        rw users (
            All-map
              (λ (u : User).
                u.id ≡ id
                → (u.two_factor_enabled ≡ true)
                  × (u.recovery_codes ≡ some (hash_recovery_codes s codes)))
              (written (λ (u : User). u.id == id) (enabled (hash_recovery_codes s codes)))
              (map (written (λ u. u.id == id) stored) w.users) (λ u m. ground arith)),
      )
