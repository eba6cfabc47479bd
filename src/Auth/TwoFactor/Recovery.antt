-- ===== src/Auth/TwoFactor/Recovery.antt =====
-- A recovery code in place of a one-time code works once.
use base_api_nest_js.Base.{
  ℕ, ◌≡◌, ◌≢◌, refl, true, false, Option, none, some, List, [], ◌∷◌, map, not, ◌&&◌, ◌==◌, String,
  ◌⊎◌, ==_iff, all, length, is_some, arith, All, All-Has, All-map, inl, inr, Option-cases,
  Bool-cases, ◌∙◌,
}
use base_api_nest_js.Prisma.{Prisma, written}
use base_api_nest_js.Prisma.Laws.{find_Has, find_test, update_rows}
use base_api_nest_js.Crypto.{Crypto}
use base_api_nest_js.World.{World, User, ok, is_ok, Result-cases, ◌>>◌, count_metric, then_ok}
use base_api_nest_js.Sessions
use base_api_nest_js.Sessions.Manage.{create_session}
use base_api_nest_js.Users
use base_api_nest_js.Auth.Tokens.{TokenPair, Draw, issue_tokens}
use base_api_nest_js.Auth.Totp.{is_digit, verify_token}
use base_api_nest_js.Auth.TwoFactor.{
  SecretBox, VerifyInput, remove_first, consume_recovery_code, has_secret, or_empty, check_code,
  recover, verify_user, verify_two_factor,
}

-- No hash stands in the list twice.
abbrev pub AllDistinct : List ℕ → Type 0
AllDistinct [] = Unit
AllDistinct (x ∷ xs) = All (λ y. x ≢ y) xs × AllDistinct xs

remove_first_absent : (h : ℕ) (xs : List ℕ) → All (λ y. h ≢ y) xs → remove_first h xs ≡ none
unfolding remove_first
remove_first_absent h [] off = refl
remove_first_absent h (x ∷ xs) (ne, off) = ground (arith, remove_first_absent h xs off)

-- The first of distinct hashes is the only one.
remove_first_twice :
    (h : ℕ) (xs : List ℕ) {rest : List ℕ}
    → AllDistinct xs
    → remove_first h xs ≡ some rest
    → remove_first h rest ≡ none
unfolding remove_first
remove_first_twice h [] d e = ground arith
remove_first_twice h (x ∷ xs) {rest} (off, d) e = elim (Bool-cases (h == x)) [
  | inl same ↦
      let own : h ≡ x = (==_iff h x).0 same in
      let left : xs ≡ rest = ground arith in rw (← left) (remove_first_absent h xs (rw own off))
  | inr other ↦ elim (Option-cases (remove_first h xs)) [
    | inl missing ↦ absurd (ground arith)
    | inr (ys, ey) ↦
        let left : x ∷ ys ≡ rest = ground arith in
        let again = remove_first_twice h xs d ey in rw (← left) (ground arith)
  ]
]

verify_token_misshapen :
    (s : SecretBox) (secret code : List ℕ) (now : ℕ)
    → (all is_digit code && length code == 6) ≡ false
    → verify_token s.hmac secret code now ≡ some false
unfolding verify_token
verify_token_misshapen s secret code now shape = rw shape refl

check_code_misshapen :
    (s : SecretBox) (now : ℕ) (user : User) (code : List ℕ) (w : World)
    → (all is_digit code && length code == 6) ≡ false
    → (((check_code s now user code w).0 ≡ ok false)
        ⊎ (is_ok (check_code s now user code w).0 ≡ false))
      × ((check_code s now user code w).1 ≡ w)
unfolding check_code
check_code_misshapen s now user code w shape =
    elim (Option-cases (s.decrypt (or_empty user.two_factor_secret))) [
      | inl bad ↦ (inr (ground arith), ground arith)
      | inr (secret, e) ↦
          let no_code = verify_token_misshapen s secret code now shape in
          (inl (ground arith), ground arith)
    ]

abbrev pub left_codes : List ℕ → User → User
left_codes rest u = record u { recovery_codes = some rest }

module _ ⦃p : Prisma⦄ where
  issue_tokens-users :
      (c : Crypto) (now : ℕ) (draw : Draw) (id : ℕ) (agent ip : Option String) (w : World)
      → (issue_tokens c now draw id agent ip w).1.users ≡ w.users
  unfolding issue_tokens create_session Sessions.create
  issue_tokens-users c now draw id agent ip w = ground arith

  recover_ok :
      (s : SecretBox) (input : VerifyInput) (user : User) (w : World)
      → (recover s input user w).0 ≡ ok tt
      → (rest : List ℕ) × (consume_recovery_code s user.recovery_codes input.code ≡ some rest)
        × ((recover s input user w).1.users
            ≡ map (written (λ u. u.id == user.id) (left_codes rest)) w.users)
  unfolding recover Users.update
  recover_ok s input user w e =
      elim (Option-cases (consume_recovery_code s user.recovery_codes input.code)) [
        | inl missing ↦ absurd (ground arith)
        | inr (rest, er) ↦
            elim (Option-cases (p.update (λ u. u.id == user.id) (left_codes rest) w.users)) [
              | inl gone ↦ absurd (ground arith)
              | inr (rows, eu) ↦
                  let written_rows =
                    update_rows (λ u. u.id == user.id) (left_codes rest) w.users rows eu in
                  (rest, er, ground arith)
            ]
      ]

  -- From the check of the code on, for an enrolled user.
  verify_user_taken :
      (c : Crypto) (s : SecretBox) (now : ℕ) (draw : Draw) (input : VerifyInput) (id : ℕ)
      (user : User) (w : World)
      → p.find (λ u. u.id == id && not (is_some u.deleted_at)) w.users ≡ some user
      → (user.two_factor_enabled && has_secret user.two_factor_secret) ≡ true
      → (check_code s now user input.code w).0 ≡ ok false
      → (check_code s now user input.code w).1 ≡ w
      → verify_user c s now draw input id w
        ≡ (recover s input user
              >> (count_metric "two_factor_verify" "success"
                  >> issue_tokens c now draw id input.user_agent input.ip_address))
            w
  unfolding verify_user Users.find_by_id
  verify_user_taken c s now draw input id user w found on wrong same = ground arith

  verify_user_refused :
      (c : Crypto) (s : SecretBox) (now : ℕ) (draw : Draw) (input : VerifyInput) (id : ℕ)
      (user : User) (w : World)
      → p.find (λ u. u.id == id && not (is_some u.deleted_at)) w.users ≡ some user
      → ((user.two_factor_enabled && has_secret user.two_factor_secret) ≡ false)
        ⊎ (is_ok (check_code s now user input.code w).0 ≡ false)
      → is_ok (verify_user c s now draw input id w).0 ≡ false
  unfolding verify_user Users.find_by_id
  verify_user_refused c s now draw input id user w found why = ground arith

  verify_user_recovered :
      (c : Crypto) (s : SecretBox) (now : ℕ) (draw : Draw) (input : VerifyInput) (id : ℕ)
      (user : User) (w : World) {pair : TokenPair}
      → p.find (λ u. u.id == id && not (is_some u.deleted_at)) w.users ≡ some user
      → (all is_digit input.code && length input.code == 6) ≡ false
      → (verify_user c s now draw input id w).0 ≡ ok pair
      → (rest : List ℕ) × (consume_recovery_code s user.recovery_codes input.code ≡ some rest)
        × ((verify_user c s now draw input id w).1.users
            ≡ map (written (λ u. u.id == user.id) (left_codes rest)) w.users)
  verify_user_recovered c s now draw input id user w {pair} found shape e =
      let (checked, same) = check_code_misshapen s now user input.code w shape in
      let refused = verify_user_refused c s now draw input id user w found in
      elim (Bool-cases (user.two_factor_enabled && has_secret user.two_factor_secret)) [
        | inr off ↦ absurd (ground (arith, refused (inl off)))
        | inl on ↦ elim checked [
          | inr failed ↦ absurd (ground (arith, refused (inr failed)))
          | inl wrong ↦
              let taken = verify_user_taken c s now draw input id user w found on wrong same in
              let rest_of =
                count_metric "two_factor_verify" "success"
                >> issue_tokens c now draw id input.user_agent input.ip_address in
              let (_, done, after) = then_ok (recover s input user) rest_of w (rw taken at e) in
              let (rest, er, users) = recover_ok s input user w done in
              (
                rest,
                er,
                rw (taken, after)
                    (issue_tokens-users c now draw id input.user_agent input.ip_address _ ∙ users),
              )
        ]
      ]

  verify_two_factor_known :
      (c : Crypto) (s : SecretBox) (now : ℕ) (draw : Draw) (input : VerifyInput) (id : ℕ)
      (w : World)
      → input.challenge ≡ some id
      → verify_two_factor c s now draw input w ≡ verify_user c s now draw input id w
  unfolding verify_two_factor
  verify_two_factor_known c s now draw input id w e = rw e refl

  verify_user_unknown :
      (c : Crypto) (s : SecretBox) (now : ℕ) (draw : Draw) (input : VerifyInput) (id : ℕ)
      (w : World)
      → p.find (λ u. u.id == id && not (is_some u.deleted_at)) w.users ≡ none
      → is_ok (verify_user c s now draw input id w).0 ≡ false
  unfolding verify_user Users.find_by_id
  verify_user_unknown c s now draw input id w e = ground arith

  verify_user_spent :
      (c : Crypto) (s : SecretBox) (now : ℕ) (draw : Draw) (input : VerifyInput) (id : ℕ)
      (w : World) (rest : List ℕ)
      → (all is_digit input.code && length input.code == 6) ≡ false
      → All (λ (u : User). u.id ≡ id → u.recovery_codes ≡ some rest) w.users
      → remove_first (s.hash_code input.code) rest ≡ none
      → is_ok (verify_user c s now draw input id w).0 ≡ false
  verify_user_spent c s now draw input id w rest shape codes gone =
      let test = λ (u : User). u.id == id && not (is_some u.deleted_at) in
      elim (Option-cases (p.find test w.users)) [
        | inl missing ↦ verify_user_unknown c s now draw input id w missing
        | inr (u, eu) ↦ elim (Result-cases (verify_user c s now draw input id w).0) [
          | inr (x, failed) ↦ rw failed refl
          | inl (pair, done) ↦
              let (_, taken, _) = verify_user_recovered c s now draw input id u w eu shape done in
              let fits = find_test test w.users u eu in
              let held =
                All-Has (λ (u : User). u.id ≡ id → u.recovery_codes ≡ some rest) u w.users codes
                  (find_Has test w.users u eu) (ground arith) in
              absurd (ground (arith, rw held at taken))
        ]
      ]

  -- A code that is no one-time code, since it is not six digits, and with which an enrolled user
  -- signed in, is refused from then on, whatever the times and the draws. The user's stored hashes
  -- of recovery codes are distinct to begin with.
  pub recovery_code_single_use :
      (c : Crypto) (s : SecretBox) (now later : ℕ) (draw draw' : Draw) (input input' : VerifyInput)
      (id : ℕ) (user : User) (hashes : List ℕ) (w : World) {pair : TokenPair}
      → input.challenge ≡ some id
      → input'.challenge ≡ some id
      → input'.code ≡ input.code
      → (all is_digit input.code && length input.code == 6) ≡ false
      → p.find (λ u. u.id == id && not (is_some u.deleted_at)) w.users ≡ some user
      → user.recovery_codes ≡ some hashes
      → AllDistinct hashes
      → (verify_two_factor c s now draw input w).0 ≡ ok pair
      → is_ok
          (verify_two_factor c s later draw' input' (verify_two_factor c s now draw input w).1).0
        ≡ false
  recovery_code_single_use c s now later draw draw' input input' id user hashes w named named' code
        shape found codes distinct e =
      let first = verify_two_factor_known c s now draw input id w named in
      let w' = (verify_user c s now draw input id w).1 in
      let (rest, er, users) =
        verify_user_recovered c s now draw input id user w found shape (rw first at e) in
      let own =
        find_test (λ (u : User). u.id == id && not (is_some u.deleted_at)) w.users user found in
      let gone = remove_first_twice (s.hash_code input.code) hashes distinct (rw codes at er) in
      rw (first, verify_two_factor_known c s later draw' input' id w' named')
        (verify_user_spent c s later draw' input' id w' rest (rw code shape)
          (rw users (
            All-map (λ (u : User). u.id ≡ id → u.recovery_codes ≡ some rest)
              (written (λ u. u.id == user.id) (left_codes rest)) w.users (λ u m. ground arith)))
          (rw code gone))
