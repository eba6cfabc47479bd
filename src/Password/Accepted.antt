-- ===== src/Password/Accepted.antt =====
-- Which passwords validatePasswordPolicy of src/shared/utils/password-policy.util.ts accepts.
use base_api_nest_js.Base.{
  includes, ℕ, ◌≤◌, ◌≡◌, ◌↔◌, inl, inr, refl, arith, String, Bool, true, false, not, ◌&&◌, ltb, leb,
  list_eq, list_eq_iff, List, [], ◌∷◌, ◌++◌, length, Bool-cases, Has, codes, is_space,
}
use base_api_nest_js.Password.{
  PasswordContext, is_upper, is_lower, is_digit, is_special, min_similar_substring,
  common_passwords, is_common, reported, email_tokens, name_tokens, matches_context,
  validate_password_policy,
}
use base_api_nest_js.Password.Runs.{HasRun, has_repeated_run_iff}
use base_api_nest_js.Password.Parts.{IsWithin, includes_iff}
use base_api_nest_js.Password.Sequences.{HasSequence, has_sequence_iff, any_iff}

-- Some character of the text is of the class.
abbrev pub HasChar : (ℕ → Bool) → List ℕ → Type 0
HasChar class text = (k : ℕ) × Has k text × (class k ≡ true)

module _ (lower : List ℕ → List ℕ) where
  abbrev pub IsCommon : List ℕ → Type 0
  IsCommon password =
      (common : String) × Has common common_passwords × (codes common ≡ lower password)

  -- A part of the context with four characters or more is a part of the password.
  abbrev pub NamesContext : List ℕ → PasswordContext → Type 0
  NamesContext password ctx =
      (token : List ℕ) × Has token (email_tokens lower ctx.email ++ name_tokens lower ctx.name)
      × (4 ≤ length token)
      × IsWithin token (lower password)

  -- The rules of the policy, with an end.
  abbrev pub IsStrong : List ℕ → PasswordContext → Type 0
  IsStrong password ctx =
      (12 ≤ length password)
      × ((length password ≤ 128)
          × (HasChar is_upper password
              × (HasChar is_lower password
                  × (HasChar is_digit password
                      × (HasChar is_special password
                          × (¬ HasChar is_space password
                              × (¬ IsCommon password
                                  × (¬ HasRun 3 password
                                      × (¬ HasSequence 4 (lower password)
                                          × (¬ NamesContext password ctx × Unit {0}))))))))))

  is_common_iff : (password : List ℕ) → (is_common lower password ≡ true) ↔ IsCommon password
  is_common_iff password =
      let found = any_iff (λ common. list_eq (codes common) (lower password)) common_passwords in
      (
        (λ h. let (c, m, e) = found.0 h in (c, m, (list_eq_iff (codes c) (lower password)).0 e)),
        (λ (c, m, e). found.1 (c, m, (list_eq_iff (codes c) (lower password)).1 e)),
      )

  matches_context_iff :
      (password : List ℕ) (ctx : PasswordContext)
      → (matches_context lower password ctx min_similar_substring ≡ true)
        ↔ NamesContext password ctx
  unfolding matches_context
  matches_context_iff password ctx =
      let tokens = email_tokens lower ctx.email ++ name_tokens lower ctx.name in
      let found =
        any_iff (λ token. leb 4 (length token) && includes token (lower password)) tokens in
      (
        (λ h.
            let (t, m, e) = found.0 h in
            (t, m, ground arith, (includes_iff t (lower password)).0 (ground arith))),
        (λ (t, m, long, e).
            let part = (includes_iff t (lower password)).1 e in found.1 (t, m, ground arith)),
      )

step_iff :
    (message : String) (rest : List (Bool × String)) {failed : Bool} {P Q : Type 0}
    → (failed ≡ false) ↔ P
    → (reported rest ≡ []) ↔ Q
    → (reported ((failed, message) ∷ rest) ≡ []) ↔ (P × Q)
unfolding reported
step_iff message rest p q = (
  (λ e. (p.0 (ground arith), q.0 (ground arith))),
  (λ (h, k). let passed = p.1 h in let others = q.1 k in ground arith),
)

nothing_reported : (reported [] ≡ []) ↔ Unit {0}
unfolding reported
nothing_reported = ((λ e. tt), (λ u. refl))

not_iff : {b : Bool} {P : Type 0} → (b ≡ true) ↔ P → (b ≡ false) ↔ (¬ P)
not_iff {b = b} h = (
  (λ e p. absurd (ground (arith, h.1 p))),
  (λ n. elim (Bool-cases b) [ inl e ↦ absurd (n (h.0 e)) | inr e ↦ e ]),
)

some_iff : {b : Bool} {P : Type 0} → (b ≡ true) ↔ P → (not b ≡ false) ↔ P
some_iff h = ((λ e. h.0 (ground arith)), (λ p. ground (arith, h.1 p)))

below_iff : (a b : ℕ) → (ltb a b ≡ false) ↔ (b ≤ a)
below_iff a b = ground arith

-- The policy reports nothing exactly for a password of 12 to 128 characters that has an uppercase and a
-- lowercase letter, a digit and another character, has no whitespace, is not one of the common ones, has
-- no character more than three times in a row, has no four characters that ascend, descend or stand in
-- a row of the keyboard in either direction, and no part of the name or the email of four characters or
-- more; `lower` is any function for toLowerCase.
pub validate_password_policy_iff :
    (lower : List ℕ → List ℕ) (password : List ℕ) (ctx : PasswordContext)
    → (validate_password_policy lower password ctx ≡ []) ↔ IsStrong lower password ctx
unfolding validate_password_policy
validate_password_policy_iff lower password ctx = step_iff _ _ (below_iff (length password) 12) (
    step_iff _ _ (below_iff 128 (length password)) (
      step_iff _ _ (some_iff (any_iff is_upper password)) (
        step_iff _ _ (some_iff (any_iff is_lower password)) (
          step_iff _ _ (some_iff (any_iff is_digit password)) (
            step_iff _ _ (some_iff (any_iff is_special password)) (
              step_iff _ _ (not_iff (any_iff is_space password)) (
                step_iff _ _ (not_iff (is_common_iff lower password)) (
                  step_iff _ _ (not_iff (has_repeated_run_iff 3 password (omega arith))) (
                    step_iff _ _ (not_iff (has_sequence_iff lower password 4)) (
                      step_iff _ _ (not_iff (matches_context_iff lower password ctx))
                        nothing_reported))))))))))
