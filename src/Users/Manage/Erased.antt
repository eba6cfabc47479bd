-- ===== src/Users/Manage/Erased.antt =====
-- What is left of a user that was anonymized, and who cannot be deleted.
use base_api_nest_js.Base.{
  ℕ, ◌≡◌, ◌≢◌, true, false, none, some, List, String, arith, filter, Option-cases, inl, inr, ◌==◌,
  ◌&&◌, All, All-Has, All-map, All-of_Has, not, is_some, All-filter_test,
}
use base_api_nest_js.Prisma.{Prisma, written}
use base_api_nest_js.Prisma.Laws.{update_rows}
use base_api_nest_js.World.{World, User, Session, Token, OauthAccount, Workspace, ok, is_ok}
use base_api_nest_js.Users
use base_api_nest_js.Users.{anonymized, put_users}
use base_api_nest_js.Workspaces
use base_api_nest_js.Users.Manage.{anonymize, without_rows, delete_user}

-- An empty account, and no row of the user in the tables that sign a user in. The former hashes of
-- PasswordHistory stay.
pub record IsErased (placeholder : String) (now id : ℕ) (w : World) : Type 0 where
  pub account :
      All
        (λ (u : User).
          u.id ≡ id
          → (u.email ≡ placeholder)
            × (u.name ≡ "Deleted User")
            × (u.password_hash ≡ none)
            × (u.two_factor_enabled ≡ false)
            × (u.two_factor_secret ≡ none)
            × (u.recovery_codes ≡ none)
            × (u.email_verified_at ≡ none)
            × (u.anonymized_at ≡ some now))
        w.users
  pub sessions : All (λ (s : Session). s.user_id ≢ id) w.sessions
  pub accounts : All (λ (a : OauthAccount). a.user_id ≢ id) w.oauth_accounts
  pub verify_tokens : All (λ (t : Token). t.user_id ≢ id) w.email_verify_tokens
  pub reset_tokens : All (λ (t : Token). t.user_id ≢ id) w.password_reset_tokens

module _ ⦃p : Prisma⦄ where
  -- A deletion by a user's id leaves no row of the user.
  delete_many-none :
      {R : Type 0} (owner : R → ℕ) (id : ℕ) (rows : List R)
      → All (λ r. owner r ≢ id) (p.delete_many (λ r. owner r == id) rows)
  delete_many-none owner id rows = rw (p.delete_many_lem (λ r. owner r == id) rows) (
      All-of_Has (λ r. owner r ≢ id) (filter (λ r. not (owner r == id)) rows)
        (λ r m e.
          let off =
            All-Has (λ r. not (owner r == id) ≡ true) r (filter (λ r. not (owner r == id)) rows)
              (All-filter_test (λ r. not (owner r == id)) rows) m in
          ground arith))

  anonymize_ok :
      (placeholder : ℕ → String) (now id : ℕ) (w : World)
      → (anonymize placeholder now id w).0 ≡ ok tt
      → (rows : List User) × (p.update (λ u. u.id == id) (anonymized (placeholder id) now) w.users
          ≡ some rows)
        × ((anonymize placeholder now id w).1 ≡ put_users rows (without_rows id w))
  unfolding anonymize Users.update
  anonymize_ok placeholder now id w e =
      elim (Option-cases (p.update (λ u. u.id == id) (anonymized (placeholder id) now) w.users)) [
        | inl missing ↦ absurd (ground arith)
        | inr (rows, er) ↦ (rows, er, ground arith)
      ]

  -- After a successful anonymization the account has the placeholder as its email and its name
  -- replaced, no password, the second factor off without a secret and without recovery codes, and no
  -- verified email; and the user has no session, no linked account and no token left.
  pub anonymize_erases :
      (placeholder : ℕ → String) (now id : ℕ) (w : World)
      → (anonymize placeholder now id w).0 ≡ ok tt
      → IsErased (placeholder id) now id (anonymize placeholder now id w).1
  anonymize_erases placeholder now id w e =
      let (rows, er, left) = anonymize_ok placeholder now id w e in
      let erase = anonymized (placeholder id) now in
      let account = λ (u : User).
        u.id ≡ id
        → (u.email ≡ placeholder id)
          × (u.name ≡ "Deleted User")
          × (u.password_hash ≡ none)
          × (u.two_factor_enabled ≡ false)
          × (u.two_factor_secret ≡ none)
          × (u.recovery_codes ≡ none)
          × (u.email_verified_at ≡ none)
          × (u.anonymized_at ≡ some now) in
      rw left (record {
        account = rw (update_rows (λ u. u.id == id) erase w.users rows er) (
            All-map account (written (λ (u : User). u.id == id) erase) w.users
              (λ u m. ground arith));
        sessions = delete_many-none (λ (s : Session). s.user_id) id w.sessions;
        accounts = delete_many-none (λ (a : OauthAccount). a.user_id) id w.oauth_accounts;
        verify_tokens = delete_many-none (λ (t : Token). t.user_id) id w.email_verify_tokens;
        reset_tokens = delete_many-none (λ (t : Token). t.user_id) id w.password_reset_tokens;
      })

  -- An anonymization that fails changes nothing.
  anonymize_atomic :
      (placeholder : ℕ → String) (now id : ℕ) (w : World)
      → is_ok (anonymize placeholder now id w).0 ≡ false
      → (anonymize placeholder now id w).1 ≡ w
  unfolding anonymize Users.update
  anonymize_atomic placeholder now id w e = ground arith

  -- A user that owns the workspace is not deleted through it: the attempt fails, and changes
  -- nothing.
  delete_user_owner :
      (now id workspace_id : ℕ) (w : World) (ws : Workspace)
      → p.find (λ ws. ws.id == workspace_id && not (is_some ws.deleted_at)) w.workspaces ≡ some ws
      → ws.owner_id ≡ id
      → (is_ok (delete_user now id workspace_id w).0 ≡ false)
        × ((delete_user now id workspace_id w).1 ≡ w)
  unfolding delete_user Users.find_by_id_in_workspace Workspaces.find_by_id
  delete_user_owner now id workspace_id w ws e own = (ground arith, ground arith)
