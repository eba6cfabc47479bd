-- ===== src/Oauth/Credential.antt =====
-- Unlinking keeps a way to sign in: src/modules/oauth/use-cases/unlink-oauth-account.use-case.ts.
use base_api_nest_js.Base.{
  ℕ, ◌≤◌, ◌≡◌, ◌≢◌, ◌⊎◌, inl, inr, refl, arith, Bool, true, false, not, ◌&&◌, ◌==◌, ==_iff, leb,
  some, List, [], ◌∷◌, filter, length, Has, All, All-filter, filter-Has, is_some, Option-cases,
  Bool-cases,
}
use base_api_nest_js.Prisma.{Prisma}
use base_api_nest_js.World.{World, User, OauthAccount, ok}
use base_api_nest_js.Users
use base_api_nest_js.Auth.Login.{truthy}
use base_api_nest_js.Oauth.{
  belongs, find_by_id_and_user, find_by_user_id, delete, unlink_oauth_account,
}

-- No two accounts have an id in common.
abbrev pub HasDistinctIds : List OauthAccount → Type 0
HasDistinctIds [] = Unit
HasDistinctIds (a ∷ rest) = All (λ b. b.id ≢ a.id) rest × HasDistinctIds rest

HasDistinctIds-filter :
    (test : OauthAccount → Bool) (t : List OauthAccount)
    → HasDistinctIds t
    → HasDistinctIds (filter test t)
HasDistinctIds-filter test [] h = tt
HasDistinctIds-filter test (a ∷ t) h = elim (Bool-cases (test a)) [
  | inl e ↦ rw e (All-filter (λ b. b.id ≢ a.id) test t h.0, HasDistinctIds-filter test t h.1)
  | inr e ↦ rw e (HasDistinctIds-filter test t h.1)
]

-- Of two accounts, one has another id.
another :
    (id : ℕ) (rows : List OauthAccount)
    → HasDistinctIds rows
    → 2 ≤ length rows
    → (a : OauthAccount) × Has a rows × (a.id ≢ id)
another id [] h two = absurd (omega arith)
another id (a ∷ []) h two = absurd (omega arith)
another id (a ∷ b ∷ rows) h two = elim (Bool-cases (a.id == id)) [
  | inl same ↦ (b, inr (inl refl), λ e. h.0.0 (ground arith))
  | inr other ↦ (a, inl refl, λ e. absurd (ground (arith, (==_iff a.id id).1 e)))
]

filter_inv :
    (test : OauthAccount → Bool) (a : OauthAccount) (t : List OauthAccount)
    → Has a (filter test t)
    → Has a t × (test a ≡ true)
filter_inv test a [] m = absurd m
filter_inv test a (x ∷ t) m = elim (Bool-cases (test x)) [
  | inl e ↦ elim (rw e at m) [
    | inl same ↦ (inl same, rw same e)
    | inr m' ↦ let (has, fits) = filter_inv test a t m' in (inr has, fits)
  ]
  | inr e ↦ let (has, fits) = filter_inv test a t (rw e at m) in (inr has, fits)
]

-- Of several accounts of a user, one has another id.
remains :
    (user_id account_id : ℕ) (rows : List OauthAccount)
    → HasDistinctIds rows
    → leb (length (filter (belongs user_id) rows)) 1 ≡ false
    → (a : OauthAccount) × Has a rows × (a.user_id ≡ user_id) × (a.id ≢ account_id)
remains user_id account_id rows distinct several =
    let own = filter (belongs user_id) rows in
    let two : 2 ≤ length own = ground arith in
    let (a, m, other) =
      another account_id own (HasDistinctIds-filter (belongs user_id) rows distinct) two in
    let (has, mine) = filter_inv (belongs user_id) a rows m in
    (a, has, (==_iff a.user_id user_id).0 mine, other)

module _ ⦃p : Prisma⦄ where
  -- A user who unlinked an account still has a way to sign in: a password, or another linked account.
  -- The ids of the accounts are distinct.
  pub unlink_keeps_credential :
      (user_id account_id : ℕ) (w : World)
      → HasDistinctIds w.oauth_accounts
      → (unlink_oauth_account user_id account_id w).0 ≡ ok tt
      → (user : User) × (p.find (λ u. u.id == user_id && not (is_some u.deleted_at)) w.users
          ≡ some user)
        × ((truthy user.password_hash ≡ true)
            ⊎ ((a : OauthAccount) × Has a
                  (unlink_oauth_account user_id account_id w).1.oauth_accounts
                × (a.user_id ≡ user_id)))
  unfolding unlink_oauth_account find_by_id_and_user find_by_user_id delete Users.find_by_id
  unlink_keeps_credential user_id account_id w distinct e =
      let live = λ (u : User). u.id == user_id && not (is_some u.deleted_at) in
      let own = λ (a : OauthAccount). a.id == account_id && belongs user_id a in
      let gone = λ (a : OauthAccount). a.id == account_id in
      let rows = w.oauth_accounts in
      elim (Option-cases (p.find own rows)) [
        | inl missing ↦ absurd (ground arith)
        | inr (account, found) ↦ elim (Option-cases (p.find live w.users)) [
          | inl missing ↦ absurd (ground arith)
          | inr (user, eu) ↦ elim (Bool-cases (truthy user.password_hash)) [
            | inl password ↦ (user, eu, inl password)
            | inr none_set ↦
                elim (Bool-cases (leb (length (p.find_many (belongs user_id) rows)) 1)) [
                  | inl single ↦ absurd (ground arith)
                  | inr several ↦ elim (Option-cases (p.delete gone rows)) [
                    | inl failed ↦ absurd (ground arith)
                    | inr (left, deleted) ↦
                        let (a, has, mine, other) =
                          remains user_id account_id rows distinct
                            (rw (p.find_many_lem (belongs user_id) rows) at several) in
                        let kept : left ≡ filter (λ a. not (gone a)) rows =
                          ground (arith, deleted, p.delete_lem gone rows) in
                        let after : (unlink_oauth_account user_id account_id w).1.oauth_accounts
                            ≡ left =
                          ground arith in
                        (
                          user,
                          eu,
                          inr (
                            a,
                            rw (after, kept)
                                (filter-Has (λ a. not (gone a)) a rows has (ground arith)),
                            mine,
                          ),
                        )
                  ]
                ]
          ]
        ]
      ]
