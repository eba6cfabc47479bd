-- ===== src/World.antt =====
-- The state that the use cases share: the database's tables, and what they hand to the audit
-- service, the metrics and the mail queue. A use case is an action that returns or throws; what it
-- wrote before a throw stays written.
mod Rows
pub use Rows.*
use base_api_nest_js.Base.{
  ℕ, String, Bool, true, false, ◌≡◌, refl, ◌⊎◌, inl, inr, Option, none, some, List, [], ◌∷◌, ◌++◌,
  if◌then◌else◌, arith, ap,
}

pub record World : Type 0 where
  pub users : List User
  pub sessions : List Session
  pub email_verify_tokens : List Token
  pub password_reset_tokens : List Token
  pub password_histories : List PasswordHistory
  pub oauth_accounts : List OauthAccount
  pub organizations : List Organization
  pub workspaces : List Workspace
  pub members : List WorkspaceMember
  pub roles : List Role
  pub permissions : List Permission
  pub role_permissions : List RolePermission
  pub invitations : List Invitation
  pub audit : List AuditEntry
  pub metrics : List Metric
  pub outbox : List Email

-- The exceptions of @nestjs/common that the code throws, with their messages, of which most of what is
-- interpolated is left out; `internal` is any other error, such as one of the Prisma client.
pub data HttpError : Type 0 where
  bad_request unauthorized forbidden not_found conflict locked internal : String → HttpError

pub data Result {ℓ} (A : Type ℓ) : Type ℓ where
  ok : A → Result A
  err : HttpError → Result A

abbrev pub is_ok {ℓ} : {A : Type ℓ} → Result A → Bool
is_ok (ok a) = true
is_ok (err e) = false

pub Result-cases {ℓ} :
    {A : Type ℓ} (r : Result A) → ((a : A) × (r ≡ ok a)) ⊎ ((e : HttpError) × (r ≡ err e))
Result-cases (ok a) = inl (a, refl)
Result-cases (err e) = inr (e, refl)

abbrev pub M : Type 0 → Type 0
M A = World → Result A × World

infixl 5 ◌>>=◌ ◌>>◌
abbrev pub ◌>>=◌ : {A B : Type 0} → M A → (A → M B) → M B
◌>>=◌ m f w = let (r, w') = m w in elim r [ ok a ↦ f a w' | err e ↦ (err e, w') ]

abbrev pub ◌>>◌ : {A B : Type 0} → M A → M B → M B
m >> k = m >>= λ _. k

module _ {A : Type 0} where
  abbrev pub pure : A → M A
  pure a w = (ok a, w)

  abbrev pub throw : HttpError → M A
  throw e w = (err e, w)

  abbrev pub gets : (World → A) → M A
  gets f w = (ok (f w), w)

  -- A lookup that throws on `null`.
  abbrev pub or_throw : HttpError → Option A → M A
  or_throw e none = throw e
  or_throw e (some a) = pure a

-- `if (c) throw e`
abbrev pub throw_if : Bool → HttpError → M (Unit {0})
throw_if true e = throw e
throw_if false e = pure tt

abbrev pub when : Bool → M (Unit {0}) → M (Unit {0})
when true m = m
when false m = pure tt

abbrev pub modify : (World → World) → M (Unit {0})
modify f w = (ok tt, f w)

-- A query that the Prisma client answers with the new rows, or with an error.
abbrev pub saved : {R : Type 0} → (List R → World → World) → Option (List R) → M (Unit {0})
saved put none = throw (internal "PrismaClientKnownRequestError")
saved put (some rows) = modify (put rows)

abbrev pub count_metric : String → String → M (Unit {0})
count_metric counter label =
    modify λ w. record w { metrics = w.metrics ++ record { counter = counter; label = label } ∷ [] }

-- AuditService.log catches every error of its repository, so it never throws.
abbrev pub audit_log : AuditEntry → M (Unit {0})
audit_log e = modify λ w. record w { audit = w.audit ++ e ∷ [] }

abbrev pub enqueue : Email → M (Unit {0})
enqueue e = modify λ w. record w { outbox = w.outbox ++ e ∷ [] }

module _ {A B : Type 0} where
  -- A step that answers and leaves the state alone.
  pub bind_ok :
      (m : M A) (k : A → M B) (w : World) (a : A)
      → (m w).0 ≡ ok a
      → (m w).1 ≡ w
      → (m >>= k) w ≡ k a w
  bind_ok m k w a e same = ground (arith, same, e)

  pub bind_err :
      (m : M A) (k : A → M B) (w : World) (x : HttpError)
      → (m w).0 ≡ err x
      → (m >>= k) w ≡ (err x, (m w).1)
  bind_err m k w x e = ground arith

  -- A sequence that answers: its first step answered, and the rest ran in the state that it left.
  pub then_ok :
      (m : M A) (k : M B) (w : World) {b : B}
      → ((m >> k) w).0 ≡ ok b
      → (a : A) × ((m w).0 ≡ ok a) × ((m >> k) w ≡ k (m w).1)
  then_ok m k w e = elim (Result-cases (m w).0) [
    | inl (a, done) ↦ (a, done, ground arith)
    | inr (x, failed) ↦ absurd (ground arith)
  ]
