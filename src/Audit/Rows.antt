-- ===== src/Audit/Rows.antt =====
-- The rows of the audit log, src/modules/audit/entities/audit-log.entity.ts, and what its repository takes
-- from the database and from SHA-256.
use base_api_nest_js.Base.{
  ℕ, ◌<◌, ◌≤◌, ◌≡◌, String, ◌==◌, Option, none, some, List, [], ◌∷◌, if◌then◌else◌, length, take,
  Has, All,
}
use base_api_nest_js.World.{Meta}

abbrev pub Metadata : Type 0
Metadata = Option (List (String × Meta))

pub record CreateAuditLogData : Type 0 where
  pub user_id : Option ℕ
  pub workspace_id : Option ℕ
  pub action : String
  pub resource : Option String
  pub resource_id : Option ℕ
  pub metadata : Metadata
  pub ip_address : Option String
  pub user_agent : Option String

pub record AuditLog : Type 0 where
  pub id : ℕ
  pub user_id : Option ℕ
  pub workspace_id : Option ℕ
  pub action : String
  pub resource : Option String
  pub resource_id : Option ℕ
  pub metadata : Metadata
  pub ip_address : Option String
  pub user_agent : Option String
  pub prev_hash : Option ℕ
  pub hash : ℕ
  pub created_at : ℕ

-- The `fields` of computeAuditHash.
pub record AuditFields : Type 0 where
  pub id : ℕ
  pub user_id : Option ℕ
  pub workspace_id : Option ℕ
  pub action : String
  pub resource : Option String
  pub resource_id : Option ℕ
  pub metadata : Metadata
  pub ip_address : Option String
  pub user_agent : Option String
  pub created_at : ℕ

abbrev pub fields_of : AuditLog → AuditFields
fields_of log = record {
  id = log.id;
  user_id = log.user_id;
  workspace_id = log.workspace_id;
  action = log.action;
  resource = log.resource;
  resource_id = log.resource_id;
  metadata = log.metadata;
  ip_address = log.ip_address;
  user_agent = log.user_agent;
  created_at = log.created_at;
}

-- The rows after the one that a cursor names, and all rows without a cursor.
unfoldable pub rows_after : ℕ → List AuditLog → List AuditLog
rows_after id [] = []
rows_after id (log ∷ logs) = let rest = rows_after id logs in if log.id == id then logs else rest

abbrev pub rows_from : Option ℕ → List AuditLog → List AuditLog
rows_from none logs = logs
rows_from (some id) logs = rows_after id logs

-- Each row is later than the rows before it.
abbrev pub IsLater : List AuditLog → Type 0
IsLater [] = Unit
IsLater (log ∷ logs) = All (λ next. log.created_at < next.created_at) logs × IsLater logs

-- What the repository uses of SHA-256 over JSON, and of the database: `jsonb` is what the column
-- of type Json gives back for a value, `ordered` the rows by `createdAt`, then `id`, `find_page` the
-- query with a cursor that is skipped, and `find_latest` findFirst with the latest date first.
pub record AuditClient : Type 0 where
  pub sha256_json : Option ℕ → AuditFields → ℕ
  pub jsonb : Metadata → Metadata
  pub ordered : List AuditLog → List AuditLog
  pub find_page : Option ℕ → ℕ → List AuditLog → List AuditLog
  pub find_latest : List AuditLog → Option AuditLog
  pub ordered_length : (t : List AuditLog) → length (ordered t) ≡ length t
  pub ordered_later : (t : List AuditLog) → IsLater t → ordered t ≡ t
  pub find_page_lem :
      (cursor : Option ℕ) (n : ℕ) (t : List AuditLog)
      → find_page cursor n t ≡ take n (rows_from cursor (ordered t))
  pub find_latest_none : (t : List AuditLog) → find_latest t ≡ none → t ≡ []
  pub find_latest_some :
      (t : List AuditLog) (log : AuditLog)
      → find_latest t ≡ some log
      → Has log t × All (λ other. other.created_at ≤ log.created_at) t
