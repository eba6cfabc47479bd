-- ===== src/Audit/Listed.antt =====
-- The list of a workspace's audit entries: findMany of prisma-audit-logs.repository.ts, and
-- list-audit-logs.use-case.ts.
use base_api_nest_js.Base.{
  ℕ, ◌-◌, ◌≤◌, ◌≡◌, refl, arith, String, Bool, true, false, Option, none, some, List, map, length,
  ◌&&◌, ◌==◌, str_eq, leb, if◌then◌else◌, Has, All, All-map, codes, ends_with, starts_with, take,
}
use base_api_nest_js.Prisma.{Prisma}
use base_api_nest_js.Pages.{PaginatedResponse, FindManyResult, skip_of, meta_of}
use base_api_nest_js.Pages.Shape.{IsPage, answer_IsPage}
use base_api_nest_js.Audit.{AuditLog, Metadata}

pub record ListAuditLogsInput : Type 0 where
  pub workspace_id : ℕ
  pub user_id : Option ℕ
  pub action : Option String
  pub from : Option ℕ
  pub to : Option ℕ
  pub page : ℕ
  pub limit : ℕ

-- AuditLogResponseDto
pub record AuditLogResponse : Type 0 where
  pub id : ℕ
  pub user_id : Option ℕ
  pub action : String
  pub resource : Option String
  pub resource_id : Option ℕ
  pub metadata : Metadata
  pub ip_address : Option String
  pub user_agent : Option String
  pub created_at : ℕ

abbrev pub to_response : AuditLog → AuditLogResponse
to_response log = record {
  id = log.id;
  user_id = log.user_id;
  action = log.action;
  resource = log.resource;
  resource_id = log.resource_id;
  metadata = log.metadata;
  ip_address = log.ip_address;
  user_agent = log.user_agent;
  created_at = log.created_at;
}

-- A column of an entry against the value that the query asks for.
abbrev pub is_value : ℕ → Option ℕ → Bool
is_value k none = false
is_value k (some column) = column == k

abbrev pub by_user : Option ℕ → AuditLog → Bool
by_user none log = true
by_user (some user_id) log = is_value user_id log.user_id

abbrev pub since : Option ℕ → AuditLog → Bool
since none log = true
since (some from) log = leb from log.created_at

abbrev pub until : Option ℕ → AuditLog → Bool
until none log = true
until (some to) log = leb log.created_at to

-- An action that ends in `*` asks for a prefix; an empty one asks for nothing.
unfoldable pub by_action : Option String → AuditLog → Bool
by_action none log = true
by_action (some action) log =
    if str_eq action ""
    then true
    else if ends_with (codes "*") (codes action)
    then starts_with (take (length (codes action) - 1) (codes action)) (codes log.action)
    else str_eq log.action action

-- The `where` of the query.
abbrev pub is_listed : ListAuditLogsInput → AuditLog → Bool
is_listed params log =
    is_value params.workspace_id log.workspace_id
    && by_user params.user_id log
    && since params.from log
    && until params.to log
    && by_action params.action log

module _ ⦃p : Prisma⦄ where
  unfoldable pub find_many : ListAuditLogsInput → List AuditLog → FindManyResult AuditLog
  unfolding skip_of by_action
  find_many params t = record {
    items =
        p.page (is_listed params) (λ log. log.created_at) (skip_of params.page params.limit)
          params.limit t;
    total = p.count (is_listed params) t;
  }

  unfoldable pub list_audit_logs :
      ListAuditLogsInput → List AuditLog → PaginatedResponse AuditLogResponse
  unfolding find_many meta_of
  list_audit_logs input t =
      let found = find_many input t in
      record {
        items = map to_response found.items;
        meta = meta_of input.page input.limit found.total;
      }

  -- A row of the list is of an entry of the workspace, within the dates and of the action.
  pub record IsShown (input : ListAuditLogsInput) (t : List AuditLog) (row : AuditLogResponse)
      : Type 0 where
    pub entry : AuditLog
    pub stored : Has entry t
    pub shown : row ≡ to_response entry
    pub of_workspace : entry.workspace_id ≡ some input.workspace_id
    pub of_user : (k : ℕ) → input.user_id ≡ some k → entry.user_id ≡ some k
    pub after : (k : ℕ) → input.from ≡ some k → k ≤ entry.created_at
    pub before : (k : ℕ) → input.to ≡ some k → entry.created_at ≤ k
    pub of_action : by_action input.action entry ≡ true

  is_value-eq : (k : ℕ) (o : Option ℕ) → is_value k o ≡ true → o ≡ some k
  is_value-eq k none h = absurd (cc h)
  is_value-eq k (some x) h = ground arith

  is_listed-IsShown :
      (input : ListAuditLogsInput) (t : List AuditLog) (log : AuditLog)
      → Has log t
      → is_listed input log ≡ true
      → IsShown input t (to_response log)
  is_listed-IsShown input t log stored h = record {
    entry = log;
    stored = stored;
    shown = refl;
    of_workspace = is_value-eq input.workspace_id log.workspace_id (ground arith);
    of_user = λ k e. is_value-eq k log.user_id (ground arith);
    after = λ k e. ground arith;
    before = λ k e. ground arith;
    of_action = ground arith;
  }

  -- Each row is of an entry of the workspace, of the user, within the dates and of the action that the
  -- query names. A page before the last has as many rows as the limit, the last has the rest of the
  -- total, and a page beyond it has none.
  pub list_audit_logs-IsPage :
      (input : ListAuditLogsInput) (t : List AuditLog)
      → 1 ≤ input.page
      → 1 ≤ input.limit
      → All (IsShown input t) (list_audit_logs input t).items
        × IsPage (length (list_audit_logs input t).items) (list_audit_logs input t).meta
  unfolding list_audit_logs skip_of
  list_audit_logs-IsPage input t h k =
      let test = is_listed input in
      let date = λ (log : AuditLog). log.created_at in
      let items = p.page test date (skip_of input.page input.limit) input.limit t in
      (
        All-map (IsShown input t) to_response items (λ log m.
            let (stored, fits) =
              p.page_Has test date (skip_of input.page input.limit) input.limit t log m in
            is_listed-IsShown input t log stored fits),
        answer_IsPage to_response test date t input.page input.limit h k,
      )
