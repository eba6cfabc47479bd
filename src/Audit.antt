-- ===== src/Audit.antt =====
-- The audit log: src/modules/audit/entities/audit-log.entity.ts, the repository with its hash chain in
-- src/modules/audit/repositories/prisma-audit-logs.repository.ts, and the use cases that verify the chain
-- and delete old entries. Hashes and ids are numbers; the table is the list of its rows, and the
-- advisory lock of `create` makes each insertion one step.
mod Rows
pub mod Pages
pub mod Listed
pub mod Chain
pub mod Tables
pub mod Reached
pub mod Reordered
unfoldable pub use Rows.*
use base_api_nest_js.Base.{
  ℕ, zero, suc, ◌+◌, ◌-◌, ◌*◌, ◌<◌, ◌≤◌, ◌≡◌, String, Bool, true, false, not, ◌&&◌, ◌||◌, ◌==◌, ltb,
  Option, none, some, List, [], ◌∷◌, ◌++◌, if◌then◌else◌, filter, length, take, get_elem?, Has, All,
}
use base_api_nest_js.World.{Meta}
use base_api_nest_js.Prisma.{Prisma}

-- Rows are unique in `id` and in `hash`.
abbrev pub clashes : AuditLog → AuditLog → Bool
clashes a b = a.id == b.id || a.hash == b.hash

pub record AuditLogChainPage : Type 0 where
  pub items : List AuditLog
  pub next_cursor : Option ℕ

-- `items[items.length - 1]`
abbrev pub last : List AuditLog → Option AuditLog
last items = get_elem? items (length items - 1)

abbrev pub hash_of : Option AuditLog → Option ℕ
hash_of none = none
hash_of (some log) = some log.hash

abbrev pub id_of : Option AuditLog → Option ℕ
id_of none = none
id_of (some log) = some log.id

-- `===` on a hash or null
abbrev pub same_hash : Option ℕ → Option ℕ → Bool
same_hash none none = true
same_hash none (some b) = false
same_hash (some a) none = false
same_hash (some a) (some b) = a == b

pub data Reason : Type 0 where
  ok bad_hash broken_chain : Reason

pub record VerifyAuditChainResult : Type 0 where
  pub valid : Bool
  pub total : ℕ
  pub scanned : ℕ
  pub broken_at : Option ℕ
  pub reason : Reason

-- The variables of `execute` that the rows update.
pub record Scan : Type 0 where
  pub expected_prev_hash : Option ℕ
  pub scanned : ℕ
  pub first : Bool

-- What the loop over rows ends with: the rows are through, or it returned.
pub data Progress : Type 0 where
  through : Scan → Progress
  returned : VerifyAuditChainResult → Progress

abbrev pub scan_start : Scan
scan_start = record { expected_prev_hash = none; scanned = 0; first = true }

abbrev pub all_valid : ℕ → Scan → VerifyAuditChainResult
all_valid total s = record {
  valid = true;
  total = total;
  scanned = s.scanned;
  broken_at = none;
  reason = ok;
}

abbrev pub broken : ℕ → Scan → AuditLog → Reason → Progress
broken total s log reason = returned (record {
  valid = false;
  total = total;
  scanned = s.scanned;
  broken_at = some log.id;
  reason = reason;
})

-- 24 hours in milliseconds.
abbrev pub day_ms : ℕ
day_ms = 24 * 60 * 60 * 1000

abbrev pub page_size : ℕ
page_size = 500

module _ ⦃c : AuditClient⦄ where
  unfoldable pub compute_audit_hash : Option ℕ → AuditFields → ℕ
  compute_audit_hash prev_hash fields = c.sha256_json prev_hash fields

  -- The hash of the fields before the database has stored them.
  unfoldable pub new_log : CreateAuditLogData → ℕ → ℕ → Option ℕ → AuditLog
  new_log entry id now prev_hash = record {
    id = id;
    user_id = entry.user_id;
    workspace_id = entry.workspace_id;
    action = entry.action;
    resource = entry.resource;
    resource_id = entry.resource_id;
    metadata = c.jsonb entry.metadata;
    ip_address = entry.ip_address;
    user_agent = entry.user_agent;
    prev_hash = prev_hash;
    hash = compute_audit_hash prev_hash (record {
      id = id;
      user_id = entry.user_id;
      workspace_id = entry.workspace_id;
      action = entry.action;
      resource = entry.resource;
      resource_id = entry.resource_id;
      metadata = entry.metadata;
      ip_address = entry.ip_address;
      user_agent = entry.user_agent;
      created_at = now;
    });
    created_at = now;
  }

  -- The new row's prevHash is the hash of the latest row.
  unfoldable pub create :
      ⦃p : Prisma⦄ → CreateAuditLogData → ℕ → ℕ → List AuditLog → Option (List AuditLog)
  create ⦃p⦄ entry id now t = p.create clashes (new_log entry id now (hash_of (c.find_latest t))) t

  -- The number of deleted rows, and the rows that stay.
  unfoldable pub delete_older_than : ⦃p : Prisma⦄ → ℕ → List AuditLog → ℕ × List AuditLog
  delete_older_than ⦃p⦄ cutoff t =
      let kept = p.delete_many (λ log. ltb log.created_at cutoff) t in
      (length t - length kept, kept)

  -- `retention_days` is AUDIT_RETENTION_DAYS; a cutoff before 1970 is 0, and no row is older.
  unfoldable pub cleanup_old_audit_logs : ⦃p : Prisma⦄ → ℕ → ℕ → List AuditLog → ℕ × List AuditLog
  cleanup_old_audit_logs retention_days now t = delete_older_than (now - retention_days * day_ms) t

  unfoldable pub count_all : List AuditLog → ℕ
  count_all t = length t

  unfoldable pub iterate_chain_asc : Option ℕ → ℕ → List AuditLog → AuditLogChainPage
  iterate_chain_asc after_id limit t =
      let items = c.find_page after_id limit t in
      record {
        items = items;
        next_cursor = if length items == limit then id_of (last items) else none;
      }

  -- The body of the loop over the rows of a page.
  unfoldable pub scan_row : ℕ → AuditLog → Scan → Progress
  scan_row total log s =
      let expected = if s.first then log.prev_hash else s.expected_prev_hash in
      if not (same_hash log.prev_hash expected)
      then broken total s log broken_chain
      else if not (compute_audit_hash log.prev_hash (fields_of log) == log.hash)
      then broken total s log bad_hash
      else through
          (record { expected_prev_hash = some log.hash; scanned = suc s.scanned; first = false })

  unfoldable pub scan_rows : ℕ → List AuditLog → Scan → Progress
  scan_rows total [] s = through s
  scan_rows total (log ∷ logs) s = elim (scan_row total log s) [
    | through s' ↦ scan_rows total logs s'
    | returned r ↦ returned r
  ]

  -- The loop over pages, of at most so many rounds.
  unfoldable pub verify_loop :
      ℕ → ℕ → ℕ → List AuditLog → Option ℕ → Scan → Option VerifyAuditChainResult
  verify_loop zero total limit t cursor s = none
  verify_loop (suc fuel) total limit t cursor s =
      let page = iterate_chain_asc cursor limit t in
      elim (length page.items == 0) [
        | true ↦ some (all_valid total s)
        | false ↦ elim (scan_rows total page.items s) [
          | returned r ↦ some r
          | through s' ↦ elim page.next_cursor [
            | none ↦ some (all_valid total s')
            | some next ↦ verify_loop fuel total limit t (some next) s'
          ]
        ]
      ]

  unfoldable pub verify_audit_chain : List AuditLog → Option VerifyAuditChainResult
  verify_audit_chain t = verify_loop (suc (count_all t)) (count_all t) page_size t none scan_start
