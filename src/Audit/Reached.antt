-- ===== src/Audit/Reached.antt =====
-- The tables that insertion and retention reach, src/modules/audit/repositories/prisma-audit-logs.repository.ts.
use base_api_nest_js.Base.{
  ℕ, ◌<◌, ◌≡◌, inl, inr, not, some, List, [], ◌∷◌, ◌++◌, ltb, All, Option-cases,
}
use base_api_nest_js.Prisma.{Prisma}
use base_api_nest_js.Prisma.Laws.{create_rows}
use base_api_nest_js.Audit.{
  AuditLog, AuditClient, CreateAuditLogData, IsLater, all_valid, scan_start, hash_of, new_log,
  create, clashes, delete_older_than, verify_audit_chain, count_all,
}
use base_api_nest_js.Audit.Pages.{HasUniqueIds}
use base_api_nest_js.Audit.Chain.{IsChain, verify_audit_chain_iff}
use base_api_nest_js.Audit.Tables.{
  IsLater-append, IsLater-filter, HasUniqueIds-filter, HasUniqueIds-append, latest_last,
  IsChain-first, IsChain-next, linked_new, dated_new, IsChain-filter, IsSigned-new,
}

module _ ⦃p : Prisma⦄ ⦃c : AuditClient⦄ where
  -- One call on the table. An insertion is at a later millisecond than the rows, and its metadata is
  -- read back as it was written.
  pub data Step : List AuditLog → List AuditLog → Type 0 where
    created :
        {t t' : List AuditLog} (entry : CreateAuditLogData) (id now : ℕ)
        → All (λ log. log.created_at < now) t
        → c.jsonb entry.metadata ≡ entry.metadata
        → create entry id now t ≡ some t'
        → Step t t'
    deleted : {t : List AuditLog} (cutoff : ℕ) → Step t (delete_older_than cutoff t).1

  pub data Reached : List AuditLog → Type 0 where
    empty : Reached []
    next : {t t' : List AuditLog} → Reached t → Step t t' → Reached t'

  abbrev pub IsAudited : List AuditLog → Type 0
  IsAudited t = IsLater t × IsChain t × HasUniqueIds t

  create-IsAudited :
      (entry : CreateAuditLogData) (id now : ℕ) (t t' : List AuditLog)
      → IsAudited t
      → All (λ log. log.created_at < now) t
      → c.jsonb entry.metadata ≡ entry.metadata
      → create entry id now t ≡ some t'
      → IsAudited t'
  unfolding create
  create-IsAudited entry id now t t' (later, chain, unique) less same e =
      let log = new_log entry id now (hash_of (c.find_latest t)) in
      let (free, rows) = create_rows clashes log t t' e in
      let signed = IsSigned-new entry id now (hash_of (c.find_latest t)) same in
      let linked : IsChain (t ++ log ∷ []) = elim (Option-cases (c.find_latest t)) [
        | inl nothing ↦ IsChain-first t log (c.find_latest_none t nothing) signed
        | inr (last, found) ↦
            let (m, most) = c.find_latest_some t last found in
            let (init, ends) = latest_last t last later m most in
            let link = linked_new entry id now (c.find_latest t) last found in
            IsChain-next t init last log ends chain link signed
      ] in
      let dated = dated_new entry id now (hash_of (c.find_latest t)) in
      rw rows
        (IsLater-append t log later (rw dated less), linked, HasUniqueIds-append t log unique free)

  Step-IsAudited : {t t' : List AuditLog} → Step t t' → IsAudited t → IsAudited t'
  unfolding delete_older_than
  Step-IsAudited {t = t} {t' = t'} (created entry id now less same e) h =
      create-IsAudited entry id now t t' h less same e
  Step-IsAudited {t = t} (deleted cutoff) (later, chain, unique) =
      let test = λ (log : AuditLog). not (ltb log.created_at cutoff) in
      rw (p.delete_many_lem (λ log. ltb log.created_at cutoff) t) (
        IsLater-filter test t later,
        IsChain-filter cutoff t later chain,
        HasUniqueIds-filter test t unique,
      )

  pub Reached-IsAudited : {t : List AuditLog} → Reached t → IsAudited t
  Reached-IsAudited empty = (tt, tt, tt)
  Reached-IsAudited (next r st) = Step-IsAudited st (Reached-IsAudited r)

  -- From the empty table, whatever entries are inserted at later and later milliseconds, with metadata
  -- that is read back as it was written, and whatever retention deletes in between, verification answers
  -- that the chain is valid and that it scanned every row.
  pub Reached-verified :
      (t : List AuditLog)
      → Reached t
      → verify_audit_chain t
        ≡ some (all_valid (count_all t) (record scan_start { scanned = count_all t }))
  Reached-verified t r =
      let (later, chain, unique) = Reached-IsAudited r in
      let in_order = c.ordered_later t later in
      (verify_audit_chain_iff t (rw in_order unique)).1 (rw in_order chain)
