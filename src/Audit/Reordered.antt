-- ===== src/Audit/Reordered.antt =====
-- Insertion of metadata that the column of type Json reads back in another form, such as with its keys
-- in another order: src/modules/audit/repositories/prisma-audit-logs.repository.ts hashes what was written.
use base_api_nest_js.Base.{
  ℕ, ◌<◌, ◌≡◌, ◌≢◌, sym, Option, some, List, [], ◌∷◌, ◌++◌, All, All-Has, Has-last,
}
use base_api_nest_js.Prisma.{Prisma}
use base_api_nest_js.Prisma.Laws.{create_rows}
use base_api_nest_js.Audit.{
  AuditLog, AuditClient, CreateAuditLogData, fields_of, compute_audit_hash, all_valid, scan_start,
  hash_of, new_log, create, clashes, IsLater, verify_audit_chain, count_all,
}
use base_api_nest_js.Audit.Pages.{HasUniqueIds}
use base_api_nest_js.Audit.Chain.{IsSigned, IsLinked, IsChain, verify_audit_chain_iff}
use base_api_nest_js.Audit.Tables.{IsLater-append, HasUniqueIds-append, dated_new}
use base_api_nest_js.Audit.Reached.{Reached, Reached-IsAudited}

module _ ⦃c : AuditClient⦄ where
  IsLinked-IsSigned :
      (prev_hash : Option ℕ) (t : List AuditLog) → IsLinked prev_hash t → All IsSigned t
  IsLinked-IsSigned prev_hash [] h = tt
  IsLinked-IsSigned prev_hash (x ∷ t) h = (h.1, IsLinked-IsSigned (some x.hash) t h.2)

  IsChain-IsSigned : (t : List AuditLog) → IsChain t → All IsSigned t
  IsChain-IsSigned [] h = tt
  IsChain-IsSigned (x ∷ t) h = (h.0, IsLinked-IsSigned (some x.hash) t h.1)

  -- The hash tells the fields as they are written from the fields as they are read back.
  abbrev pub TellsApart : CreateAuditLogData → ℕ → ℕ → Type 0
  TellsApart entry id now =
      (prev : Option ℕ)
      → compute_audit_hash prev
          (record (fields_of (new_log entry id now prev)) { metadata = entry.metadata })
        ≢ compute_audit_hash prev (fields_of (new_log entry id now prev))

  not-IsSigned :
      (entry : CreateAuditLogData) (id now : ℕ) (prev : Option ℕ)
      → TellsApart entry id now
      → ¬ IsSigned (new_log entry id now prev)
  unfolding new_log
  not-IsSigned entry id now prev apart signed = apart prev (sym signed)

  module _ ⦃p : Prisma⦄ where
    -- After an insertion at a later millisecond than the rows, whose metadata is read back in another
    -- form than it was written in, so that the hash tells the two apart, verification does not answer
    -- that the chain is valid, though no row was altered.
    pub create_reordered :
        (entry : CreateAuditLogData) (id now : ℕ) (t t' : List AuditLog)
        → Reached t
        → All (λ log. log.created_at < now) t
        → TellsApart entry id now
        → create entry id now t ≡ some t'
        → verify_audit_chain t'
          ≢ some (all_valid (count_all t') (record scan_start { scanned = count_all t' }))
    unfolding create
    create_reordered entry id now t t' r less apart e valid =
        let (later, chain, unique) = Reached-IsAudited r in
        let prev = hash_of (c.find_latest t) in
        let log = new_log entry id now prev in
        let (free, rows) = create_rows clashes log t t' e in
        let dated = dated_new entry id now prev in
        let later' : IsLater t' = rw rows (IsLater-append t log later (rw dated less)) in
        let in_order = c.ordered_later t' later' in
        let appended = HasUniqueIds-append t log unique free in
        let unique' : HasUniqueIds (c.ordered t') = rw (in_order, rows) appended in
        let valid' = (verify_audit_chain_iff t' unique').0 valid in
        let chain' : IsChain (t ++ log ∷ []) = rw (in_order, rows) at valid' in
        let signed =
          All-Has IsSigned log (t ++ log ∷ []) (IsChain-IsSigned (t ++ log ∷ []) chain')
            (Has-last log t) in
        not-IsSigned entry id now prev apart signed
