-- ===== src/Audit/Chain.antt =====
-- What verification accepts, src/modules/audit/use-cases/verify-audit-chain.use-case.ts: rows whose hash
-- recomputes and that are linked by prevHash, with any first prevHash.
use base_api_nest_js.Base.{
  ℕ, suc, ◌+◌, ◌≡◌, ◌⊎◌, inl, inr, ◌↔◌, refl, ap, ◌∙◌, true, false, Option, none, some, List, [],
  ◌∷◌, arith, length, Bool-cases,
}
use base_api_nest_js.Audit.{
  AuditLog, AuditClient, Scan, through, returned, fields_of, compute_audit_hash, all_valid,
  scan_start, same_hash, VerifyAuditChainResult, scan_row, scan_rows, verify_audit_chain, count_all,
}
use base_api_nest_js.Audit.Pages.{
  HasUniqueIds, finished, Progress-cases, verify_audit_chain-scan_rows,
}

module _ ⦃c : AuditClient⦄ where
  abbrev pub IsSigned : AuditLog → Type 0
  IsSigned log = compute_audit_hash log.prev_hash (fields_of log) ≡ log.hash

  -- The rows after one with the hash `prev_hash`.
  abbrev pub IsLinked : Option ℕ → List AuditLog → Type 0
  IsLinked prev_hash [] = Unit
  IsLinked prev_hash (log ∷ logs) =
      (log.prev_hash ≡ prev_hash) × IsSigned log × IsLinked (some log.hash) logs

  abbrev pub IsChain : List AuditLog → Type 0
  IsChain [] = Unit
  IsChain (log ∷ logs) = IsSigned log × IsLinked (some log.hash) logs

  pub IsLinked-IsChain :
      (prev_hash : Option ℕ) (logs : List AuditLog) → IsLinked prev_hash logs → IsChain logs
  IsLinked-IsChain prev_hash [] h = tt
  IsLinked-IsChain prev_hash (log ∷ logs) h = (h.1, h.2)

  same_hash_iff : (a b : Option ℕ) → (same_hash a b ≡ true) ↔ (a ≡ b)
  same_hash_iff none none = ground arith
  same_hash_iff none (some b) = ground arith
  same_hash_iff (some a) none = ground arith
  same_hash_iff (some a) (some b) = ground arith

  -- The state after so many more rows.
  abbrev passed : List AuditLog → Scan → Scan
  passed [] s = s
  passed (log ∷ logs) s =
      passed logs
        (record { expected_prev_hash = some log.hash; scanned = suc s.scanned; first = false })

  passed_scanned :
      (logs : List AuditLog) (s : Scan) → (passed logs s).scanned ≡ length logs + s.scanned
  passed_scanned [] s = omega arith
  passed_scanned (log ∷ logs) s =
      let ih =
        passed_scanned logs
          (record { expected_prev_hash = some log.hash; scanned = suc s.scanned; first = false }) in
      omega arith

  row_passes :
      (total : ℕ) (log : AuditLog) (s : Scan)
      → (s.first ≡ true) ⊎ (log.prev_hash ≡ s.expected_prev_hash)
      → IsSigned log
      → scan_row total log s ≡ through (passed (log ∷ []) s)
  unfolding scan_row
  row_passes total log s link signed =
      let same = (same_hash_iff log.prev_hash log.prev_hash).1 refl in
      elim (Bool-cases s.first) [ inl first ↦ ground arith | inr next ↦ ground arith ]

  row_valid :
      (total : ℕ) (log : AuditLog) (s s' : Scan)
      → scan_row total log s ≡ through s'
      → ((s.first ≡ true) ⊎ (log.prev_hash ≡ s.expected_prev_hash))
        × IsSigned log
        × (s' ≡ passed (log ∷ []) s)
  unfolding scan_row
  row_valid total log s s' e =
      let same = same_hash_iff log.prev_hash s.expected_prev_hash in
      elim (Bool-cases s.first) [ inl first ↦ ground arith | inr next ↦ ground arith ]

  row_returns :
      (total : ℕ) (log : AuditLog) (s : Scan) (r : VerifyAuditChainResult)
      → scan_row total log s ≡ returned r
      → r.valid ≡ false
  unfolding scan_row
  row_returns total log s r e = ground arith

  rows_step :
      (total : ℕ) (log : AuditLog) (logs : List AuditLog) (s s' : Scan)
      → scan_row total log s ≡ through s'
      → scan_rows total (log ∷ logs) s ≡ scan_rows total logs s'
  unfolding scan_rows
  rows_step total log logs s s' e = ground arith

  rows_stop :
      (total : ℕ) (log : AuditLog) (logs : List AuditLog) (s : Scan) (r : VerifyAuditChainResult)
      → scan_row total log s ≡ returned r
      → (finished total (scan_rows total (log ∷ logs) s)).valid ≡ false
  unfolding scan_rows
  rows_stop total log logs s r e = let no_r = row_returns total log s r e in ground arith

  rows_pass :
      (total : ℕ) (logs : List AuditLog) (s : Scan)
      → IsLinked s.expected_prev_hash logs
      → scan_rows total logs s ≡ through (passed logs s)
  unfolding scan_rows
  rows_pass total [] s h = refl
  rows_pass total (log ∷ logs) s h =
      rows_step total log logs s (passed (log ∷ []) s) (row_passes total log s (inr h.0) h.1)
      ∙ rows_pass total logs (passed (log ∷ []) s) h.2

  rows_valid :
      (total : ℕ) (logs : List AuditLog) (s : Scan)
      → s.first ≡ false
      → (finished total (scan_rows total logs s)).valid ≡ true
      → IsLinked s.expected_prev_hash logs
  unfolding scan_rows
  rows_valid total [] s next h = tt
  rows_valid total (log ∷ logs) s next h = elim (Progress-cases (scan_row total log s)) [
    | inr (r, e) ↦ let stop = rows_stop total log logs s r e in absurd (ground arith)
    | inl (s', e) ↦
        let (link, signed, same) = row_valid total log s s' e in
        let ih =
          rows_valid total logs (passed (log ∷ []) s) refl
            (rw (rows_step total log logs s s' e, same) at h) in
        (ground arith, signed, ih)
  ]

  IsChain-valid :
      (total : ℕ) (logs : List AuditLog)
      → (finished total (scan_rows total logs scan_start)).valid ≡ true
      → IsChain logs
  IsChain-valid total [] h = tt
  IsChain-valid total (log ∷ logs) h = elim (Progress-cases (scan_row total log scan_start)) [
    | inr (r, e) ↦ let stop = rows_stop total log logs scan_start r e in absurd (ground arith)
    | inl (s', e) ↦
        let (link, signed, same) = row_valid total log scan_start s' e in
        (
          signed,
          rows_valid total logs (passed (log ∷ []) scan_start) refl
              (rw (rows_step total log logs scan_start s' e, same) at h),
        )
  ]

  chain_passes :
      (total : ℕ) (logs : List AuditLog)
      → IsChain logs
      → length logs ≡ total
      → finished total (scan_rows total logs scan_start)
        ≡ all_valid total (record scan_start { scanned = total })
  unfolding scan_rows
  chain_passes total [] h e = ap (λ n. all_valid total (record scan_start { scanned = n })) e
  chain_passes total (log ∷ logs) h e =
      let first = passed (log ∷ []) scan_start in
      let rows =
        rows_step total log logs scan_start first (row_passes total log scan_start (inl refl) h.0)
        ∙ rows_pass total logs first h.1 in
      let count = passed_scanned logs first in
      let scanned : (passed logs first).scanned ≡ total = omega arith in
      ap (finished total) rows
      ∙ ap (λ n. all_valid total (record scan_start { scanned = n })) scanned

  answer_valid : {a b : VerifyAuditChainResult} → some a ≡ some b → b.valid ≡ true → a.valid ≡ true
  answer_valid e h = ground arith

  -- Verification answers that the chain is valid, with all rows scanned, exactly if the hash of each
  -- row recomputes and the rows after the first have the hash of the row before as their prevHash; rows
  -- are taken in their order, and no two have an id in common.
  pub verify_audit_chain_iff :
      (t : List AuditLog)
      → HasUniqueIds (c.ordered t)
      → (verify_audit_chain t
          ≡ some (all_valid (count_all t) (record scan_start { scanned = count_all t })))
        ↔ IsChain (c.ordered t)
  unfolding count_all
  verify_audit_chain_iff t u =
      let count : length (c.ordered t) ≡ length t = c.ordered_length t in
      rw (verify_audit_chain-scan_rows t u) (
        (λ e. IsChain-valid (count_all t) (c.ordered t) (answer_valid e refl)),
        (λ h. ap some (chain_passes (count_all t) (c.ordered t) h count)),
      )
