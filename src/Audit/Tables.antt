-- ===== src/Audit/Tables.antt =====
-- Rows of the audit log that one more follows, and that the oldest leave.
use base_api_nest_js.Base.{
  ℕ, ◌<◌, ◌≤◌, ◌≡◌, ◌≢◌, inl, inr, refl, ap, Bool, true, false, not, Option, some, List, [], ◌∷◌,
  ◌++◌, arith, ltb, filter, All, All-append, All-filter, Has, any, Bool-cases,
}
use base_api_nest_js.Audit.{
  AuditLog, AuditClient, CreateAuditLogData, IsLater, hash_of, new_log, clashes,
}
use base_api_nest_js.Audit.Pages.{HasUniqueIds}
use base_api_nest_js.Audit.Chain.{IsSigned, IsLinked, IsChain, IsLinked-IsChain}

module _ ⦃c : AuditClient⦄ where
  pub IsLater-append :
      (t : List AuditLog) (log : AuditLog)
      → IsLater t
      → All (λ other. other.created_at < log.created_at) t
      → IsLater (t ++ log ∷ [])
  IsLater-append [] log h less = (tt, tt)
  IsLater-append (x ∷ t) log h less = (
    All-append (λ other. x.created_at < other.created_at) t (log ∷ []) h.0 (less.0, tt),
    IsLater-append t log h.1 less.1,
  )

  pub IsLater-filter :
      (test : AuditLog → Bool) (t : List AuditLog) → IsLater t → IsLater (filter test t)
  IsLater-filter test [] h = tt
  IsLater-filter test (x ∷ t) h = elim (Bool-cases (test x)) [
    | inl e ↦ rw e (
      All-filter (λ other. x.created_at < other.created_at) test t h.0,
      IsLater-filter test t h.1,
    )
    | inr e ↦ rw e (IsLater-filter test t h.1)
  ]

  pub HasUniqueIds-filter :
      (test : AuditLog → Bool) (t : List AuditLog) → HasUniqueIds t → HasUniqueIds (filter test t)
  HasUniqueIds-filter test [] h = tt
  HasUniqueIds-filter test (x ∷ t) h = elim (Bool-cases (test x)) [
    | inl e ↦
        rw e (All-filter (λ other. other.id ≢ x.id) test t h.0, HasUniqueIds-filter test t h.1)
    | inr e ↦ rw e (HasUniqueIds-filter test t h.1)
  ]

  pub HasUniqueIds-append :
      (t : List AuditLog) (log : AuditLog)
      → HasUniqueIds t
      → any (clashes log) t ≡ false
      → HasUniqueIds (t ++ log ∷ [])
  HasUniqueIds-append [] log h free = (tt, tt)
  HasUniqueIds-append (x ∷ t) log h free =
      let other : log.id ≢ x.id = ground arith in
      let rest : any (clashes log) t ≡ false = ground arith in
      (
        All-append (λ other. other.id ≢ x.id) t (log ∷ []) h.0 (other, tt),
        HasUniqueIds-append t log h.1 rest,
      )

  -- Of rows in the order of their dates, the latest is the last.
  pub latest_last :
      (t : List AuditLog) (log : AuditLog)
      → IsLater t
      → Has log t
      → All (λ other. other.created_at ≤ log.created_at) t
      → (init : List AuditLog) × (t ≡ init ++ log ∷ [])
  latest_last [] log h m most = elim m [ ]
  latest_last (x ∷ []) log h (inl e) most = ([], rw e refl)
  latest_last (x ∷ y ∷ t) log h (inl e) most =
      let same = ap (λ (r : AuditLog). r.created_at) e in absurd (ground arith)
  latest_last (x ∷ t) log h (inr m) most =
      let (init, e) = latest_last t log h.1 m most.1 in (x ∷ init, ap (λ l. x ∷ l) e)

  IsLinked-append :
      (prev_hash : Option ℕ) (init : List AuditLog) (last log : AuditLog)
      → IsLinked prev_hash (init ++ last ∷ [])
      → log.prev_hash ≡ some last.hash
      → IsSigned log
      → IsLinked prev_hash ((init ++ last ∷ []) ++ log ∷ [])
  IsLinked-append prev_hash [] last log h link signed = (h.0, h.1, (link, signed, tt))
  IsLinked-append prev_hash (x ∷ init) last log h link signed =
      (h.0, h.1, IsLinked-append (some x.hash) init last log h.2 link signed)

  IsChain-append :
      (init : List AuditLog) (last log : AuditLog)
      → IsChain (init ++ last ∷ [])
      → log.prev_hash ≡ some last.hash
      → IsSigned log
      → IsChain ((init ++ last ∷ []) ++ log ∷ [])
  IsChain-append [] last log h link signed = (h.0, (link, signed, tt))
  IsChain-append (x ∷ init) last log h link signed =
      (h.0, IsLinked-append (some x.hash) init last log h.1 link signed)

  pub IsChain-first :
      (t : List AuditLog) (log : AuditLog) → t ≡ [] → IsSigned log → IsChain (t ++ log ∷ [])
  IsChain-first t log e signed = rw e (signed, tt)

  pub IsChain-next :
      (t init : List AuditLog) (last log : AuditLog)
      → t ≡ init ++ last ∷ []
      → IsChain t
      → log.prev_hash ≡ some last.hash
      → IsSigned log
      → IsChain (t ++ log ∷ [])
  IsChain-next t init last log e h link signed =
      rw e (IsChain-append init last log (rw e at h) link signed)

  filter_all :
      (test : AuditLog → Bool) (t : List AuditLog)
      → All (λ log. test log ≡ true) t
      → filter test t ≡ t
  filter_all test [] h = refl
  filter_all test (x ∷ t) h = let ih = filter_all test t h.1 in ground arith

  All-later :
      (cutoff at : ℕ) (t : List AuditLog)
      → cutoff ≤ at
      → All (λ log. at < log.created_at) t
      → All (λ log. not (ltb log.created_at cutoff) ≡ true) t
  All-later cutoff at [] le h = tt
  All-later cutoff at (x ∷ t) le h = (ground arith, All-later cutoff at t le h.1)

  -- Retention leaves a tail of the chain.
  pub IsChain-filter :
      (cutoff : ℕ) (t : List AuditLog)
      → IsLater t
      → IsChain t
      → IsChain (filter (λ log. not (ltb log.created_at cutoff)) t)
  IsChain-filter cutoff [] later h = tt
  IsChain-filter cutoff (x ∷ t) later h = elim (Bool-cases (ltb x.created_at cutoff)) [
    | inl old ↦ rw old (IsChain-filter cutoff t later.1 (IsLinked-IsChain (some x.hash) t h.1))
    | inr kept ↦
        rw
          (
            kept,
            filter_all (λ log. not (ltb log.created_at cutoff)) t
                (All-later cutoff x.created_at t (ground arith) later.0),
          )
          h
  ]

  pub linked_new :
      (entry : CreateAuditLogData) (id now : ℕ) (found : Option AuditLog) (last : AuditLog)
      → found ≡ some last
      → (new_log entry id now (hash_of found)).prev_hash ≡ some last.hash
  unfolding new_log
  linked_new entry id now found last e = rw e refl

  pub dated_new :
      (entry : CreateAuditLogData) (id now : ℕ) (prev : Option ℕ)
      → (new_log entry id now prev).created_at ≡ now
  unfolding new_log
  dated_new entry id now prev = refl

  pub IsSigned-new :
      (entry : CreateAuditLogData) (id now : ℕ) (prev : Option ℕ)
      → c.jsonb entry.metadata ≡ entry.metadata
      → IsSigned (new_log entry id now prev)
  unfolding new_log
  IsSigned-new entry id now prev same = rw same refl
