-- ===== src/Audit/Pages.antt =====
-- Verification page by page, src/modules/audit/use-cases/verify-audit-chain.use-case.ts, reads the rows once.
use base_api_nest_js.Base.{
  ℕ, zero, suc, ◌-◌, ◌<◌, ◌≡◌, ◌≢◌, ◌⊎◌, inl, inr, refl, sym, ap, ◌==◌, ==_iff, Option, none, some,
  List, [], ◌∷◌, ◌++◌, arith, length, take, drop, take-drop, All, Bool-cases, Has, All-Has,
}
use base_api_nest_js.Audit.{
  AuditLog, AuditClient, Scan, Progress, through, returned, rows_after, rows_from, last, all_valid,
  scan_start, page_size, VerifyAuditChainResult, iterate_chain_asc, scan_row, scan_rows,
  verify_loop, verify_audit_chain, count_all,
}

-- No two rows have an id in common.
abbrev pub HasUniqueIds : List AuditLog → Type 0
HasUniqueIds [] = Unit
HasUniqueIds (log ∷ logs) = All (λ other. other.id ≢ log.id) logs × HasUniqueIds logs

module _ {A : Type 0} where
  -- A page that is not full is the last.
  drop_short : (n : ℕ) (xs : List A) → length (take n xs) ≢ n → drop n xs ≡ []
  drop_short zero xs h = absurd (h refl)
  drop_short (suc n) [] h = refl
  drop_short (suc n) (x ∷ xs) h = drop_short n xs (λ e. h (ap suc e))

  drop_less : (n : ℕ) (xs : List A) → length (take n xs) ≢ 0 → length (drop n xs) < length xs
  drop_less zero xs h = absurd (h refl)
  drop_less (suc n) [] h = absurd (h refl)
  drop_less (suc n) (x ∷ xs) h = drop_at_most n xs
    where
      drop_at_most : (n : ℕ) (xs : List A) → length (drop n xs) < suc (length xs)
      drop_at_most zero xs = omega arith
      drop_at_most (suc n) [] = omega arith
      drop_at_most (suc n) (x ∷ xs) = let ih = drop_at_most n xs in omega arith

  nothing_left : (n : ℕ) (xs : List A) → n ≢ 0 → length (take n xs) ≡ 0 → xs ≡ []
  nothing_left zero xs pos e = absurd (pos refl)
  nothing_left (suc n) [] pos e = refl
  nothing_left (suc n) (x ∷ xs) pos e =
      let false_eq : suc (length (take n xs)) ≡ 0 = e in absurd (omega arith)

  append_assoc : (xs ys zs : List A) → (xs ++ ys) ++ zs ≡ xs ++ (ys ++ zs)
  append_assoc [] ys zs = refl
  append_assoc (x ∷ xs) ys zs = ap (λ l. x ∷ l) (append_assoc xs ys zs)

last_split :
    (items : List AuditLog)
    → length items ≢ 0
    → (init : List AuditLog) × (log : AuditLog) × (items ≡ init ++ log ∷ [])
      × (last items ≡ some log)
last_split [] h = absurd (h refl)
last_split (x ∷ []) h = ([], x, refl, refl)
last_split (x ∷ y ∷ xs) h =
    let (init, log, e, l) = last_split (y ∷ xs) (λ e. omega arith) in
    let outer : suc (suc (length xs)) - 1 ≡ suc (length xs) = omega arith in
    let inner : suc (length xs) - 1 ≡ length xs = omega arith in
    (x ∷ init, log, ap (λ l. x ∷ l) e, rw outer (rw inner at l))

Has-middle :
    (init : List AuditLog) (log : AuditLog) (more : List AuditLog) → Has log (init ++ log ∷ more)
Has-middle [] log more = inl refl
Has-middle (x ∷ init) log more = inr (Has-middle init log more)

rows_split :
    (before init : List AuditLog) (log : AuditLog) (more items rest rows : List AuditLog)
    → rows ≡ before ++ rest
    → items ≡ init ++ log ∷ []
    → items ++ more ≡ rest
    → rows ≡ (before ++ init) ++ log ∷ more
rows_split before init log more items rest rows e ends parts =
    let joined = append_assoc init (log ∷ []) more in
    rw (append_assoc before init (log ∷ more), e, ← parts, ends) (ap (λ l. before ++ l) joined)

rows_after_unique :
    (init : List AuditLog) (log : AuditLog) (more : List AuditLog)
    → HasUniqueIds (init ++ log ∷ more)
    → rows_after log.id (init ++ log ∷ more) ≡ more
unfolding rows_after
rows_after_unique [] log more u = ground arith
rows_after_unique (x ∷ init) log more u =
    let other =
      All-Has (λ other. other.id ≢ x.id) log (init ++ log ∷ more) u.0 (Has-middle init log more) in
    let ih = rows_after_unique init log more u.1 in
    elim (Bool-cases (x.id == log.id)) [
      | inl e ↦ absurd (other (sym ((==_iff x.id log.id).0 e)))
      | inr e ↦ rw e ih
    ]

pub Progress-cases :
    (r : Progress)
    → ((s : Scan) × (r ≡ through s)) ⊎ ((v : VerifyAuditChainResult) × (r ≡ returned v))
Progress-cases (through s) = inl (s, refl)
Progress-cases (returned v) = inr (v, refl)

module _ ⦃c : AuditClient⦄ where
  -- The rows of a list are the rows of its first part, and then of its second.
  scan_rows-append :
      (total : ℕ) (xs ys : List AuditLog) (s : Scan)
      → scan_rows total (xs ++ ys) s ≡ elim (scan_rows total xs s) [
        | through s' ↦ scan_rows total ys s'
        | returned r ↦ returned r
      ]
  unfolding scan_rows
  scan_rows-append total [] ys s = refl
  scan_rows-append total (x ∷ xs) ys s = elim (Progress-cases (scan_row total x s)) [
    | inl (s', e) ↦ let ih = scan_rows-append total xs ys s' in ground arith
    | inr (r, e) ↦ ground arith
  ]

  scan_none :
      (total : ℕ) (rest : List AuditLog) (s : Scan) → rest ≡ [] → scan_rows total rest s ≡ through s
  unfolding scan_rows
  scan_none total rest s e = rw e refl

  abbrev pub finished : ℕ → Progress → VerifyAuditChainResult
  finished total (through s) = all_valid total s
  finished total (returned r) = r

  -- With more rounds than rows, the loop ends and answers one pass over the rows that remain.
  verify_loop_lem :
      (fuel total limit : ℕ) (t : List AuditLog) (cursor : Option ℕ) (s : Scan)
      (before rest : List AuditLog)
      → limit ≢ 0
      → HasUniqueIds (c.ordered t)
      → c.ordered t ≡ before ++ rest
      → rows_from cursor (c.ordered t) ≡ rest
      → length rest < fuel
      → verify_loop fuel total limit t cursor s ≡ some (finished total (scan_rows total rest s))
  unfolding verify_loop iterate_chain_asc
  verify_loop_lem zero total limit t cursor s before rest pos u e at less = absurd (omega arith)
  verify_loop_lem (suc fuel) total limit t cursor s before rest pos u e at less =
      let items = take limit rest in
      let page : c.find_page cursor limit t ≡ items = rw (c.find_page_lem cursor limit t, at) in
      let split = scan_rows-append total items (drop limit rest) s in
      let parts : items ++ drop limit rest ≡ rest = take-drop limit rest in
      let split' = rw parts at split in
      elim (Bool-cases (length items == 0)) [
        | inl none_left ↦
            let no_items : rest ≡ [] =
              nothing_left limit rest pos ((==_iff (length items) 0).0 none_left) in
            let end = scan_none total rest s no_items in ground arith
        | inr some_left ↦ elim (Progress-cases (scan_rows total items s)) [
          | inr (r, out) ↦ ground arith
          | inl (s', on) ↦ elim (Bool-cases (length items == limit)) [
            | inr short ↦
                let no_more = drop_short limit rest (λ e. ground arith) in
                let end = scan_none total (drop limit rest) s' no_more in ground arith
            | inl full ↦
                let some_items : length items ≢ 0 = ground arith in
                let (init, log, ends, l) = last_split items some_items in
                let before_log =
                  rows_split before init log (drop limit rest) items rest (c.ordered t) e ends
                    parts in
                let after : rows_after log.id (c.ordered t) ≡ drop limit rest =
                  rw before_log (
                    rows_after_unique (before ++ init) log (drop limit rest)
                      (rw before_log at u)) in
                let whole : c.ordered t ≡ (before ++ items) ++ drop limit rest =
                  rw (append_assoc before items (drop limit rest), parts) e in
                let less' = drop_less limit rest some_items in
                let ih =
                  verify_loop_lem fuel total limit t (some log.id) s' (before ++ items)
                    (drop limit rest) pos u whole after (omega arith) in
                ground arith
          ]
        ]
      ]

  -- The loop over pages ends, and answers what one pass over the rows in their order answers, if no
  -- two rows have an id in common.
  pub verify_audit_chain-scan_rows :
      (t : List AuditLog)
      → HasUniqueIds (c.ordered t)
      → verify_audit_chain t
        ≡ some (finished (count_all t) (scan_rows (count_all t) (c.ordered t) scan_start))
  unfolding verify_audit_chain count_all
  verify_audit_chain-scan_rows t u =
      let fuel : length (c.ordered t) < suc (length t) = rw (c.ordered_length t) (omega arith) in
      verify_loop_lem (suc (count_all t)) (count_all t) page_size t none scan_start [] (c.ordered t)
        (omega arith) u refl refl fuel
