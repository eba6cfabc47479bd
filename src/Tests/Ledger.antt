-- ===== src/Tests/Ledger.antt =====
-- A concrete database for the audit log, and its theorems at concrete entries.
use base_api_nest_js.Base.{
  ℕ, suc, ◌+◌, ◌*◌, ◌<◌, ◌≤◌, ◌≡◌, ◌≢◌, ◌↔◌, refl, sym, ap, ◌∙◌, arith, String, leb, Option, none,
  some, List, [], ◌∷◌, ◌++◌, length, take, Has, inl, inr, All, if◌then◌else◌, Bool-cases,
  Option-cases, codes,
}
use base_api_nest_js.World.{Meta, text}
use base_api_nest_js.Audit.{
  AuditLog, AuditFields, AuditClient, CreateAuditLogData, Metadata, IsLater, rows_from, new_log,
  create, compute_audit_hash, verify_audit_chain, count_all, all_valid, scan_start, scan_rows,
}
use base_api_nest_js.Audit.Pages.{HasUniqueIds, finished, verify_audit_chain-scan_rows}
use base_api_nest_js.Audit.Chain.{IsChain, verify_audit_chain_iff}
use base_api_nest_js.Audit.Reached.{Reached, created, empty, next, Reached-verified}
use base_api_nest_js.Audit.Reordered.{TellsApart, create_reordered}
use base_api_nest_js.Tests.Rows.{rows}

abbrev insert : AuditLog → List AuditLog → List AuditLog
insert x [] = x ∷ []
insert x (y ∷ t) =
    let rest = insert x t in if leb x.created_at y.created_at then x ∷ y ∷ t else y ∷ rest

abbrev sorted : List AuditLog → List AuditLog
sorted [] = []
sorted (x ∷ t) = insert x (sorted t)

length-insert : (x : AuditLog) (t : List AuditLog) → length (insert x t) ≡ suc (length t)
length-insert x [] = refl
length-insert x (y ∷ t) = ground (arith, length-insert x t)

length-sorted : (t : List AuditLog) → length (sorted t) ≡ length t
length-sorted [] = refl
length-sorted (x ∷ t) = length-insert x (sorted t) ∙ ap suc (length-sorted t)

insert_first :
    (x : AuditLog) (t : List AuditLog)
    → All (λ y. x.created_at < y.created_at) t
    → insert x t ≡ x ∷ t
insert_first x [] h = refl
insert_first x (y ∷ t) h = let less = h.0 in ground arith

sorted_later : (t : List AuditLog) → IsLater t → sorted t ≡ t
sorted_later [] h = refl
sorted_later (x ∷ t) h = rw (sorted_later t h.1) (insert_first x t h.0)

abbrev later_of : AuditLog → Option AuditLog → AuditLog
later_of x none = x
later_of x (some y) = if leb x.created_at y.created_at then y else x

abbrev latest : List AuditLog → Option AuditLog
latest [] = none
latest (x ∷ t) = some (later_of x (latest t))

latest-none : (t : List AuditLog) → latest t ≡ none → t ≡ []
latest-none [] e = refl
latest-none (x ∷ t) e = absurd (ground arith)

All-below :
    (a b : ℕ) (t : List AuditLog)
    → a ≤ b
    → All (λ y. y.created_at ≤ a) t
    → All (λ y. y.created_at ≤ b) t
All-below a b [] le h = tt
All-below a b (y ∷ t) le h = let less = h.0 in (omega arith, All-below a b t le h.1)

latest-some :
    (t : List AuditLog) (log : AuditLog)
    → latest t ≡ some log
    → Has log t × All (λ y. y.created_at ≤ log.created_at) t
latest-some [] log e = absurd (ground arith)
latest-some (x ∷ t) log e = elim (Option-cases (latest t)) [
  | inl nothing ↦
      let same : x ≡ log = ground arith in
      rw (← same, latest-none t nothing) (inl refl, (omega arith, tt))
  | inr (y, found) ↦
      let (m, h) = latest-some t y found in
      elim (Bool-cases (leb x.created_at y.created_at)) [
        | inl up ↦
            let same : y ≡ log = ground arith in
            let le : x.created_at ≤ y.created_at = ground arith in
            let m' : Has log t = rw same at m in
            let h' : All (λ y. y.created_at ≤ log.created_at) t = rw same at h in
            (inr m', (rw (← same) le, h'))
        | inr down ↦
            let same : x ≡ log = ground arith in
            let le : y.created_at ≤ x.created_at = ground arith in
            let all : All (λ y. y.created_at ≤ x.created_at) t =
              All-below y.created_at x.created_at t le h in
            let all' : All (λ y. y.created_at ≤ log.created_at) t = rw same at all in
            (inl (sym same), (rw (← same) (omega arith), all'))
      ]
]

-- The first character of the metadata's first key.
abbrev first_code : Metadata → ℕ
first_code none = 0
first_code (some []) = 1
first_code (some ((key, value) ∷ rest)) = length (codes key) + 2

abbrev hashed : Option ℕ → AuditFields → ℕ
hashed none fields = fields.id * 100 + first_code fields.metadata
hashed (some prev) fields = prev * 1000 + fields.id * 100 + first_code fields.metadata

-- Keys stand by their length.
abbrev by_length : Metadata → Metadata
by_length (some (a ∷ b ∷ [])) =
    if leb (length (codes a.0)) (length (codes b.0)) then some (a ∷ b ∷ []) else some (b ∷ a ∷ [])
by_length none = none
by_length (some []) = some []
by_length (some (a ∷ [])) = some (a ∷ [])
by_length (some (a ∷ b ∷ c ∷ rest)) = some (a ∷ b ∷ c ∷ rest)

instance abbrev ledger : AuditClient
ledger = record {
  sha256_json = hashed;
  jsonb = by_length;
  ordered = sorted;
  find_page = λ cursor n t. take n (rows_from cursor (sorted t));
  find_latest = latest;
  ordered_length = length-sorted;
  ordered_later = sorted_later;
  find_page_lem = λ cursor n t. refl;
  find_latest_none = latest-none;
  find_latest_some = latest-some;
}

abbrev entry_with : List (String × Meta) → CreateAuditLogData
entry_with metadata = record {
  user_id = some 1;
  workspace_id = none;
  action = "auth.login";
  resource = none;
  resource_id = none;
  metadata = some metadata;
  ip_address = none;
  user_agent = none;
}

abbrev plain_entry : CreateAuditLogData
plain_entry = entry_with (("email", text "a@b.c") ∷ [])

-- Two keys that the column gives back in the other order.
abbrev swapped_entry : CreateAuditLogData
swapped_entry = entry_with (("provider", text "google") ∷ ("email", text "a@b.c") ∷ [])

abbrev one_log : List AuditLog
one_log = new_log plain_entry 1 100 none ∷ []

abbrev two_logs : List AuditLog
two_logs = new_log plain_entry 1 100 none ∷ new_log plain_entry 2 200 (some 107) ∷ []

one_Reached : Reached one_log
unfolding create new_log
one_Reached = next empty (created plain_entry 1 100 tt refl refl)

two_Reached : Reached two_logs
unfolding create new_log compute_audit_hash
two_Reached = next one_Reached (created plain_entry 2 200 (omega arith) refl refl)

Reached-verified_example :
    verify_audit_chain two_logs
    ≡ some (all_valid (count_all two_logs) (record scan_start { scanned = count_all two_logs }))
Reached-verified_example = Reached-verified two_logs two_Reached

two_unique : HasUniqueIds (sorted two_logs)
unfolding new_log
two_unique = (((λ e. absurd (omega arith)), tt), (tt, tt))

verify_audit_chain-scan_rows_example :
    verify_audit_chain two_logs
    ≡ some (
        finished (count_all two_logs) (scan_rows (count_all two_logs) (sorted two_logs) scan_start))
verify_audit_chain-scan_rows_example = verify_audit_chain-scan_rows two_logs two_unique

verify_audit_chain_iff_example :
    (verify_audit_chain two_logs
      ≡ some (all_valid (count_all two_logs) (record scan_start { scanned = count_all two_logs })))
    ↔ IsChain (sorted two_logs)
verify_audit_chain_iff_example = verify_audit_chain_iff two_logs two_unique

abbrev three_logs : List AuditLog
three_logs = two_logs ++ new_log swapped_entry 3 300 (some 107207) ∷ []

swapped_apart : TellsApart swapped_entry 3 300
unfolding new_log compute_audit_hash
swapped_apart none e = absurd (omega arith)
swapped_apart (some prev) e = absurd (omega arith)

create_reordered_example :
    verify_audit_chain three_logs
    ≢ some (all_valid (count_all three_logs) (record scan_start { scanned = count_all three_logs }))
unfolding create new_log compute_audit_hash
create_reordered_example =
    create_reordered swapped_entry 3 300 two_logs three_logs two_Reached (omega arith) swapped_apart
      refl
