-- ===== src/Idempotency/Replayed.antt =====
-- Retries through src/shared/idempotency/idempotency.interceptor.ts.
use base_api_nest_js.Base.{
  ℕ, ◌+◌, ◌≤◌, ◌≡◌, ◌⊎◌, inl, inr, refl, ap, arith, ◌∙◌, String, true, false, str_eq, eq_iff, none,
  some, List, [], ◌∷◌, Bool-cases, Option-cases, All,
}
use base_api_nest_js.Idempotency.{
  Slot, Memory, lookup, put, remove, gc_memory, memory_set_nx, memory_set, locked, complete,
  slot_for, memory_get, try_acquire_lock, fetch, release, Handled, answered, raised, outcome_of,
  responded, thrown, Call, held, store_response, settle, run_handler, handle, serve,
  default_lock_ttl_ms,
}
use base_api_nest_js.Idempotency.Stored.{
  lookup-put_same, lookup-put_other, lookup-remove_same, lookup-remove_other, lookup-gc_live,
  lookup-gc_none,
}

Handled-cases :
    (h : Handled)
    → ((status body : ℕ) × (h ≡ answered status body)) ⊎ ((error : ℕ) × (h ≡ raised error))
Handled-cases (answered status body) = inl (status, body, refl)
Handled-cases (raised error) = inr (error, refl)

acquire_held :
    (key : String) (hash ttl now : ℕ) (m : Memory) (slot : Slot)
    → lookup key (gc_memory now m) ≡ some slot
    → try_acquire_lock key hash ttl now m ≡ (false, gc_memory now m)
unfolding try_acquire_lock memory_set_nx
acquire_held key hash ttl now m slot h = ground arith

acquire_free :
    (key : String) (hash ttl now : ℕ) (m : Memory)
    → lookup key (gc_memory now m) ≡ none
    → try_acquire_lock key hash ttl now m
      ≡ (true, put (slot_for key (locked hash) (now + ttl)) (gc_memory now m))
unfolding try_acquire_lock memory_set_nx
acquire_free key hash ttl now m h = ground arith

fetch_live :
    (key : String) (now : ℕ) (m : Memory) (slot : Slot)
    → lookup key m ≡ some slot
    → now ≤ slot.expires_at
    → fetch key now m ≡ (some slot.value, m)
unfolding fetch memory_get
fetch_live key now m slot h live = ground arith

held_complete :
    (hash body_hash status body : ℕ)
    → body_hash ≡ hash
    → held body_hash (some (complete hash status body)) ≡ responded status body
unfolding held
held_complete hash body_hash status body e = ground arith

fetch_other :
    (own : String) (now : ℕ) (m : Memory) (key : String)
    → str_eq own key ≡ false
    → lookup key (fetch own now m).1 ≡ lookup key m
unfolding fetch memory_get
fetch_other own now m key other = let removed = lookup-remove_other key own m other in ground arith

module _ {S : Type 0} (json : ℕ → ℕ) where
  -- While a key has a slot that is not expired, a request with it leaves the state that handlers work on
  -- as it is, and the response is decided by the slot: 422 for another body, 409 while the first request
  -- runs, and else the stored status and body.
  handle-held :
      (c : Call S) (m : Memory) (s : S) (slot : Slot)
      → lookup c.key m ≡ some slot
      → c.now ≤ slot.expires_at
      → handle json c m s ≡ (held c.body_hash (some slot.value), gc_memory c.now m, s)
  unfolding handle
  handle-held c m s slot h live =
      let kept = lookup-gc_live c.key c.now slot m h live in
      let refused = acquire_held c.key c.body_hash default_lock_ttl_ms c.now m slot kept in
      let read = fetch_live c.key c.now (gc_memory c.now m) slot kept live in ground arith

  handle_free :
      (c : Call S) (m : Memory) (s : S)
      → lookup c.key (gc_memory c.now m) ≡ none
      → handle json c m s
        ≡ run_handler json c
            (put
              (slot_for c.key (locked c.body_hash) (c.now + default_lock_ttl_ms))
              (gc_memory c.now m))
            s
  unfolding handle
  handle_free c m s free =
      let got = acquire_free c.key c.body_hash default_lock_ttl_ms c.now m free in ground arith

  -- The handler's end leaves the slots of other keys.
  settle_other :
      (c : Call S) (h : Handled) (m : Memory) (key : String)
      → str_eq c.key key ≡ false
      → lookup key (settle json c h m) ≡ lookup key m
  unfolding settle store_response memory_set release
  settle_other c (answered status body) m key other = lookup-put_other key _ m other
  settle_other c (raised error) m key other = lookup-remove_other key c.key m other

  handle_other :
      (c : Call S) (m : Memory) (s : S) (key : String) (slot : Slot)
      → str_eq c.key key ≡ false
      → lookup key m ≡ some slot
      → c.now ≤ slot.expires_at
      → lookup key (handle json c m s).1 ≡ some slot
  unfolding handle run_handler
  handle_other c m s key slot other h live =
      let kept = lookup-gc_live key c.now slot m h live in
      elim (Option-cases (lookup c.key (gc_memory c.now m))) [
        | inr (own, held_own) ↦
            let refused = acquire_held c.key c.body_hash default_lock_ttl_ms c.now m own held_own in
            let after : (handle json c m s).1 ≡ (fetch c.key c.now (gc_memory c.now m)).1 =
              ground arith in
            rw after (fetch_other c.key c.now (gc_memory c.now m) key other ∙ kept)
        | inl free ↦
            let lock = slot_for c.key (locked c.body_hash) (c.now + default_lock_ttl_ms) in
            let through = lookup-put_other key lock (gc_memory c.now m) other in
            let left = settle_other c (c.next s).0 (put lock (gc_memory c.now m)) key other in
            rw (handle_free c m s free, run_handler) (left ∙ through ∙ kept)
      ]

  handle_kept :
      (c : Call S) (m : Memory) (s : S) (key : String) (slot : Slot)
      → lookup key m ≡ some slot
      → c.now ≤ slot.expires_at
      → lookup key (handle json c m s).1 ≡ some slot
  handle_kept c m s key slot h live = elim (Bool-cases (str_eq c.key key)) [
    | inr other ↦ handle_other c m s key slot other h live
    | inl same ↦
        let eq = (eq_iff c.key key).0 same in
        rw (handle-held c m s slot (rw eq h) live) (lookup-gc_live key c.now slot m h live)
  ]

  serve_kept :
      (cs : List (Call S)) (m : Memory) (s : S) (key : String) (slot : Slot)
      → lookup key m ≡ some slot
      → All (λ c. c.now ≤ slot.expires_at) cs
      → lookup key (serve json cs m s).0 ≡ some slot
  serve_kept [] m s key slot h live = h
  serve_kept (c ∷ cs) m s key slot h live =
      serve_kept cs (handle json c m s).1 (handle json c m s).2 key slot
        (handle_kept c m s key slot h live.0) live.1

  handle_answered :
      (c : Call S) (m : Memory) (s s' : S) (status body : ℕ)
      → lookup c.key (gc_memory c.now m) ≡ none
      → c.next s ≡ (answered status body, s')
      → handle json c m s ≡ (
        responded status body,
        put (slot_for c.key (complete c.body_hash status (json body)) (c.done_at + c.ttl_ms)) (
            put
              (slot_for c.key (locked c.body_hash) (c.now + default_lock_ttl_ms))
              (gc_memory c.now m)),
        s',
      )
  unfolding run_handler settle store_response memory_set
  handle_answered c m s s' status body free e = handle_free c m s free ∙ rw e refl

  -- A request whose key was free and whose handler answered is handled once: whatever requests follow, a
  -- retry with the same key and body until the stored response expires gets the same status, and the body
  -- as JSON keeps it, and leaves the state that handlers work on as it is.
  pub handled_once :
      (c : Call S) (m : Memory) (s s' : S) (status body : ℕ) (cs : List (Call S)) (retry : Call S)
      → lookup c.key (gc_memory c.now m) ≡ none
      → c.next s ≡ (answered status body, s')
      → All (λ (other : Call S). other.now ≤ c.done_at + c.ttl_ms) cs
      → retry.key ≡ c.key
      → retry.body_hash ≡ c.body_hash
      → retry.now ≤ c.done_at + c.ttl_ms
      → ((handle json c m s).0 ≡ responded status body)
        × (let (m', s') = serve json cs (handle json c m s).1 (handle json c m s).2 in
            handle json retry m' s' ≡ (responded status (json body), gc_memory retry.now m', s'))
  handled_once c m s s' status body cs retry free e live same_key same_body in_time =
      let lock = slot_for c.key (locked c.body_hash) (c.now + default_lock_ttl_ms) in
      let slot = slot_for c.key (complete c.body_hash status (json body)) (c.done_at + c.ttl_ms) in
      let m0 = put lock (gc_memory c.now m) in
      let ran : handle json c m s ≡ (responded status body, put slot m0, s') =
        handle_answered c m s s' status body free e in
      let stored = lookup-put_same c.key slot m0 ((eq_iff c.key c.key).1 refl) in
      let kept = serve_kept cs (put slot m0) s' c.key slot stored live in
      let (m', s'') = serve json cs (put slot m0) s' in
      let replay = handle-held retry m' s'' slot (rw same_key kept) in_time in
      let same = held_complete c.body_hash retry.body_hash status (json body) same_body in
      rw ran (refl, replay ∙ ap (λ o. (o, gc_memory retry.now m', s'')) same)

  -- A request whose handler throws gives its key back: a retry runs the handler again.
  handle_raised :
      (c : Call S) (m : Memory) (s s' : S) (error : ℕ) (retry : Call S)
      → lookup c.key (gc_memory c.now m) ≡ none
      → c.next s ≡ (raised error, s')
      → retry.key ≡ c.key
      → ((handle json c m s).0 ≡ thrown error)
        × (let (o, m', s'') = handle json c m s in
            ((handle json retry m' s'').0 ≡ outcome_of (retry.next s').0)
            × ((handle json retry m' s'').2 ≡ (retry.next s').1))
  unfolding run_handler settle release
  handle_raised c m s s' error retry free e same_key =
      let m0 =
        put (slot_for c.key (locked c.body_hash) (c.now + default_lock_ttl_ms))
          (gc_memory c.now m) in
      let ran : handle json c m s ≡ (thrown error, remove c.key m0, s') =
        handle_free c m s free ∙ rw e refl in
      let freed : lookup c.key (remove c.key m0) ≡ none = lookup-remove_same c.key m0 in
      let again = lookup-gc_none c.key retry.now (remove c.key m0) freed in
      let rerun = handle_free retry (remove c.key m0) s' (rw same_key again) in
      rw ran (refl, rw rerun (refl, refl))
