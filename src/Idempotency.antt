-- ===== src/Idempotency.antt =====
-- Idempotent requests: src/shared/idempotency, with the map in memory that is used without Redis. The
-- values of the map are the entries that its JSON texts hold. Bodies and errors are only handed on, so
-- they are numbers, and `S` is the state that the handlers work on. A handler takes its time: a request
-- carries the instants of its lock and of its end.
pub mod Stored
pub mod Replayed
pub mod Intercept
use Prim.Native.String
use base_api_nest_js.Base.{
  ℕ, ◌+◌, ◌*◌, ◌≤◌, String, Bool, true, false, not, ◌&&◌, ◌||◌, ◌==◌, ltb, leb, str_eq, Option,
  none, some, List, [], ◌∷◌, if◌then◌else◌, filter, length, all, codes, is_some,
}

pub data IdempotencyEntry : Type 0 where
  locked : (body_hash : ℕ) → IdempotencyEntry
  complete : (body_hash status body : ℕ) → IdempotencyEntry

pub record Slot : Type 0 where
  pub key : String
  pub value : IdempotencyEntry
  pub expires_at : ℕ

abbrev pub Memory : Type 0
Memory = List Slot

-- `Map.get`
unfoldable pub lookup : String → Memory → Option Slot
lookup key [] = none
lookup key (slot ∷ m) = let rest = lookup key m in if str_eq slot.key key then some slot else rest

-- `Map.set`
unfoldable pub put : Slot → Memory → Memory
put new [] = new ∷ []
put new (slot ∷ m) =
    let rest = put new m in if str_eq slot.key new.key then new ∷ m else slot ∷ rest

-- `Map.delete`
unfoldable pub remove : String → Memory → Memory
remove key m = filter (λ slot. not (str_eq slot.key key)) m

unfoldable pub gc_memory : ℕ → Memory → Memory
gc_memory now m = filter (λ slot. not (ltb slot.expires_at now)) m

abbrev pub slot_for : String → IdempotencyEntry → ℕ → Slot
slot_for key value expires_at = record { key = key; value = value; expires_at = expires_at }

unfoldable pub memory_set_nx : String → IdempotencyEntry → ℕ → ℕ → Memory → Bool × Memory
memory_set_nx key value ttl_ms now m =
    let kept = gc_memory now m in
    elim (lookup key kept) [
      | some slot ↦ (false, kept)
      | none ↦ (true, put (slot_for key value (now + ttl_ms)) kept)
    ]

unfoldable pub memory_get : String → ℕ → Memory → Option IdempotencyEntry × Memory
memory_get key now m = elim (lookup key m) [
  | none ↦ (none, m)
  | some slot ↦ if ltb slot.expires_at now then (none, remove key m) else (some slot.value, m)
]

unfoldable pub memory_set : String → IdempotencyEntry → ℕ → ℕ → Memory → Memory
memory_set key value ttl_ms now m = put (slot_for key value (now + ttl_ms)) m

-- IdempotencyService
unfoldable pub try_acquire_lock : String → ℕ → ℕ → ℕ → Memory → Bool × Memory
unfolding memory_set_nx
try_acquire_lock key body_hash lock_ttl_ms now m =
    memory_set_nx key (locked body_hash) lock_ttl_ms now m

unfoldable pub fetch : String → ℕ → Memory → Option IdempotencyEntry × Memory
unfolding memory_get
fetch key now m = memory_get key now m

unfoldable pub release : String → Memory → Memory
unfolding remove
release key m = remove key m

-- What a request ends with: the response, the handler's error, or an exception of the interceptor.
pub data Outcome : Type 0 where
  responded : (status body : ℕ) → Outcome
  thrown : (error : ℕ) → Outcome
  bad_request conflict unprocessable : Outcome

-- What a handler ends with.
pub data Handled : Type 0 where
  answered : (status body : ℕ) → Handled
  raised : (error : ℕ) → Handled

abbrev pub outcome_of : Handled → Outcome
outcome_of (answered status body) = responded status body
outcome_of (raised error) = thrown error

-- A request's handler, its scoped key and body hash, and its instants.
pub record Call (S : Type 0) : Type 0 where
  pub next : S → Handled × S
  pub key : String
  pub body_hash : ℕ
  pub ttl_ms : ℕ
  pub now : ℕ
  pub done_at : ℕ

-- DEFAULT_IDEMPOTENCY_LOCK_TTL_MS and DEFAULT_IDEMPOTENCY_TTL_MS
abbrev pub default_lock_ttl_ms : ℕ
default_lock_ttl_ms = 60 * 1000

abbrev pub default_ttl_ms : ℕ
default_ttl_ms = 24 * 60 * 60 * 1000

-- The response to a request whose key is held.
unfoldable pub held : ℕ → Option IdempotencyEntry → Outcome
held body_hash none = conflict
held body_hash (some (locked hash)) = if not (hash == body_hash) then unprocessable else conflict
held body_hash (some (complete hash status body)) =
    if not (hash == body_hash) then unprocessable else responded status body

-- `json` is what JSON.parse gives back of a body that JSON.stringify wrote.
unfoldable pub store_response : (ℕ → ℕ) → String → ℕ → ℕ → ℕ → ℕ → ℕ → Memory → Memory
unfolding memory_set
store_response json key body_hash status body ttl_ms now m =
    memory_set key (complete body_hash status (json body)) ttl_ms now m

module _ {S : Type 0} (json : ℕ → ℕ) where
  -- The `try` and `catch` around the handler.
  unfoldable pub settle : Call S → Handled → Memory → Memory
  unfolding store_response release
  settle c (answered status body) m =
      store_response json c.key c.body_hash status body c.ttl_ms c.done_at m
  settle c (raised error) m = release c.key m

  unfoldable pub run_handler : Call S → Memory → S → Outcome × Memory × S
  unfolding settle
  run_handler c m s = let (h, s') = c.next s in (outcome_of h, settle c h m, s')

  unfoldable pub handle : Call S → Memory → S → Outcome × Memory × S
  unfolding try_acquire_lock fetch run_handler
  handle c m s =
      let (acquired, m') = try_acquire_lock c.key c.body_hash default_lock_ttl_ms c.now m in
      elim acquired [
        | false ↦ let (existing, m'') = fetch c.key c.now m' in (held c.body_hash existing, m'', s)
        | true ↦ run_handler c m' s
      ]

  -- Requests one after the other.
  abbrev pub serve : List (Call S) → Memory → S → Memory × S
  serve [] m s = (m, s)
  serve (c ∷ cs) m s = let (o, m', s') = handle c m s in serve cs m' s'
