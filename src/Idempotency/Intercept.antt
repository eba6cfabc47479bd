-- ===== src/Idempotency/Intercept.antt =====
-- Which requests src/shared/idempotency/idempotency.interceptor.ts handles, and under which key.
use Prim.Native.String
use base_api_nest_js.Base.{
  ℕ, String, Bool, true, not, ◌&&◌, ◌||◌, ◌==◌, leb, str_eq, Option, none, some, if◌then◌else◌,
  length, all, codes,
}
use base_api_nest_js.Idempotency.{
  Outcome, bad_request, Handled, outcome_of, Memory, Call, default_ttl_ms, handle,
}

-- The `idempotency-key` header: one text, several, or none.
pub data Header : Type 0 where
  absent several : Header
  single : String → Header

pub record Request : Type 0 where
  pub header : Header
  pub user_id : Option String
  pub method : String
  pub route_path : String
  pub body : ℕ

-- [A-Za-z0-9._-]
unfoldable pub is_key_char : ℕ → Bool
is_key_char k =
    (leb 65 k && leb k 90)
    || (leb 97 k && leb k 122)
    || (leb 48 k && leb k 57)
    || k == 46
    || k == 95
    || k == 45

-- IDEMPOTENCY_KEY_PATTERN
unfoldable pub matches_key_pattern : String → Bool
matches_key_pattern key =
    leb 1 (length (codes key)) && leb (length (codes key)) 255 && all is_key_char (codes key)

unfoldable pub scoped_key : String → Request → String → String
scoped_key user_id req header_key = String.◌++◌ "idem:user-" (
    String.◌++◌ user_id (
      String.◌++◌ ":" (
        String.◌++◌ req.method
          (String.◌++◌ ":" (String.◌++◌ req.route_path (String.◌++◌ ":" header_key))))))

-- `meta.ttlMs ?? DEFAULT_IDEMPOTENCY_TTL_MS`
abbrev pub ttl_of : Option ℕ → ℕ
ttl_of none = default_ttl_ms
ttl_of (some ttl_ms) = ttl_ms

-- `!userId`
abbrev pub no_user : Option String → Bool
no_user none = true
no_user (some id) = str_eq id ""

abbrev pub text_of : Option String → String
text_of none = ""
text_of (some id) = id

-- `sha` is SHA-256 over the body's JSON; `meta` is the route's metadata, with its optional ttlMs.
module _ {S : Type 0} (json sha : ℕ → ℕ) (meta : Option (Option ℕ)) (req : Request) where
  abbrev pub call_of : (S → Handled × S) → Option ℕ → ℕ → ℕ → String → Call S
  call_of next ttl_ms now done_at header_key = record {
    next = next;
    key = scoped_key (text_of req.user_id) req header_key;
    body_hash = sha req.body;
    ttl_ms = ttl_of ttl_ms;
    now = now;
    done_at = done_at;
  }

  abbrev pub pass : (S → Handled × S) → Memory → S → Outcome × Memory × S
  pass next m s = let (h, s') = next s in (outcome_of h, m, s')

  unfoldable pub intercept : (S → Handled × S) → ℕ → ℕ → Memory → S → Outcome × Memory × S
  intercept next now done_at m s = elim meta [
    | none ↦ pass next m s
    | some ttl_ms ↦ elim req.header [
      | absent ↦ pass next m s
      | several ↦ (bad_request, m, s)
      | single key ↦
          if not (matches_key_pattern key)
          then (bad_request, m, s)
          else if no_user req.user_id
          then pass next m s
          else handle json (call_of next ttl_ms now done_at key) m s
    ]
  ]
