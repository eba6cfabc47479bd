-- ===== src/Sessions/Manage.antt =====
-- The use cases of src/modules/sessions/use-cases, over the repository of the parent.
use base_api_nest_js.Base.{
  ℕ, ◌+◌, ◌*◌, String, Bool, Option, none, some, List, not, ◌==◌, is_some, opt_eq, map,
  if◌then◌else◌,
}
use base_api_nest_js.Prisma.{Prisma}
use base_api_nest_js.Crypto.{Crypto}
use base_api_nest_js.World.{Session, M, ◌>>=◌, ◌>>◌, pure, or_throw, throw_if, not_found, forbidden}
use base_api_nest_js.Sessions
use base_api_nest_js.Sessions.{day_ms}

-- The input of `create`, with the identifier that the database draws.
pub record CreateSessionInput : Type 0 where
  pub id : ℕ
  pub user_id : ℕ
  pub refresh_token : ℕ
  pub user_agent : Option String
  pub ip_address : Option String

-- A row of the answer of ListSessionsUseCase.
pub record SessionItem : Type 0 where
  pub id : ℕ
  pub user_agent : Option String
  pub ip_address : Option String
  pub last_used_at : ℕ
  pub created_at : ℕ
  pub is_current : Bool

abbrev pub to_item : Option ℕ → Session → SessionItem
to_item current s = record {
  id = s.id;
  user_agent = s.user_agent;
  ip_address = s.ip_address;
  last_used_at = s.last_used_at;
  created_at = s.created_at;
  is_current = opt_eq (some s.id) current;
}

-- The row that CreateSessionUseCase hands to the repository.
abbrev pub new_session : (c : Crypto) → ℕ → CreateSessionInput → Session
new_session c now input = record {
  id = input.id;
  user_id = input.user_id;
  refresh_token_hash = c.hash_token input.refresh_token;
  user_agent = input.user_agent;
  ip_address = input.ip_address;
  expires_at = now + 7 * day_ms;
  revoked_at = none;
  last_used_at = now;
  created_at = now;
}

module _ ⦃p : Prisma⦄ where
  unfoldable pub create_session : Crypto → ℕ → CreateSessionInput → M Session
  create_session c now input = Sessions.create (new_session c now input)

  unfoldable pub revoke_session : ℕ → ℕ → ℕ → M (Unit {0})
  revoke_session now session_id user_id = do
    found ← Sessions.find_by_id session_id
    session ← or_throw (not_found "Session not found") found
    throw_if (not (session.user_id == user_id)) (forbidden "Cannot revoke this session")
    if is_some session.revoked_at then pure tt else Sessions.revoke now session_id

  unfoldable pub revoke_all_sessions : ℕ → ℕ → Option ℕ → M (Unit {0})
  revoke_all_sessions now user_id except = Sessions.revoke_all_for_user now user_id except

  unfoldable pub list_sessions : ℕ → ℕ → Option ℕ → M (List SessionItem)
  list_sessions now user_id current = do
    rows ← Sessions.find_active_by_user now user_id
    pure (map (to_item current) rows)

  unfoldable pub cleanup_expired_sessions : ℕ → ℕ → M ℕ
  cleanup_expired_sessions now retention_days = Sessions.delete_expired now retention_days
