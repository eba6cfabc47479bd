-- ===== src/Sessions.antt =====
-- Refresh-token sessions: src/modules/sessions (PrismaSessionsRepository and the use cases).
-- A clock reading, a fresh identifier and a random token are arguments.
pub mod Manage
pub mod Laws
use base_api_nest_js.Base.{
  true, ℕ, ◌+◌, ◌*◌, ◌-◌, String, Bool, Option, none, some, List, not, ◌&&◌, ◌||◌, ltb, ◌==◌,
  is_some, opt_eq, map, length, if◌then◌else◌,
}
use base_api_nest_js.Prisma.{Prisma}
use base_api_nest_js.Crypto.{Crypto}
use base_api_nest_js.World.{
  World, Session, M, ◌>>=◌, ◌>>◌, pure, throw, gets, or_throw, throw_if, when, modify, saved,
  not_found, forbidden, ok,
}

abbrev pub put_sessions : List Session → World → World
put_sessions rows w = record w { sessions = rows }

-- The unique columns of the table.
abbrev pub same_key : Session → Session → Bool
same_key a b = a.id == b.id || a.refresh_token_hash == b.refresh_token_hash

abbrev pub day_ms : ℕ
day_ms = 24 * 60 * 60 * 1000

abbrev pub mark_revoked : ℕ → Session → Session
mark_revoked now s = record s { revoked_at = some now }

-- The `where` of `revokeAllForUser`.
abbrev pub to_revoke : ℕ → Option ℕ → Session → Bool
to_revoke user except s =
    s.user_id == user
    && not (is_some s.revoked_at)
    && elim except [ none ↦ true | some e ↦ not (s.id == e) ]

-- PrismaSessionsRepository
module _ ⦃p : Prisma⦄ where
  unfoldable pub create : Session → M Session
  create s = do rows ← gets (λ w. p.create same_key s w.sessions); saved put_sessions rows; pure s

  unfoldable pub find_by_id : ℕ → M (Option Session)
  find_by_id id = gets (λ w. p.find (λ s. s.id == id) w.sessions)

  unfoldable pub find_by_token_hash : ℕ → M (Option Session)
  find_by_token_hash h = gets (λ w. p.find (λ s. s.refresh_token_hash == h) w.sessions)

  unfoldable pub find_active_by_user : ℕ → ℕ → M (List Session)
  find_active_by_user now user = gets (λ w.
      p.find_many (λ s. s.user_id == user && not (is_some s.revoked_at) && ltb now s.expires_at)
        w.sessions)

  unfoldable pub revoke : ℕ → ℕ → M (Unit {0})
  revoke now id = do
    rows ← gets (λ w. p.update (λ s. s.id == id) (mark_revoked now) w.sessions)
    saved put_sessions rows

  unfoldable pub revoke_all_for_user : ℕ → ℕ → Option ℕ → M (Unit {0})
  revoke_all_for_user now user except =
      modify
        (λ w. put_sessions (p.update_many (to_revoke user except) (mark_revoked now) w.sessions) w)

  -- `deleteMany` answers with the number of rows that it deleted.
  unfoldable pub delete_expired : ℕ → ℕ → M ℕ
  delete_expired now retention_days w =
      let test = λ (s : Session). ltb (s.expires_at + retention_days * day_ms) now in
      (ok (length (p.find_many test w.sessions)), put_sessions (p.delete_many test w.sessions) w)
