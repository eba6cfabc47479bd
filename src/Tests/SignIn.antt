-- ===== src/Tests/SignIn.antt =====
-- Refresh tokens, access tokens and sign-in at the concrete database.
use base_api_nest_js.Base.{All, List, ◌≡◌, refl, arith, some, none, Has, true, false, inl, ◌∷◌, []}
use base_api_nest_js.World.{World, User, Result, err, ok, is_ok, internal, unauthorized}
use base_api_nest_js.Users
use base_api_nest_js.Sessions
use base_api_nest_js.Sessions.{put_sessions}
use base_api_nest_js.Sessions.Laws.{AllRevoked}
use base_api_nest_js.Sessions.Manage.{create_session}
use base_api_nest_js.Auth.Tokens.{Draw, issue_tokens, AccessToken}
use base_api_nest_js.Auth.Refresh.{refresh}
use base_api_nest_js.Auth.Refresh.Rotation.{refresh_single_use, refresh_reuse}
use base_api_nest_js.Auth.Login.{LoginInput, LoginResult, login, account_locked}
use base_api_nest_js.Auth.Login.Lockout.Held.{Attempt, answers, login_lockout}
use base_api_nest_js.Auth.Login.Guards.{login_grants, MaySignIn, Granted, login_pair}
use base_api_nest_js.Auth.Jwt.{validate, find_tokens_invalidated_at}
use base_api_nest_js.Auth.Jwt.SignOut.{MayPass, validate_iff, reset_password_signs_out}
use base_api_nest_js.Auth.Recovery.{
  reset_password, find_by_token_hash, previous_hashes, find_recent_hashes, record_history,
  mark_used,
}
use base_api_nest_js.Tests.Rows.{rows}
use base_api_nest_js.Tests.{plain, alice, phone, world, reset_token}

abbrev draw : Draw
draw = record { session_id = 20; refresh_token = 99 }

refresh_single_use_example :
    (refresh plain 200 draw 7 (refresh plain 100 draw 7 world).1).0
    ≡ err (unauthorized "Invalid session")
unfolding refresh issue_tokens create_session Sessions.create Sessions.revoke
    Sessions.find_by_token_hash
refresh_single_use_example = refresh_single_use plain 100 200 draw draw 7 world (ground arith) refl

refresh_reuse_example :
    ((refresh plain 100 draw 8 world).0 ≡ err (unauthorized "Invalid session"))
    × AllRevoked 1 (refresh plain 100 draw 8 world).1.sessions
    × ((refresh plain 100 draw 8 world).1
        ≡ put_sessions (refresh plain 100 draw 8 world).1.sessions world)
refresh_reuse_example = refresh_reuse plain 100 draw 8 world phone refl refl

abbrev wrong : LoginInput
wrong = record {
  email = "alice@example.com";
  password = "guess";
  user_agent = none;
  ip_address = none;
}

abbrev right : LoginInput
right = record wrong { password = "secret" }

abbrev alone : World
alone = record world { users = alice ∷ [] }

-- Alice's fifth wrong password shuts her out, even of an attempt with the right one.
abbrev retries : List Attempt
retries =
    record { now = 200; draw = draw; input = right }
    ∷ record { now = 300; draw = draw; input = right }
    ∷ []

login_lockout_example :
    ((login plain 100 draw wrong alone).0 ≡ err (unauthorized "Invalid credentials"))
    × All
        (λ (r : Result LoginResult). r ≡ err account_locked)
        (answers plain retries (login plain 100 draw wrong alone).1)
login_lockout_example =
    login_lockout plain 100 draw wrong retries alone alice
      (record { emails = ground arith; ids = ground arith }) (inl refl) refl refl refl refl
      (ground arith) refl ((refl, ground arith), ((refl, ground arith), tt))

login_grants_example :
    (user : User) × Has user world.users
    × (user.email ≡ right.email)
    × (user.anonymized_at ≡ none)
    × MaySignIn plain 100 right user
    × Granted plain 100 draw right user world
        (login plain 100 draw right world).1
        (login_pair 100 draw alice)
unfolding login Users.find_by_email_including_deleted Users.reset_failed_login_attempts issue_tokens
    create_session Sessions.create
login_grants_example = login_grants plain 100 draw right world refl

abbrev access : AccessToken
access = record { sub = 1; session_id = 10; iat = 0 }

-- Alice's token was never invalidated; a hit of the cache changes nothing.
validate_iff_example :
    (is_ok (validate true 100 access world).0 ≡ true → MayPass true 100 access world)
    × (MayPass true 100 access world
        → validate true 100 access world ≡ (ok (record { id = 1; session_id = 10 }), world))
validate_iff_example = validate_iff true 100 access world

abbrev recovered : World
recovered = (reset_password plain 5000 5 2 40 "new" world).1

abbrev later_access : AccessToken
later_access = record { sub = 1; session_id = 10; iat = 6 }

-- A time of invalidation lets a later token pass if it is queried, and no token if the cache answers. The
-- session is opened again.
validate_run :
    (is_ok (validate false 6000 later_access (record recovered { sessions = world.sessions })).0
      ≡ true)
    × ((validate true 6000 later_access (record recovered { sessions = world.sessions })).0
        ≡ err (internal "TypeError"))
unfolding validate find_tokens_invalidated_at Sessions.find_by_id reset_password find_by_token_hash
    previous_hashes find_recent_hashes record_history mark_used Users.find_by_id Users.update
    Users.invalidate_tokens Sessions.revoke_all_for_user
validate_run = (refl, refl)

reset_password_signs_out_example :
    is_ok (validate true 6000 access (reset_password plain 5000 5 2 40 "new" world).1).0 ≡ false
unfolding reset_password find_by_token_hash previous_hashes find_recent_hashes record_history
    mark_used Users.find_by_id Users.update Users.invalidate_tokens Sessions.revoke_all_for_user
reset_password_signs_out_example =
    reset_password_signs_out true plain 5000 6000 5 2 40 "new" access world reset_token
      (record alice { password_hash = some "new"; tokens_invalidated_at = some 5000 }) refl refl
      refl (ground arith) (inl refl) refl
