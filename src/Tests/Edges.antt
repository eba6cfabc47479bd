-- ===== src/Tests/Edges.antt =====
-- The theorems of the audit interceptor, the exception filter, the feature flags, the lists by pages and
-- the slugs at concrete inputs.
use base_api_nest_js.Base.{
  ℕ, ◌≤◌, ◌<◌, ◌≡◌, ◌↔◌, refl, arith, String, Bool, true, false, none, some, List, [], ◌∷◌,
  any_suffix, starts_with, codes, inl, length, All, if◌then◌else◌,
}
use base_api_nest_js.World.{ok, err, forbidden}
use base_api_nest_js.Http.Json.{Json, null, string, object, end, field}
use base_api_nest_js.Http.Audited.{
  AuditMetadata, Request, from_param, record_log, extract_resource_id, sanitize,
}
use base_api_nest_js.Http.Audited.Agreement.{
  IsSecret, Alike, same, objects, no_fields, shown, secret, record_log-Alike,
}
use base_api_nest_js.Http.Audited.Redacted.{IsClean, sanitize-IsClean}
use base_api_nest_js.Http.Errors.{FailedRequest, other_error, other_value, catch}
use base_api_nest_js.Http.Errors.Discreet.{catch_discreet}
use base_api_nest_js.Features.{
  set_override, clear_override, feature_by_key, is_enabled, can_activate,
}
use base_api_nest_js.Features.History.{setting}
use base_api_nest_js.Features.Gate.{
  FlagCall, set, clear, calls, override_after, is_on, can_activate-calls,
}
use base_api_nest_js.Pages.{PaginatedResponse}
use base_api_nest_js.Pages.Shape.{IsPage}
use base_api_nest_js.Users.Listed.{
  UserResponse, ListUsersInput, IsShown, list_users, list_users-IsPage,
}
use base_api_nest_js.Audit.{AuditLog}
use base_api_nest_js.Audit.Listed
use base_api_nest_js.Audit.Listed.{ListAuditLogsInput, list_audit_logs, list_audit_logs-IsPage}
use base_api_nest_js.Slug.{slugify}
use base_api_nest_js.Slug.Wellformed.{IsDashed, EndsPlain, slugify-IsDashed}
use base_api_nest_js.Tests.{world}
use base_api_nest_js.Tests.Rows.{rows}

-- `{ user: { newPassword: … } }`
abbrev body_with : String → Json
body_with password =
    object (
      field (codes "user") (object (field (codes "newPassword") (string (codes password)) end)) end)

abbrev request_with : String → Request
request_with password = record {
  user = some 1;
  workspace = none;
  method = "POST";
  route_path = some (codes "/users");
  url = codes "/users";
  params = end;
  query = object end;
  body = body_with password;
  ip = none;
  user_agent = none;
}

abbrev audited : AuditMetadata
audited = record {
  action = "user.update";
  resource = none;
  resource_id_from = some from_param;
  resource_id_field = none;
}

new_password_IsSecret : IsSecret (codes "newPassword")
new_password_IsSecret = ("pass", inl refl, (codes "new", codes "word", refl))

requests_Alike : Alike (request_with "one") (request_with "two")
requests_Alike = record {
  user = refl;
  workspace = refl;
  method = refl;
  path = refl;
  ip = refl;
  user_agent = refl;
  params = no_fields;
  query = same (object end);
  body = objects (
      shown (codes "user")
        (objects (
          secret (codes "newPassword") (string (codes "one")) (string (codes "two"))
            new_password_IsSecret no_fields))
        no_fields);
}

record_log-Alike_example :
    record_log audited (request_with "one") null ≡ record_log audited (request_with "two") null
unfolding extract_resource_id
record_log-Alike_example =
    record_log-Alike audited (request_with "one") (request_with "two") null requests_Alike refl

sanitize-IsClean_example :
    IsClean (sanitize (body_with "one"))
    × (sanitize (sanitize (body_with "one")) ≡ sanitize (body_with "one"))
sanitize-IsClean_example = sanitize-IsClean (body_with "one")

abbrev failed : FailedRequest
failed = record { url = "/"; method = "GET"; id = none }

catch_discreet_example :
    (catch true 5 failed (other_error "secret" (some "at db.ts"))
      ≡ catch true 5 failed (other_value "thrown"))
    × ((catch true 5 failed (other_error "secret" (some "at db.ts"))).0.stack ≡ none)
    × (((catch true 5 failed (other_error "secret" (some "at db.ts"))).1 ≡ true)
        ↔ (500 ≤ (catch true 5 failed (other_error "secret" (some "at db.ts"))).0.status_code))
catch_discreet_example =
    catch_discreet 5 failed (other_error "secret" (some "at db.ts")) (other_value "thrown") refl

abbrev flag_calls : List FlagCall
flag_calls = set 1 10 1 "billing" true ∷ set 2 20 2 "billing" true ∷ clear 2 "billing" ∷ []

can_activate-calls_example :
    (is_enabled 1 "billing" (calls flag_calls [])
      ≡ is_on
          (feature_by_key "billing")
          (override_after 1 "billing" (setting 1 "billing" []) flag_calls))
    × (can_activate (some "billing") (some 1) (calls flag_calls []) ≡ (
        if is_on
          (feature_by_key "billing")
          (override_after 1 "billing" (setting 1 "billing" []) flag_calls)
        then ok true
        else err (forbidden "Feature is not enabled for this workspace")))
can_activate-calls_example = can_activate-calls flag_calls [] 1 "billing"

-- The first workspace's flag is on, and the second's is off again.
flags_run :
    (can_activate (some "billing") (some 1) (calls flag_calls []) ≡ ok true)
    × (is_enabled 2 "billing" (calls flag_calls []) ≡ false)
unfolding can_activate is_enabled set_override clear_override
flags_run = (refl, refl)

abbrev first_page : ListUsersInput
first_page = record { workspace_id = 1; page = 1; limit = 1; search = some "example" }

abbrev anything : String → String → Bool
anything text search = true

list_users-IsPage_example :
    (answer : PaginatedResponse UserResponse) × (list_users anything first_page world
      ≡ (ok answer, world))
    × All (IsShown anything world first_page) answer.items
    × IsPage (length answer.items) answer.meta
list_users-IsPage_example = list_users-IsPage anything first_page world (omega arith) (omega arith)

abbrev entry : AuditLog
entry = record {
  id = 1;
  user_id = some 1;
  workspace_id = some 1;
  action = "user.update";
  resource = none;
  resource_id = none;
  metadata = none;
  ip_address = none;
  user_agent = none;
  prev_hash = none;
  hash = 7;
  created_at = 100;
}

abbrev user_actions : ListAuditLogsInput
user_actions = record {
  workspace_id = 1;
  user_id = some 1;
  action = some "user.*";
  from = some 50;
  to = none;
  page = 1;
  limit = 20;
}

list_audit_logs-IsPage_example :
    All (Listed.IsShown user_actions (entry ∷ [])) (list_audit_logs user_actions (entry ∷ [])).items
    × IsPage
        (length (list_audit_logs user_actions (entry ∷ [])).items)
        (list_audit_logs user_actions (entry ∷ [])).meta
list_audit_logs-IsPage_example =
    list_audit_logs-IsPage user_actions (entry ∷ []) (omega arith) (omega arith)

list_audit_logs_run : length (list_audit_logs user_actions (entry ∷ [])).items ≡ 1
unfolding list_audit_logs any_suffix starts_with
list_audit_logs_run = refl

abbrev unchanged : List ℕ → List ℕ
unchanged text = text

slugify-IsDashed_example :
    (length (slugify unchanged unchanged (codes "acme, inc.!")) ≤ 50)
    × IsDashed true (slugify unchanged unchanged (codes "acme, inc.!"))
    × (length (slugify unchanged unchanged (codes "acme, inc.!")) < 50
        → EndsPlain (slugify unchanged unchanged (codes "acme, inc.!")))
slugify-IsDashed_example = slugify-IsDashed unchanged unchanged (codes "acme, inc.!")

slugify_run : slugify unchanged unchanged (codes "  a_b -- c!  ") ≡ codes "ab-c"
unfolding slugify
slugify_run = refl

-- A text that is cut after a dash keeps the dash at its end.
slugify_cut :
    slugify unchanged unchanged (codes "aaaaaaaaaaaaaaaaaaaaaaaaaaaaaaaaaaaaaaaaaaaaaaaaa b")
    ≡ codes "aaaaaaaaaaaaaaaaaaaaaaaaaaaaaaaaaaaaaaaaaaaaaaaaa-"
unfolding slugify
slugify_cut = refl
