-- ===== src/Tests.antt =====
-- A concrete database and cryptography, and the theorems and tests at them.
pub mod Rows
mod SignIn
mod Accounts
mod Teams
mod Factors
mod Ledger
mod Providers
mod Edges
mod Tokens
mod Owners
use base_api_nest_js.Base.{
  ℕ, ◌+◌, ◌*◌, String, Bool, true, false, str_eq, Option, none, some, List, [], ◌∷◌,
}
use base_api_nest_js.Crypto.{Crypto}
use base_api_nest_js.World.{
  World, User, Session, Token, Workspace, WorkspaceMember, Role, Permission, Invitation,
}

-- Stand-ins that keep apart what the tests compare.
abbrev pub plain : Crypto
plain = record {
  hash_token = λ t. t + 1000;
  hash_password = λ s. s;
  verify_password = λ hash s. str_eq hash s;
}

abbrev pub alice : User
alice = record {
  id = 1;
  email = "alice@example.com";
  name = "Alice";
  password_hash = some "secret";
  two_factor_enabled = false;
  two_factor_secret = none;
  recovery_codes = none;
  email_verified_at = some 5;
  failed_login_attempts = 4;
  locked_until = none;
  tokens_invalidated_at = none;
  created_at = 5;
  deleted_at = none;
  anonymized_at = none;
}

abbrev pub laptop : Session
laptop = record {
  id = 10;
  user_id = 1;
  refresh_token_hash = 1007;
  user_agent = none;
  ip_address = none;
  expires_at = 900000;
  revoked_at = none;
  last_used_at = 5;
  created_at = 5;
}

abbrev pub phone : Session
phone = record laptop { id = 11; refresh_token_hash = 1008; revoked_at = some 50 }

abbrev pub bob : User
bob = record alice { id = 2; email = "bob@example.com"; name = "Bob"; failed_login_attempts = 0 }

abbrev pub carol : User
carol = record bob { id = 3; email = "carol@example.com"; name = "Carol" }

abbrev pub reset_token : Token
reset_token = record {
  id = 1;
  user_id = 1;
  token_hash = 1040;
  expires_at = 900000;
  used_at = none;
  created_at = 5;
}

abbrev pub email_token : Token
email_token = record reset_token { id = 2; user_id = 2; token_hash = 1030 }

abbrev pub team : Workspace
team = record {
  id = 1;
  name = "Team";
  slug = "team";
  is_personal = false;
  owner_id = 1;
  organization_id = 1;
  deleted_at = none;
  created_at = 5;
}

abbrev pub member_of : ℕ → ℕ → ℕ → WorkspaceMember
member_of id user_id role_id = record {
  id = id;
  user_id = user_id;
  workspace_id = 1;
  role_id = role_id;
  joined_at = 5;
}

abbrev pub role_named : ℕ → String → Bool → Role
role_named id name is_system = record {
  id = id;
  name = name;
  description = none;
  workspace_id = 1;
  is_system = is_system;
  created_at = 5;
}

abbrev pub read_users : Permission
read_users = record {
  id = 1;
  key = "user:read";
  description = none;
  category = "user";
  workspace_id = none;
}

abbrev pub invitation : Invitation
invitation = record {
  id = 1;
  email = "carol@example.com";
  workspace_id = 1;
  role_id = 3;
  invited_by_id = 1;
  token_hash = 1050;
  expires_at = 900000;
  accepted_at = none;
  created_at = 5;
}

-- Alice owns the team, Bob is its admin, and Carol is invited.
abbrev pub world : World
world = record {
  users = alice ∷ bob ∷ carol ∷ [];
  sessions = laptop ∷ phone ∷ [];
  email_verify_tokens = email_token ∷ [];
  password_reset_tokens = reset_token ∷ [];
  password_histories = record { id = 1; user_id = 1; password_hash = "older"; created_at = 3 } ∷ [];
  oauth_accounts = [];
  organizations = [];
  workspaces = team ∷ [];
  members = member_of 1 1 1 ∷ member_of 2 2 2 ∷ [];
  roles = role_named 1 "Owner" true ∷ role_named 2 "Admin" true ∷ role_named 3 "Helper" false ∷ [];
  permissions = read_users ∷ [];
  role_permissions = record { role_id = 1; permission_id = 1 } ∷ [];
  invitations = invitation ∷ [];
  audit = [];
  metrics = [];
  outbox = [];
}
