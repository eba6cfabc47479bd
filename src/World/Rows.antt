-- ===== src/World/Rows.antt =====
-- The entities (src/modules/*/entities) as rows of the tables in prisma/schema.prisma. Identifiers,
-- token hashes and token texts are only compared, so they are numbers; a date is its milliseconds.
-- The encrypted secret of the second factor is the list of its characters, and the JSON text of the
-- recovery codes the list of their hashes. `updatedAt`, which the Prisma client writes by itself, is left out.
use base_api_nest_js.Base.{ℕ, String, Bool, Option, List}

pub record User : Type 0 where
  pub id : ℕ
  pub email : String
  pub name : String
  pub password_hash : Option String
  pub two_factor_enabled : Bool
  pub two_factor_secret : Option (List ℕ)
  pub recovery_codes : Option (List ℕ)
  pub email_verified_at : Option ℕ
  pub failed_login_attempts : ℕ
  pub locked_until : Option ℕ
  pub tokens_invalidated_at : Option ℕ
  pub created_at : ℕ
  pub deleted_at : Option ℕ
  pub anonymized_at : Option ℕ

pub record Session : Type 0 where
  pub id : ℕ
  pub user_id : ℕ
  pub refresh_token_hash : ℕ
  pub user_agent : Option String
  pub ip_address : Option String
  pub expires_at : ℕ
  pub revoked_at : Option ℕ
  pub last_used_at : ℕ
  pub created_at : ℕ

-- EmailVerifyToken and PasswordResetToken have the same fields.
pub record Token : Type 0 where
  pub id : ℕ
  pub user_id : ℕ
  pub token_hash : ℕ
  pub expires_at : ℕ
  pub used_at : Option ℕ
  pub created_at : ℕ

pub record PasswordHistory : Type 0 where
  pub id : ℕ
  pub user_id : ℕ
  pub password_hash : String
  pub created_at : ℕ

pub record OauthAccount : Type 0 where
  pub id : ℕ
  pub provider : String
  pub provider_id : String
  pub user_id : ℕ
  pub created_at : ℕ

pub record Organization : Type 0 where
  pub id : ℕ
  pub name : String
  pub slug : String
  pub owner_id : ℕ
  pub deleted_at : Option ℕ
  pub created_at : ℕ

pub record Workspace : Type 0 where
  pub id : ℕ
  pub name : String
  pub slug : String
  pub is_personal : Bool
  pub owner_id : ℕ
  pub organization_id : ℕ
  pub deleted_at : Option ℕ
  pub created_at : ℕ

pub record WorkspaceMember : Type 0 where
  pub id : ℕ
  pub user_id : ℕ
  pub workspace_id : ℕ
  pub role_id : ℕ
  pub joined_at : ℕ

pub record Role : Type 0 where
  pub id : ℕ
  pub name : String
  pub description : Option String
  pub workspace_id : ℕ
  pub is_system : Bool
  pub created_at : ℕ

-- `workspace_id` is null for a built-in permission.
pub record Permission : Type 0 where
  pub id : ℕ
  pub key : String
  pub description : Option String
  pub category : String
  pub workspace_id : Option ℕ

pub record RolePermission : Type 0 where
  pub role_id : ℕ
  pub permission_id : ℕ

pub record Invitation : Type 0 where
  pub id : ℕ
  pub email : String
  pub workspace_id : ℕ
  pub role_id : ℕ
  pub invited_by_id : ℕ
  pub token_hash : ℕ
  pub expires_at : ℕ
  pub accepted_at : Option ℕ
  pub created_at : ℕ

-- A value in the `metadata` object of an audit entry.
pub data Meta : Type 0 where
  text : String → Meta
  number : ℕ → Meta
  date : ℕ → Meta

-- CreateAuditLogData: what a use case hands to AuditService.log.
pub record AuditEntry : Type 0 where
  pub user_id : Option ℕ
  pub action : String
  pub resource : Option String
  pub resource_id : Option ℕ
  pub metadata : List (String × Meta)
  pub ip_address : Option String
  pub user_agent : Option String

-- A counter of MetricsService with the label that is counted.
pub record Metric : Type 0 where
  pub counter : String
  pub label : String

-- An email handed to EmailDispatcher.enqueue: its template, its address and the raw token in its link.
pub record Email : Type 0 where
  pub template : String
  pub to : String
  pub token : ℕ
