-- ===== src/Db.antt =====
-- The tables of migrations/, as repo.rs reads and writes them (src/repo.rs). A UUID is its 128-bit
-- number, and an instant its microseconds since 1970. Columns that no query reads (`created_at` of
-- most tables, `updated_at`, `granted_at`, `alg`) are left out.
use iam_rust_auth.Base.{ℕ, String, Bool, Option, List}

abbrev pub Uuid : Type 0
Uuid = ℕ

abbrev pub Instant : Type 0
Instant = ℕ

pub record UserRow : Type 0 where
  pub id : Uuid
  pub email : String
  pub password_hash : String
  pub status : String
  pub email_verified : Bool
  pub failed_login_attempts : ℕ
  pub locked_until : Option Instant
  pub totp_secret : Option String
  pub totp_enabled : Bool
  pub deleted_at : Option Instant

-- `ApiKeyRow` and `ApiKeyMeta` are two selections from this row.
pub record ApiKeyRow : Type 0 where
  pub id : String
  pub user_id : Uuid
  pub key_hash : String
  pub name : String
  pub scopes : List String
  pub expires_at : Option Instant
  pub revoked_at : Option Instant
  pub last_used_at : Option Instant
  pub created_at : Instant
  pub tenant_id : Uuid
  pub project_id : Option Uuid

pub record AuditRow : Type 0 where
  pub id : ℕ
  pub actor_id : String
  pub actor_email : String
  pub action : String
  pub target : String
  pub detail : String
  pub created_at : Instant
  pub tenant_id : Option Uuid

-- `token_hash` is the column that the row is found by.
pub record RefreshTokenRow : Type 0 where
  pub token_hash : String
  pub user_id : Uuid
  pub expires_at : Instant
  pub revoked_at : Option Instant
  pub replaced_by : Option String
  pub tenant_id : Uuid
  pub project_id : Option Uuid

-- A row of the table `memberships`.
pub record Member : Type 0 where
  pub user_id : Uuid
  pub tenant_id : Uuid
  pub status : String

-- A membership joined to its tenant.
pub record MembershipRow : Type 0 where
  pub tenant_id : Uuid
  pub tenant_slug : String
  pub tenant_name : String
  pub status : String

pub record TenantRow : Type 0 where
  pub id : Uuid
  pub slug : String
  pub name : String
  pub status : String

pub record ProjectRow : Type 0 where
  pub id : Uuid
  pub tenant_id : Uuid
  pub slug : String
  pub name : String

-- A membership joined to its user.
pub record MemberRow : Type 0 where
  pub user_id : Uuid
  pub email : String
  pub status : String

pub record RoleAssignmentRow : Type 0 where
  pub role : String
  pub project_id : Option Uuid
  pub project_slug : Option String

-- `tenant_id` is NULL for a built-in template.
pub record RoleRow : Type 0 where
  pub id : ℕ
  pub name : String
  pub description : String
  pub tenant_id : Option Uuid

pub record PermissionRow : Type 0 where
  pub id : ℕ
  pub name : String
  pub description : String

pub record RoleWithPermsRow : Type 0 where
  pub id : ℕ
  pub name : String
  pub description : String
  pub permissions : List String

pub record UserRole : Type 0 where
  pub user_id : Uuid
  pub role_id : ℕ
  pub tenant_id : Uuid
  pub project_id : Option Uuid

pub record RolePermission : Type 0 where
  pub role_id : ℕ
  pub permission_id : ℕ

pub record OutboxRow : Type 0 where
  pub id : Uuid
  pub aggregate_id : Uuid
  pub event_type : String
  pub payload : String
  pub created_at : Instant
  pub published_at : Option Instant

-- A row of `email_verifications`, and of `password_resets`.
pub record OneTimeToken : Type 0 where
  pub token_hash : String
  pub user_id : Uuid
  pub expires_at : Instant
  pub consumed_at : Option Instant

pub record RecoveryCode : Type 0 where
  pub user_id : Uuid
  pub code_hash : String
  pub used_at : Option Instant

pub record RevokedToken : Type 0 where
  pub jti : String
  pub expires_at : Instant

pub record OauthClientRow : Type 0 where
  pub client_id : String
  pub client_secret_hash : Option String
  pub name : String
  pub redirect_uris : List String
  pub scopes : List String
  pub grant_types : List String
  pub is_confidential : Bool
  pub tenant_id : Uuid

pub record AuthorizationCode : Type 0 where
  pub code_hash : String
  pub client_id : String
  pub user_id : Uuid
  pub redirect_uri : String
  pub scope : String
  pub code_challenge : Option String
  pub code_challenge_method : Option String
  pub nonce : Option String
  pub expires_at : Instant
  pub used : Bool

pub record Consent : Type 0 where
  pub user_id : Uuid
  pub client_id : String
  pub scopes : List String

pub record SigningKey : Type 0 where
  pub kid : String
  pub private_pem : String
  pub public_pem : String
  pub active : Bool

-- `Repo`: the connection pool, as what it reaches. The two numbers are the sequences of BIGSERIAL
-- columns that a query returns.
pub record Db : Type 0 where
  pub users : List UserRow
  pub refresh_tokens : List RefreshTokenRow
  pub roles : List RoleRow
  pub permissions : List PermissionRow
  pub role_permissions : List RolePermission
  pub user_roles : List UserRole
  pub revoked_tokens : List RevokedToken
  pub email_verifications : List OneTimeToken
  pub password_resets : List OneTimeToken
  pub audit_events : List AuditRow
  pub outbox : List OutboxRow
  pub oidc_signing_keys : List SigningKey
  pub oauth_clients : List OauthClientRow
  pub oauth_authorization_codes : List AuthorizationCode
  pub oauth_consents : List Consent
  pub totp_recovery_codes : List RecoveryCode
  pub api_keys : List ApiKeyRow
  pub tenants : List TenantRow
  pub projects : List ProjectRow
  pub memberships : List Member
  pub next_role_id : ℕ
  pub next_audit_id : ℕ

-- `DEFAULT_TENANT_ID`: 00000000-0000-0000-0000-000000000001.
abbrev pub default_tenant_id : Uuid
default_tenant_id = 1
