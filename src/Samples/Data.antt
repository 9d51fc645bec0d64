-- ===== src/Samples/Data.antt =====
-- Rows of the sample database. The clock of the examples stands at 1000 seconds.
use iam_rust_auth.Base.{ℕ, ◌*◌, String, true, false, Option, none, some, List, [], ◌∷◌}
use iam_rust_auth.Base.Int.{second}
use iam_rust_auth.Db.{
  Db, Uuid, Instant, UserRow, RefreshTokenRow, RoleRow, PermissionRow, TenantRow, ApiKeyRow,
  OauthClientRow, AuthorizationCode, OutboxRow,
}
use iam_rust_auth.World.{World}

abbrev pub at : ℕ → Instant
at s = s * second

abbrev pub alice : UserRow
alice = record {
  id = 10;
  email = "alice@x";
  password_hash = "hash-of-secret-a";
  status = "active";
  email_verified = true;
  failed_login_attempts = 2;
  locked_until = none;
  totp_secret = none;
  totp_enabled = false;
  deleted_at = none;
}

-- With a second factor.
abbrev pub bob : UserRow
bob = record alice { id = 11; email = "bob@x"; totp_secret = some "BOBSECRET"; totp_enabled = true }

abbrev pub token : String → Option Instant → Option String → RefreshTokenRow
token hash revoked_at replaced_by = record {
  token_hash = hash;
  user_id = 10;
  expires_at = at 5000;
  revoked_at = revoked_at;
  replaced_by = replaced_by;
  tenant_id = 20;
  project_id = none;
}

abbrev pub tokens : List RefreshTokenRow
tokens =
    token "#live" none none
    ∷ token "#rotated" (some (at 990)) (some "#live")
    ∷ token "#stale" (some (at 100)) (some "#other")
    ∷ []

abbrev pub roles : List RoleRow
roles =
    record { id = 1; name = "admin"; description = ""; tenant_id = none }
    ∷ record { id = 2; name = "user"; description = ""; tenant_id = none }
    ∷ record { id = 3; name = "viewer"; description = ""; tenant_id = none }
    ∷ record { id = 4; name = "editor"; description = ""; tenant_id = some 20 }
    ∷ []

abbrev pub permissions : List PermissionRow
permissions =
    record { id = 1; name = "role:write"; description = "" }
    ∷ record { id = 2; name = "profile:read"; description = "" }
    ∷ []

abbrev pub tenants : List TenantRow
tenants =
    record { id = 1; slug = "default"; name = "Default"; status = "active" }
    ∷ record { id = 20; slug = "acme"; name = "Acme"; status = "active" }
    ∷ []

abbrev pub alice_key : ApiKeyRow
alice_key = record {
  id = "k1";
  user_id = 10;
  key_hash = "#key";
  name = "ci";
  scopes = "role:write" ∷ "profile:read" ∷ [];
  expires_at = none;
  revoked_at = none;
  last_used_at = none;
  created_at = at 1;
  tenant_id = 20;
  project_id = none;
}

abbrev pub console : OauthClientRow
console = record {
  client_id = "console";
  client_secret_hash = some "#s3cret";
  name = "Console";
  redirect_uris = "https://c/cb" ∷ [];
  scopes = "openid" ∷ [];
  grant_types = "authorization_code" ∷ [];
  is_confidential = true;
  tenant_id = 20;
}

abbrev pub auth_code : AuthorizationCode
auth_code = record {
  code_hash = "#code";
  client_id = "console";
  user_id = 10;
  redirect_uri = "https://c/cb";
  scope = "openid";
  code_challenge = some "verifier";
  code_challenge_method = some "plain";
  nonce = none;
  expires_at = at 1100;
  used = false;
}

abbrev pub event_row : Uuid → OutboxRow
event_row id = record {
  id = id;
  aggregate_id = 10;
  event_type = "user.registered";
  payload = "{}";
  created_at = at 2;
  published_at = none;
}

abbrev pub sample_db : Db
sample_db = record {
  users = alice ∷ bob ∷ [];
  refresh_tokens = tokens;
  roles = roles;
  permissions = permissions;
  role_permissions =
      record { role_id = 4; permission_id = 2 } ∷ record { role_id = 1; permission_id = 1 } ∷ [];
  user_roles = record { user_id = 10; role_id = 4; tenant_id = 20; project_id = none } ∷ [];
  revoked_tokens = record { jti = "j-old"; expires_at = at 2000 } ∷ [];
  email_verifications = [];
  password_resets =
      record { token_hash = "#reset"; user_id = 10; expires_at = at 1500; consumed_at = none } ∷ [];
  audit_events = [];
  outbox = event_row 30 ∷ event_row 31 ∷ [];
  oidc_signing_keys = [];
  oauth_clients = console ∷ [];
  oauth_authorization_codes = auth_code ∷ [];
  oauth_consents = [];
  totp_recovery_codes = record { user_id = 11; code_hash = "#aaaa-bbbb"; used_at = none } ∷ [];
  api_keys = alice_key ∷ [];
  tenants = tenants;
  projects = [];
  memberships =
      record { user_id = 10; tenant_id = 20; status = "active" }
      ∷ record { user_id = 11; tenant_id = 1; status = "active" }
      ∷ [];
  next_role_id = 5;
  next_audit_id = 1;
}

abbrev pub sample : World
sample = record {
  db = sample_db;
  redis = [];
  mails = [];
  calls = 0;
  redis_calls = 0;
  draws = 0;
  stream = [];
  publications = 0;
}
