-- ===== src/History/Reads.antt =====
-- The queries of src/repo.rs, and of the handlers of src/grpc.rs, change nothing.
use iam_rust_auth.Base.{ℕ, String, Option, arith}
use iam_rust_auth.Db.{Uuid}
use iam_rust_auth.World.{
  World, Env, Action, Order, Within, SqlError, statement, query, execute, transaction, within_rules,
  Within-still,
}
use iam_rust_auth.Repo
use iam_rust_auth.Repo.{tenant_tx, tenant_guc_tx, set_config}

module _ {o : Order} where
  pub get_user_by_email-Within : (a : String) → Within o (Repo.get_user_by_email a)
  unfolding Repo.get_user_by_email query statement execute transaction tenant_tx tenant_guc_tx
      set_config
  get_user_by_email-Within a = Within-still (Repo.get_user_by_email a) (λ env w. ground arith)

  pub get_user_by_id-Within : (a : Uuid) → Within o (Repo.get_user_by_id a)
  unfolding Repo.get_user_by_id query statement execute transaction tenant_tx tenant_guc_tx
      set_config
  get_user_by_id-Within a = Within-still (Repo.get_user_by_id a) (λ env w. ground arith)

  pub is_user_active-Within : (a : Uuid) → Within o (Repo.is_user_active a)
  unfolding Repo.is_user_active query statement execute transaction tenant_tx tenant_guc_tx
      set_config
  is_user_active-Within a = Within-still (Repo.is_user_active a) (λ env w. ground arith)

  pub fetch_unpublished_outbox-Within : (a : ℕ) → Within o (Repo.fetch_unpublished_outbox a)
  unfolding Repo.fetch_unpublished_outbox query statement execute transaction tenant_tx
      tenant_guc_tx set_config
  fetch_unpublished_outbox-Within a =
      Within-still (Repo.fetch_unpublished_outbox a) (λ env w. ground arith)

  pub is_token_revoked-Within : (a : String) → Within o (Repo.is_token_revoked a)
  unfolding Repo.is_token_revoked query statement execute transaction tenant_tx tenant_guc_tx
      set_config
  is_token_revoked-Within a = Within-still (Repo.is_token_revoked a) (λ env w. ground arith)

  pub get_refresh_token-Within : (a : String) → Within o (Repo.get_refresh_token a)
  unfolding Repo.get_refresh_token query statement execute transaction tenant_tx tenant_guc_tx
      set_config
  get_refresh_token-Within a = Within-still (Repo.get_refresh_token a) (λ env w. ground arith)

  pub get_api_key_by_hash-Within : (a : String) → Within o (Repo.get_api_key_by_hash a)
  unfolding Repo.get_api_key_by_hash query statement execute transaction tenant_tx tenant_guc_tx
      set_config
  get_api_key_by_hash-Within a = Within-still (Repo.get_api_key_by_hash a) (λ env w. ground arith)

  pub list_api_keys-Within : (a : Uuid) → Within o (Repo.list_api_keys a)
  unfolding Repo.list_api_keys query statement execute transaction tenant_tx tenant_guc_tx
      set_config
  list_api_keys-Within a = Within-still (Repo.list_api_keys a) (λ env w. ground arith)

  pub list_memberships-Within : (a : Uuid) → Within o (Repo.list_memberships a)
  unfolding Repo.list_memberships query statement execute transaction tenant_tx tenant_guc_tx
      set_config
  list_memberships-Within a = Within-still (Repo.list_memberships a) (λ env w. ground arith)

  pub is_active_member-Within : (a : Uuid) (b : Uuid) → Within o (Repo.is_active_member a b)
  unfolding Repo.is_active_member query statement execute transaction tenant_tx tenant_guc_tx
      set_config
  is_active_member-Within a b = Within-still (Repo.is_active_member a b) (λ env w. ground arith)

  pub list_tenants-Within : Within o Repo.list_tenants
  unfolding Repo.list_tenants query statement execute transaction tenant_tx tenant_guc_tx set_config
  list_tenants-Within = Within-still Repo.list_tenants (λ env w. ground arith)

  pub list_projects_by_tenant-Within : (a : Uuid) → Within o (Repo.list_projects_by_tenant a)
  unfolding Repo.list_projects_by_tenant query statement execute transaction tenant_tx tenant_guc_tx
      set_config
  list_projects_by_tenant-Within a =
      Within-still (Repo.list_projects_by_tenant a) (λ env w. ground arith)

  pub list_members_by_tenant-Within : (a : Uuid) → Within o (Repo.list_members_by_tenant a)
  unfolding Repo.list_members_by_tenant query statement execute transaction tenant_tx tenant_guc_tx
      set_config
  list_members_by_tenant-Within a =
      Within-still (Repo.list_members_by_tenant a) (λ env w. ground arith)

  pub is_project_in_tenant-Within : (a : Uuid) (b : Uuid) → Within o (Repo.is_project_in_tenant a b)
  unfolding Repo.is_project_in_tenant query statement execute transaction tenant_tx tenant_guc_tx
      set_config
  is_project_in_tenant-Within a b =
      Within-still (Repo.is_project_in_tenant a b) (λ env w. ground arith)

  pub get_user_roles-Within : (a : Uuid) → Within o (Repo.get_user_roles a)
  unfolding Repo.get_user_roles query statement execute transaction tenant_tx tenant_guc_tx
      set_config
  get_user_roles-Within a = Within-still (Repo.get_user_roles a) (λ env w. ground arith)

  pub get_user_roles_scoped-Within :
      (a : Uuid) (b : Uuid) (c : Option Uuid) → Within o (Repo.get_user_roles_scoped a b c)
  unfolding Repo.get_user_roles_scoped query statement execute transaction tenant_tx tenant_guc_tx
      set_config
  get_user_roles_scoped-Within a b c =
      Within-still (Repo.get_user_roles_scoped a b c) (λ env w. ground arith)

  pub role_exists-Within : (a : String) → Within o (Repo.role_exists a)
  unfolding Repo.role_exists query statement execute transaction tenant_tx tenant_guc_tx set_config
  role_exists-Within a = Within-still (Repo.role_exists a) (λ env w. ground arith)

  pub role_in_tenant-Within : (a : String) (b : Uuid) → Within o (Repo.role_in_tenant a b)
  unfolding Repo.role_in_tenant query statement execute transaction tenant_tx tenant_guc_tx
      set_config
  role_in_tenant-Within a b = Within-still (Repo.role_in_tenant a b) (λ env w. ground arith)

  pub tenant_role_exists-Within : (a : String) (b : Uuid) → Within o (Repo.tenant_role_exists a b)
  unfolding Repo.tenant_role_exists query statement execute transaction tenant_tx tenant_guc_tx
      set_config
  tenant_role_exists-Within a b = Within-still (Repo.tenant_role_exists a b) (λ env w. ground arith)

  pub get_user_role_assignments-Within :
      (a : Uuid) (b : Uuid) → Within o (Repo.get_user_role_assignments a b)
  unfolding Repo.get_user_role_assignments query statement execute transaction tenant_tx
      tenant_guc_tx set_config
  get_user_role_assignments-Within a b =
      Within-still (Repo.get_user_role_assignments a b) (λ env w. ground arith)

  pub get_user_permissions-Within : (a : Uuid) → Within o (Repo.get_user_permissions a)
  unfolding Repo.get_user_permissions query statement execute transaction tenant_tx tenant_guc_tx
      set_config
  get_user_permissions-Within a = Within-still (Repo.get_user_permissions a) (λ env w. ground arith)

  pub get_user_permissions_scoped-Within :
      (a : Uuid) (b : Uuid) (c : Option Uuid) → Within o (Repo.get_user_permissions_scoped a b c)
  unfolding Repo.get_user_permissions_scoped query statement execute transaction tenant_tx
      tenant_guc_tx set_config
  get_user_permissions_scoped-Within a b c =
      Within-still (Repo.get_user_permissions_scoped a b c) (λ env w. ground arith)

  pub list_roles_with_permissions-Within :
      (a : Uuid) → Within o (Repo.list_roles_with_permissions a)
  unfolding Repo.list_roles_with_permissions query statement execute transaction tenant_tx
      tenant_guc_tx set_config
  list_roles_with_permissions-Within a =
      Within-still (Repo.list_roles_with_permissions a) (λ env w. ground arith)

  pub list_permissions-Within : Within o Repo.list_permissions
  unfolding Repo.list_permissions query statement execute transaction tenant_tx tenant_guc_tx
      set_config
  list_permissions-Within = Within-still Repo.list_permissions (λ env w. ground arith)

  pub get_oauth_client-Within : (a : String) → Within o (Repo.get_oauth_client a)
  unfolding Repo.get_oauth_client query statement execute transaction tenant_tx tenant_guc_tx
      set_config
  get_oauth_client-Within a = Within-still (Repo.get_oauth_client a) (λ env w. ground arith)

  pub get_client_tenant-Within : (a : String) → Within o (Repo.get_client_tenant a)
  unfolding Repo.get_client_tenant query statement execute transaction tenant_tx tenant_guc_tx
      set_config
  get_client_tenant-Within a = Within-still (Repo.get_client_tenant a) (λ env w. ground arith)

  pub get_email-Within : (a : Uuid) → Within o (Repo.get_email a)
  unfolding Repo.get_email query statement execute transaction tenant_tx tenant_guc_tx set_config
  get_email-Within a = Within-still (Repo.get_email a) (λ env w. ground arith)

  pub get_authorization_code-Within : (a : String) → Within o (Repo.get_authorization_code a)
  unfolding Repo.get_authorization_code query statement execute transaction tenant_tx tenant_guc_tx
      set_config
  get_authorization_code-Within a =
      Within-still (Repo.get_authorization_code a) (λ env w. ground arith)

  pub get_consent_scopes-Within : (a : Uuid) (b : String) → Within o (Repo.get_consent_scopes a b)
  unfolding Repo.get_consent_scopes query statement execute transaction tenant_tx tenant_guc_tx
      set_config
  get_consent_scopes-Within a b = Within-still (Repo.get_consent_scopes a b) (λ env w. ground arith)

  pub get_signing_keys-Within : Within o Repo.get_signing_keys
  unfolding Repo.get_signing_keys query statement execute transaction tenant_tx tenant_guc_tx
      set_config
  get_signing_keys-Within = Within-still Repo.get_signing_keys (λ env w. ground arith)

  pub list_audit-Within : (a : Uuid) (b : ℕ) → Within o (Repo.list_audit a b)
  unfolding Repo.list_audit query statement execute transaction tenant_tx tenant_guc_tx set_config
  list_audit-Within a b = Within-still (Repo.list_audit a b) (λ env w. ground arith)

pub ruleset reads = (
  within_rules, get_user_by_email-Within, get_user_by_id-Within, is_user_active-Within,
  fetch_unpublished_outbox-Within, is_token_revoked-Within, get_refresh_token-Within,
  get_api_key_by_hash-Within, list_api_keys-Within, list_memberships-Within,
  is_active_member-Within, list_tenants-Within, list_projects_by_tenant-Within,
  list_members_by_tenant-Within, is_project_in_tenant-Within, get_user_roles-Within,
  get_user_roles_scoped-Within, role_exists-Within, role_in_tenant-Within,
  tenant_role_exists-Within, get_user_role_assignments-Within, get_user_permissions-Within,
  get_user_permissions_scoped-Within, list_roles_with_permissions-Within, list_permissions-Within,
  get_oauth_client-Within, get_client_tenant-Within, get_email-Within,
  get_authorization_code-Within, get_consent_scopes-Within, get_signing_keys-Within,
  list_audit-Within,
)
