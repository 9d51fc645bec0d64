-- ===== src/Users/Instance.antt =====
-- The statements of src/repo.rs respect the soundness of the users.
use iam_rust_auth.History.Writes.{Writes}
use iam_rust_auth.History.Elsewhere
use iam_rust_auth.Users.Sound.{soundness}
use iam_rust_auth.Users.Elsewhere.{soundness_ignores}
use iam_rust_auth.Users.Elsewhere as Tokens
use iam_rust_auth.Users.Updates

pub soundness_writes : Writes soundness
soundness_writes = record {
  insert_audit = Tokens.insert_audit-Within;
  revoke_access_jti = Tokens.revoke_access_jti-Within;
  create_refresh_token = Tokens.create_refresh_token-Within;
  rotate_refresh_token = Tokens.rotate_refresh_token-Within;
  revoke_refresh_token = Tokens.revoke_refresh_token-Within;
  revoke_all_user_refresh_tokens = Tokens.revoke_all_user_refresh_tokens-Within;
  claim_code = Tokens.claim_code-Within;
  create_password_reset = Tokens.create_password_reset-Within;
  create_email_verification = Tokens.create_email_verification-Within;
  consume_password_reset = Tokens.consume_password_reset-Within;
  consume_email_verification = Tokens.consume_email_verification-Within;
  increment_login_failure = Updates.increment_login_failure-Within;
  lock_user = Updates.lock_user-Within;
  reset_login_state = Updates.reset_login_state-Within;
  mark_email_verified = Updates.mark_email_verified-Within;
  update_password = Updates.update_password-Within;
  set_totp_secret = Updates.set_totp_secret-Within;
  disable_totp = Updates.disable_totp-Within;
  insert_recovery_code = Elsewhere.insert_recovery_code-Within ⦃i = soundness_ignores⦄;
  delete_recovery_codes = Elsewhere.delete_recovery_codes-Within ⦃i = soundness_ignores⦄;
  consume_recovery_code = Elsewhere.consume_recovery_code-Within ⦃i = soundness_ignores⦄;
  create_api_key = Elsewhere.create_api_key-Within ⦃i = soundness_ignores⦄;
  revoke_api_key = Elsewhere.revoke_api_key-Within ⦃i = soundness_ignores⦄;
  touch_api_key = Elsewhere.touch_api_key-Within ⦃i = soundness_ignores⦄;
  create_membership = Elsewhere.create_membership-Within ⦃i = soundness_ignores⦄;
  mark_outbox_published = Elsewhere.mark_outbox_published-Within ⦃i = soundness_ignores⦄;
  add_member = Elsewhere.add_member-Within ⦃i = soundness_ignores⦄;
  remove_member = Elsewhere.remove_member-Within ⦃i = soundness_ignores⦄;
  create_project = Elsewhere.create_project-Within ⦃i = soundness_ignores⦄;
  assign_role = Elsewhere.assign_role-Within ⦃i = soundness_ignores⦄;
  revoke_role = Elsewhere.revoke_role-Within ⦃i = soundness_ignores⦄;
  create_role = Elsewhere.create_role-Within ⦃i = soundness_ignores⦄;
  update_role = Elsewhere.update_role-Within ⦃i = soundness_ignores⦄;
  delete_role = Elsewhere.delete_role-Within ⦃i = soundness_ignores⦄;
  grant_permission = Elsewhere.grant_permission-Within ⦃i = soundness_ignores⦄;
  revoke_permission = Elsewhere.revoke_permission-Within ⦃i = soundness_ignores⦄;
  create_tenant_with_admin = Elsewhere.create_tenant_with_admin-Within ⦃i = soundness_ignores⦄;
  create_user_with_role_event = Updates.create_user_with_role_event-Within;
  restore_user_event = Updates.restore_user_event-Within;
  insert_client = Elsewhere.insert_client-Within ⦃i = soundness_ignores⦄;
  upsert_consent = Elsewhere.upsert_consent-Within ⦃i = soundness_ignores⦄;
  insert_authorization_code = Tokens.insert_authorization_code-Within;
}
