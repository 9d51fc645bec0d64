-- ===== src/History/Instance.antt =====
-- The statements of src/repo.rs respect the ledger's history.
use iam_rust_auth.Base.{Bool}
use iam_rust_auth.Db.{Uuid}
use iam_rust_auth.History.Ledger.{history}
use iam_rust_auth.History.Writes.{Writes}
use iam_rust_auth.History.Elsewhere
use iam_rust_auth.History.Idle
use iam_rust_auth.History.Idle.{history_ignores}
use iam_rust_auth.History.Sessions
use iam_rust_auth.History.Codes
use iam_rust_auth.History.Trail

pub history_writes : (who : Uuid → Bool) → Writes (history who)
history_writes who = record {
  insert_audit = Trail.insert_audit-Within who;
  revoke_access_jti = Trail.revoke_access_jti-Within who;
  create_refresh_token = Sessions.create_refresh_token-Within who;
  rotate_refresh_token = Sessions.rotate_refresh_token-Within who;
  revoke_refresh_token = Sessions.revoke_refresh_token-Within who;
  revoke_all_user_refresh_tokens = Sessions.revoke_all_user_refresh_tokens-Within who;
  claim_code = Codes.claim_code-Within who;
  create_password_reset = Codes.create_password_reset-Within who;
  create_email_verification = Codes.create_email_verification-Within who;
  consume_password_reset = Codes.consume_password_reset-Within who;
  consume_email_verification = Codes.consume_email_verification-Within who;
  increment_login_failure = Idle.increment_login_failure-Within who;
  lock_user = Idle.lock_user-Within who;
  reset_login_state = Idle.reset_login_state-Within who;
  mark_email_verified = Idle.mark_email_verified-Within who;
  update_password = Idle.update_password-Within who;
  set_totp_secret = Idle.set_totp_secret-Within who;
  disable_totp = Idle.disable_totp-Within who;
  insert_recovery_code = Elsewhere.insert_recovery_code-Within ⦃i = history_ignores who⦄;
  delete_recovery_codes = Elsewhere.delete_recovery_codes-Within ⦃i = history_ignores who⦄;
  consume_recovery_code = Elsewhere.consume_recovery_code-Within ⦃i = history_ignores who⦄;
  create_api_key = Elsewhere.create_api_key-Within ⦃i = history_ignores who⦄;
  revoke_api_key = Elsewhere.revoke_api_key-Within ⦃i = history_ignores who⦄;
  touch_api_key = Elsewhere.touch_api_key-Within ⦃i = history_ignores who⦄;
  create_membership = Elsewhere.create_membership-Within ⦃i = history_ignores who⦄;
  mark_outbox_published = Elsewhere.mark_outbox_published-Within ⦃i = history_ignores who⦄;
  add_member = Elsewhere.add_member-Within ⦃i = history_ignores who⦄;
  remove_member = Elsewhere.remove_member-Within ⦃i = history_ignores who⦄;
  create_project = Elsewhere.create_project-Within ⦃i = history_ignores who⦄;
  assign_role = Elsewhere.assign_role-Within ⦃i = history_ignores who⦄;
  revoke_role = Elsewhere.revoke_role-Within ⦃i = history_ignores who⦄;
  create_role = Elsewhere.create_role-Within ⦃i = history_ignores who⦄;
  update_role = Elsewhere.update_role-Within ⦃i = history_ignores who⦄;
  delete_role = Elsewhere.delete_role-Within ⦃i = history_ignores who⦄;
  grant_permission = Elsewhere.grant_permission-Within ⦃i = history_ignores who⦄;
  revoke_permission = Elsewhere.revoke_permission-Within ⦃i = history_ignores who⦄;
  create_tenant_with_admin = Elsewhere.create_tenant_with_admin-Within ⦃i = history_ignores who⦄;
  create_user_with_role_event = Idle.create_user_with_role_event-Within who;
  restore_user_event = Idle.restore_user_event-Within who;
  insert_client = Elsewhere.insert_client-Within ⦃i = history_ignores who⦄;
  upsert_consent = Elsewhere.upsert_consent-Within ⦃i = history_ignores who⦄;
  insert_authorization_code = Codes.insert_authorization_code-Within who;
}
