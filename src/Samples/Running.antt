-- ===== src/Samples/Running.antt =====
-- One name for all that a test of the service computes with.
use iam_rust_auth.Repo
use iam_rust_auth.Service
use iam_rust_auth.Cache
use iam_rust_auth.World
use iam_rust_auth.TotpSecret
use iam_rust_auth.Relay
use iam_rust_auth.Saga
use iam_rust_auth.Server
use iam_rust_auth.Keys
use iam_rust_auth.Boot
use iam_rust_auth.Totp
use iam_rust_auth.Base
use mathlib.Core.List

-- A test that says `unfolding running` computes with every function of the service.
unfoldable pub running : Unit {0}
unfolding mathlib.Core.List.filter_map mathlib.Core.List.flat_map Repo.revoke_access_jti
    Repo.is_token_revoked Repo.insert_refresh_token Repo.create_refresh_token Repo.get_refresh_token
    Repo.revoke_refresh_token Repo.rotate_refresh_token Repo.insert_user Repo.insert_outbox
    Repo.create_user Repo.create_user_with_role Repo.get_user_by_email Repo.get_user_by_id
    Repo.delete_user Repo.is_user_active Repo.mark_deleted Repo.revoke_tokens_of
    Repo.delete_user_event_soft Repo.restore_user_event Repo.create_user_with_role_event
    Repo.fetch_unpublished_outbox Repo.mark_outbox_published Repo.get_oauth_client
    Repo.get_client_tenant Repo.get_email Repo.insert_authorization_code Repo.get_authorization_code
    Repo.claim_code Repo.get_consent_scopes Repo.upsert_consent Repo.insert_client
    Repo.get_signing_keys Repo.set_totp_secret Repo.enable_totp Repo.disable_totp
    Repo.insert_recovery_code Repo.delete_recovery_codes Repo.consume_recovery_code Repo.update_user
    Repo.increment_login_failure Repo.lock_user Repo.reset_login_state Repo.mark_email_verified
    Repo.update_password Repo.revoke_all_user_refresh_tokens Repo.insert_token Repo.consume_token
    Repo.create_email_verification Repo.consume_email_verification Repo.create_password_reset
    Repo.consume_password_reset Repo.set_config Repo.tenant_tx Repo.tenant_guc_tx Repo.remove_user
    Repo.insert_user_role Repo.insert_user_roles Repo.list_memberships Repo.active_member
    Repo.is_active_member Repo.get_default_project Repo.insert_membership Repo.create_membership
    Repo.insert_tenant Repo.create_tenant_with_admin Repo.list_tenants Repo.insert_project
    Repo.create_project Repo.add_member Repo.list_projects_by_tenant Repo.list_members_by_tenant
    Repo.remove_member Repo.is_project_in_tenant Repo.insert_audit Repo.list_audit
    Repo.insert_api_key Repo.create_api_key Repo.get_api_key_by_hash Repo.list_api_keys
    Repo.revoke_api_key Repo.touch_api_key Repo.get_user_roles Repo.get_user_roles_scoped
    Repo.role_exists Repo.role_in_tenant Repo.tenant_role_exists Repo.resolve_role Repo.assign_role
    Repo.delete_assignment Repo.revoke_role Repo.get_user_role_assignments Repo.insert_role
    Repo.create_role Repo.update_role Repo.remove_role Repo.delete_role Repo.list_roles
    Repo.get_user_permissions Repo.get_user_permissions_scoped Repo.list_roles_with_permissions
    Repo.list_role_permissions Repo.list_permissions Repo.insert_grants Repo.grant_permission
    Repo.revoke_permission Service.issue_tokens Service.issue_for_active_tenant Service.reissue
    Service.refresh_revoked Service.refresh_live Service.refresh Service.logout Service.tenant_claim
    Service.project_claim Service.check_token Service.validate_token Service.list_my_memberships
    Service.switch_project Service.switch_tenant Service.display_name Service.register
    Service.delete_user Service.restore_user Service.request_email_verification Service.verify_email
    Service.request_password_reset Service.set_password Service.reset_password
    Service.change_password Service.page_size Service.list_audit_events Service.get_text
    Service.lists_perm Service.require_perm Service.meta Service.verify_pkce Service.caller_perms
    Service.caller_uuid Service.parse_opt_project Service.active_tenant Service.hash_token
    Service.audit_as Service.audit Service.validate_assign Service.perm_role_guard Service.to_jwks
    Service.get_jwks Service.get_client Service.create_authorization_code Service.get_consent
    Service.save_consent Service.authenticate_client Service.claim Service.redeem
    Service.exchange_authorization_code Service.client_secret Service.register_client
    Service.create_tenant Service.list_tenants Service.create_project Service.list_projects
    Service.add_member Service.remove_member Service.list_members Service.count_failure
    Service.accept_password Service.login_user Service.login Service.check_mfa Service.login_totp
    Service.check_scopes Service.create_key Service.list_keys Service.revoke_key
    Service.effective_scopes Service.validate_key Service.create_role Service.update_role
    Service.delete_role Service.list_roles Service.assign_role Service.assign_all
    Service.assign_role_bulk Service.revoke_role Service.get_user_role_assignments
    Service.list_permissions Service.grant_permission Service.revoke_permission Service.store_codes
    Service.enroll_totp Service.get_totp_status Service.activate_totp Service.disable_enabled
    Service.disable_second_factor Cache.command Cache.set_ex Cache.deny Cache.is_denied
    Cache.get_perms Cache.set_perms Cache.del Cache.delete_keys Cache.after_scan Cache.scan_from
    Server.serve Server.erases Cache.invalidate_perms World.statement World.query World.execute
    World.transaction TotpSecret.derive_key TotpSecret.new TotpSecret.encrypt TotpSecret.decrypt
    Relay.publish Relay.drain_rows Relay.drain Relay.run Saga.consume Keys.scan_keys
    Keys.insert_signing_key Keys.load_keys Boot.check Boot.connect_from Boot.connect_with_retry
    Boot.bootstrap_user Boot.bootstrap_oidc_client Totp.generate Totp.validate Totp.letters
    Totp.generate_recovery_codes Base.split Base.strip_prefix Base.show_ℕ Base.find? Base.select
    Base.exists Base.update Base.delete Base.count Base.insert_by Base.order_by Base.distinct
running = tt
