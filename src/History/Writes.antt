-- ===== src/History/Writes.antt =====
-- What the handlers ask of an order on databases (src/repo.rs): that the statements they send
-- respect it. The statements with a condition of their own, the deletion of a user and the activation
-- of a second factor, are left to the orders.
use iam_rust_auth.Base.{String, Option, List}
use iam_rust_auth.Db.{Uuid, Instant, OauthClientRow, Consent, AuthorizationCode}
use iam_rust_auth.World.{Order, Within, statement}
use iam_rust_auth.Repo

pub record Writes (o : Order) : Type 0 where
  pub insert_audit :
      (a : String) (b : String) (c : String) (d : String) (e : String) (f : Option Uuid)
      → Within o (Repo.insert_audit a b c d e f)
  pub revoke_access_jti : (a : String) (b : Instant) → Within o (Repo.revoke_access_jti a b)
  pub create_refresh_token :
      (a : Uuid) (b : String) (c : Instant) (d : Uuid) (e : Option Uuid)
      → Within o (Repo.create_refresh_token a b c d e)
  pub rotate_refresh_token : (a : String) (b : String) → Within o (Repo.rotate_refresh_token a b)
  pub revoke_refresh_token : (a : String) → Within o (Repo.revoke_refresh_token a)
  pub revoke_all_user_refresh_tokens : (a : Uuid) → Within o (Repo.revoke_all_user_refresh_tokens a)
  pub claim_code : (a : String) → Within o (Repo.claim_code a)
  pub create_password_reset :
      (a : String) (b : Uuid) (c : Instant) → Within o (Repo.create_password_reset a b c)
  pub create_email_verification :
      (a : String) (b : Uuid) (c : Instant) → Within o (Repo.create_email_verification a b c)
  pub consume_password_reset : (a : String) → Within o (Repo.consume_password_reset a)
  pub consume_email_verification : (a : String) → Within o (Repo.consume_email_verification a)
  pub increment_login_failure : (a : Uuid) → Within o (Repo.increment_login_failure a)
  pub lock_user : (a : Uuid) (b : Instant) → Within o (Repo.lock_user a b)
  pub reset_login_state : (a : Uuid) → Within o (Repo.reset_login_state a)
  pub mark_email_verified : (a : Uuid) → Within o (Repo.mark_email_verified a)
  pub update_password : (a : Uuid) (b : String) → Within o (Repo.update_password a b)
  pub set_totp_secret : (a : Uuid) (b : String) → Within o (Repo.set_totp_secret a b)
  pub disable_totp : (a : Uuid) → Within o (Repo.disable_totp a)
  pub insert_recovery_code : (a : Uuid) (b : String) → Within o (Repo.insert_recovery_code a b)
  pub delete_recovery_codes : (a : Uuid) → Within o (Repo.delete_recovery_codes a)
  pub consume_recovery_code : (a : Uuid) (b : String) → Within o (Repo.consume_recovery_code a b)
  pub create_api_key :
      (a : String) (b : Uuid) (c : String) (d : String) (e : List String) (f : Option Instant)
      (g : Uuid) (h : Option Uuid)
      → Within o (Repo.create_api_key a b c d e f g h)
  pub revoke_api_key : (a : String) (b : Uuid) → Within o (Repo.revoke_api_key a b)
  pub touch_api_key : (a : String) → Within o (Repo.touch_api_key a)
  pub create_membership : (a : Uuid) (b : Uuid) → Within o (Repo.create_membership a b)
  pub mark_outbox_published : (a : Uuid) → Within o (Repo.mark_outbox_published a)
  pub add_member : (a : Uuid) (b : Uuid) → Within o (Repo.add_member a b)
  pub remove_member : (a : Uuid) (b : Uuid) → Within o (Repo.remove_member a b)
  pub create_project : (a : Uuid) (b : String) (c : String) → Within o (Repo.create_project a b c)
  pub assign_role :
      (a : Uuid) (b : String) (c : Uuid) (d : Option Uuid) → Within o (Repo.assign_role a b c d)
  pub revoke_role :
      (a : Uuid) (b : String) (c : Uuid) (d : Option Uuid) → Within o (Repo.revoke_role a b c d)
  pub create_role : (a : String) (b : String) (c : Uuid) → Within o (Repo.create_role a b c)
  pub update_role : (a : String) (b : String) (c : Uuid) → Within o (Repo.update_role a b c)
  pub delete_role : (a : String) (b : Uuid) → Within o (Repo.delete_role a b)
  pub grant_permission :
      (a : String) (b : String) (c : Uuid) → Within o (Repo.grant_permission a b c)
  pub revoke_permission :
      (a : String) (b : String) (c : Uuid) → Within o (Repo.revoke_permission a b c)
  pub create_tenant_with_admin :
      (a : String) (b : String) (c : Uuid) → Within o (Repo.create_tenant_with_admin a b c)
  pub create_user_with_role_event :
      (a : Uuid) (b : String) (c : String) (d : String) (e : String) (f : String)
      → Within o (Repo.create_user_with_role_event a b c d e f)
  pub restore_user_event :
      (a : Uuid) (b : String) (c : String) → Within o (Repo.restore_user_event a b c)
  pub insert_client : (a : OauthClientRow) → Within o (statement (Repo.insert_client a))
  pub upsert_consent : (a : Consent) → Within o (statement (Repo.upsert_consent a))
  pub insert_authorization_code :
      (a : AuthorizationCode) → Within o (statement (Repo.insert_authorization_code a))

module _ {o : Order} ⦃s : Writes o⦄ where
  pub insert_audit-Within :
      (a : String) (b : String) (c : String) (d : String) (e : String) (f : Option Uuid)
      → Within o (Repo.insert_audit a b c d e f)
  insert_audit-Within a b c d e f = s.insert_audit a b c d e f

  pub revoke_access_jti-Within : (a : String) (b : Instant) → Within o (Repo.revoke_access_jti a b)
  revoke_access_jti-Within a b = s.revoke_access_jti a b

  pub create_refresh_token-Within :
      (a : Uuid) (b : String) (c : Instant) (d : Uuid) (e : Option Uuid)
      → Within o (Repo.create_refresh_token a b c d e)
  create_refresh_token-Within a b c d e = s.create_refresh_token a b c d e

  pub rotate_refresh_token-Within :
      (a : String) (b : String) → Within o (Repo.rotate_refresh_token a b)
  rotate_refresh_token-Within a b = s.rotate_refresh_token a b

  pub revoke_refresh_token-Within : (a : String) → Within o (Repo.revoke_refresh_token a)
  revoke_refresh_token-Within a = s.revoke_refresh_token a

  pub revoke_all_user_refresh_tokens-Within :
      (a : Uuid) → Within o (Repo.revoke_all_user_refresh_tokens a)
  revoke_all_user_refresh_tokens-Within a = s.revoke_all_user_refresh_tokens a

  pub claim_code-Within : (a : String) → Within o (Repo.claim_code a)
  claim_code-Within a = s.claim_code a

  pub create_password_reset-Within :
      (a : String) (b : Uuid) (c : Instant) → Within o (Repo.create_password_reset a b c)
  create_password_reset-Within a b c = s.create_password_reset a b c

  pub create_email_verification-Within :
      (a : String) (b : Uuid) (c : Instant) → Within o (Repo.create_email_verification a b c)
  create_email_verification-Within a b c = s.create_email_verification a b c

  pub consume_password_reset-Within : (a : String) → Within o (Repo.consume_password_reset a)
  consume_password_reset-Within a = s.consume_password_reset a

  pub consume_email_verification-Within :
      (a : String) → Within o (Repo.consume_email_verification a)
  consume_email_verification-Within a = s.consume_email_verification a

  pub increment_login_failure-Within : (a : Uuid) → Within o (Repo.increment_login_failure a)
  increment_login_failure-Within a = s.increment_login_failure a

  pub lock_user-Within : (a : Uuid) (b : Instant) → Within o (Repo.lock_user a b)
  lock_user-Within a b = s.lock_user a b

  pub reset_login_state-Within : (a : Uuid) → Within o (Repo.reset_login_state a)
  reset_login_state-Within a = s.reset_login_state a

  pub mark_email_verified-Within : (a : Uuid) → Within o (Repo.mark_email_verified a)
  mark_email_verified-Within a = s.mark_email_verified a

  pub update_password-Within : (a : Uuid) (b : String) → Within o (Repo.update_password a b)
  update_password-Within a b = s.update_password a b

  pub set_totp_secret-Within : (a : Uuid) (b : String) → Within o (Repo.set_totp_secret a b)
  set_totp_secret-Within a b = s.set_totp_secret a b

  pub disable_totp-Within : (a : Uuid) → Within o (Repo.disable_totp a)
  disable_totp-Within a = s.disable_totp a

  pub insert_recovery_code-Within :
      (a : Uuid) (b : String) → Within o (Repo.insert_recovery_code a b)
  insert_recovery_code-Within a b = s.insert_recovery_code a b

  pub delete_recovery_codes-Within : (a : Uuid) → Within o (Repo.delete_recovery_codes a)
  delete_recovery_codes-Within a = s.delete_recovery_codes a

  pub consume_recovery_code-Within :
      (a : Uuid) (b : String) → Within o (Repo.consume_recovery_code a b)
  consume_recovery_code-Within a b = s.consume_recovery_code a b

  pub create_api_key-Within :
      (a : String) (b : Uuid) (c : String) (d : String) (e : List String) (f : Option Instant)
      (g : Uuid) (h : Option Uuid)
      → Within o (Repo.create_api_key a b c d e f g h)
  create_api_key-Within a b c d e f g h = s.create_api_key a b c d e f g h

  pub revoke_api_key-Within : (a : String) (b : Uuid) → Within o (Repo.revoke_api_key a b)
  revoke_api_key-Within a b = s.revoke_api_key a b

  pub touch_api_key-Within : (a : String) → Within o (Repo.touch_api_key a)
  touch_api_key-Within a = s.touch_api_key a

  pub create_membership-Within : (a : Uuid) (b : Uuid) → Within o (Repo.create_membership a b)
  create_membership-Within a b = s.create_membership a b

  pub mark_outbox_published-Within : (a : Uuid) → Within o (Repo.mark_outbox_published a)
  mark_outbox_published-Within a = s.mark_outbox_published a

  pub add_member-Within : (a : Uuid) (b : Uuid) → Within o (Repo.add_member a b)
  add_member-Within a b = s.add_member a b

  pub remove_member-Within : (a : Uuid) (b : Uuid) → Within o (Repo.remove_member a b)
  remove_member-Within a b = s.remove_member a b

  pub create_project-Within :
      (a : Uuid) (b : String) (c : String) → Within o (Repo.create_project a b c)
  create_project-Within a b c = s.create_project a b c

  pub assign_role-Within :
      (a : Uuid) (b : String) (c : Uuid) (d : Option Uuid) → Within o (Repo.assign_role a b c d)
  assign_role-Within a b c d = s.assign_role a b c d

  pub revoke_role-Within :
      (a : Uuid) (b : String) (c : Uuid) (d : Option Uuid) → Within o (Repo.revoke_role a b c d)
  revoke_role-Within a b c d = s.revoke_role a b c d

  pub create_role-Within : (a : String) (b : String) (c : Uuid) → Within o (Repo.create_role a b c)
  create_role-Within a b c = s.create_role a b c

  pub update_role-Within : (a : String) (b : String) (c : Uuid) → Within o (Repo.update_role a b c)
  update_role-Within a b c = s.update_role a b c

  pub delete_role-Within : (a : String) (b : Uuid) → Within o (Repo.delete_role a b)
  delete_role-Within a b = s.delete_role a b

  pub grant_permission-Within :
      (a : String) (b : String) (c : Uuid) → Within o (Repo.grant_permission a b c)
  grant_permission-Within a b c = s.grant_permission a b c

  pub revoke_permission-Within :
      (a : String) (b : String) (c : Uuid) → Within o (Repo.revoke_permission a b c)
  revoke_permission-Within a b c = s.revoke_permission a b c

  pub create_tenant_with_admin-Within :
      (a : String) (b : String) (c : Uuid) → Within o (Repo.create_tenant_with_admin a b c)
  create_tenant_with_admin-Within a b c = s.create_tenant_with_admin a b c

  pub create_user_with_role_event-Within :
      (a : Uuid) (b : String) (c : String) (d : String) (e : String) (f : String)
      → Within o (Repo.create_user_with_role_event a b c d e f)
  create_user_with_role_event-Within a b c d e f = s.create_user_with_role_event a b c d e f

  pub restore_user_event-Within :
      (a : Uuid) (b : String) (c : String) → Within o (Repo.restore_user_event a b c)
  restore_user_event-Within a b c = s.restore_user_event a b c

  pub insert_client-Within : (a : OauthClientRow) → Within o (statement (Repo.insert_client a))
  insert_client-Within a = s.insert_client a

  pub upsert_consent-Within : (a : Consent) → Within o (statement (Repo.upsert_consent a))
  upsert_consent-Within a = s.upsert_consent a

  pub insert_authorization_code-Within :
      (a : AuthorizationCode) → Within o (statement (Repo.insert_authorization_code a))
  insert_authorization_code-Within a = s.insert_authorization_code a

pub ruleset writes = (
  insert_audit-Within, revoke_access_jti-Within, create_refresh_token-Within,
  rotate_refresh_token-Within, revoke_refresh_token-Within, revoke_all_user_refresh_tokens-Within,
  claim_code-Within, create_password_reset-Within, create_email_verification-Within,
  consume_password_reset-Within, consume_email_verification-Within, increment_login_failure-Within,
  lock_user-Within, reset_login_state-Within, mark_email_verified-Within, update_password-Within,
  set_totp_secret-Within, disable_totp-Within, insert_recovery_code-Within,
  delete_recovery_codes-Within, consume_recovery_code-Within, create_api_key-Within,
  revoke_api_key-Within, touch_api_key-Within, create_membership-Within,
  mark_outbox_published-Within, add_member-Within, remove_member-Within, create_project-Within,
  assign_role-Within, revoke_role-Within, create_role-Within, update_role-Within,
  delete_role-Within, grant_permission-Within, revoke_permission-Within,
  create_tenant_with_admin-Within, create_user_with_role_event-Within, restore_user_event-Within,
  insert_client-Within, upsert_consent-Within, insert_authorization_code-Within,
)
