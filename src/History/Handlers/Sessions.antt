-- ===== src/History/Handlers/Sessions.antt =====
-- Sign-in and sessions (src/grpc.rs).
use iam_rust_auth.Base.{ℕ, String, Bool, true, false, Option, none, some, List}
use iam_rust_auth.Db.{Uuid, Instant, UserRow, RefreshTokenRow}
use iam_rust_auth.World.{Order, Claims, Within}
use iam_rust_auth.Service
use iam_rust_auth.Service.{MetadataMap}
use iam_rust_auth.History.Writes.{Writes}
use iam_rust_auth.History.Handlers.Common.{rules, audit_as-Within, audit-Within}

module _ {o : Order} ⦃s : Writes o⦄ where
  pub issue_tokens-Within :
      (id : Uuid) (e : String) (t : Uuid) (p : Option Uuid)
      → Within o (Service.issue_tokens id e t p)
  unfolding Service.issue_tokens
  issue_tokens-Within id e t p = search rules depth 20

  pub issue_for_active_tenant-Within :
      (id : Uuid) (e : String) → Within o (Service.issue_for_active_tenant id e)
  unfolding Service.issue_for_active_tenant
  issue_for_active_tenant-Within id e = search (rules, issue_tokens-Within) depth 20

  lock_if_reached-Within :
      (id : Uuid) (e d : String) (n : Option ℕ) → Within o (Service.lock_if_reached id e d n)
  lock_if_reached-Within id e d none = search rules
  lock_if_reached-Within id e d (some n) = search (rules, audit_as-Within) depth 20

  count_failure-Within : (id : Uuid) (e d : String) → Within o (Service.count_failure id e d)
  unfolding Service.count_failure
  count_failure-Within id e d = search (rules, lock_if_reached-Within) depth 20

  accept_password-Within : (r : UserRow) → Within o (Service.accept_password r)
  unfolding Service.accept_password
  accept_password-Within r =
      search (rules, audit_as-Within, issue_for_active_tenant-Within) depth 30 fits 4000

  login_user-Within : (r : UserRow) (p : String) → Within o (Service.login_user r p)
  unfolding Service.login_user
  login_user-Within r p =
      search (rules, audit_as-Within, count_failure-Within, accept_password-Within) depth 30 fits
        4000

  login_found-Within : (r : Option UserRow) (p : String) → Within o (Service.login_found r p)
  login_found-Within none p = search rules
  login_found-Within (some r) p = search (rules, login_user-Within)

  pub login-Within : (e p : String) → Within o (Service.login e p)
  unfolding Service.login
  login-Within e p = search (rules, login_found-Within) depth 20

  pub or_recovery_code-Within :
      (b : Bool) (id : Uuid) (h : String) → Within o (Service.or_recovery_code b id h)
  or_recovery_code-Within true id h = search rules
  or_recovery_code-Within false id h = search rules

  check_mfa-Within :
      (id : Uuid) (r : UserRow) (s g : String) → Within o (Service.check_mfa id r s g)
  unfolding Service.check_mfa
  check_mfa-Within id r s g =
      search
        (
          rules, audit_as-Within, count_failure-Within, or_recovery_code-Within,
          issue_for_active_tenant-Within,
        )
        depth 30 fits 4000

  pub login_totp-Within : (m g : String) → Within o (Service.login_totp m g)
  unfolding Service.login_totp
  login_totp-Within m g = search (rules, check_mfa-Within) depth 30 fits 4000

  reissue-Within : (r : RefreshTokenRow) → Within o (Service.reissue r)
  unfolding Service.reissue
  reissue-Within r = search (rules, issue_tokens-Within) depth 20

  refresh_revoked-Within :
      (r : RefreshTokenRow) (at : Instant) → Within o (Service.refresh_revoked r at)
  unfolding Service.refresh_revoked
  refresh_revoked-Within r at = search (rules, audit_as-Within, reissue-Within) depth 20

  refresh_live-Within : (h : String) (r : RefreshTokenRow) → Within o (Service.refresh_live h r)
  unfolding Service.refresh_live
  refresh_live-Within h r = search (rules, reissue-Within) depth 20

  refresh_row-Within :
      (h : String) (r : RefreshTokenRow) (at : Option Instant)
      → Within o (Service.refresh_row h r at)
  refresh_row-Within h r none = search (rules, refresh_live-Within)
  refresh_row-Within h r (some at) = search (rules, refresh_revoked-Within)

  pub refresh-Within : (t : String) → Within o (Service.refresh t)
  unfolding Service.refresh
  refresh-Within t = search (rules, refresh_row-Within) depth 20

  deny_claims-Within : (c : Option Claims) → Within o (Service.deny_claims c)
  deny_claims-Within none = search rules
  deny_claims-Within (some c) = search rules depth 20

  pub logout-Within : (md : MetadataMap) (r a : String) → Within o (Service.logout md r a)
  unfolding Service.logout
  logout-Within md r a = search (rules, deny_claims-Within, audit-Within) depth 20

  denied_or_ask-Within : (j : String) (b : Option Bool) → Within o (Service.denied_or_ask j b)
  denied_or_ask-Within j none = search rules
  denied_or_ask-Within j (some b) = search rules

  tenant_claim-Within : (id : Uuid) (t : String) → Within o (Service.tenant_claim id t)
  unfolding Service.tenant_claim
  tenant_claim-Within id t = search rules depth 20

  project_claim-Within : (p : String) → Within o (Service.project_claim p)
  unfolding Service.project_claim
  project_claim-Within p = search rules depth 20

  roles_for-Within : (id : Uuid) (t p : Option Uuid) → Within o (Service.roles_for id t p)
  roles_for-Within id none p = search rules
  roles_for-Within id (some t) p = search rules

  permissions_for-Within :
      (id : Uuid) (t p : Option Uuid) → Within o (Service.permissions_for id t p)
  permissions_for-Within id none p = search rules
  permissions_for-Within id (some t) p = search rules

  cached_or_load-Within :
      (c : Claims) (id : Uuid) (t p : Option Uuid) (hit : Option (List String))
      → Within o (Service.cached_or_load c id t p hit)
  cached_or_load-Within c id t p none = search (rules, permissions_for-Within) depth 20
  cached_or_load-Within c id t p (some ps) = search rules

  check_token-Within : (t : String) → Within o (Service.check_token t)
  unfolding Service.check_token
  check_token-Within t =
      search (rules, denied_or_ask-Within, tenant_claim-Within, project_claim-Within) depth 30 fits
        4000

  pub validate_token-Within : (t : String) → Within o (Service.validate_token t)
  unfolding Service.validate_token
  validate_token-Within t =
      search (rules, check_token-Within, roles_for-Within, cached_or_load-Within) depth 20

  pub list_my_memberships-Within : (md : MetadataMap) → Within o (Service.list_my_memberships md)
  unfolding Service.list_my_memberships
  list_my_memberships-Within md = search rules depth 20

  switch_project-Within : (p : String) (t : Uuid) → Within o (Service.switch_project p t)
  unfolding Service.switch_project
  switch_project-Within p t = search rules depth 20

  pub switch_tenant-Within :
      (md : MetadataMap) (t p : String) → Within o (Service.switch_tenant md t p)
  unfolding Service.switch_tenant
  switch_tenant-Within md t p =
      search (rules, switch_project-Within, issue_tokens-Within) depth 30 fits 4000
