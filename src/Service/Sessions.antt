-- ===== src/Service/Sessions.antt =====
-- Sessions (src/grpc.rs): refresh, logout, validation of access tokens, switching the tenant.
use iam_rust_auth.Base.{
  ℕ, ◌+◌, ◌*◌, ◌/◌, String, Bool, true, false, not, ◌&&◌, Option, none, some, List, map, ltb,
  if◌then◌else◌, is_empty,
}
use iam_rust_auth.Base.Int.{second, sub_ℕ}
use iam_rust_auth.Db.{Uuid, Instant, RefreshTokenRow, MembershipRow}
use iam_rust_auth.World.{
  Claims, unauthenticated, invalid_argument, permission_denied, pure, fail, ok_or, require,
  refuse_if, ignore, when, ◌>>=◌, ◌>>◌,
}
use iam_rust_auth.Cache.{deny, is_denied, get_perms, set_perms}
use iam_rust_auth.Repo.{
  get_refresh_token, get_user_by_id, revoke_all_user_refresh_tokens, rotate_refresh_token,
  revoke_refresh_token, revoke_access_jti, is_token_revoked, is_user_active, is_active_member,
  is_project_in_tenant, list_memberships, get_user_roles, get_user_roles_scoped,
  get_user_permissions, get_user_permissions_scoped,
}
use iam_rust_auth.Service.Guards.{
  Rpc, ask, db, hash_token, audit_as, audit, parse_uuid, caller_uuid, MetadataMap,
}
use iam_rust_auth.Service.Tokens.{TokenPair, issue_tokens}

-- `REFRESH_ROTATION_GRACE_SECS`
abbrev pub refresh_rotation_grace_secs : ℕ
refresh_rotation_grace_secs = 60

-- `replaced_by` names a successor.
abbrev pub is_rotated : RefreshTokenRow → Bool
is_rotated row = elim row.replaced_by [ none ↦ false | some s ↦ not (is_empty s) ]

-- `(Utc::now() - revoked_at) < Duration::seconds(…)`
abbrev pub in_grace : Instant → Instant → Bool
in_grace now revoked_at = ltb now (revoked_at + refresh_rotation_grace_secs * second)

-- A pair for the owner of the token, with the token's tenant and project.
unfoldable pub reissue : RefreshTokenRow → Rpc TokenPair
reissue row = do
  found ← db "db error" (get_user_by_id row.user_id)
  u ← ok_or (unauthenticated "user not found") found
  issue_tokens u.id u.email row.tenant_id row.project_id

unfoldable pub refresh_revoked : RefreshTokenRow → Instant → Rpc TokenPair
unfolding reissue
refresh_revoked row revoked_at = do
  env ← ask
  if is_rotated row && in_grace env.now revoked_at then reissue row else (do
    ignore (revoke_all_user_refresh_tokens row.user_id)
    audit_as (env.show_uuid row.user_id) "" "refresh.reuse_detected" "" "all sessions revoked" none
    fail (unauthenticated "refresh token revoked"))

unfoldable pub refresh_live : String → RefreshTokenRow → Rpc TokenPair
unfolding reissue hash_token
refresh_live hash row = do
  env ← ask
  refuse_if (ltb row.expires_at env.now) (unauthenticated "refresh token expired")
  pair ← reissue row
  ignore (rotate_refresh_token hash (hash_token env pair.refresh_token))
  pure pair

abbrev pub refresh_row : String → RefreshTokenRow → Option Instant → Rpc TokenPair
refresh_row hash row none = refresh_live hash row
refresh_row hash row (some revoked_at) = refresh_revoked row revoked_at

unfoldable pub refresh : String → Rpc TokenPair
unfolding refresh_live refresh_revoked hash_token
refresh refresh_token = do
  env ← ask
  found ← db "db error" (get_refresh_token (hash_token env refresh_token))
  row ← ok_or (unauthenticated "invalid refresh token") found
  refresh_row (hash_token env refresh_token) row row.revoked_at

-- The denylisting of an access token; a token that does not parse is passed over.
abbrev pub deny_claims : Option Claims → Rpc Unit
deny_claims none = pure tt
deny_claims (some claims) = do
  env ← ask
  when (env.timestamp_in_range claims.exp)
      (ignore (revoke_access_jti claims.jti (claims.exp * second)))
  deny claims.jti (sub_ℕ claims.exp (env.now / second))

unfoldable pub logout : MetadataMap → String → String → Rpc Bool
unfolding hash_token
logout md refresh_token access_token = do
  env ← ask
  db "failed to revoke token" (revoke_refresh_token (hash_token env refresh_token))
  when (not (is_empty access_token)) (deny_claims (env.parse_jwt access_token))
  audit md "auth.logout" "" ""
  pure true

-- The answer of Redis, or else of Postgres.
abbrev pub denied_or_ask : String → Option Bool → Rpc Bool
denied_or_ask jti (some d) = pure d
denied_or_ask jti none = db "failed to check token status" (is_token_revoked jti)

-- The tenant claim: empty, or a tenant that the user is an active member of.
unfoldable pub tenant_claim : Uuid → String → Rpc (Option Uuid)
tenant_claim user_id tenant_id = if is_empty tenant_id then pure none else (do
  tid ← parse_uuid (unauthenticated "invalid tenant claim") tenant_id
  member ← db "failed to check membership" (is_active_member user_id tid)
  require member (unauthenticated "tenant membership revoked")
  pure (some tid))

unfoldable pub project_claim : String → Rpc (Option Uuid)
project_claim project_id =
    if is_empty project_id
    then pure none
    else (do p ← parse_uuid (unauthenticated "invalid project claim") project_id; pure (some p))

abbrev pub roles_for : Uuid → Option Uuid → Option Uuid → Rpc (List String)
roles_for user_id (some tid) project =
    db "failed to load roles" (get_user_roles_scoped user_id tid project)
roles_for user_id none project = db "failed to load roles" (get_user_roles user_id)

abbrev pub permissions_for : Uuid → Option Uuid → Option Uuid → Rpc (List String)
permissions_for user_id (some tid) project =
    db "failed to load permissions" (get_user_permissions_scoped user_id tid project)
permissions_for user_id none project =
    db "failed to load permissions" (get_user_permissions user_id)

abbrev pub cached_or_load :
    Claims → Uuid → Option Uuid → Option Uuid → Option (List String) → Rpc (List String)
cached_or_load claims user_id tenant project (some p) = pure p
cached_or_load claims user_id tenant project none = do
  p ← permissions_for user_id tenant project
  set_perms claims.tenant_id claims.project_id claims.sub p
  pure p

pub record Identity : Type 0 where
  pub user_id : String
  pub email : String
  pub roles : List String
  pub permissions : List String
  pub tenant_id : String
  pub project_id : String

-- `validate_token` up to the resolution of the tenant and the project.
unfoldable pub check_token : String → Rpc (Claims × Uuid × Option Uuid × Option Uuid)
unfolding tenant_claim project_claim
check_token access_token = do
  env ← ask
  claims ← ok_or (unauthenticated "invalid or expired token") (env.parse_access_jwt access_token)
  answer ← is_denied claims.jti
  denied ← denied_or_ask claims.jti answer
  refuse_if denied (unauthenticated "token revoked")
  user_id ← parse_uuid (unauthenticated "invalid subject") claims.sub
  active ← db "failed to check account status" (is_user_active user_id)
  require active (unauthenticated "account is not active")
  tenant ← tenant_claim user_id claims.tenant_id
  project ← project_claim claims.project_id
  pure (claims, user_id, tenant, project)

unfoldable pub validate_token : String → Rpc Identity
unfolding check_token
validate_token access_token = do
  (claims, user_id, tenant, project) ← check_token access_token
  roles ← roles_for user_id tenant project
  hit ← get_perms claims.tenant_id claims.project_id claims.sub
  permissions ← cached_or_load claims user_id tenant project hit
  pure (record {
    user_id = claims.sub;
    email = claims.email;
    roles = roles;
    permissions = permissions;
    tenant_id = claims.tenant_id;
    project_id = claims.project_id;
  })

pub record Membership : Type 0 where
  pub tenant_id : String
  pub tenant_slug : String
  pub tenant_name : String
  pub status : String

unfoldable pub list_my_memberships : MetadataMap → Rpc (List Membership)
list_my_memberships md = do
  env ← ask
  caller ← caller_uuid md
  rows ← db "failed to load memberships" (list_memberships caller)
  pure (
      map
        (λ (m : MembershipRow). record {
          tenant_id = env.show_uuid m.tenant_id;
          tenant_slug = m.tenant_slug;
          tenant_name = m.tenant_name;
          status = m.status;
        })
        rows)

-- The project of the request, which must belong to the tenant that is switched to.
unfoldable pub switch_project : String → Uuid → Rpc (Option Uuid)
switch_project project_id tenant_id = if is_empty project_id then pure none else (do
  pid ← parse_uuid (invalid_argument "invalid project id") project_id
  inside ← db "project check failed" (is_project_in_tenant pid tenant_id)
  require inside (invalid_argument "project does not belong to this tenant")
  pure (some pid))

unfoldable pub switch_tenant : MetadataMap → String → String → Rpc TokenPair
unfolding switch_project
switch_tenant md tenant_id project_id = do
  caller ← caller_uuid md
  tid ← parse_uuid (invalid_argument "invalid tenant id") tenant_id
  member ← db "failed to check membership" (is_active_member caller tid)
  require member (permission_denied "not a member of that tenant")
  project ← switch_project project_id tid
  found ← db "db error" (get_user_by_id caller)
  u ← ok_or (unauthenticated "user not found") found
  issue_tokens caller u.email tid project
