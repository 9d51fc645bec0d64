-- ===== src/Service/Guards.antt =====
-- The helpers that the handlers share (src/grpc.rs): metadata, permissions, audit, random tokens.
use iam_rust_auth.Base.{
  ℕ, String, Bool, false, ◌||◌, Option, none, some, List, [], ◌∷◌, if◌then◌else◌, is_empty, get_or,
  exists, delete, split, str_eq, format, Result, ok, err,
}
use iam_rust_auth.Db.{Uuid}
use iam_rust_auth.World.{
  Env, World, Action, Status, unauthenticated, permission_denied, invalid_argument,
  failed_precondition, not_found, internal, SqlError, pure, asks, ok_or, require, refuse_if,
  or_status, ignore, when, draw, ◌>>=◌, ◌>>◌,
}
use iam_rust_auth.Repo.{insert_audit, role_in_tenant, is_project_in_tenant, tenant_role_exists}

-- A handler, or a part of one.
abbrev pub Rpc : Type 0 → Type 0
Rpc A = Action Status A

abbrev pub ask : Rpc Env
ask = asks (λ env. env)

-- `m.await.map_err(|_| Status::internal(message))`
abbrev pub db : {A : Type 0} → String → Action SqlError A → Rpc A
db message m = or_status (internal message) m

-- The metadata of a request; a value that is no text, `to_str().is_err()`, is `none`.
abbrev pub MetadataMap : Type 0
MetadataMap = List (String × Option String)

-- `md.get(key).and_then(|v| v.to_str().ok())`, which reads the first value.
unfoldable pub get_text : MetadataMap → String → Option String
get_text [] key = none
get_text ((k, v) ∷ md) key = if str_eq k key then v else get_text md key

abbrev pub comma : ℕ
comma = b','

unfoldable pub lists_perm : Option String → String → Bool
unfolding exists split
lists_perm none perm = false
lists_perm (some s) perm = exists (λ p. str_eq p perm) (split comma s)

unfoldable pub require_perm : MetadataMap → String → Rpc Unit
unfolding get_text lists_perm
require_perm md perm =
    require (lists_perm (get_text md "x-user-permissions") perm)
      (permission_denied (format ("permission denied: " ∷ perm ∷ [])))

unfoldable pub meta : MetadataMap → String → String
unfolding get_text
meta md key = get_or (get_text md key) ""

unfoldable pub verify_pkce : Env → String → String → String → Bool
verify_pkce env challenge method verifier =
    if str_eq method "S256"
    then str_eq (env.sha256_base64url verifier) challenge
    else if str_eq method "plain" || is_empty method
    then str_eq verifier challenge
    else false

unfoldable pub caller_perms : MetadataMap → List String
unfolding meta split delete
caller_perms md = delete is_empty (split comma (meta md "x-user-permissions"))

unfoldable pub caller_uuid : MetadataMap → Rpc Uuid
unfolding meta
caller_uuid md env =
    ok_or (unauthenticated "missing or invalid caller identity")
      (env.parse_uuid (meta md "x-user-id")) env

abbrev pub is_builtin_role : String → Bool
is_builtin_role name = str_eq name "admin" || str_eq name "user"

-- `Uuid::parse_str(s).map_err(|_| …)`
abbrev pub parse_uuid : Status → String → Rpc Uuid
parse_uuid e s env = ok_or e (env.parse_uuid s) env

unfoldable pub parse_opt_project : String → Rpc (Option Uuid)
parse_opt_project s =
    if is_empty s
    then pure none
    else (do p ← parse_uuid (invalid_argument "invalid project id") s; pure (some p))

unfoldable pub active_tenant : MetadataMap → Rpc Uuid
unfolding meta
active_tenant md = do
  refuse_if (is_empty (meta md "x-tenant-id")) (failed_precondition "no active tenant on token")
  parse_uuid (internal "invalid active tenant") (meta md "x-tenant-id")

unfoldable pub hash_token : Env → String → String
hash_token env token = env.sha256_hex token

-- 32 random bytes, in hexadecimal.
abbrev pub gen_hex : ℕ → Rpc String
gen_hex n = draw (λ env k. env.random_hex k n)

abbrev pub gen_refresh_token : Rpc String
gen_refresh_token = gen_hex 32

unfoldable pub audit_as : String → String → String → String → String → Option Uuid → Rpc Unit
audit_as actor_id actor_email action target detail tenant env =
    when env.audit_enabled (ignore (insert_audit actor_id actor_email action target detail tenant))
      env

-- `active_tenant(md).ok()`
abbrev pub tenant_of : {A : Type 0} → Result Status A × World → Option A
tenant_of (ok a, _) = some a
tenant_of (err _, _) = none

unfoldable pub audit : MetadataMap → String → String → String → Rpc Unit
unfolding audit_as meta active_tenant
audit md action target detail env w =
    audit_as (meta md "x-user-id") (meta md "x-user-email") action target detail
      (tenant_of (active_tenant md env w)) env w

abbrev pub require_project : Option Uuid → Uuid → Rpc Unit
require_project none tenant = pure tt
require_project (some pid) tenant = do
  inside ← db "db error" (is_project_in_tenant pid tenant)
  require inside (invalid_argument "project does not belong to this tenant")

unfoldable pub validate_assign : String → String → Uuid → Rpc (Option Uuid)
unfolding parse_opt_project
validate_assign role_name project_id tenant = do
  visible ← db "db error" (role_in_tenant role_name tenant)
  require visible (not_found "role not found in this tenant")
  project ← parse_opt_project project_id
  require_project project tenant
  pure project

unfoldable pub perm_role_guard : String → Uuid → Rpc Unit
perm_role_guard role_name tenant = do
  refuse_if (is_builtin_role role_name)
      (failed_precondition "cannot modify a built-in role's permissions")
  owned ← db "db error" (tenant_role_exists role_name tenant)
  require owned (not_found "role not found in this tenant")
