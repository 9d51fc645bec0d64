-- ===== src/Service/ApiKeys.antt =====
-- API keys (src/grpc.rs).
use iam_rust_auth.Base.{
  String, Bool, true, false, Option, none, some, List, [], ◌∷◌, map, ltb, if◌then◌else◌, is_empty,
  is_none, is_some, exists, select, str_eq, format,
}
use iam_rust_auth.Base.Int.{ℤ, is_pos, add_seconds}
use iam_rust_auth.Db.{Instant, UserRow, ApiKeyRow}
use iam_rust_auth.World.{
  Env, unauthenticated, invalid_argument, permission_denied, pure, ok_or, require, refuse_if,
  ignore, ◌>>=◌, ◌>>◌,
}
use iam_rust_auth.Repo.{
  create_api_key, list_api_keys, revoke_api_key, get_api_key_by_hash, touch_api_key, get_user_by_id,
  is_active_member, get_user_permissions_scoped,
}
use iam_rust_auth.Service.Guards.{
  Rpc, MetadataMap, ask, db, hash_token, audit, caller_uuid, caller_perms, active_tenant,
  parse_opt_project, meta, gen_hex,
}

pub record ApiKey : Type 0 where
  pub id : String
  pub name : String
  pub scopes : List String
  pub created_at : String
  pub expires_at : String
  pub last_used_at : String

-- `t.map(|t| t.to_rfc3339()).unwrap_or_default()`
abbrev pub show_time : Env → Option Instant → String
show_time env none = ""
show_time env (some t) = env.rfc3339 t

-- The loop over the scopes: the first that the caller lacks is refused.
unfoldable pub check_scopes : List String → List String → Rpc Unit
unfolding exists
check_scopes perms [] = pure tt
check_scopes perms (s ∷ ss) = do
  require (exists (λ p. str_eq p s) perms)
      (permission_denied (format ("cannot grant a scope you do not hold: " ∷ s ∷ [])))
  check_scopes perms ss

-- An instant has no last value here; the source panics where `ttl_seconds` overflows its own.
abbrev pub expiry : Instant → ℤ → Option Instant
expiry now ttl_seconds = if is_pos ttl_seconds then some (add_seconds now ttl_seconds) else none

abbrev pub full_key : String → String → String
full_key key_id secret = format ("iamk_" ∷ key_id ∷ "_" ∷ secret ∷ [])

unfoldable pub create_key : MetadataMap → String → List String → ℤ → Rpc (String × ApiKey)
unfolding check_scopes hash_token
create_key md name scopes ttl_seconds = do
  env ← ask
  uid ← caller_uuid md
  refuse_if (is_empty name) (invalid_argument "name is required")
  check_scopes (caller_perms md) scopes
  key_id ← gen_hex 8
  secret ← gen_hex 24
  tenant ← active_tenant md
  project ← parse_opt_project (meta md "x-project-id")
  db "failed to create api key" (
      create_api_key key_id uid (hash_token env (full_key key_id secret)) name scopes
        (expiry env.now ttl_seconds) tenant project)
  audit md "apikey.create" key_id name
  pure (
    full_key key_id secret,
    record {
      id = key_id;
      name = name;
      scopes = scopes;
      created_at = env.rfc3339 env.now;
      expires_at = show_time env (expiry env.now ttl_seconds);
      last_used_at = "";
    },
  )

abbrev pub key_entry : Env → ApiKeyRow → ApiKey
key_entry env r = record {
  id = r.id;
  name = r.name;
  scopes = r.scopes;
  created_at = env.rfc3339 r.created_at;
  expires_at = show_time env r.expires_at;
  last_used_at = show_time env r.last_used_at;
}

unfoldable pub list_keys : MetadataMap → Rpc (List ApiKey)
list_keys md = do
  env ← ask
  uid ← caller_uuid md
  rows ← db "failed to list api keys" (list_api_keys uid)
  pure (map (key_entry env) rows)

unfoldable pub revoke_key : MetadataMap → String → Rpc Bool
revoke_key md id = do
  uid ← caller_uuid md
  db "failed to revoke api key" (revoke_api_key id uid)
  audit md "apikey.revoke" id ""
  pure true

abbrev pub undeleted : Option UserRow → Option UserRow
undeleted none = none
undeleted (some u) = if is_none u.deleted_at then some u else none

-- `exp < Utc::now()`, for a key that expires.
abbrev pub is_expired : Instant → Option Instant → Bool
is_expired now none = false
is_expired now (some exp) = ltb exp now

pub record KeyIdentity : Type 0 where
  pub user_id : String
  pub email : String
  pub scopes : List String

-- The scopes of the key that its owner still holds.
unfoldable pub effective_scopes : List String → List String → List String
unfolding exists select
effective_scopes scopes perms = select (λ s. exists (λ p. str_eq p s) perms) scopes

unfoldable pub validate_key : String → Rpc KeyIdentity
unfolding hash_token effective_scopes
validate_key api_key = do
  env ← ask
  found ← db "db error" (get_api_key_by_hash (hash_token env api_key))
  row ← ok_or (unauthenticated "invalid api key") found
  refuse_if (is_some row.revoked_at) (unauthenticated "api key revoked")
  refuse_if (is_expired env.now row.expires_at) (unauthenticated "api key expired")
  owner ← db "db error" (get_user_by_id row.user_id)
  u ← ok_or (unauthenticated "invalid api key") (undeleted owner)
  member ← db "db error" (is_active_member row.user_id row.tenant_id)
  require member (unauthenticated "api key tenant membership revoked")
  perms ←
      db "failed to load permissions"
        (get_user_permissions_scoped row.user_id row.tenant_id row.project_id)
  ignore (touch_api_key row.id)
  pure (record {
    user_id = env.show_uuid row.user_id;
    email = u.email;
    scopes = effective_scopes row.scopes perms;
  })
