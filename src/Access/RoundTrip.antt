-- ===== src/Access/RoundTrip.antt =====
-- A key that `create_api_key` hands out, and `validate_api_key` (src/grpc.rs).
use iam_rust_auth.Base.{
  ◌≡◌, refl, ap, String, true, false, Option, none, some, List, [], ◌∷◌, arith, find?, exists,
  str_eq, ◌==◌, eq_refl, find?-append, find?-none, exists_mono, suc, ℕ, ◌||◌, if◌then◌else◌,
  is_empty, Result-cases, inl, inr,
}
use iam_rust_auth.Base.Int.{ℤ}
use iam_rust_auth.Db.{Db, Uuid, UserRow, ApiKeyRow}
use iam_rust_auth.World.{Env, World, pure, ◌>>◌, ok, query, statement, execute, transaction}
use iam_rust_auth.Repo.{
  get_api_key_by_hash, get_user_by_id, is_active_member, active_member, get_user_permissions_scoped,
  tenant_guc_tx, set_config, insert_api_key, create_api_key, insert_audit,
}
use iam_rust_auth.Service.{
  ApiKey, MetadataMap, validate_key, create_key, effective_scopes, hash_token, is_expired,
  caller_perms, caller_uuid, meta, expiry, parse_opt_project, active_tenant, audit, audit_as,
  full_key, show_time, Rpc, db,
}
use iam_rust_auth.Access.Keys.{held_permissions, check_scopes-pure}

permissions_found :
    (user_id tenant_id : Uuid) (project_id : Option Uuid) (env : Env) (w : World)
    → ((n : ℕ) → env.db_fails n ≡ false)
    → (get_user_permissions_scoped user_id tenant_id project_id env w).0
      ≡ ok (held_permissions env w.db user_id tenant_id project_id)
unfolding get_user_permissions_scoped tenant_guc_tx transaction execute query statement set_config
permissions_found user_id tenant_id project_id env w up =
    ground
      (arith, up w.calls, up (suc w.calls), up (suc (suc w.calls)), up (suc (suc (suc w.calls))))

-- Where no statement fails, a live key of a user and a member is accepted.
validate_key-accepts :
    (key : String) (env : Env) (w : World) (row : ApiKeyRow) (u : UserRow)
    → ((n : ℕ) → env.db_fails n ≡ false)
    → find? (λ k. str_eq k.key_hash (hash_token env key)) w.db.api_keys ≡ some row
    → row.revoked_at ≡ none
    → is_expired env.now row.expires_at ≡ false
    → find? (λ v. v.id == row.user_id) w.db.users ≡ some u
    → u.deleted_at ≡ none
    → active_member row.user_id row.tenant_id w.db ≡ true
    → (validate_key key env w).0
      ≡ ok (record {
        user_id = env.show_uuid row.user_id;
        email = u.email;
        scopes =
            effective_scopes row.scopes
              (held_permissions env w.db row.user_id row.tenant_id row.project_id);
      })
unfolding validate_key get_api_key_by_hash get_user_by_id is_active_member query statement
validate_key-accepts key env w row u up e live unexpired f kept member = ground (
  arith,
  up w.calls,
  up (suc w.calls),
  up (suc (suc w.calls)),
  permissions_found row.user_id row.tenant_id row.project_id env
      (record w { calls = suc (suc (suc w.calls)) }) up,
)

-- The row of a new key.
abbrev pub created_row :
    Env → String → Uuid → String → String → List String → ℤ → Uuid → Option Uuid → ApiKeyRow
created_row env id uid key name scopes ttl tenant project = record {
  id = id;
  user_id = uid;
  key_hash = hash_token env key;
  name = name;
  scopes = scopes;
  expires_at = expiry env.now ttl;
  revoked_at = none;
  last_used_at = none;
  created_at = env.now;
  tenant_id = tenant;
  project_id = project;
}

-- The project that the metadata names, if they name one.
abbrev pub named_project : Env → MetadataMap → Option Uuid
named_project env md =
    if is_empty (meta md "x-project-id") then none else env.parse_uuid (meta md "x-project-id")

audit-keys :
    (md : MetadataMap) (k t x : String) (env : Env) (w : World)
    → (audit md k t x env w).1.db.api_keys ≡ w.db.api_keys
unfolding audit audit_as insert_audit execute statement
audit-keys md k t x env w = ground arith

-- A new row is the one that its hash finds: the unique index refuses another.
inserted :
    (k : ApiKeyRow) (d d' : Db)
    → insert_api_key k d ≡ ok (tt, d')
    → find? (λ j. str_eq j.key_hash k.key_hash) d'.api_keys ≡ some k
unfolding insert_api_key find?
inserted k d d' h =
    let fresh : exists (λ j. str_eq j.key_hash k.key_hash) d.api_keys ≡ false =
      exists_mono (λ j. str_eq j.key_hash k.key_hash)
        (λ j. str_eq j.id k.id || str_eq j.key_hash k.key_hash) d.api_keys (λ j e. ground arith)
        (ground arith) in
    ground (
      arith,
      find?-none (λ j. str_eq j.key_hash k.key_hash) d.api_keys fresh,
      find?-append (λ j. str_eq j.key_hash k.key_hash) d.api_keys (k ∷ []),
      eq_refl k.key_hash,
    )

-- The end of the handler, from the statement on.
abbrev store : MetadataMap → ApiKeyRow → String × ApiKey → Rpc (String × ApiKey)
store md row answer = do
  db "failed to create api key" (statement (insert_api_key row))
  audit md "apikey.create" row.id row.name
  pure answer

store-finds :
    (md : MetadataMap) (row : ApiKeyRow) (answer answer' : String × ApiKey) (env : Env)
    (w w' : World)
    → store md row answer env w ≡ (ok answer', w')
    → (find? (λ k. str_eq k.key_hash row.key_hash) w'.db.api_keys ≡ some row) × (answer' ≡ answer)
unfolding statement
store-finds md row answer answer' env w w' h = elim (Result-cases (insert_api_key row w.db)) [
  | inl ((_, d), e) ↦
      let kept =
        audit-keys md "apikey.create" row.id row.name env
          (record w { db = d; calls = suc w.calls }) in
      (ground (arith, inserted row w.db d e, kept), ground arith)
  | inr (n, e) ↦ absurd (ground arith)
]

-- What the handler draws.
abbrev new_id : Env → World → String
new_id env w = env.random_hex w.draws 8

abbrev new_key : Env → World → String
new_key env w = full_key (new_id env w) (env.random_hex (suc w.draws) 24)

abbrev new_entry : Env → World → String → List String → ℤ → ApiKey
new_entry env w name scopes ttl = record {
  id = new_id env w;
  name = name;
  scopes = scopes;
  created_at = env.rfc3339 env.now;
  expires_at = show_time env (expiry env.now ttl);
  last_used_at = "";
}

module _ (md : MetadataMap) (name : String) (scopes : List String) (ttl : ℤ) (env : Env)
    (w w' : World) (key : String) (entry : ApiKey) (uid tenant : Uuid)
    (h : create_key md name scopes ttl env w ≡ (ok (key, entry), w'))
    (caller : env.parse_uuid (meta md "x-user-id") ≡ some uid)
    (active : env.parse_uuid (meta md "x-tenant-id") ≡ some tenant) where
  reaches :
      store md
        (created_row env
          (new_id env w)
          uid
          (new_key env w)
          name
          scopes
          ttl
          tenant
          (named_project env md))
        (new_key env w, new_entry env w name scopes ttl)
        env
        (record w { draws = suc (suc w.draws) })
      ≡ (ok (key, entry), w')
  unfolding create_key caller_uuid active_tenant parse_opt_project create_api_key
  reaches = ground (arith, check_scopes-pure (caller_perms md) scopes env w)

  -- The row that the hash of the key finds.
  created :
      find? (λ k. str_eq k.key_hash (hash_token env key)) w'.db.api_keys
      ≡ some (created_row env (new_id env w) uid key name scopes ttl tenant (named_project env md))
  created =
      let row : ApiKeyRow =
        created_row env (new_id env w) uid (new_key env w) name scopes ttl tenant
          (named_project env md) in
      let (found, same) =
        store-finds md row (new_key env w, new_entry env w name scopes ttl) (key, entry) env
          (record w { draws = suc (suc w.draws) }) w' reaches in
      let handed : key ≡ new_key env w = ap (λ a. a.0) same in rw handed found

-- A key that the service has handed out is accepted, where no statement fails, before it expires and
-- as long as the caller that it was made for is a user, undeleted and an active member of the tenant
-- that was active: the identity is the caller's, and its scopes are those asked for that the caller
-- holds there now.
pub create_key-validate_key :
    (md : MetadataMap) (name : String) (scopes : List String) (ttl : ℤ) (env env' : Env)
    (w w' : World) (key : String) (entry : ApiKey) (uid tenant : Uuid) (u : UserRow)
    → create_key md name scopes ttl env w ≡ (ok (key, entry), w')
    → env.parse_uuid (meta md "x-user-id") ≡ some uid
    → env.parse_uuid (meta md "x-tenant-id") ≡ some tenant
    → ((n : ℕ) → env'.db_fails n ≡ false)
    → hash_token env' key ≡ hash_token env key
    → is_expired env'.now (expiry env.now ttl) ≡ false
    → find? (λ v. v.id == uid) w'.db.users ≡ some u
    → u.deleted_at ≡ none
    → active_member uid tenant w'.db ≡ true
    → (validate_key key env' w').0
      ≡ ok (record {
        user_id = env'.show_uuid uid;
        email = u.email;
        scopes =
            effective_scopes scopes (held_permissions env' w'.db uid tenant (named_project env md));
      })
create_key-validate_key md name scopes ttl env env' w w' key entry uid tenant u h caller active up
      same unexpired found kept member =
    validate_key-accepts key env' w'
      (created_row env (new_id env w) uid key name scopes ttl tenant (named_project env md)) u up
      (rw same (created md name scopes ttl env w w' key entry uid tenant h caller active)) refl
      unexpired found kept member
