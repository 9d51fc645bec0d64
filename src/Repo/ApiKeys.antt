-- ===== src/Repo/ApiKeys.antt =====
-- API keys (src/repo.rs).
use iam_rust_auth.Base.{
  String, ◌&&◌, ◌||◌, Option, none, some, List, [], ◌∷◌, ◌++◌, ◌==◌, leb, if◌then◌else◌, is_none,
  find?, select, exists, update, order_by, str_eq,
}
use iam_rust_auth.Db.{Db, Uuid, Instant, ApiKeyRow}
use iam_rust_auth.World.{
  Action, Result, ok, err, SqlError, unique_violation, foreign_key_violation, statement, query,
  execute,
}
use iam_rust_auth.Repo.Tables.{has_user, has_tenant, has_project}

-- `INSERT INTO api_keys`: the id is the key, and the hash is unique.
unfoldable pub insert_api_key : ApiKeyRow → Db → Result SqlError (Unit × Db)
unfolding exists
insert_api_key k d =
    if exists (λ j. str_eq j.id k.id || str_eq j.key_hash k.key_hash) d.api_keys
    then err unique_violation
    else if has_user k.user_id d && has_tenant k.tenant_id d && has_project k.project_id d
    then ok (tt, record d { api_keys = d.api_keys ++ k ∷ [] })
    else err foreign_key_violation

unfoldable pub create_api_key :
    String
    → Uuid
    → String
    → String
    → List String
    → Option Instant
    → Uuid
    → Option Uuid
    → Action SqlError Unit
unfolding statement insert_api_key
create_api_key id user_id key_hash name scopes expires_at tenant_id project_id env =
    statement
      (insert_api_key (record {
        id = id;
        user_id = user_id;
        key_hash = key_hash;
        name = name;
        scopes = scopes;
        expires_at = expires_at;
        revoked_at = none;
        last_used_at = none;
        created_at = env.now;
        tenant_id = tenant_id;
        project_id = project_id;
      }))
      env

unfoldable pub get_api_key_by_hash : String → Action SqlError (Option ApiKeyRow)
unfolding query find?
get_api_key_by_hash key_hash = query λ d. find? (λ k. str_eq k.key_hash key_hash) d.api_keys

-- `ORDER BY created_at DESC`.
unfoldable pub list_api_keys : Uuid → Action SqlError (List ApiKeyRow)
unfolding query select order_by
list_api_keys user_id = query λ d.
    order_by (λ a b. leb b.created_at a.created_at)
      (select (λ k. k.user_id == user_id && is_none k.revoked_at) d.api_keys)

unfoldable pub revoke_api_key : String → Uuid → Action SqlError Unit
unfolding execute update
revoke_api_key id user_id env =
    execute
      (λ d. record d {
        api_keys =
            update (λ k. str_eq k.id id && k.user_id == user_id && is_none k.revoked_at)
              (λ k. record k { revoked_at = some env.now }) d.api_keys;
      })
      env

unfoldable pub touch_api_key : String → Action SqlError Unit
unfolding execute update
touch_api_key id env =
    execute
      (λ d. record d {
        api_keys =
            update (λ k. str_eq k.id id) (λ k. record k { last_used_at = some env.now }) d.api_keys;
      })
      env
