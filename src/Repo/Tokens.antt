-- ===== src/Repo/Tokens.antt =====
-- Refresh tokens and the denylist of access tokens (src/repo.rs).
use iam_rust_auth.Base.{
  String, Bool, ◌&&◌, Option, none, some, [], ◌∷◌, ◌++◌, if◌then◌else◌, is_none, find?, exists,
  update, str_eq,
}
use iam_rust_auth.Db.{Db, Uuid, Instant, RefreshTokenRow}
use iam_rust_auth.World.{
  Action, Result, ok, err, SqlError, unique_violation, foreign_key_violation, statement, query,
  execute,
}
use iam_rust_auth.Repo.Tables.{has_user, has_tenant, has_project}

-- `ON CONFLICT (jti) DO NOTHING`.
unfoldable pub revoke_access_jti : String → Instant → Action SqlError Unit
unfolding execute exists
revoke_access_jti jti expires_at = execute λ d.
    if exists (λ t. str_eq t.jti jti) d.revoked_tokens then d else record d {
      revoked_tokens = d.revoked_tokens ++ record { jti = jti; expires_at = expires_at } ∷ [];
    }

unfoldable pub is_token_revoked : String → Action SqlError Bool
unfolding query exists
is_token_revoked jti = query λ d. exists (λ t. str_eq t.jti jti) d.revoked_tokens

-- `INSERT INTO refresh_tokens`: the hash is unique, and three columns refer to other tables.
unfoldable pub insert_refresh_token : RefreshTokenRow → Db → Result SqlError (Unit × Db)
unfolding exists
insert_refresh_token t d =
    if exists (λ s. str_eq s.token_hash t.token_hash) d.refresh_tokens
    then err unique_violation
    else if has_user t.user_id d && has_tenant t.tenant_id d && has_project t.project_id d
    then ok (tt, record d { refresh_tokens = d.refresh_tokens ++ t ∷ [] })
    else err foreign_key_violation

abbrev pub fresh_token : Uuid → String → Instant → Uuid → Option Uuid → RefreshTokenRow
fresh_token user_id token_hash expires_at tenant_id project_id = record {
  token_hash = token_hash;
  user_id = user_id;
  expires_at = expires_at;
  revoked_at = none;
  replaced_by = none;
  tenant_id = tenant_id;
  project_id = project_id;
}

unfoldable pub create_refresh_token :
    Uuid → String → Instant → Uuid → Option Uuid → Action SqlError Unit
unfolding statement insert_refresh_token
create_refresh_token user_id token_hash expires_at tenant_id project_id =
    statement
      (insert_refresh_token (fresh_token user_id token_hash expires_at tenant_id project_id))

unfoldable pub get_refresh_token : String → Action SqlError (Option RefreshTokenRow)
unfolding query find?
get_refresh_token token_hash =
    query λ d. find? (λ t. str_eq t.token_hash token_hash) d.refresh_tokens

-- `token_hash = $1 AND revoked_at IS NULL`
abbrev pub is_unrevoked : String → RefreshTokenRow → Bool
is_unrevoked token_hash t = str_eq t.token_hash token_hash && is_none t.revoked_at

unfoldable pub revoke_refresh_token : String → Action SqlError Unit
unfolding execute update
revoke_refresh_token token_hash env =
    execute
      (λ d. record d {
        refresh_tokens =
            update (is_unrevoked token_hash) (λ t. record t { revoked_at = some env.now })
              d.refresh_tokens;
      })
      env

unfoldable pub rotate_refresh_token : String → String → Action SqlError Unit
unfolding execute update
rotate_refresh_token token_hash replaced_by env =
    execute
      (λ d. record d {
        refresh_tokens =
            update (is_unrevoked token_hash)
              (λ t. record t { revoked_at = some env.now; replaced_by = some replaced_by })
              d.refresh_tokens;
      })
      env
