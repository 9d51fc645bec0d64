-- ===== src/Refresh/Liveness.antt =====
-- When a refresh succeeds (src/grpc.rs, `refresh`).
use iam_rust_auth.Base.{
  ℕ, suc, ◌≡◌, String, true, false, none, some, arith, find?, exists, str_eq, ltb, ◌==◌,
}
use iam_rust_auth.Db.{RefreshTokenRow, UserRow}
use iam_rust_auth.World.{Env, World, ok, query, statement}
use iam_rust_auth.Repo.{
  get_refresh_token, create_refresh_token, insert_refresh_token, get_user_by_id, has_user,
  has_tenant, has_project,
}
use iam_rust_auth.Service.{
  refresh, refresh_live, reissue, issue_tokens, hash_token, bearer_pair, show_opt,
}
use iam_rust_auth.Refresh.Soundness.{token_row}

-- The token that the next draw but one gives, and that a pair is issued with.
abbrev pub next_token : Env → World → String
next_token env w = env.random_hex (suc w.draws) 32

-- What the tables must hold for a pair to be stored.
abbrev pub IsStorable : Env → World → UserRow → RefreshTokenRow → Type 0
IsStorable env w u row =
    (exists (λ t. str_eq t.token_hash (hash_token env (next_token env w))) w.db.refresh_tokens
      ≡ false)
    × (has_user u.id w.db ≡ true)
    × (has_tenant row.tenant_id w.db ≡ true)
    × (has_project row.project_id w.db ≡ true)

issues :
    (env : Env) (w : World) (row : RefreshTokenRow) (u : UserRow) (access : String)
    → ((n : ℕ) → env.db_fails n ≡ false)
    → IsStorable env w u row
    → env.issue_jwt w.draws
        (env.show_uuid u.id)
        u.email
        (env.show_uuid row.tenant_id)
        (show_opt env row.project_id)
      ≡ some access
    → (issue_tokens u.id u.email row.tenant_id row.project_id env w).0
      ≡ ok (bearer_pair env access (next_token env w))
unfolding issue_tokens create_refresh_token statement insert_refresh_token
issues env w row u access up (fresh, user, tenant, project) signed = ground (arith, up w.calls)

reissues :
    (env : Env) (w : World) (row : RefreshTokenRow) (u : UserRow) (access : String)
    → ((n : ℕ) → env.db_fails n ≡ false)
    → find? (λ v. v.id == row.user_id) w.db.users ≡ some u
    → IsStorable env w u row
    → env.issue_jwt w.draws
        (env.show_uuid u.id)
        u.email
        (env.show_uuid row.tenant_id)
        (show_opt env row.project_id)
      ≡ some access
    → (reissue row env w).0 ≡ ok (bearer_pair env access (next_token env w))
unfolding reissue get_user_by_id query statement
reissues env w row u access up found storable signed = ground (
  arith,
  up w.calls,
  issues env (record w { calls = suc w.calls }) row u access up storable signed,
)

-- Where no statement fails, a live token that has not expired, of a stored user, is exchanged for a
-- pair, provided that the library signs the access token, the new token's hash is not taken, and the
-- user, the tenant and the project are there.
pub refresh_succeeds :
    (token : String) (env : Env) (w : World) (row : RefreshTokenRow) (u : UserRow) (access : String)
    → ((n : ℕ) → env.db_fails n ≡ false)
    → token_row env w token ≡ some row
    → row.revoked_at ≡ none
    → ltb row.expires_at env.now ≡ false
    → find? (λ v. v.id == row.user_id) w.db.users ≡ some u
    → IsStorable env w u row
    → env.issue_jwt w.draws
        (env.show_uuid u.id)
        u.email
        (env.show_uuid row.tenant_id)
        (show_opt env row.project_id)
      ≡ some access
    → (refresh token env w).0 ≡ ok (bearer_pair env access (next_token env w))
unfolding refresh get_refresh_token query statement refresh_live
refresh_succeeds token env w row u access up e live current found storable signed = ground (
  arith,
  up w.calls,
  reissues env (record w { calls = suc w.calls }) row u access up found storable signed,
)
