-- ===== src/Refresh/Issue.antt =====
-- What minting a token pair stores (src/grpc.rs, `issue_tokens`).
use iam_rust_auth.Base.{
  suc, ◌≡◌, inl, inr, String, false, Option, some, [], ◌∷◌, ◌++◌, arith, find?, find?-holds, exists,
  str_eq, ◌==◌, ==_iff, Option-cases,
}
use iam_rust_auth.Base.Int.{add_seconds}
use iam_rust_auth.Db.{Db, Uuid, RefreshTokenRow, UserRow}
use iam_rust_auth.World.{Env, World, ok, statement, query}
use iam_rust_auth.Repo.{create_refresh_token, insert_refresh_token, fresh_token, get_user_by_id}
use iam_rust_auth.Service.{TokenPair, hash_token, issue_tokens, reissue}

-- The row that a pair's refresh token is stored as.
abbrev pub issued_row : Env → TokenPair → Uuid → Uuid → Option Uuid → RefreshTokenRow
issued_row env pair user_id tenant_id project_id =
    fresh_token user_id (hash_token env pair.refresh_token)
      (add_seconds env.now env.refresh_ttl_secs) tenant_id project_id

-- A pair that is issued adds one row to the database, under a new hash, and changes nothing else.
pub issue_tokens-stores :
    (user_id : Uuid) (email : String) (tenant_id : Uuid) (project_id : Option Uuid) (env : Env)
    (w w' : World) (pair : TokenPair)
    → issue_tokens user_id email tenant_id project_id env w ≡ (ok pair, w')
    → let row = issued_row env pair user_id tenant_id project_id in
      (w'.db ≡ record w.db { refresh_tokens = w.db.refresh_tokens ++ row ∷ [] })
      × (exists (λ t. str_eq t.token_hash row.token_hash) w.db.refresh_tokens ≡ false)
unfolding issue_tokens create_refresh_token statement insert_refresh_token
issue_tokens-stores user_id email tenant_id project_id env w w' pair h = ground arith

owner_id : (d : Db) (id : Uuid) (u : UserRow) → find? (λ v. v.id == id) d.users ≡ some u → u.id ≡ id
owner_id d id u h = (==_iff u.id id).0 (find?-holds (λ (v : UserRow). v.id == id) d.users u h)

-- The same, of a pair for the owner of a stored token: the tenant and the project are the token's.
pub reissue-stores :
    (row : RefreshTokenRow) (env : Env) (w w' : World) (pair : TokenPair)
    → reissue row env w ≡ (ok pair, w')
    → let new = issued_row env pair row.user_id row.tenant_id row.project_id in
      (w'.db ≡ record w.db { refresh_tokens = w.db.refresh_tokens ++ new ∷ [] })
      × (exists (λ t. str_eq t.token_hash new.token_hash) w.db.refresh_tokens ≡ false)
unfolding reissue get_user_by_id query statement
reissue-stores row env w w' pair h =
    elim (Option-cases (find? (λ (v : UserRow). v.id == row.user_id) w.db.users)) [
      | inl e ↦ absurd (ground arith)
      | inr (u, e) ↦
          let same : u.id ≡ row.user_id = owner_id w.db row.user_id u e in
          ground (
            arith,
            issue_tokens-stores u.id u.email row.tenant_id row.project_id env
                (record w { calls = suc w.calls }) w' pair,
          )
    ]
