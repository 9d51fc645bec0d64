-- ===== src/Refresh/Rotation.antt =====
-- A live token is used once (src/grpc.rs, `refresh`; src/repo.rs, `rotate_refresh_token`).
use iam_rust_auth.Base.{
  ℕ, suc, ◌+◌, ◌*◌, ◌≤◌, ◌≡◌, refl, ◌∙◌, String, false, ◌&&◌, none, some, List, [], ◌∷◌, ◌++◌,
  arith, find?, find?-append, find?-update, find?-holds, str_eq, update,
}
use iam_rust_auth.Base.Int.{second}
use iam_rust_auth.Db.{RefreshTokenRow}
use iam_rust_auth.World.{Env, World, ok, err, unauthenticated, query, statement, execute}
use iam_rust_auth.Repo.{
  get_refresh_token, rotate_refresh_token, is_unrevoked, revoke_all_user_refresh_tokens,
  insert_audit,
}
use iam_rust_auth.Service.{
  TokenPair, refresh, refresh_live, refresh_revoked, hash_token, reissue, in_grace, is_rotated,
  audit_as,
}
use iam_rust_auth.Refresh.Issue.{issued_row, reissue-stores}
use iam_rust_auth.Refresh.Soundness.{row_of, token_row}

-- The row of a token that was exchanged: revoked now, and pointing at its successor.
abbrev pub rotated_row : Env → TokenPair → RefreshTokenRow → RefreshTokenRow
rotated_row env pair row = record row {
  revoked_at = some env.now;
  replaced_by = some (hash_token env pair.refresh_token);
}

rotated_lookup :
    (hash : String) (env : Env) (pair : TokenPair) (ts : List RefreshTokenRow)
    (row new : RefreshTokenRow)
    → find? (λ t. str_eq t.token_hash hash) ts ≡ some row
    → row.revoked_at ≡ none
    → find?
        (λ t. str_eq t.token_hash hash)
        (update (is_unrevoked hash) (rotated_row env pair) (ts ++ new ∷ []))
      ≡ some (rotated_row env pair row)
rotated_lookup hash env pair ts row new e live =
    find?-update (λ (t : RefreshTokenRow). str_eq t.token_hash hash) (is_unrevoked hash)
      (rotated_row env pair) (ts ++ new ∷ []) (λ x. refl)
    ∙ rw (find?-append (λ (t : RefreshTokenRow). str_eq t.token_hash hash) ts (new ∷ [])) (
        rw e (
          ground (arith, find?-holds (λ (t : RefreshTokenRow). str_eq t.token_hash hash) ts row e)))

live_rotated :
    (hash : String) (env : Env) (w w' : World) (pair : TokenPair) (row : RefreshTokenRow)
    → ((n : ℕ) → env.db_fails n ≡ false)
    → row_of hash w.db ≡ some row
    → row.revoked_at ≡ none
    → refresh_live hash row env w ≡ (ok pair, w')
    → row_of hash w'.db ≡ some (rotated_row env pair row)
unfolding refresh_live rotate_refresh_token execute statement
live_rotated hash env w w' pair row up e live h = ground (
  arith,
  up (reissue row env w).1.calls,
  reissue-stores row env w (reissue row env w).1 pair,
  rotated_lookup hash env pair w.db.refresh_tokens row
      (issued_row env pair row.user_id row.tenant_id row.project_id) e live,
)

-- Where no statement fails, the exchange of a live token leaves that token revoked as of now, with
-- the new token's hash as its successor.
pub refresh_rotates :
    (token : String) (env : Env) (w w' : World) (pair : TokenPair) (row : RefreshTokenRow)
    → ((n : ℕ) → env.db_fails n ≡ false)
    → token_row env w token ≡ some row
    → row.revoked_at ≡ none
    → refresh token env w ≡ (ok pair, w')
    → token_row env w' token ≡ some (rotated_row env pair row)
unfolding refresh get_refresh_token query statement
refresh_rotates token env w w' pair row up e live h = ground (
  arith,
  up w.calls,
  live_rotated (hash_token env token) env (record w { calls = suc w.calls }) w' pair row up e live,
)

late : (now t : ℕ) → t + 60 * second ≤ now → in_grace now t ≡ false
late now t h = ground (arith)

late_reuse :
    (token : String) (env : Env) (w : World) (row : RefreshTokenRow) (t : ℕ)
    → token_row env w token ≡ some row
    → row.revoked_at ≡ some t
    → (is_rotated row && in_grace env.now t) ≡ false
    → env.db_fails w.calls ≡ false
    → (refresh token env w).0 ≡ err (unauthenticated "refresh token revoked")
unfolding refresh get_refresh_token query statement refresh_revoked revoke_all_user_refresh_tokens
    execute audit_as insert_audit
late_reuse token env w row t e revoked old up = ground (arith)

same_row :
    (token : String) (env env' : Env) (w : World) (row : RefreshTokenRow)
    → env'.sha256_hex ≡ env.sha256_hex
    → token_row env w token ≡ some row
    → token_row env' w token ≡ some row
unfolding hash_token
same_row token env env' w row same e = rw same e

-- A live token can be exchanged once: after an exchange in which no statement fails, it is refused
-- when it is presented a minute later or after, to a service with the same hash function whose
-- lookup does not fail.
pub refresh_once :
    (token : String) (env env' : Env) (w w' : World) (pair : TokenPair) (row : RefreshTokenRow)
    → ((n : ℕ) → env.db_fails n ≡ false)
    → token_row env w token ≡ some row
    → row.revoked_at ≡ none
    → refresh token env w ≡ (ok pair, w')
    → env'.sha256_hex ≡ env.sha256_hex
    → env.now + 60 * second ≤ env'.now
    → env'.db_fails w'.calls ≡ false
    → (refresh token env' w').0 ≡ err (unauthenticated "refresh token revoked")
refresh_once token env env' w w' pair row up e live h same after up' =
    let used : RefreshTokenRow = rotated_row env pair row in
    late_reuse token env' w' used env.now
      (same_row token env env' w' used same (refresh_rotates token env w w' pair row up e live h))
      refl (ground (arith, late env'.now env.now after)) up'
