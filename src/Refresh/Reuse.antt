-- ===== src/Refresh/Reuse.antt =====
-- A revoked token that is presented again (src/grpc.rs, `refresh`).
use iam_rust_auth.Base.{
  suc, ◌≡◌, String, Bool, false, ◌&&◌, some, arith, exists, exists-update_self, is_none, ◌==◌,
}
use iam_rust_auth.Db.{Db, Uuid, Instant, RefreshTokenRow}
use iam_rust_auth.World.{Env, World, err, unauthenticated, query, statement, execute}
use iam_rust_auth.Repo.{
  get_refresh_token, revoke_all_user_refresh_tokens, revoke_tokens_of, insert_audit,
}
use iam_rust_auth.Service.{refresh, refresh_revoked, is_rotated, in_grace, audit_as}
use iam_rust_auth.Refresh.Soundness.{token_row}

-- Some token of the user is not revoked.
abbrev pub has_session : Uuid → Db → Bool
has_session user_id d = exists (λ t. t.user_id == user_id && is_none t.revoked_at) d.refresh_tokens

pub has_session-revoke_tokens_of :
    (user_id : Uuid) (now : Instant) (d : Db)
    → has_session user_id (revoke_tokens_of user_id now d) ≡ false
unfolding revoke_tokens_of
has_session-revoke_tokens_of user_id now d =
    exists-update_self (λ (t : RefreshTokenRow). t.user_id == user_id && is_none t.revoked_at)
      (λ t. record t { revoked_at = some now }) d.refresh_tokens (λ t. ground arith)

-- A token that was revoked, but not rotated less than a minute ago, is refused; and if the lookup
-- and the revocation do not fail, every session of its owner ends.
pub refresh_reuse :
    (token : String) (env : Env) (w : World) (row : RefreshTokenRow) (t : Instant)
    → token_row env w token ≡ some row
    → row.revoked_at ≡ some t
    → (is_rotated row && in_grace env.now t) ≡ false
    → env.db_fails w.calls ≡ false
    → env.db_fails (suc w.calls) ≡ false
    → let (r, w') = refresh token env w in
      (r ≡ err (unauthenticated "refresh token revoked")) × (has_session row.user_id w'.db ≡ false)
unfolding refresh get_refresh_token query statement refresh_revoked revoke_all_user_refresh_tokens
    execute audit_as insert_audit
refresh_reuse token env w row t e revoked old ok₁ ok₂ =
    ground (arith, has_session-revoke_tokens_of row.user_id env.now w.db)
