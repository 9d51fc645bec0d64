-- ===== src/Refresh/Replay.antt =====
-- The grace of a rotated token (src/grpc.rs, `refresh`; src/repo.rs, `revoke_all_user_refresh_tokens`).
use iam_rust_auth.Base.{
  suc, ◌≡◌, refl, ◌∙◌, String, true, false, ◌&&◌, some, arith, find?-update, is_none, ◌==◌, str_eq,
}
use iam_rust_auth.Db.{Db, Uuid, Instant, RefreshTokenRow}
use iam_rust_auth.World.{Env, World, query, statement}
use iam_rust_auth.Repo.{get_refresh_token, revoke_tokens_of}
use iam_rust_auth.Service.{refresh, refresh_revoked, is_rotated, in_grace, hash_token, reissue}
use iam_rust_auth.Refresh.Soundness.{row_of, token_row}

-- Revoking every token of a user leaves a row that is revoked already as it was.
pub revoke_tokens_of-keeps :
    (user_id : Uuid) (now t : Instant) (hash : String) (d : Db) (row : RefreshTokenRow)
    → row_of hash d ≡ some row
    → row.revoked_at ≡ some t
    → row_of hash (revoke_tokens_of user_id now d) ≡ some row
unfolding revoke_tokens_of
revoke_tokens_of-keeps user_id now t hash d row e revoked =
    find?-update (λ (s : RefreshTokenRow). str_eq s.token_hash hash)
      (λ s. s.user_id == user_id && is_none s.revoked_at) (λ s. record s { revoked_at = some now })
      d.refresh_tokens (λ s. refl)
    ∙ rw e (ground (arith))

-- A token that was rotated less than a minute ago is still exchanged after all tokens of a user
-- were revoked, as by a change of the password: where the lookup does not fail, the refresh goes
-- on to issue a pair just as the function `reissue` does.
pub refresh_replay :
    (token : String) (env : Env) (w : World) (user_id : Uuid) (row : RefreshTokenRow) (t : Instant)
    → env.db_fails w.calls ≡ false
    → token_row env w token ≡ some row
    → row.revoked_at ≡ some t
    → (is_rotated row && in_grace env.now t) ≡ true
    → let w₁ : World = record w { db = revoke_tokens_of user_id env.now w.db } in
      refresh token env w₁ ≡ reissue row env (record w₁ { calls = suc w.calls })
unfolding refresh get_refresh_token query statement refresh_revoked
refresh_replay token env w user_id row t up e revoked young =
    ground
      (arith, revoke_tokens_of-keeps user_id env.now t (hash_token env token) w.db row e revoked)
