-- ===== src/Examples/Sessions.antt =====
-- Sessions: the theorems on refresh tokens at a sample database.
use iam_rust_auth.Base.{◌*◌, ◌≡◌, refl, arith, false, some, none}
use iam_rust_auth.Base.Int.{second}
use iam_rust_auth.Db.{RefreshTokenRow}
use iam_rust_auth.World.{ok, err, unauthenticated, Env, World}
use iam_rust_auth.Repo.{revoke_tokens_of}
use iam_rust_auth.Service.{refresh, reissue, TokenPair, bearer_pair}
use iam_rust_auth.Samples.{sample, sample_env, running, token, at, alice}
use iam_rust_auth.Refresh.Soundness.{refresh-IsExchangeable, token_row, row_of, IsExchangeable}
use iam_rust_auth.Refresh.Issue.{issued_row}
use iam_rust_auth.Refresh.Reuse.{refresh_reuse, has_session}
use iam_rust_auth.Refresh.Rotation.{refresh_once}
use iam_rust_auth.Refresh.Replay.{refresh_replay}
use iam_rust_auth.Refresh.Liveness.{refresh_succeeds}

abbrev pub fresh_pair : TokenPair
fresh_pair = bearer_pair sample_env "at-10-20" "r1"

abbrev refreshed : World
refreshed = (refresh "live" sample_env sample).1

abbrev live_row : RefreshTokenRow
live_row = token "#live" none none

abbrev later : Env
later = record sample_env { now = 2000 * second }

refresh-IsExchangeable_example :
    (row : RefreshTokenRow) × (token_row sample_env sample "live" ≡ some row)
    × IsExchangeable sample_env row
    × (row_of "#r1" refreshed.db
        ≡ some (issued_row sample_env fresh_pair row.user_id row.tenant_id row.project_id))
unfolding running
refresh-IsExchangeable_example =
    refresh-IsExchangeable "live" sample_env sample refreshed fresh_pair refl

refresh_reuse_example :
    let (r, w') = refresh "stale" sample_env sample in
    (r ≡ err (unauthenticated "refresh token revoked")) × (has_session 10 w'.db ≡ false)
unfolding running
refresh_reuse_example =
    refresh_reuse "stale" sample_env sample (token "#stale" (some (at 100)) (some "#other"))
      (at 100) refl refl refl refl refl

refresh_once_example :
    (refresh "live" later refreshed).0 ≡ err (unauthenticated "refresh token revoked")
unfolding running
refresh_once_example =
    refresh_once "live" sample_env later sample refreshed fresh_pair live_row (λ n. refl) refl refl
      refl refl (ground (arith)) refl

refresh_replay_example :
    let w₁ : World = record sample { db = revoke_tokens_of 10 sample_env.now sample.db } in
    refresh "rotated" sample_env w₁
    ≡ reissue (token "#rotated" (some (at 990)) (some "#live")) sample_env (record w₁ { calls = 1 })
unfolding running
refresh_replay_example =
    refresh_replay "rotated" sample_env sample 10 (token "#rotated" (some (at 990)) (some "#live"))
      (at 990) refl refl refl refl

-- A token that nobody has is refused, and so is one that has expired.
refresh_unknown :
    (refresh "none" sample_env sample).0 ≡ err (unauthenticated "invalid refresh token")
unfolding running
refresh_unknown = refl

refresh_expired :
    (refresh "live" (record sample_env { now = 6000 * second }) sample).0
    ≡ err (unauthenticated "refresh token expired")
unfolding running
refresh_expired = refl

refresh_succeeds_example : (refresh "live" sample_env sample).0 ≡ ok fresh_pair
unfolding running
refresh_succeeds_example =
    refresh_succeeds "live" sample_env sample live_row alice "at-10-20" (λ n. refl) refl refl refl
      refl (refl, refl, refl, refl) refl
