-- ===== src/Recovery/Reset.antt =====
-- A password reset (src/grpc.rs, `reset_password`; src/repo.rs, `consume_password_reset`).
use iam_rust_auth.Base.{
  ℕ, suc, ◌≡◌, String, Bool, true, false, Option, none, some, List, arith, str_eq, exists,
  exists-update_self, find?, update,
}
use iam_rust_auth.Db.{Db, Uuid, Instant, OneTimeToken}
use iam_rust_auth.World.{Env, World, ok, statement, execute, query}
use iam_rust_auth.Repo.{
  consume_password_reset, consume_token, is_live, update_password, update_user,
  revoke_all_user_refresh_tokens, insert_audit, get_user_by_email,
}
use iam_rust_auth.Service.{
  reset_password, set_password, hash_token, is_short, audit_as, request_password_reset,
  DevTokenResponse,
}
use iam_rust_auth.Refresh.Reuse.{has_session, has_session-revoke_tokens_of}

-- The reset token is stored, unconsumed and unexpired.
abbrev pub live_reset : String → Instant → Db → Option OneTimeToken
live_reset hash now d = find? (is_live hash now) d.password_resets

abbrev pub has_live_reset : String → Instant → Db → Bool
has_live_reset hash now d = exists (is_live hash now) d.password_resets

spent :
    (hash : String) (now : Instant) (ts : List OneTimeToken)
    → exists
        (is_live hash now)
        (update (is_live hash now) (λ t. record t { consumed_at = some now }) ts)
      ≡ false
spent hash now ts =
    exists-update_self (is_live hash now) (λ t. record t { consumed_at = some now }) ts
      (λ t. ground arith)

abbrev spent_token : String → Env → Db → Db
spent_token hash env d = record d {
  password_resets =
      update (is_live hash env.now) (λ t. record t { consumed_at = some env.now })
        d.password_resets;
}

-- What is left of the handler once the token has been spent.
sets :
    (uid : Uuid) (password : String) (env : Env) (w w' : World)
    → ((n : ℕ) → env.db_fails n ≡ false)
    → set_password uid password env w ≡ (ok tt, w')
    → (w'.db.password_resets ≡ w.db.password_resets) × (has_session uid w'.db ≡ false)
unfolding set_password update_password update_user execute statement revoke_all_user_refresh_tokens
sets uid password env w w' up h =
    ground (arith, up w.calls, up (suc w.calls), has_session-revoke_tokens_of uid env.now w.db)

-- A reset with a live token that succeeds, where no statement fails, had a password of eight bytes
-- or more; the token is spent afterwards, and every session of its owner has ended.
pub reset_password-spends :
    (token password : String) (env : Env) (w w' : World) (t : OneTimeToken)
    → ((n : ℕ) → env.db_fails n ≡ false)
    → live_reset (hash_token env token) env.now w.db ≡ some t
    → reset_password token password env w ≡ (ok true, w')
    → (is_short password ≡ false)
      × (has_live_reset (hash_token env token) env.now w'.db ≡ false)
      × (has_session t.user_id w'.db ≡ false)
unfolding reset_password consume_password_reset consume_token statement audit_as insert_audit
    execute
reset_password-spends token password env w w' t up e h =
    let d₁ : Db = spent_token (hash_token env token) env w.db in
    let w₁ : World = record w { calls = suc w.calls; db = d₁ } in
    ground (
      arith,
      up w.calls,
      spent (hash_token env token) env.now w.db.password_resets,
      sets t.user_id password env w₁ (set_password t.user_id password env w₁).1 up,
    )

-- A token that is not live resets no password.
pub reset_password_dead :
    (token password : String) (env : Env) (w : World)
    → live_reset (hash_token env token) env.now w.db ≡ none
    → ((reset_password token password env w).0 ≡ ok true)
    → ⊥
unfolding reset_password consume_password_reset consume_token statement
reset_password_dead token password env w e h = ground (arith)

-- In production, a request for a reset of an address that nobody has gets the same answer as any
-- request that succeeds.
pub request_password_reset_opaque :
    (email email' : String) (env : Env) (w : World) (r : DevTokenResponse)
    → env.is_production ≡ true
    → find? (λ u. str_eq u.email email) w.db.users ≡ none
    → (request_password_reset email' env w).0 ≡ ok r
    → (request_password_reset email env w).0 ≡ ok r
unfolding request_password_reset get_user_by_email query statement
request_password_reset_opaque email email' env w r prod e h = ground (arith)
