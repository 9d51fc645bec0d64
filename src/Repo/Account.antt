-- ===== src/Repo/Account.antt =====
-- Lockout, email verification, password reset and passwords (src/repo.rs).
use iam_rust_auth.Base.{
  ℕ, suc, String, Bool, true, ◌&&◌, Option, none, some, List, [], ◌∷◌, ◌++◌, ◌==◌, ltb, leb,
  if◌then◌else◌, is_none, find?, exists, update, str_eq,
}
use mathlib.Core.Option
use iam_rust_auth.Db.{Db, Uuid, Instant, UserRow, OneTimeToken}
use iam_rust_auth.World.{
  Action, Result, ok, err, SqlError, unique_violation, foreign_key_violation, row_not_found,
  out_of_range, statement, execute,
}
use iam_rust_auth.Repo.Tables.{has_user}
use iam_rust_auth.Repo.Users.{revoke_tokens_of}

-- `UPDATE users SET … WHERE id = …`.
unfoldable pub update_user : Uuid → (UserRow → UserRow) → Db → Db
unfolding update
update_user id f d = record d { users = update (λ u. u.id == id) f d.users }

abbrev pub i32_max : ℕ
i32_max = 2147483647

-- `RETURNING failed_login_attempts`, a column of type INT.
abbrev pub incremented : Uuid → Db → Option UserRow → Result SqlError (ℕ × Db)
incremented id d none = err row_not_found
incremented id d (some u) =
    if leb i32_max u.failed_login_attempts
    then err out_of_range
    else ok (
      suc u.failed_login_attempts,
      update_user id (λ v. record v { failed_login_attempts = suc v.failed_login_attempts }) d,
    )

unfoldable pub increment_login_failure : Uuid → Action SqlError ℕ
unfolding statement find? update_user
increment_login_failure id = statement λ d. incremented id d (find? (λ u. u.id == id) d.users)

unfoldable pub lock_user : Uuid → Instant → Action SqlError Unit
unfolding execute update_user
lock_user id until =
    execute (update_user id λ u. record u { locked_until = some until; failed_login_attempts = 0 })

unfoldable pub reset_login_state : Uuid → Action SqlError Unit
unfolding execute update_user
reset_login_state id =
    execute (update_user id λ u. record u { failed_login_attempts = 0; locked_until = none })

unfoldable pub mark_email_verified : Uuid → Action SqlError Unit
unfolding execute update_user
mark_email_verified id = execute (update_user id λ u. record u { email_verified = true })

unfoldable pub update_password : Uuid → String → Action SqlError Unit
unfolding execute update_user
update_password id hash = execute (update_user id λ u. record u { password_hash = hash })

unfoldable pub revoke_all_user_refresh_tokens : Uuid → Action SqlError Unit
unfolding execute revoke_tokens_of
revoke_all_user_refresh_tokens user_id env = execute (revoke_tokens_of user_id env.now) env

-- A row of `email_verifications` or `password_resets`: the hash is the key.
unfoldable pub insert_token :
    OneTimeToken → List OneTimeToken → Db → Result SqlError (List OneTimeToken)
unfolding exists
insert_token t ts d =
    if exists (λ s. str_eq s.token_hash t.token_hash) ts
    then err unique_violation
    else if has_user t.user_id d
    then ok (ts ++ t ∷ [])
    else err foreign_key_violation

-- `token_hash = $1 AND consumed_at IS NULL AND expires_at > now()`
abbrev pub is_live : String → Instant → OneTimeToken → Bool
is_live token_hash now t =
    str_eq t.token_hash token_hash && is_none t.consumed_at && ltb now t.expires_at

-- `UPDATE … SET consumed_at = now() WHERE … RETURNING user_id`.
unfoldable pub consume_token :
    String → Instant → List OneTimeToken → Option Uuid × List OneTimeToken
unfolding find? update
consume_token token_hash now ts = (
  Option.map (λ t. t.user_id) (find? (is_live token_hash now) ts),
  update (is_live token_hash now) (λ t. record t { consumed_at = some now }) ts,
)

abbrev pub unconsumed : String → Uuid → Instant → OneTimeToken
unconsumed token_hash user_id expires_at = record {
  token_hash = token_hash;
  user_id = user_id;
  expires_at = expires_at;
  consumed_at = none;
}

abbrev pub with_verifications :
    Db → Result SqlError (List OneTimeToken) → Result SqlError (Unit × Db)
with_verifications d (ok ts) = ok (tt, record d { email_verifications = ts })
with_verifications d (err e) = err e

abbrev pub with_resets : Db → Result SqlError (List OneTimeToken) → Result SqlError (Unit × Db)
with_resets d (ok ts) = ok (tt, record d { password_resets = ts })
with_resets d (err e) = err e

unfoldable pub create_email_verification : String → Uuid → Instant → Action SqlError Unit
unfolding statement insert_token
create_email_verification token_hash user_id expires_at = statement λ d.
    with_verifications d
      (insert_token (unconsumed token_hash user_id expires_at) d.email_verifications d)

unfoldable pub consume_email_verification : String → Action SqlError (Option Uuid)
unfolding statement consume_token
consume_email_verification token_hash env =
    statement
      (λ d.
        let (uid, ts) = consume_token token_hash env.now d.email_verifications in
        ok (uid, record d { email_verifications = ts }))
      env

unfoldable pub create_password_reset : String → Uuid → Instant → Action SqlError Unit
unfolding statement insert_token
create_password_reset token_hash user_id expires_at =
    statement λ d.
      with_resets d (insert_token (unconsumed token_hash user_id expires_at) d.password_resets d)

unfoldable pub consume_password_reset : String → Action SqlError (Option Uuid)
unfolding statement consume_token
consume_password_reset token_hash env =
    statement
      (λ d.
        let (uid, ts) = consume_token token_hash env.now d.password_resets in
        ok (uid, record d { password_resets = ts }))
      env
