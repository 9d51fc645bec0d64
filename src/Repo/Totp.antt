-- ===== src/Repo/Totp.antt =====
-- TOTP secrets and recovery codes (src/repo.rs).
use iam_rust_auth.Base.{
  String, Bool, true, false, ◌&&◌, none, some, [], ◌∷◌, ◌++◌, ◌==◌, if◌then◌else◌, is_none, exists,
  update, delete, str_eq,
}
use iam_rust_auth.Db.{Uuid, RecoveryCode}
use iam_rust_auth.World.{Action, ok, err, SqlError, foreign_key_violation, statement, execute}
use iam_rust_auth.Repo.Tables.{has_user}
use iam_rust_auth.Repo.Account.{update_user}

unfoldable pub set_totp_secret : Uuid → String → Action SqlError Unit
unfolding execute update_user
set_totp_secret id secret =
    execute (update_user id λ u. record u { totp_secret = some secret; totp_enabled = false })

unfoldable pub enable_totp : Uuid → Action SqlError Unit
unfolding execute update_user
enable_totp id = execute (update_user id λ u. record u { totp_enabled = true })

unfoldable pub disable_totp : Uuid → Action SqlError Unit
unfolding execute update_user
disable_totp id =
    execute (update_user id λ u. record u { totp_secret = none; totp_enabled = false })

abbrev pub unused_code : Uuid → String → RecoveryCode
unused_code user_id code_hash = record { user_id = user_id; code_hash = code_hash; used_at = none }

unfoldable pub insert_recovery_code : Uuid → String → Action SqlError Unit
unfolding statement exists
insert_recovery_code user_id code_hash = statement λ d.
    if has_user user_id d
    then ok (
      tt,
      record d {
        totp_recovery_codes = d.totp_recovery_codes ++ unused_code user_id code_hash ∷ [];
      },
    )
    else err foreign_key_violation

unfoldable pub delete_recovery_codes : Uuid → Action SqlError Unit
unfolding execute delete
delete_recovery_codes user_id =
    execute λ d. record d {
      totp_recovery_codes = delete (λ c. c.user_id == user_id) d.totp_recovery_codes;
    }

-- `user_id = $1 AND code_hash = $2 AND used_at IS NULL`
abbrev pub is_unused : Uuid → String → RecoveryCode → Bool
is_unused user_id code_hash c =
    c.user_id == user_id && str_eq c.code_hash code_hash && is_none c.used_at

-- The UPDATE returns an id where it has changed a row.
unfoldable pub consume_recovery_code : Uuid → String → Action SqlError Bool
unfolding statement exists update
consume_recovery_code user_id code_hash env =
    statement
      (λ d. ok (
        exists (is_unused user_id code_hash) d.totp_recovery_codes,
        record d {
          totp_recovery_codes =
              update (is_unused user_id code_hash) (λ c. record c { used_at = some env.now })
                d.totp_recovery_codes;
        },
      ))
      env
