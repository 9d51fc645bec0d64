-- ===== src/Service/Mfa.antt =====
-- Enrolment, activation and removal of the second factor (src/grpc.rs).
use iam_rust_auth.Base.{
  String, Bool, true, false, Option, none, some, List, [], ◌∷◌, if◌then◌else◌, Result, ok, err,
}
use iam_rust_auth.Db.{Uuid, UserRow}
use iam_rust_auth.World.{
  Env, unauthenticated, not_found, failed_precondition, internal, pure, ok_or, require, refuse_if,
  ignore, draw, ◌>>=◌, ◌>>◌,
}
use iam_rust_auth.TotpSecret.{CryptError, encrypt, decrypt, nonce_len}
use iam_rust_auth.Totp.{generate, validate, generate_recovery_codes}
use iam_rust_auth.Repo.{
  get_user_by_id, set_totp_secret, delete_recovery_codes, insert_recovery_code, enable_totp,
  disable_totp,
}
use iam_rust_auth.Service.Guards.{Rpc, MetadataMap, ask, db, hash_token, audit, caller_uuid}
use iam_rust_auth.Service.Login.{or_recovery_code}

pub record Enrolment : Type 0 where
  pub secret : String
  pub otpauth_uri : String
  pub recovery_codes : List String

-- `r.ok()`
abbrev pub result_ok : {A : Type 0} → Result CryptError A → Option A
result_ok (ok a) = some a
result_ok (err _) = none

abbrev pub own_user : Uuid → Rpc UserRow
own_user uid = do
  found ← db "db error" (get_user_by_id uid)
  ok_or (not_found "user not found") found

-- The loop over the recovery codes: the first that cannot be stored ends it.
unfoldable pub store_codes : Uuid → List String → Rpc Unit
unfolding hash_token
store_codes uid [] = pure tt
store_codes uid (c ∷ cs) = do
  env ← ask
  db "failed to store recovery code" (insert_recovery_code uid (hash_token env c))
  store_codes uid cs

unfoldable pub enroll_totp : MetadataMap → Rpc Enrolment
unfolding store_codes
enroll_totp md = do
  env ← ask
  uid ← caller_uuid md
  u ← own_user uid
  refuse_if u.totp_enabled (failed_precondition "2FA is already enabled; disable it first")
  bytes ← draw (λ e n. e.totp.generate_secret n)
  secret ← ok_or (internal "failed to generate secret") (generate env.totp bytes u.email)
  recovery ← generate_recovery_codes 10
  nonce ← draw (λ e n. e.random_bytes n nonce_len)
  stored ←
      ok_or (internal "failed to encrypt secret")
        (result_ok (encrypt env.crypto env.totp_enc nonce secret.base32))
  db "failed to store secret" (set_totp_secret uid stored)
  ignore (delete_recovery_codes uid)
  store_codes uid recovery
  audit md "totp.enroll" "" ""
  pure (record {
    secret = secret.base32;
    otpauth_uri = secret.otpauth_uri;
    recovery_codes = recovery;
  })

unfoldable pub get_totp_status : MetadataMap → Rpc Bool
get_totp_status md = do uid ← caller_uuid md; u ← own_user uid; pure u.totp_enabled

unfoldable pub activate_totp : MetadataMap → String → Rpc Bool
activate_totp md given = do
  env ← ask
  uid ← caller_uuid md
  u ← own_user uid
  stored ← ok_or (failed_precondition "no pending enrollment; call EnrollTotp first") u.totp_secret
  secret ←
      ok_or (internal "failed to read secret") (result_ok (decrypt env.crypto env.totp_enc stored))
  require (validate env.totp given secret) (unauthenticated "invalid code")
  db "failed to enable 2FA" (enable_totp uid)
  audit md "totp.activate" "" ""
  pure true

-- `and_then(decrypt).map(validate).unwrap_or(false)`
abbrev pub validates : Env → String → Option String → Bool
validates env given none = false
validates env given (some plain) = validate env.totp given plain

abbrev pub secret_validates : Env → String → Option String → Bool
secret_validates env given none = false
secret_validates env given (some s) =
    validates env given (result_ok (decrypt env.crypto env.totp_enc s))

abbrev pub remove_totp : MetadataMap → Uuid → Rpc Bool
remove_totp md uid = do
  db "failed to disable 2FA" (disable_totp uid)
  ignore (delete_recovery_codes uid)
  audit md "totp.disable" "" ""
  pure true

unfoldable pub disable_enabled : MetadataMap → Uuid → UserRow → String → Rpc Bool
unfolding hash_token
disable_enabled md uid u given = do
  env ← ask
  right ← or_recovery_code (secret_validates env given u.totp_secret) uid (hash_token env given)
  require right (unauthenticated "invalid code")
  remove_totp md uid

-- The handler `disable_totp`.
unfoldable pub disable_second_factor : MetadataMap → String → Rpc Bool
unfolding disable_enabled
disable_second_factor md given = do
  uid ← caller_uuid md
  u ← own_user uid
  if u.totp_enabled then disable_enabled md uid u given else pure true
