-- ===== src/Service/Login.antt =====
-- Passwords, lockout and the second factor (src/grpc.rs, `login` and `login_totp`).
use iam_rust_auth.Base.{
  ℕ, String, Bool, true, false, not, ◌&&◌, Option, none, some, ltb, if◌then◌else◌, is_none, is_some,
  str_eq, Result, ok, err,
}
use iam_rust_auth.Base.Int.{pos, is_pos, reaches, add_seconds}
use iam_rust_auth.Db.{Uuid, Instant, UserRow}
use iam_rust_auth.World.{
  unauthenticated, internal, pure, fail, ok_or, require, refuse_if, attempt, ignore, when, draw,
  ◌>>=◌, ◌>>◌,
}
use iam_rust_auth.TotpSecret.{CryptError, decrypt}
use iam_rust_auth.Totp.{validate}
use iam_rust_auth.Repo.{
  get_user_by_email, get_user_by_id, increment_login_failure, lock_user, reset_login_state,
  consume_recovery_code,
}
use iam_rust_auth.Service.Guards.{Rpc, ask, db, hash_token, audit_as, parse_uuid}
use iam_rust_auth.Service.Tokens.{TokenPair, issue_for_active_tenant}

-- `MFA_TOKEN_TTL_SECS`
abbrev pub mfa_token_ttl_secs : ℕ
mfa_token_ttl_secs = 300

-- `until > Utc::now()`
abbrev pub is_locked : Instant → UserRow → Bool
is_locked now u = elim u.locked_until [ none ↦ false | some until ↦ ltb now until ]

abbrev pub lock_if_reached : Uuid → String → String → Option ℕ → Rpc Unit
lock_if_reached id email detail none = pure tt
lock_if_reached id email detail (some n) = do
  env ← ask
  when (reaches n env.login_max_failures) do
    ignore (lock_user id (add_seconds env.now env.login_lockout_secs))
    audit_as (env.show_uuid id) email "login.locked" "" detail none

-- The lines that `login` and `login_totp` share after a failed check.
unfoldable pub count_failure : Uuid → String → String → Rpc Unit
count_failure id email detail = do
  env ← ask
  when (is_pos env.login_max_failures)
      do n ← attempt (increment_login_failure id); lock_if_reached id email detail n

abbrev pub mfa_pair : String → TokenPair
mfa_pair mfa = record {
  access_token = "";
  refresh_token = "";
  expires_in = pos 0;
  token_type = "Bearer";
  mfa_required = true;
  mfa_token = mfa;
}

-- `login` from the point where the password is right.
unfoldable pub accept_password : UserRow → Rpc TokenPair
accept_password u = do
  env ← ask
  refuse_if (env.require_email_verification && not u.email_verified)
      (unauthenticated "email not verified")
  refuse_if (is_some u.deleted_at) (unauthenticated "invalid credentials")
  ignore (reset_login_state u.id)
  if u.totp_enabled
      then (do
        audit_as (env.show_uuid u.id) u.email "login.mfa_challenge" "" "" none
        signed ← draw (λ e n. e.issue_mfa_jwt n (e.show_uuid u.id) mfa_token_ttl_secs)
        mfa ← ok_or (internal "failed to issue mfa token") signed
        pure (mfa_pair mfa))
      else (do
        audit_as (env.show_uuid u.id) u.email "login.success" "" "" none
        issue_for_active_tenant u.id u.email)

-- `login` for a user that exists.
unfoldable pub login_user : UserRow → String → Rpc TokenPair
unfolding count_failure accept_password
login_user u password = do
  env ← ask
  refuse_if (is_locked env.now u) (unauthenticated "account temporarily locked, try again later")
  if env.verify_password u.password_hash password then accept_password u else (do
    count_failure u.id u.email "too many failed attempts"
    audit_as (env.show_uuid u.id) u.email "login.failure" "" "" none
    fail (unauthenticated "invalid credentials"))

abbrev pub login_found : Option UserRow → String → Rpc TokenPair
login_found none password = fail (unauthenticated "invalid credentials")
login_found (some u) password = login_user u password

-- For an unknown user the source also verifies the password against a dummy hash, for its duration.
unfoldable pub login : String → String → Rpc TokenPair
unfolding login_user
login email password = do
  found ← db "db error" (get_user_by_email email)
  login_found found password

-- `.filter(|u| u.deleted_at.is_none() && u.totp_enabled && u.totp_secret.is_some())`, with the
-- secret that the handler unwraps.
abbrev pub with_secret : UserRow → Option String → Option (UserRow × String)
with_secret u none = none
with_secret u (some s) = if is_none u.deleted_at && u.totp_enabled then some (u, s) else none

abbrev pub mfa_user : Option UserRow → Option (UserRow × String)
mfa_user none = none
mfa_user (some u) = with_secret u u.totp_secret

-- `decrypt(…).unwrap_or_default()`
abbrev pub text_or_empty : Result CryptError String → String
text_or_empty (ok s) = s
text_or_empty (err _) = ""

-- `ok || self.repo.consume_recovery_code(…)`: a code that is right spends none.
abbrev pub or_recovery_code : Bool → Uuid → String → Rpc Bool
or_recovery_code true uid code_hash = pure true
or_recovery_code false uid code_hash = db "db error" (consume_recovery_code uid code_hash)

unfoldable pub check_mfa : Uuid → UserRow → String → String → Rpc TokenPair
unfolding count_failure hash_token
check_mfa uid u stored given = do
  env ← ask
  refuse_if (is_locked env.now u) (unauthenticated "account temporarily locked, try again later")
  right ←
      or_recovery_code
        (validate env.totp given (text_or_empty (decrypt env.crypto env.totp_enc stored))) uid
        (hash_token env given)
  if right
      then (do
        ignore (reset_login_state uid)
        audit_as (env.show_uuid uid) u.email "login.success" "" "2fa" none
        issue_for_active_tenant uid u.email)
      else (do
        count_failure uid u.email "too many failed mfa attempts"
        audit_as (env.show_uuid uid) u.email "login.mfa_failure" "" "" none
        fail (unauthenticated "invalid code"))

unfoldable pub login_totp : String → String → Rpc TokenPair
unfolding check_mfa
login_totp mfa_token given = do
  env ← ask
  claims ← ok_or (unauthenticated "invalid or expired mfa token") (env.parse_jwt mfa_token)
  require (str_eq claims.purpose "mfa") (unauthenticated "invalid mfa token")
  uid ← parse_uuid (unauthenticated "invalid mfa token") claims.sub
  found ← db "db error" (get_user_by_id uid)
  (u, stored) ← ok_or (unauthenticated "invalid credentials") (mfa_user found)
  check_mfa uid u stored given
