-- ===== src/Service/Account.antt =====
-- Account recovery, passwords and the audit trail (src/grpc.rs).
use Prim.Native.String
use iam_rust_auth.Base.{
  ℕ, ◌+◌, ◌*◌, String, Bool, true, Option, none, some, List, [], ◌∷◌, ◌++◌, map, ltb, if◌then◌else◌,
  format,
}
use iam_rust_auth.Base.Int.{ℤ, is_nonpos, to_ℕ, second}
use iam_rust_auth.Db.{Uuid, Instant, UserRow, AuditRow}
use iam_rust_auth.World.{
  Env, Status, unauthenticated, invalid_argument, pure, ok_or, require, refuse_if, attempt, ignore,
  modify, draw, ◌>>=◌, ◌>>◌,
}
use iam_rust_auth.Repo.{
  get_user_by_email, get_user_by_id, create_email_verification, consume_email_verification,
  mark_email_verified, create_password_reset, consume_password_reset, update_password,
  revoke_all_user_refresh_tokens, list_audit,
}
use iam_rust_auth.Service.Guards.{
  Rpc, MetadataMap, ask, db, hash_token, audit_as, gen_refresh_token, caller_uuid, require_perm,
  active_tenant,
}

pub record DevTokenResponse : Type 0 where
  pub success : Bool
  pub dev_token : String

-- `self.mail.send(…)`
abbrev pub send_mail : String → String → String → Rpc Unit
send_mail to subject body =
    modify
      λ w. record w { mails = w.mails ++ record { to = to; subject = subject; body = body } ∷ [] }

-- `Utc::now() + Duration::hours(h)`
abbrev pub hours_from : Instant → ℕ → Instant
hours_from now h = now + h * 3600 * second

abbrev pub dev_response : Env → String → DevTokenResponse
dev_response env token = record {
  success = true;
  dev_token = if env.is_production then "" else token;
}

-- Whoever is unknown, or cannot be looked up, gets the answer of a known user in production.
abbrev pub nobody : DevTokenResponse
nobody = record { success = true; dev_token = "" }

-- `Ok(Some(u))`, as against all else.
abbrev pub known : Option (Option UserRow) → Option UserRow
known none = none
known (some found) = found

abbrev pub verification_for : Option UserRow → Rpc DevTokenResponse
verification_for none = pure nobody
verification_for (some u) = do
  env ← ask
  token ← gen_refresh_token
  db "failed to create verification"
      (create_email_verification (hash_token env token) u.id (hours_from env.now 24))
  send_mail u.email "Verify your email" (format ("Your email verification token: " ∷ token ∷ []))
  audit_as (env.show_uuid u.id) u.email "email.verification_requested" "" "" none
  pure (dev_response env token)

unfoldable pub request_email_verification : String → Rpc DevTokenResponse
unfolding hash_token
request_email_verification email = do
  found ← attempt (get_user_by_email email)
  verification_for (known found)

unfoldable pub verify_email : String → Rpc Bool
unfolding hash_token
verify_email token = do
  env ← ask
  owner ← db "db error" (consume_email_verification (hash_token env token))
  uid ← ok_or (invalid_argument "invalid or expired token") owner
  db "failed to verify email" (mark_email_verified uid)
  audit_as (env.show_uuid uid) "" "email.verified" "" "" none
  pure true

abbrev pub reset_for : Option UserRow → Rpc DevTokenResponse
reset_for none = pure nobody
reset_for (some u) = do
  env ← ask
  token ← gen_refresh_token
  db "failed to create reset token"
      (create_password_reset (hash_token env token) u.id (hours_from env.now 1))
  send_mail u.email "Reset your password" (format ("Your password reset token: " ∷ token ∷ []))
  audit_as (env.show_uuid u.id) u.email "password.reset_requested" "" "" none
  pure (dev_response env token)

unfoldable pub request_password_reset : String → Rpc DevTokenResponse
unfolding hash_token
request_password_reset email = do found ← attempt (get_user_by_email email); reset_for (known found)

-- `new_password.len() < 8`, a length in bytes.
abbrev pub is_short : String → Bool
is_short password = ltb (String.len password) 8

-- The new hash, and the end of every session: what a reset and a change have in common.
unfoldable pub set_password : Uuid → String → Rpc Unit
set_password uid new_password = do
  hashed ← draw (λ e n. e.hash_password n new_password)
  hash ← ok_or (Status.internal "failed to hash password") hashed
  db "failed to update password" (update_password uid hash)
  ignore (revoke_all_user_refresh_tokens uid)

unfoldable pub reset_password : String → String → Rpc Bool
unfolding hash_token set_password
reset_password token new_password = do
  env ← ask
  refuse_if (is_short new_password) (invalid_argument "password must be at least 8 characters")
  owner ← db "db error" (consume_password_reset (hash_token env token))
  uid ← ok_or (invalid_argument "invalid or expired token") owner
  set_password uid new_password
  audit_as (env.show_uuid uid) "" "password.reset" "" "" none
  pure true

unfoldable pub change_password : MetadataMap → String → String → Rpc Bool
unfolding set_password
change_password md old_password new_password = do
  env ← ask
  uid ← caller_uuid md
  refuse_if (is_short new_password) (invalid_argument "password must be at least 8 characters")
  found ← db "db error" (get_user_by_id uid)
  u ← ok_or (unauthenticated "user not found") found
  require (env.verify_password u.password_hash old_password)
      (unauthenticated "current password is incorrect")
  set_password uid new_password
  audit_as (env.show_uuid uid) u.email "password.change" "" "" none
  pure true

-- `if limit <= 0 || limit > 200 { limit = 50 }`
unfoldable pub page_size : ℤ → ℕ
page_size limit = if is_nonpos limit then 50 else if ltb 200 (to_ℕ limit) then 50 else to_ℕ limit

pub record AuditEvent : Type 0 where
  pub id : ℕ
  pub actor_id : String
  pub actor_email : String
  pub action : String
  pub target : String
  pub detail : String
  pub created_at : String

abbrev pub audit_event : Env → AuditRow → AuditEvent
audit_event env e = record {
  id = e.id;
  actor_id = e.actor_id;
  actor_email = e.actor_email;
  action = e.action;
  target = e.target;
  detail = e.detail;
  created_at = env.rfc3339 e.created_at;
}

unfoldable pub list_audit_events : MetadataMap → ℤ → Rpc (List AuditEvent)
unfolding page_size
list_audit_events md limit = do
  env ← ask
  require_perm md "audit:read"
  tenant ← active_tenant md
  rows ← db "failed to list audit events" (list_audit tenant (page_size limit))
  pure (map (audit_event env) rows)
