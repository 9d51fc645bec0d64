-- ===== src/Users/Elsewhere.antt =====
-- The statements of src/repo.rs that leave the users as they are.
use iam_rust_auth.Base.{◌≡◌, sym, ap, subst, String, Option, arith}
use iam_rust_auth.Db.{Db, Uuid, Instant, AuthorizationCode}
use iam_rust_auth.World.{Action, statement, execute, Env, World, Within}
use iam_rust_auth.Repo
use iam_rust_auth.Repo.{
  insert_refresh_token, insert_token, consume_token, insert_authorization_code, revoke_tokens_of,
}
use iam_rust_auth.History.Elsewhere.{Ignores}
use iam_rust_auth.Users.Sound.{Sound, soundness}

pub same_users : (d d' : Db) → d'.users ≡ d.users → Sound d.users → Sound d'.users
same_users d d' e s = subst Sound (sym e) s

pub soundness_ignores : Ignores soundness
unfolding soundness
soundness_ignores = record { same = λ d d' e. same_users d d' (ap (λ v. v.1) e) }

untouched :
    {E A : Type 0} (m : Action E A)
    → ((env : Env) (w : World) → (m env w).1.db.users ≡ w.db.users)
    → Within soundness m
unfolding soundness
untouched m h = record { at = λ env w. same_users w.db (m env w).1.db (h env w) }

pub insert_audit-Within :
    (a : String) (b : String) (c : String) (d : String) (e : String) (f : Option Uuid)
    → Within soundness (Repo.insert_audit a b c d e f)
unfolding Repo.insert_audit statement execute
insert_audit-Within a b c d e f = untouched (Repo.insert_audit a b c d e f) (λ env w. ground arith)

pub revoke_access_jti-Within :
    (a : String) (b : Instant) → Within soundness (Repo.revoke_access_jti a b)
unfolding Repo.revoke_access_jti statement execute
revoke_access_jti-Within a b = untouched (Repo.revoke_access_jti a b) (λ env w. ground arith)

pub create_refresh_token-Within :
    (a : Uuid) (b : String) (c : Instant) (d : Uuid) (e : Option Uuid)
    → Within soundness (Repo.create_refresh_token a b c d e)
unfolding Repo.create_refresh_token statement execute insert_refresh_token
create_refresh_token-Within a b c d e =
    untouched (Repo.create_refresh_token a b c d e) (λ env w. ground arith)

pub rotate_refresh_token-Within :
    (a : String) (b : String) → Within soundness (Repo.rotate_refresh_token a b)
unfolding Repo.rotate_refresh_token statement execute
rotate_refresh_token-Within a b = untouched (Repo.rotate_refresh_token a b) (λ env w. ground arith)

pub revoke_refresh_token-Within : (a : String) → Within soundness (Repo.revoke_refresh_token a)
unfolding Repo.revoke_refresh_token statement execute
revoke_refresh_token-Within a = untouched (Repo.revoke_refresh_token a) (λ env w. ground arith)

pub revoke_all_user_refresh_tokens-Within :
    (a : Uuid) → Within soundness (Repo.revoke_all_user_refresh_tokens a)
unfolding Repo.revoke_all_user_refresh_tokens statement execute revoke_tokens_of
revoke_all_user_refresh_tokens-Within a =
    untouched (Repo.revoke_all_user_refresh_tokens a) (λ env w. ground arith)

pub claim_code-Within : (a : String) → Within soundness (Repo.claim_code a)
unfolding Repo.claim_code statement execute
claim_code-Within a = untouched (Repo.claim_code a) (λ env w. ground arith)

pub create_password_reset-Within :
    (a : String) (b : Uuid) (c : Instant) → Within soundness (Repo.create_password_reset a b c)
unfolding Repo.create_password_reset statement execute insert_token
create_password_reset-Within a b c =
    untouched (Repo.create_password_reset a b c) (λ env w. ground arith)

pub create_email_verification-Within :
    (a : String) (b : Uuid) (c : Instant) → Within soundness (Repo.create_email_verification a b c)
unfolding Repo.create_email_verification statement execute insert_token
create_email_verification-Within a b c =
    untouched (Repo.create_email_verification a b c) (λ env w. ground arith)

pub consume_password_reset-Within : (a : String) → Within soundness (Repo.consume_password_reset a)
unfolding Repo.consume_password_reset statement execute consume_token
consume_password_reset-Within a = untouched (Repo.consume_password_reset a) (λ env w. ground arith)

pub consume_email_verification-Within :
    (a : String) → Within soundness (Repo.consume_email_verification a)
unfolding Repo.consume_email_verification statement execute consume_token
consume_email_verification-Within a =
    untouched (Repo.consume_email_verification a) (λ env w. ground arith)

pub insert_authorization_code-Within :
    (c : AuthorizationCode) → Within soundness (statement (insert_authorization_code c))
unfolding insert_authorization_code statement
insert_authorization_code-Within c =
    untouched (statement (insert_authorization_code c)) (λ env w. ground arith)
