-- ===== src/History/Idle.antt =====
-- The statements of src/repo.rs on users and their second factor leave the ledger as it is.
use iam_rust_auth.Base.{◌≡◌, refl, sym, ap, subst, String, Bool, arith}
use iam_rust_auth.Db.{Db, Uuid, Instant, UserRow}
use iam_rust_auth.World.{
  Action, statement, execute, Env, World, Within, Within-statement, Within-execute,
}
use iam_rust_auth.Repo
use iam_rust_auth.Repo.{insert_user, mark_deleted, update_user, incremented}
use iam_rust_auth.History.Ledger.{ledger, history, Follows, Follows-refl}
use iam_rust_auth.History.Elsewhere.{Ignores, writing}

same_ledger :
    (who : Uuid → Bool) (d d' : Db) → ledger d' ≡ ledger d → Follows who (ledger d) (ledger d')
same_ledger who d d' e = subst (λ l. Follows who (ledger d) l) (sym e) (Follows-refl who (ledger d))

pub history_ignores : (who : Uuid → Bool) → Ignores (history who)
unfolding history
history_ignores who = record { same = λ d d' e. same_ledger who d d' (ap (λ v. v.0) e) }

module _ {E A : Type 0} (who : Uuid → Bool) where
  idle :
      (m : Action E A)
      → ((env : Env) (w : World) → ledger (m env w).1.db ≡ ledger w.db)
      → Within (history who) m
  unfolding history
  idle m h = record { at = λ env w. same_ledger who w.db (m env w).1.db (h env w) }

Within-ledger :
    (who : Uuid → Bool) (f : Db → Db)
    → ((d : Db) → ledger (f d) ≡ ledger d)
    → Within (history who) (execute f)
unfolding history
Within-ledger who f h = Within-execute {o = history who} f λ d. same_ledger who d (f d) (h d)

module _ (who : Uuid → Bool) where
  pub update_user-Within :
      (id : Uuid) (f : UserRow → UserRow) → Within (history who) (execute (update_user id f))
  unfolding update_user
  update_user-Within id f = Within-ledger who (update_user id f) (λ d. refl)

  insert_user-Within : (r : UserRow) → Within (history who) (statement (insert_user r))
  unfolding insert_user history
  insert_user-Within r =
      Within-statement {o = history who} (insert_user r)
        λ d a d' e. same_ledger who d d' (ground arith)

  pub mark_deleted-Within :
      (id : Uuid) (now : Instant) → Within (history who) (execute (mark_deleted id now))
  unfolding mark_deleted
  mark_deleted-Within id now = Within-ledger who (mark_deleted id now) (λ d. refl)

  pub create_user_with_role_event-Within :
      (id : Uuid) (e h r t p : String)
      → Within (history who) (Repo.create_user_with_role_event id e h r t p)
  unfolding Repo.create_user_with_role_event
  create_user_with_role_event-Within id e h r t p =
      search (writing, insert_user-Within, history_ignores who) depth 14

  pub restore_user_event-Within :
      (id : Uuid) (t p : String) → Within (history who) (Repo.restore_user_event id t p)
  unfolding Repo.restore_user_event
  restore_user_event-Within id t p = search (writing, Within-ledger, history_ignores who) depth 14

  pub increment_login_failure-Within :
      (a : Uuid) → Within (history who) (Repo.increment_login_failure a)
  unfolding Repo.increment_login_failure statement update_user
  increment_login_failure-Within a =
      idle who (Repo.increment_login_failure a) (λ env w. ground arith)

  pub lock_user-Within : (a : Uuid) (b : Instant) → Within (history who) (Repo.lock_user a b)
  unfolding Repo.lock_user
  lock_user-Within a b = update_user-Within _ _

  pub reset_login_state-Within : (a : Uuid) → Within (history who) (Repo.reset_login_state a)
  unfolding Repo.reset_login_state
  reset_login_state-Within a = update_user-Within _ _

  pub mark_email_verified-Within : (a : Uuid) → Within (history who) (Repo.mark_email_verified a)
  unfolding Repo.mark_email_verified
  mark_email_verified-Within a = update_user-Within _ _

  pub update_password-Within :
      (a : Uuid) (b : String) → Within (history who) (Repo.update_password a b)
  unfolding Repo.update_password
  update_password-Within a b = update_user-Within _ _

  pub set_totp_secret-Within :
      (a : Uuid) (b : String) → Within (history who) (Repo.set_totp_secret a b)
  unfolding Repo.set_totp_secret
  set_totp_secret-Within a b = update_user-Within _ _

  pub enable_totp-Within : (a : Uuid) → Within (history who) (Repo.enable_totp a)
  unfolding Repo.enable_totp
  enable_totp-Within a = update_user-Within _ _

  pub disable_totp-Within : (a : Uuid) → Within (history who) (Repo.disable_totp a)
  unfolding Repo.disable_totp
  disable_totp-Within a = update_user-Within _ _
