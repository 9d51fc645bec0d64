-- ===== src/Users/Updates.antt =====
-- The statements of src/repo.rs on users keep them sound.
use iam_rust_auth.Base.{
  ◌≡◌, refl, String, Bool, true, false, exists-nothing, leb, arith, find?, update, Option, some,
  none, suc, ℕ, ◌==◌,
}
use iam_rust_auth.Db.{Db, Uuid, Instant, UserRow}
use iam_rust_auth.World.{
  statement, execute, Within, Within-statement, Within-execute, Within-bind, Within-transaction, ok,
}
use iam_rust_auth.Repo
use iam_rust_auth.Repo.{
  set_config, insert_user_roles, default_assignments, i32_max, insert_user, mark_deleted,
  remove_user, update_user, incremented, new_user, delete_statements, revoke_tokens_of,
}
use iam_rust_auth.History.Elsewhere.{
  writing, set_config-Within, insert_user_roles-Within, insert_outbox-Within,
}
use iam_rust_auth.Users.Sound.{
  Sound, soundness, inconsistent, update-Sound, delete-Sound, append-Sound, found-Sound,
}
use iam_rust_auth.Users.Elsewhere.{soundness_ignores}

users_updated :
    (p : UserRow → Bool) (f : UserRow → UserRow)
    → ((u : UserRow) → (f u).id ≡ u.id)
    → ((u : UserRow) → (f u).email ≡ u.email)
    → ((u : UserRow) → p u ≡ true → inconsistent u ≡ false → inconsistent (f u) ≡ false)
    → Within soundness (execute λ d. record d { users = update p f d.users })
unfolding soundness
users_updated p f same mail kept =
    Within-execute {o = soundness} (λ d. record d { users = update p f d.users })
      λ d.
        update-Sound p (λ u. false) f d.users same mail (λ u e _. kept u e)
          (exists-nothing p d.users)

update_user-Within :
    (id : Uuid) (f : UserRow → UserRow)
    → ((u : UserRow) → (f u).id ≡ u.id)
    → ((u : UserRow) → (f u).email ≡ u.email)
    → ((u : UserRow) → inconsistent u ≡ false → inconsistent (f u) ≡ false)
    → Within soundness (execute (update_user id f))
unfolding update_user
update_user-Within id f same mail kept = users_updated (λ u. u.id == id) f same mail (λ u e. kept u)

pub lock_user-Within : (a : Uuid) (b : Instant) → Within soundness (Repo.lock_user a b)
unfolding Repo.lock_user
lock_user-Within a b = update_user-Within a _ (λ u. refl) (λ u. refl) (λ u h. ground arith)

pub reset_login_state-Within : (a : Uuid) → Within soundness (Repo.reset_login_state a)
unfolding Repo.reset_login_state
reset_login_state-Within a = update_user-Within a _ (λ u. refl) (λ u. refl) (λ u h. ground arith)

pub mark_email_verified-Within : (a : Uuid) → Within soundness (Repo.mark_email_verified a)
unfolding Repo.mark_email_verified
mark_email_verified-Within a = update_user-Within a _ (λ u. refl) (λ u. refl) (λ u h. h)

pub update_password-Within : (a : Uuid) (b : String) → Within soundness (Repo.update_password a b)
unfolding Repo.update_password
update_password-Within a b = update_user-Within a _ (λ u. refl) (λ u. refl) (λ u h. h)

pub set_totp_secret-Within : (a : Uuid) (b : String) → Within soundness (Repo.set_totp_secret a b)
unfolding Repo.set_totp_secret
set_totp_secret-Within a b = update_user-Within a _ (λ u. refl) (λ u. refl) (λ u h. ground arith)

pub disable_totp-Within : (a : Uuid) → Within soundness (Repo.disable_totp a)
unfolding Repo.disable_totp
disable_totp-Within a = update_user-Within a _ (λ u. refl) (λ u. refl) (λ u h. ground arith)

-- The count goes up where it fits its column, in the row found: there is no other of its id.
incremented-Sound :
    (id : Uuid) (d d' : Db) (n : ℕ) (found : Option UserRow)
    → find? (λ u. u.id == id) d.users ≡ found
    → incremented id d found ≡ ok (n, d')
    → Sound d.users
    → Sound d'.users
unfolding update_user
incremented-Sound id d d' n none f e s = absurd (ground arith)
incremented-Sound id d d' n (some u) f e s = ground (
  arith,
  update-Sound (λ v. v.id == id) (λ v. leb i32_max v.failed_login_attempts)
      (λ v. record v { failed_login_attempts = suc v.failed_login_attempts }) d.users (λ v. refl)
      (λ v. refl) (λ v a b c. ground arith),
  found-Sound id (λ v. leb i32_max v.failed_login_attempts) d.users u s f,
)

pub increment_login_failure-Within : (a : Uuid) → Within soundness (Repo.increment_login_failure a)
unfolding Repo.increment_login_failure soundness
increment_login_failure-Within a =
    Within-statement {o = soundness} (λ d. incremented a d (find? (λ u. u.id == a) d.users))
      λ d n d' e. incremented-Sound a d d' n (find? (λ u. u.id == a) d.users) refl e

insert_user-Within :
    (u : UserRow) → inconsistent u ≡ false → Within soundness (statement (insert_user u))
unfolding insert_user soundness
insert_user-Within u sound =
    Within-statement {o = soundness} (insert_user u)
      λ d a d' e. ground (arith, append-Sound u d.users sound)

mark_deleted-Within : (id : Uuid) (now : Instant) → Within soundness (execute (mark_deleted id now))
unfolding mark_deleted
mark_deleted-Within id now = users_updated _ _ (λ u. refl) (λ u. refl) (λ u p h. h)

remove_user-Within : (id : Uuid) → Within soundness (execute (remove_user id))
unfolding remove_user soundness
remove_user-Within id =
    Within-execute {o = soundness} (remove_user id) (λ d. delete-Sound (λ u. u.id == id) d.users)

pub create_user_with_role_event-Within :
    (id : Uuid) (e h r t p : String)
    → Within soundness (Repo.create_user_with_role_event id e h r t p)
unfolding Repo.create_user_with_role_event
create_user_with_role_event-Within id e h r t p = Within-transaction _ (
    Within-bind set_config _ (set_config-Within ⦃i = soundness_ignores⦄) λ _.
      Within-bind (statement (insert_user (new_user id e h))) _
        (insert_user-Within (new_user id e h) refl)
        λ _.
          Within-bind (statement λ d. insert_user_roles (default_assignments id r d) d) _
            (insert_user_roles-Within ⦃i = soundness_ignores⦄ (default_assignments id r))
            λ _. insert_outbox-Within ⦃i = soundness_ignores⦄ id t p)

undeleted-Within :
    (id : Uuid)
    → Within soundness (
        execute λ d. record d {
          users = update (λ u. u.id == id) (λ u. record u { deleted_at = none }) d.users;
        })
undeleted-Within id = users_updated (λ u. u.id == id) _ (λ u. refl) (λ u. refl) (λ u p h. h)

pub restore_user_event-Within :
    (id : Uuid) (t p : String) → Within soundness (Repo.restore_user_event id t p)
unfolding Repo.restore_user_event
restore_user_event-Within id t p = search (writing, undeleted-Within, soundness_ignores) depth 14

revoke_tokens_of-Within :
    (id : Uuid) (now : Instant) → Within soundness (execute (revoke_tokens_of id now))
unfolding revoke_tokens_of soundness
revoke_tokens_of-Within id now = Within-execute {o = soundness} (revoke_tokens_of id now) (λ d s. s)

delete_statements-Within : (id : Uuid) (hard : Bool) → Within soundness (delete_statements id hard)
delete_statements-Within id true = record { at = (remove_user-Within id).at }
delete_statements-Within id false = record {
  at = λ env w.
      (Within-bind (execute (mark_deleted id env.now)) (λ _. execute (revoke_tokens_of id env.now))
          (mark_deleted-Within id env.now) (λ _. revoke_tokens_of-Within id env.now)).at
        env w;
}

pub delete_user_event_soft-Within :
    (id : Uuid) (hard : Bool) (t p : String)
    → Within soundness (Repo.delete_user_event_soft id hard t p)
unfolding Repo.delete_user_event_soft
delete_user_event_soft-Within id hard t p =
    search (writing, delete_statements-Within, soundness_ignores) depth 10
