-- ===== src/SignIn/Lockout.antt =====
-- Locking an account (src/grpc.rs, `login`, `login_totp`; src/repo.rs, `lock_user`).
use iam_rust_auth.Base.{
  ℕ, suc, ◌≡◌, refl, String, true, false, none, some, List, arith, find?, str_eq, find?-update,
  ==_iff, ap, ◌∙◌, if◌then◌else◌, update, leb, ◌==◌,
}
use iam_rust_auth.Base.Int.{reaches, is_pos, add_seconds}
use iam_rust_auth.Db.{Uuid, UserRow}
use iam_rust_auth.World.{Env, World, ok, err, unauthenticated, query, statement, execute}
use iam_rust_auth.Repo.{
  get_user_by_email, increment_login_failure, lock_user, update_user, insert_audit, i32_max,
  reset_login_state,
}
use iam_rust_auth.Service.{
  TokenPair, login, login_user, is_locked, accept_password, count_failure, audit_as,
}
use iam_rust_auth.SignIn.Password.{user_of_email}

-- A locked account, where the lookup does not fail, is refused whatever the password, and nothing but
-- the count of statements changes.
pub login_locked :
    (email password : String) (env : Env) (w : World) (u : UserRow)
    → env.db_fails w.calls ≡ false
    → user_of_email w.db email ≡ some u
    → is_locked env.now u ≡ true
    → login email password env w ≡ (
      err (unauthenticated "account temporarily locked, try again later"),
      record w { calls = suc w.calls },
    )
unfolding login get_user_by_email query statement login_user
login_locked email password env w u up e locked = ground (arith)

-- The row of a user after one more failure: the counter rises, or, where it reaches the threshold,
-- the account is locked for the configured time and the counter starts again.
abbrev pub failed_row : Env → ℕ → UserRow → UserRow
failed_row env n v =
    if reaches (suc n) env.login_max_failures
    then record v {
      locked_until = some (add_seconds env.now env.login_lockout_secs);
      failed_login_attempts = 0;
    }
    else record v { failed_login_attempts = suc v.failed_login_attempts }

found_updated :
    (email : String) (id : Uuid) (f : UserRow → UserRow) (us : List UserRow) (u : UserRow)
    → ((v : UserRow) → (f v).email ≡ v.email)
    → find? (λ v. str_eq v.email email) us ≡ some u
    → u.id ≡ id
    → find? (λ v. str_eq v.email email) (update (λ v. v.id == id) f us) ≡ some (f u)
found_updated email id f us u keeps e same =
    find?-update (λ (v : UserRow). str_eq v.email email) (λ v. v.id == id) f us
      (λ v. ap (λ s. str_eq s email) (keeps v))
    ∙ rw e (ground (arith, ==_iff u.id id))

bumped : UserRow → UserRow
bumped v = record v { failed_login_attempts = suc v.failed_login_attempts }

count_failure-row :
    (email detail : String) (env : Env) (w : World) (u : UserRow)
    → ((n : ℕ) → env.db_fails n ≡ false)
    → user_of_email w.db email ≡ some u
    → find? (λ v. v.id == u.id) w.db.users ≡ some u
    → is_pos env.login_max_failures ≡ true
    → leb i32_max u.failed_login_attempts ≡ false
    → user_of_email (count_failure u.id u.email detail env w).1.db email
      ≡ some (failed_row env u.failed_login_attempts u)
unfolding count_failure execute statement increment_login_failure lock_user update_user audit_as
    insert_audit bumped
count_failure-row email detail env w u up e key on small =
    let us₁ : List UserRow = update (λ v. v.id == u.id) bumped w.db.users in
    let u₁ : UserRow = bumped u in
    let lock : UserRow → UserRow = (λ v. record v {
      locked_until = some (add_seconds env.now env.login_lockout_secs);
      failed_login_attempts = 0;
    }) in
    ground (
      arith,
      up w.calls,
      up (suc w.calls),
      found_updated email u.id bumped w.db.users u (λ v. refl) e refl,
      found_updated email u.id lock us₁ u₁ (λ v. refl)
          (found_updated email u.id bumped w.db.users u (λ v. refl) e refl) refl,
    )

-- A wrong password for a user that is not locked is refused and, with no statement failing, a
-- threshold set, the counter in range and no other row of the user's id before it, counts in the
-- user's row: the counter rises by one, or reaches the threshold and locks the account.
pub login_failure :
    (email password : String) (env : Env) (w : World) (u : UserRow)
    → ((n : ℕ) → env.db_fails n ≡ false)
    → user_of_email w.db email ≡ some u
    → find? (λ v. v.id == u.id) w.db.users ≡ some u
    → is_pos env.login_max_failures ≡ true
    → leb i32_max u.failed_login_attempts ≡ false
    → is_locked env.now u ≡ false
    → env.verify_password u.password_hash password ≡ false
    → let (r, w') = login email password env w in
      (r ≡ err (unauthenticated "invalid credentials"))
      × (user_of_email w'.db email ≡ some (failed_row env u.failed_login_attempts u))
unfolding login get_user_by_email query statement login_user audit_as execute insert_audit
login_failure email password env w u up e key on small free wrong = ground (
  arith,
  up w.calls,
  count_failure-row email "too many failed attempts" env (record w { calls = suc w.calls }) u up e
      key on small,
)

-- The password step of a user with a second factor, where it succeeds and no statement fails,
-- leaves the user's row with no failure counted and no lock.
pub login_clears :
    (email password : String) (env : Env) (w w' : World) (pair : TokenPair) (u : UserRow)
    → ((n : ℕ) → env.db_fails n ≡ false)
    → user_of_email w.db email ≡ some u
    → u.totp_enabled ≡ true
    → login email password env w ≡ (ok pair, w')
    → user_of_email w'.db email ≡ some (record u { failed_login_attempts = 0; locked_until = none })
unfolding login get_user_by_email query statement login_user accept_password execute
    reset_login_state update_user audit_as insert_audit
login_clears email password env w w' pair u up e on h = ground (
  arith,
  up w.calls,
  up (suc w.calls),
  found_updated email u.id (λ v. record v { failed_login_attempts = 0; locked_until = none })
      w.db.users u (λ v. refl) e refl,
)
