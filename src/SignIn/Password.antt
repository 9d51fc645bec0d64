-- ===== src/SignIn/Password.antt =====
-- The password step (src/grpc.rs, `login`).
use iam_rust_auth.Base.{
  suc, ◌≡◌, inl, inr, String, true, false, not, ◌&&◌, Option, none, some, arith, find?, is_some,
  str_eq, Option-cases, Bool-cases, ◌⊎◌,
}
use iam_rust_auth.Db.{Db, UserRow}
use iam_rust_auth.World.{Env, World, ok, query, statement, execute}
use iam_rust_auth.Repo.{
  get_user_by_email, reset_login_state, update_user, increment_login_failure, lock_user,
  insert_audit,
}
use iam_rust_auth.Service.{
  TokenPair, login, login_user, accept_password, is_locked, count_failure, audit_as,
}

abbrev pub user_of_email : Db → String → Option UserRow
user_of_email d email = find? (λ u. str_eq u.email email) d.users

-- What the row of a user must say for the password to be accepted.
abbrev pub IsAcceptable : Env → String → UserRow → Type 0
IsAcceptable env password u =
    (env.verify_password u.password_hash password ≡ true)
    × (is_locked env.now u ≡ false)
    × (is_some u.deleted_at ≡ false)
    × ((env.require_email_verification && not u.email_verified) ≡ false)

-- No token but the second step's.
abbrev pub IsChallenge : TokenPair → Type 0
IsChallenge pair = (pair.access_token ≡ "") × (pair.refresh_token ≡ "") × (pair.mfa_required ≡ true)

unknown_fails :
    (email password : String) (env : Env) (w w' : World) (pair : TokenPair)
    → user_of_email w.db email ≡ none
    → login email password env w ≡ (ok pair, w')
    → ⊥
unfolding login get_user_by_email query statement
unknown_fails email password env w w' pair e h = ground (arith)

user_fits :
    (email password : String) (env : Env) (w w' : World) (pair : TokenPair) (u : UserRow)
    → user_of_email w.db email ≡ some u
    → login email password env w ≡ (ok pair, w')
    → IsAcceptable env password u
unfolding login get_user_by_email query statement login_user accept_password
user_fits email password env w w' pair u e h = ground (arith)

accepted :
    (u : UserRow) (env : Env) (w w' : World) (pair : TokenPair)
    → accept_password u env w ≡ (ok pair, w')
    → u.totp_enabled ≡ true
    → IsChallenge pair × (w'.db.refresh_tokens ≡ w.db.refresh_tokens)
unfolding accept_password execute statement reset_login_state update_user audit_as insert_audit
accepted u env w w' pair h on = ground (arith)

challenged :
    (email password : String) (env : Env) (w w' : World) (pair : TokenPair) (u : UserRow)
    → user_of_email w.db email ≡ some u
    → login email password env w ≡ (ok pair, w')
    → u.totp_enabled ≡ true
    → IsChallenge pair × (w'.db.refresh_tokens ≡ w.db.refresh_tokens)
unfolding login get_user_by_email query statement login_user
challenged email password env w w' pair u e h on =
    ground (arith, accepted u env (record w { calls = suc w.calls }) w' pair)

-- A second factor keeps the tokens back.
abbrev pub IsGated : UserRow → World → World → TokenPair → Type 0
IsGated u w w' pair =
    (u.totp_enabled ≡ false)
    ⊎ (u.totp_enabled ≡ true) × IsChallenge pair × (w'.db.refresh_tokens ≡ w.db.refresh_tokens)

-- A login that succeeds is for a stored user whose password is right, who is neither locked nor
-- deleted, and whose email is verified where the service asks for that; a user with a second factor
-- gets neither an access token nor a refresh token from it, and no refresh token is stored.
pub login-IsAcceptable :
    (email password : String) (env : Env) (w w' : World) (pair : TokenPair)
    → login email password env w ≡ (ok pair, w')
    → (u : UserRow) × (user_of_email w.db email ≡ some u)
      × IsAcceptable env password u
      × IsGated u w w' pair
login-IsAcceptable email password env w w' pair h = elim (Option-cases (user_of_email w.db email)) [
  | inl e ↦ absurd (unknown_fails email password env w w' pair e h)
  | inr (u, e) ↦ (
    u,
    e,
    user_fits email password env w w' pair u e h,
    elim (Bool-cases u.totp_enabled) [
      | inl on ↦
          let (gate, kept) = challenged email password env w w' pair u e h on in
          inr (on, gate, kept)
      | inr off ↦ inl off
    ],
  )
]

-- Where the lookup does not fail, an address that nobody has and a wrong password of a user that
-- is not locked get the same answer.
pub login_unknown :
    (email email' password password' : String) (env : Env) (w : World) (u : UserRow)
    → env.db_fails w.calls ≡ false
    → user_of_email w.db email ≡ none
    → user_of_email w.db email' ≡ some u
    → is_locked env.now u ≡ false
    → env.verify_password u.password_hash password' ≡ false
    → (login email password env w).0 ≡ (login email' password' env w).0
unfolding login get_user_by_email query statement login_user count_failure execute
    increment_login_failure lock_user audit_as insert_audit
login_unknown email email' password password' env w u up e e' free wrong = ground (arith)
