-- ===== src/Examples/SignIn.antt =====
-- Signing in: the theorems at a sample database.
use iam_rust_auth.Base.{
  ℕ, ok, true, false, subst, ap, str_eq, get_or, ◌*◌, ◌≡◌, refl, String, some, none,
}
use iam_rust_auth.Base.Int.{second}
use iam_rust_auth.Db.{UserRow, Uuid}
use iam_rust_auth.World.{Env, err, unauthenticated, World}
use iam_rust_auth.Service.{login, login_totp, TokenPair, bearer_pair, mfa_pair}
use iam_rust_auth.Samples.{sample, sample_db, sample_env, running, alice, bob}
use iam_rust_auth.SignIn.Password.{
  login-IsAcceptable, login_unknown, user_of_email, IsAcceptable, IsGated,
}
use iam_rust_auth.Service.{register, RegisterResponse}
use iam_rust_auth.Accounts.FirstLogin.{register-login}
use iam_rust_auth.Refresh.Liveness.{next_token}
use iam_rust_auth.SignIn.Lockout.{login_failure, login_clears, failed_row}
use iam_rust_auth.SignIn.SecondFactor.{login_totp-IsProven, IsMfaToken, IsEnrolled, IsProven}

abbrev challenge : TokenPair
challenge = mfa_pair "mfa-11"

abbrev challenged_world : World
challenged_world = (login "bob@x" "secret-a" sample_env sample).1

login-IsAcceptable_example :
    (u : UserRow) × (user_of_email sample_db "bob@x" ≡ some u)
    × IsAcceptable sample_env "secret-a" u
    × IsGated u sample challenged_world challenge
unfolding running
login-IsAcceptable_example =
    login-IsAcceptable "bob@x" "secret-a" sample_env sample challenged_world challenge refl

login_unknown_example :
    (login "eve@x" "p" sample_env sample).0 ≡ (login "alice@x" "p" sample_env sample).0
unfolding running
login_unknown_example =
    login_unknown "eve@x" "alice@x" "p" "p" sample_env sample alice refl refl refl refl refl

login_failure_example :
    let (r, w') = login "alice@x" "guess" sample_env sample in
    (r ≡ err (unauthenticated "invalid credentials"))
    × (user_of_email w'.db "alice@x" ≡ some (failed_row sample_env 2 alice))
unfolding running
login_failure_example =
    login_failure "alice@x" "guess" sample_env sample alice (λ n. refl) refl refl refl refl refl
      refl

login_clears_example :
    user_of_email challenged_world.db "bob@x"
    ≡ some (record bob { failed_login_attempts = 0; locked_until = none })
unfolding running
login_clears_example =
    login_clears "bob@x" "secret-a" sample_env sample challenged_world challenge bob (λ n. refl)
      refl refl refl

abbrev bob_pair : TokenPair
bob_pair = bearer_pair sample_env "at-11-1" "r1"

abbrev bob_world : World
bob_world = (login_totp "mfa-bob" "aaaa-bbbb" sample_env sample).1

login_totp-IsProven_example :
    (uid : Uuid) × (u : UserRow) × (stored : String) × IsMfaToken sample_env sample "mfa-bob" uid u
    × IsEnrolled sample_env u stored
    × IsProven sample_env sample bob_world uid stored "aaaa-bbbb"
unfolding running
login_totp-IsProven_example =
    login_totp-IsProven "mfa-bob" "aaaa-bbbb" sample_env sample bob_world bob_pair refl

-- The third failure in a row locks the account.
third_failure :
    user_of_email (login "alice@x" "guess" sample_env sample).1.db "alice@x"
    ≡ some (record alice { locked_until = some (1600 * second); failed_login_attempts = 0 })
unfolding running
third_failure = refl

abbrev unverified : Env
unverified = record sample_env { require_email_verification = false }

abbrev carol_world : World
carol_world = (register "carol@x" "longpassword" sample_env sample).1

abbrev carol : RegisterResponse
carol = record { user_id = "30"; email = "carol@x" }

-- The sample's library verifies its own hashes.
verifies :
    (n : ℕ) (hash : String)
    → sample_env.hash_password n "longpassword" ≡ some hash
    → unverified.verify_password hash "longpassword" ≡ true
unfolding running
verifies n hash e =
    subst (λ x. str_eq x "hash-of-longpassword" ≡ true) (ap (λ o. get_or o "") e) refl

register-login_example :
    (login "carol@x" "longpassword" unverified carol_world).0
    ≡ ok (bearer_pair unverified "at-30-1" (next_token unverified carol_world))
unfolding running
register-login_example =
    register-login "carol@x" "longpassword" sample_env unverified sample carol_world carol "at-30-1"
      refl (λ n. refl) verifies refl refl refl refl
