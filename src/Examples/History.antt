-- ===== src/Examples/History.antt =====
-- What stays ended: the theorems at a run of three steps from a sample database.
use iam_rust_auth.Base.{[], ◌∷◌, arith, ◌≡◌, ◌≢◌, refl, true, false, Bool, ◌==◌, some, none}
use iam_rust_auth.Db.{Uuid}
use iam_rust_auth.World.{World, ok, err, unauthenticated}
use iam_rust_auth.Relay.{drain}
use iam_rust_auth.Service.{refresh, validate_token, exchange_authorization_code}
use iam_rust_auth.Server.{Request, serve, Run, rest, next, requested, relayed}
use iam_rust_auth.Samples.{
  alice, bob, sample, sample_env, running, token, at, auth_code, alice_claims,
}
use iam_rust_auth.History.Ledger.{Follows, ledger}
use iam_rust_auth.History.Run.{run-Follows}
use iam_rust_auth.History.Forever.{revoked_forever, used_forever, logout_forever}
use iam_rust_auth.Users.Sound.{Sound, append-Sound}
use iam_rust_auth.Users.Run.{run-Sound}
use iam_rust_auth.Examples.Access.{alice_md, signed_out, no_redis}
use iam_rust_auth.Examples.Codes.{request, tokens, exchanged}
use iam_rust_auth.Examples.Sessions.{fresh_pair}

abbrev is_alice : Uuid → Bool
is_alice id = id == 10

-- A soft deletion of the user 10, the relay, and a restoration.
abbrev after_deletion : World → World
after_deletion w = (serve alice_md (Request.delete_user "10" false) sample_env w).1

abbrev after_relay : World → World
after_relay w = (drain sample_env (after_deletion w)).1

abbrev after_all : World → World
after_all w = (serve alice_md (Request.restore_user "10") sample_env (after_relay w)).1

abbrev three_steps : (w : World) → Run w (after_all w)
three_steps w = next (requested sample_env alice_md (Request.delete_user "10" false) refl) (
    next (relayed sample_env refl)
      (next (requested sample_env alice_md (Request.restore_user "10") refl) (rest refl)))

run-Follows_example : Follows is_alice (ledger sample.db) (ledger (after_all sample).db)
unfolding running
run-Follows_example = run-Follows is_alice (three_steps sample) refl

revoked_forever_example : (refresh "stale" sample_env (after_all sample)).0 ≢ ok fresh_pair
unfolding running
revoked_forever_example =
    revoked_forever is_alice "stale" sample_env (three_steps sample)
      (token "#stale" (some (at 100)) (some "#other")) (at 100) fresh_pair refl refl refl refl refl

used_forever_example :
    (exchange_authorization_code request sample_env (after_all exchanged)).0 ≢ ok tokens
unfolding running
used_forever_example =
    used_forever request sample_env (three_steps exchanged) (record auth_code { used = true })
      tokens refl refl

logout_forever_example :
    ((refresh "live" no_redis (after_all signed_out)).0 ≢ ok fresh_pair)
    × ((validate_token "jwt-alice" no_redis (after_all signed_out)).0
        ≡ err (unauthenticated "token revoked"))
unfolding running
logout_forever_example =
    logout_forever is_alice alice_md "live" "jwt-alice" sample_env no_redis sample
      (three_steps signed_out) alice_claims (token "#live" none none) fresh_pair (λ n. refl) refl
      refl refl refl refl refl refl refl refl refl refl refl refl

-- The users 10 and 11 of the sample, inserted one after the other.
sample_users : Sound sample.db.users
unfolding running
sample_users = append-Sound bob (alice ∷ []) refl refl (
    append-Sound alice [] refl refl
      (record { ids = λ id. omega arith; emails = λ e. omega arith; rows = refl }))

-- A registration, and then the three steps.
abbrev after_registration : World → World
after_registration w =
    (serve [] (Request.register "carol@example.com" "longpassword") sample_env w).1

abbrev four_steps : Run sample (after_all (after_registration sample))
four_steps =
    next (requested sample_env [] (Request.register "carol@example.com" "longpassword") refl)
      (three_steps (after_registration sample))

run-Sound_example : Sound (after_all (after_registration sample)).db.users
run-Sound_example = run-Sound four_steps sample_users
