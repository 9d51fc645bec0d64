-- ===== src/Users/Run.antt =====
-- The users over any number of steps of the server (src/grpc.rs, src/relay.rs, src/saga.rs).
use iam_rust_auth.Base.{subst}
use iam_rust_auth.World.{World}
use iam_rust_auth.Server.{Step, requested, relayed, compensated, Run, rest, next}
use iam_rust_auth.History.Requests.{serve-le, drain-Within, consume-Within}
use iam_rust_auth.Users.Sound.{Sound, soundness}
use iam_rust_auth.Users.Updates.{delete_user_event_soft-Within}
use iam_rust_auth.Users.Instance.{soundness_writes}
use iam_rust_auth.Users.Activation.{activate_totp-Within}

Step-Sound : {w w' : World} → Step w w' → Sound w.db.users → Sound w'.db.users
unfolding soundness
Step-Sound {w} (requested env md r e) s =
    subst (λ v. Sound v.db.users) e
      (serve-le {o = soundness} ⦃s = soundness_writes⦄ md r env w (λ g. activate_totp-Within md g)
        (λ i hard uid t q _ _. delete_user_event_soft-Within uid hard t q) s)
Step-Sound {w} (relayed env e) s =
    subst (λ v. Sound v.db.users) e
      ((drain-Within {o = soundness} ⦃s = soundness_writes⦄).at env w s)
Step-Sound {w} (compensated env items e) s =
    subst (λ v. Sound v.db.users) e
      ((consume-Within {o = soundness} ⦃s = soundness_writes⦄ items).at env w s)

-- Any number of requests, passes of the relay and streams of the saga, in any order, each in any
-- surroundings and whatever fails, keep the users sound: no two have the same id or the same email,
-- a second factor that is on has a secret, and the failed logins fit their column.
pub run-Sound : {w w' : World} → Run w w' → Sound w.db.users → Sound w'.db.users
run-Sound (rest e) s = subst (λ v. Sound v.db.users) e s
run-Sound (next step run) s = run-Sound run (Step-Sound step s)
