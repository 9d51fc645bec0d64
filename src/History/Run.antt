-- ===== src/History/Run.antt =====
-- The server over any number of steps (src/grpc.rs, src/relay.rs, src/saga.rs).
use iam_rust_auth.Base.{String, some, false, ◌≡◌, Bool, true, not, ◌&&◌, subst, arith}
use iam_rust_auth.Db.{Uuid}
use iam_rust_auth.World.{World, Env, Within}
use iam_rust_auth.Repo
use iam_rust_auth.Service.{MetadataMap}
use iam_rust_auth.Server.{
  Request, serve, Step, requested, relayed, compensated, Run, rest, next, erases,
}
use iam_rust_auth.History.Ledger.{ledger, history, Follows, Follows-refl, Follows-trans}
use iam_rust_auth.History.Instance.{history_writes}
use iam_rust_auth.History.Idle.{enable_totp-Within}
use iam_rust_auth.History.Trail.{delete_user_event_soft-Within}
use iam_rust_auth.History.Handlers.Accounts.{activate_totp-Within}
use iam_rust_auth.History.Requests.{serve-le, drain-Within, consume-Within}

-- The step does not delete the user for good.
abbrev pub spares : (Uuid → Bool) → {w w' : World} → Step w w' → Bool
spares who (requested env md r e) = not (erases who env r)
spares who (relayed env e) = true
spares who (compensated env items e) = true

abbrev pub spares_all : (Uuid → Bool) → {w w' : World} → Run w w' → Bool
spares_all who (rest e) = true
spares_all who (next s run) = spares who s && spares_all who run

-- The deletion that a request asks for, if the request erases none of the users.
deletion-Within :
    (who : Uuid → Bool) (env : Env) (r : Request) (i : String) (hard : Bool) (uid : Uuid)
    (t q : String)
    → erases who env r ≡ false
    → r ≡ Request.delete_user i hard
    → env.parse_uuid i ≡ some uid
    → Within (history who) (Repo.delete_user_event_soft uid hard t q)
unfolding erases
deletion-Within who env r i hard uid t q spared e parsed =
    let other = subst (λ x. erases who env x ≡ false) e spared in
    delete_user_event_soft-Within who uid hard t q (ground (arith, other))

serve-Follows :
    (who : Uuid → Bool) (md : MetadataMap) (r : Request) (env : Env) (w : World)
    → erases who env r ≡ false
    → Follows who (ledger w.db) (ledger (serve md r env w).1.db)
unfolding history
serve-Follows who md r env w spared =
    serve-le {o = history who} ⦃s = history_writes who⦄ md r env w
      (λ g. activate_totp-Within ⦃s = history_writes who⦄ md g (λ id. enable_totp-Within who id))
      (λ i hard uid t q e parsed. deletion-Within who env r i hard uid t q spared e parsed)

Step-Follows :
    (who : Uuid → Bool) {w w' : World} (s : Step w w')
    → spares who s ≡ true
    → Follows who (ledger w.db) (ledger w'.db)
unfolding history
Step-Follows who {w} (requested env md r e) h =
    subst (λ v. Follows who (ledger w.db) (ledger v.db)) e
      (serve-Follows who md r env w (ground arith))
Step-Follows who {w} (relayed env e) h =
    subst (λ v. Follows who (ledger w.db) (ledger v.db)) e
      ((drain-Within {o = history who} ⦃s = history_writes who⦄).at env w)
Step-Follows who {w} (compensated env items e) h =
    subst (λ v. Follows who (ledger w.db) (ledger v.db)) e
      ((consume-Within {o = history who} ⦃s = history_writes who⦄ items).at env w)

-- Any number of requests, passes of the relay and streams of the saga, in any order, each in any
-- surroundings and whatever fails, implement the ledger's specification: every refresh token and
-- one-time token of the users `who`, as its hash finds it, is still there with the same owner and
-- expiry, and unchanged if it had ended; so is every authorization code, whose grant never changes;
-- and the audit trail and the denylist have only been added to. The run deletes none of these users
-- for good.
pub run-Follows :
    (who : Uuid → Bool) {w w' : World} (run : Run w w')
    → spares_all who run ≡ true
    → Follows who (ledger w.db) (ledger w'.db)
run-Follows who {w} (rest e) h =
    subst (λ v. Follows who (ledger w.db) (ledger v.db)) e (Follows-refl who (ledger w.db))
run-Follows who {w} {w'} (next {v} s run) h =
    Follows-trans who (ledger w.db) (ledger v.db) (ledger w'.db) (Step-Follows who s (ground arith))
      (run-Follows who run (ground arith))
