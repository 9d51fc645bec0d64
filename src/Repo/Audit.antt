-- ===== src/Repo/Audit.antt =====
-- The audit trail (src/repo.rs).
use iam_rust_auth.Base.{
  ℕ, suc, String, Option, List, [], ◌∷◌, ◌++◌, leb, column_eq, select, order_by, take,
}
use iam_rust_auth.Db.{Uuid, AuditRow}
use iam_rust_auth.World.{Action, SqlError, query, execute}

unfoldable pub insert_audit :
    String → String → String → String → String → Option Uuid → Action SqlError Unit
unfolding execute
insert_audit actor_id actor_email action target detail tenant_id env =
    execute
      (λ d. record d {
        audit_events =
            d.audit_events
            ++ record {
              id = d.next_audit_id;
              actor_id = actor_id;
              actor_email = actor_email;
              action = action;
              target = target;
              detail = detail;
              created_at = env.now;
              tenant_id = tenant_id;
            }
              ∷ [];
        next_audit_id = suc d.next_audit_id;
      })
      env

-- `ORDER BY id DESC LIMIT …`.
unfoldable pub list_audit : Uuid → ℕ → Action SqlError (List AuditRow)
unfolding query select order_by
list_audit tenant_id limit = query λ d.
    take limit (
      order_by (λ a b. leb b.id a.id)
        (select (λ e. column_eq e.tenant_id tenant_id) d.audit_events))
