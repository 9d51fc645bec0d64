-- ===== src/Examples/Tenancy.antt =====
-- Roles, tenants and accounts: the theorems at a sample database.
use iam_rust_auth.Base.{◌≢◌, ◌≡◌, refl, true, false, some, none, List, [], ◌∷◌, ◌++◌}
use iam_rust_auth.Db.{RoleRow, UserRole, OneTimeToken}
use iam_rust_auth.World.{ok, World}
use iam_rust_auth.Repo
use iam_rust_auth.Repo.{visible, get_user_roles_scoped, get_user_permissions_scoped}
use iam_rust_auth.Service
use iam_rust_auth.Service.{
  Role, MetadataMap, ClientRequest, hash_token, is_short, reset_password, request_password_reset,
  DevTokenResponse, nobody,
}
use iam_rust_auth.Samples.{sample, sample_db, sample_env, running, at}
use iam_rust_auth.Tenancy.Builtin.{roles_isolated, foreign_roles}
use iam_rust_auth.Tenancy.Bulk.{assign_all-Tallied, Tallied}
use iam_rust_auth.Tenancy.Names.{create_role-revoke_role}
use iam_rust_auth.Tenancy.Scope.{scoped-own_assignments}
use iam_rust_auth.Access.Tokens.{is_live_user}
use iam_rust_auth.Refresh.Reuse.{has_session}
use iam_rust_auth.Recovery.Reset.{
  reset_password-spends, request_password_reset_opaque, has_live_reset,
}
use iam_rust_auth.Accounts.Registration.{create_user_with_role_event-IsAtomic, IsAtomic}
use iam_rust_auth.Accounts.Deletion.{delete_user_event_soft-ends}

-- May assign roles, but not change them.
abbrev reader : MetadataMap
reader = ("x-user-permissions", some "role:read,role:assign") ∷ []

abbrev client : ClientRequest
client = record { name = "c"; redirect_uris = []; scopes = []; is_confidential = true }

roles_isolated_example :
    (foreign_roles 20 (Repo.create_role "viewer" "d" 20 sample_env sample).1.db
      ≡ foreign_roles 20 sample_db)
    × (foreign_roles 20 (Repo.update_role "viewer" "d" 20 sample_env sample).1.db
        ≡ foreign_roles 20 sample_db)
    × (foreign_roles 20 (Repo.delete_role "viewer" 20 sample_env sample).1.db
        ≡ foreign_roles 20 sample_db)
roles_isolated_example = roles_isolated "viewer" "d" 20 sample_env sample

assign_all-Tallied_example :
    Tallied 2 (Service.assign_all ("10" ∷ "nobody" ∷ []) "editor" 20 none (0, []) sample_env sample)
assign_all-Tallied_example =
    assign_all-Tallied ("10" ∷ "nobody" ∷ []) "editor" 20 none (0, []) sample_env sample

abbrev editor : RoleRow
editor = record { id = 4; name = "editor"; description = ""; tenant_id = some 20 }

-- The tenant makes a role of its own with the name of the template `viewer`.
abbrev manager : MetadataMap
manager = ("x-tenant-id", some "20") ∷ ("x-user-permissions", some "role:write,role:assign") ∷ []

abbrev with_viewer : World
with_viewer = (Service.create_role manager "viewer" "d" sample_env sample).1

abbrev own : Role
own = record { id = 5; name = "viewer"; description = "d"; permissions = [] }

create_role-revoke_role_example :
    let (r, w') = Service.revoke_role manager "10" "viewer" "" sample_env with_viewer in
    (r ≢ ok true) × (w'.db ≡ with_viewer.db)
unfolding running
create_role-revoke_role_example =
    create_role-revoke_role manager manager "viewer" "d" "10" "" sample_env sample_env sample
      with_viewer own 20 10 refl refl refl refl refl refl

abbrev elsewhere : List UserRole
elsewhere =
    record { user_id = 10; role_id = 4; tenant_id = 20; project_id = none }
    ∷ record { user_id = 10; role_id = 1; tenant_id = 1; project_id = none }
    ∷ record { user_id = 11; role_id = 1; tenant_id = 20; project_id = none }
    ∷ []

scoped-own_assignments_example :
    let w = record sample { db = record sample_db { user_roles = elsewhere } } in
    ((get_user_roles_scoped 10 20 none sample_env w).0
      ≡ (get_user_roles_scoped 10 20 none sample_env sample).0)
    × ((get_user_permissions_scoped 10 20 none sample_env w).0
        ≡ (get_user_permissions_scoped 10 20 none sample_env sample).0)
unfolding running
scoped-own_assignments_example = scoped-own_assignments 10 20 none sample_env sample elsewhere refl

abbrev reset_row : OneTimeToken
reset_row = record { token_hash = "#reset"; user_id = 10; expires_at = at 1500; consumed_at = none }

abbrev reset_world : World
reset_world = (reset_password "reset" "longer-secret" sample_env sample).1

reset_password-spends_example :
    (is_short "longer-secret" ≡ false)
    × (has_live_reset (hash_token sample_env "reset") sample_env.now reset_world.db ≡ false)
    × (has_session 10 reset_world.db ≡ false)
unfolding running
reset_password-spends_example =
    reset_password-spends "reset" "longer-secret" sample_env sample reset_world reset_row
      (λ n. refl) refl refl

request_password_reset_opaque_example :
    (request_password_reset "eve@x" sample_env sample).0 ≡ ok nobody
unfolding running
request_password_reset_opaque_example =
    request_password_reset_opaque "eve@x" "alice@x" sample_env sample nobody refl refl refl

abbrev deleted : World
deleted = (Repo.delete_user_event_soft 10 false "user.deleted" "{}" sample_env sample).1

delete_user_event_soft-ends_example :
    (is_live_user 10 deleted.db ≡ false)
    × (has_session 10 deleted.db ≡ false)
    × (deleted.db.outbox
        ≡ sample_db.outbox
          ++ record {
            id = 30;
            aggregate_id = 10;
            event_type = "user.deleted";
            payload = "{}";
            created_at = sample_env.now;
            published_at = none;
          }
            ∷ [])
unfolding running
delete_user_event_soft-ends_example =
    delete_user_event_soft-ends 10 "user.deleted" "{}" sample_env sample deleted refl

create_user_with_role_event-IsAtomic_example :
    IsAtomic sample_env sample (Repo.new_user 40 "new@x" "h") "user.registered" "{}" (
      Repo.create_user_with_role_event 40 "new@x" "h" "user" "user.registered" "{}" sample_env
        sample)
create_user_with_role_event-IsAtomic_example =
    create_user_with_role_event-IsAtomic 40 "new@x" "h" "user" "user.registered" "{}" sample_env
      sample
