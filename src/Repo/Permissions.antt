-- ===== src/Repo/Permissions.antt =====
-- Permissions, and what roles grant (src/repo.rs).
use iam_rust_auth.Base.{
  ℕ, String, Bool, ◌&&◌, Option, none, some, List, [], ◌∷◌, ◌++◌, map, ◌==◌, if◌then◌else◌, find?,
  select, exists, delete, distinct, order_by, str_eq,
}
use mathlib.Core.Option
use mathlib.Core.List.{filter_map, flat_map}
use iam_rust_auth.Db.{Db, Uuid, UserRole, RoleRow, RolePermission, PermissionRow, RoleWithPermsRow}
use iam_rust_auth.World.{Env, Action, Result, ok, err, SqlError, statement, query, execute}
use iam_rust_auth.Repo.Tables.{visible, tenant_tx, tenant_guc_tx}
use iam_rust_auth.Repo.Roles.{in_scope, own_role, scalar}

-- `role_permissions rp JOIN permissions p ON p.id = rp.permission_id`, for one role.
abbrev pub permissions_of : Db → ℕ → List String
permissions_of d role_id =
    filter_map
      (λ rp. Option.map (λ p. p.name) (find? (λ p. p.id == rp.permission_id) d.permissions))
      (select (λ rp. rp.role_id == role_id) d.role_permissions)

-- `SELECT DISTINCT p.name … ORDER BY p.name`, for some assignments.
abbrev pub permission_names : Env → Db → List UserRole → List String
permission_names env d urs =
    order_by env.collate (distinct str_eq (flat_map (λ ur. permissions_of d ur.role_id) urs))

unfoldable pub get_user_permissions : Uuid → Action SqlError (List String)
unfolding query find? select distinct order_by
get_user_permissions user_id env =
    query (λ d. permission_names env d (select (λ ur. ur.user_id == user_id) d.user_roles)) env

unfoldable pub get_user_permissions_scoped :
    Uuid → Uuid → Option Uuid → Action SqlError (List String)
unfolding tenant_guc_tx query find? select distinct order_by
get_user_permissions_scoped user_id tenant_id project_id env =
    tenant_guc_tx
      (query
        λ d. permission_names env d (select (in_scope user_id tenant_id project_id) d.user_roles))
      env

abbrev pub with_permissions : Env → Db → RoleRow → RoleWithPermsRow
with_permissions env d r = record {
  id = r.id;
  name = r.name;
  description = r.description;
  permissions = order_by env.collate (permissions_of d r.id);
}

unfoldable pub list_roles_with_permissions : Uuid → Action SqlError (List RoleWithPermsRow)
unfolding query find? select order_by
list_roles_with_permissions tenant_id env =
    query
      (λ d.
        order_by (λ a b. env.collate a.name b.name)
          (map (with_permissions env d) (select (visible tenant_id) d.roles)))
      env

unfoldable pub list_role_permissions : ℕ → Action SqlError (List String)
unfolding query find? select order_by
list_role_permissions role_id env = query (λ d. order_by env.collate (permissions_of d role_id)) env

unfoldable pub list_permissions : Action SqlError (List PermissionRow)
unfolding query order_by
list_permissions env = query (λ d. order_by (λ a b. env.collate a.name b.name) d.permissions) env

-- `SELECT r.id, p.id FROM roles r, permissions p WHERE …`
abbrev pub grants : String → String → Uuid → Db → List RolePermission
grants role_name perm_name tenant_id d =
    flat_map
      (λ r.
        map (λ p. record { role_id = r.id; permission_id = p.id })
          (select (λ p. str_eq p.name perm_name) d.permissions))
      (select (own_role role_name tenant_id) d.roles)

abbrev pub same_grant : RolePermission → RolePermission → Bool
same_grant a b = a.role_id == b.role_id && a.permission_id == b.permission_id

-- `ON CONFLICT DO NOTHING`.
unfoldable pub insert_grants : List RolePermission → List RolePermission → List RolePermission
unfolding exists
insert_grants [] rps = rps
insert_grants (g ∷ gs) rps =
    insert_grants gs (if exists (same_grant g) rps then rps else rps ++ g ∷ [])

unfoldable pub grant_permission : String → String → Uuid → Action SqlError Unit
unfolding tenant_tx execute select insert_grants
grant_permission role_name perm_name tenant_id = tenant_tx (
    execute λ d. record d {
      role_permissions = insert_grants (grants role_name perm_name tenant_id d) d.role_permissions;
    })

abbrev pub delete_grant :
    Db
    → Result SqlError (Option RoleRow)
    → Result SqlError (Option PermissionRow)
    → Result SqlError (Unit × Db)
delete_grant d (err e) p = err e
delete_grant d (ok r) (err e) = err e
delete_grant d (ok none) (ok p) = ok (tt, d)
delete_grant d (ok (some r)) (ok none) = ok (tt, d)
delete_grant d (ok (some r)) (ok (some p)) = ok (
  tt,
  record d {
    role_permissions =
        delete (λ rp. rp.role_id == r.id && rp.permission_id == p.id) d.role_permissions;
  },
)

unfoldable pub revoke_permission : String → String → Uuid → Action SqlError Unit
unfolding tenant_tx statement select delete
revoke_permission role_name perm_name tenant_id = tenant_tx (
    statement λ d.
      delete_grant d (scalar (select (own_role role_name tenant_id) d.roles))
        (scalar (select (λ p. str_eq p.name perm_name) d.permissions)))
