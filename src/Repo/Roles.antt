-- ===== src/Repo/Roles.antt =====
-- Roles and their assignment (src/repo.rs).
use iam_rust_auth.Base.{
  suc, String, Bool, true, false, ◌&&◌, ◌||◌, Option, none, some, List, [], ◌∷◌, ◌++◌, ◌==◌,
  if◌then◌else◌, is_none, is_some, column_eq, sql_eq, not_distinct, find?, select, exists, update,
  delete, order_by, str_eq,
}
use mathlib.Core.Option
use mathlib.Core.List.{filter_map, head?}
use iam_rust_auth.Db.{Db, Uuid, UserRole, RoleRow, RoleAssignmentRow}
use iam_rust_auth.World.{
  Env, Action, Result, ok, err, SqlError, unique_violation, foreign_key_violation, too_many_rows,
  statement, query, execute,
}
use iam_rust_auth.Repo.Tables.{has_tenant, visible, tenant_tx, tenant_guc_tx, insert_user_role}

-- `JOIN roles r ON r.id = ur.role_id`, for the name.
abbrev pub role_names : Db → List UserRole → List String
role_names d = filter_map (λ ur. Option.map (λ r. r.name) (find? (λ r. r.id == ur.role_id) d.roles))

unfoldable pub get_user_roles : Uuid → Action SqlError (List String)
unfolding query find? select order_by
get_user_roles user_id env =
    query
      (λ d. order_by env.collate (role_names d (select (λ ur. ur.user_id == user_id) d.user_roles)))
      env

-- `ur.user_id = $1 AND ur.tenant_id = $2 AND (ur.project_id IS NULL OR ur.project_id = $3)`
abbrev pub in_scope : Uuid → Uuid → Option Uuid → UserRole → Bool
in_scope user_id tenant_id project_id ur =
    ur.user_id == user_id
    && ur.tenant_id == tenant_id
    && (is_none ur.project_id || sql_eq ur.project_id project_id)

unfoldable pub get_user_roles_scoped : Uuid → Uuid → Option Uuid → Action SqlError (List String)
unfolding tenant_guc_tx query find? select order_by
get_user_roles_scoped user_id tenant_id project_id env =
    tenant_guc_tx
      (query λ d.
        order_by env.collate
          (role_names d (select (in_scope user_id tenant_id project_id) d.user_roles)))
      env

unfoldable pub role_exists : String → Action SqlError Bool
unfolding query exists
role_exists name = query λ d. exists (λ r. str_eq r.name name) d.roles

unfoldable pub role_in_tenant : String → Uuid → Action SqlError Bool
unfolding query exists
role_in_tenant name tenant_id =
    query λ d. exists (λ r. str_eq r.name name && visible tenant_id r) d.roles

-- The tenant's own role of a name.
abbrev pub own_role : String → Uuid → RoleRow → Bool
own_role name tenant_id r = str_eq r.name name && column_eq r.tenant_id tenant_id

unfoldable pub tenant_role_exists : String → Uuid → Action SqlError Bool
unfolding query exists
tenant_role_exists name tenant_id = query λ d. exists (own_role name tenant_id) d.roles

-- `ORDER BY r.tenant_id NULLS LAST LIMIT 1`, among roles of one tenant and templates.
unfoldable pub resolve_role : String → Uuid → Db → Option RoleRow
unfolding select order_by
resolve_role name tenant_id d = head? (
    order_by (λ a b. is_some a.tenant_id || is_none b.tenant_id)
      (select (λ r. str_eq r.name name && visible tenant_id r) d.roles))

abbrev pub assign_resolved :
    Uuid → Uuid → Option Uuid → Db → Option RoleRow → Result SqlError (Unit × Db)
assign_resolved user_id tenant_id project_id d none = ok (tt, d)
assign_resolved user_id tenant_id project_id d (some r) =
    insert_user_role
      (record { user_id = user_id; role_id = r.id; tenant_id = tenant_id; project_id = project_id })
      d

unfoldable pub assign_role : Uuid → String → Uuid → Option Uuid → Action SqlError Unit
unfolding tenant_tx statement resolve_role insert_user_role
assign_role user_id role_name tenant_id project_id = tenant_tx (
    statement
      λ d. assign_resolved user_id tenant_id project_id d (resolve_role role_name tenant_id d))

-- A scalar subquery: no row is NULL, and two rows are an error.
abbrev pub scalar : {A : Type 0} → List A → Result SqlError (Option A)
scalar [] = ok none
scalar (a ∷ []) = ok (some a)
scalar (a ∷ b ∷ rest) = err too_many_rows

-- `user_id = $1 AND role_id = … AND tenant_id = $3 AND project_id IS NOT DISTINCT FROM $4`
abbrev pub is_assignment : Uuid → RoleRow → Uuid → Option Uuid → UserRole → Bool
is_assignment user_id role tenant_id project_id ur =
    ur.user_id == user_id
    && ur.role_id == role.id
    && ur.tenant_id == tenant_id
    && not_distinct ur.project_id project_id

unfoldable pub delete_assignment :
    Uuid → Uuid → Option Uuid → Db → Result SqlError (Option RoleRow) → Result SqlError (Unit × Db)
unfolding delete
delete_assignment user_id tenant_id project_id d (err e) = err e
delete_assignment user_id tenant_id project_id d (ok none) = ok (tt, d)
delete_assignment user_id tenant_id project_id d (ok (some r)) = ok (
  tt,
  record d { user_roles = delete (is_assignment user_id r tenant_id project_id) d.user_roles },
)

-- An assignment that the other conditions let through, so that the role has to be compared.
abbrev pub is_tested : Uuid → Uuid → Option Uuid → UserRole → Bool
is_tested user_id tenant_id project_id ur =
    ur.user_id == user_id && ur.tenant_id == tenant_id && not_distinct ur.project_id project_id

abbrev pub revoke_named :
    Uuid → String → Uuid → Option Uuid → Env → Db → Result SqlError (Unit × Db)
revoke_named user_id role_name tenant_id project_id env d =
    let named = select (λ r. str_eq r.name role_name && visible tenant_id r) d.roles in
    if env.runs_unneeded || exists (is_tested user_id tenant_id project_id) d.user_roles
    then delete_assignment user_id tenant_id project_id d (scalar named)
    else ok (tt, d)

-- The subquery `SELECT r.id FROM roles r WHERE r.name = $2` runs as `iam_rls`: it sees the roles of
-- the tenant and the templates. Where no assignment has to be compared, it may not run at all.
unfoldable pub revoke_role : Uuid → String → Uuid → Option Uuid → Action SqlError Unit
unfolding tenant_tx statement select exists delete_assignment
revoke_role user_id role_name tenant_id project_id env =
    tenant_tx (statement (revoke_named user_id role_name tenant_id project_id env)) env

-- `ORDER BY r.name, p.slug NULLS FIRST`.
abbrev pub assignment_le : (String → String → Bool) → RoleAssignmentRow → RoleAssignmentRow → Bool
assignment_le le a b =
    if le a.role b.role
    then if le b.role a.role
      then elim a.project_slug [
        | none ↦ true
        | some s ↦ elim b.project_slug [ none ↦ false | some t ↦ le s t ]
      ]
      else true
    else false

abbrev pub assignment_join : Db → UserRole → Option RoleAssignmentRow
assignment_join d ur =
    Option.map
      (λ r. record {
        role = r.name;
        project_id = ur.project_id;
        project_slug =
            Option.map (λ p. p.slug) (find? (λ p. column_eq ur.project_id p.id) d.projects);
      })
      (find? (λ r. r.id == ur.role_id) d.roles)

unfoldable pub get_user_role_assignments : Uuid → Uuid → Action SqlError (List RoleAssignmentRow)
unfolding query find? select order_by
get_user_role_assignments user_id tenant_id env =
    query
      (λ d. order_by (assignment_le env.collate) (
        filter_map (assignment_join d)
          (select (λ ur. ur.user_id == user_id && ur.tenant_id == tenant_id) d.user_roles)))
      env

-- `INSERT INTO roles`: (tenant_id, name) is unique; the id comes from a sequence.
unfoldable pub insert_role : String → String → Uuid → Db → Result SqlError (RoleRow × Db)
unfolding exists
insert_role name description tenant_id d =
    let row : RoleRow = record {
      id = d.next_role_id;
      name = name;
      description = description;
      tenant_id = some tenant_id;
    } in
    if exists (own_role name tenant_id) d.roles
    then err unique_violation
    else if has_tenant tenant_id d
    then ok (row, record d { roles = d.roles ++ row ∷ []; next_role_id = suc d.next_role_id })
    else err foreign_key_violation

unfoldable pub create_role : String → String → Uuid → Action SqlError RoleRow
unfolding tenant_tx statement insert_role
create_role name description tenant_id =
    tenant_tx (statement (insert_role name description tenant_id))

unfoldable pub update_role : String → String → Uuid → Action SqlError (Option RoleRow)
unfolding tenant_tx statement find? update
update_role name description tenant_id = tenant_tx (
    statement λ d.
      let roles =
        update (own_role name tenant_id) (λ r. record r { description = description }) d.roles in
      ok (find? (own_role name tenant_id) roles, record d { roles = roles }))

-- `DELETE FROM roles`, with ON DELETE CASCADE to assignments and grants.
unfoldable pub remove_role : String → Uuid → Db → Db
unfolding exists delete
remove_role name tenant_id d = record d {
  roles = delete (own_role name tenant_id) d.roles;
  user_roles =
      delete (λ ur. exists (λ r. r.id == ur.role_id && own_role name tenant_id r) d.roles)
        d.user_roles;
  role_permissions =
      delete (λ rp. exists (λ r. r.id == rp.role_id && own_role name tenant_id r) d.roles)
        d.role_permissions;
}

unfoldable pub delete_role : String → Uuid → Action SqlError Unit
unfolding tenant_tx execute remove_role
delete_role name tenant_id = tenant_tx (execute (remove_role name tenant_id))

unfoldable pub list_roles : Action SqlError (List RoleRow)
unfolding query order_by
list_roles env = query (λ d. order_by (λ a b. env.collate a.name b.name) d.roles) env
