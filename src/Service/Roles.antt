-- ===== src/Service/Roles.antt =====
-- Roles, their assignment, and permissions (src/grpc.rs).
use iam_rust_auth.Base.{
  ℕ, suc, String, Bool, true, Option, none, some, List, [], ◌∷◌, ◌++◌, map, length, is_empty,
  get_or, format, show_ℕ,
}
use iam_rust_auth.Db.{Uuid, RoleRow, PermissionRow, RoleWithPermsRow, RoleAssignmentRow}
use iam_rust_auth.World.{
  Env, invalid_argument, already_exists, not_found, failed_precondition, pure, ok_or, require,
  refuse_if, or_status, attempt, ◌>>=◌, ◌>>◌,
}
use iam_rust_auth.Cache.{invalidate_perms}
use iam_rust_auth.Repo
use iam_rust_auth.Repo.{tenant_role_exists, role_exists, list_roles_with_permissions}
use iam_rust_auth.Service.Guards.{
  Rpc, MetadataMap, ask, db, audit, parse_uuid, require_perm, active_tenant, is_builtin_role,
  parse_opt_project, validate_assign, perm_role_guard,
}
use iam_rust_auth.Service.Tokens.{show_opt}

pub record Role : Type 0 where
  pub id : ℕ
  pub name : String
  pub description : String
  pub permissions : List String

abbrev pub bare_role : RoleRow → Role
bare_role r = record { id = r.id; name = r.name; description = r.description; permissions = [] }

unfoldable pub create_role : MetadataMap → String → String → Rpc Role
create_role md name description = do
  require_perm md "role:write"
  tenant ← active_tenant md
  refuse_if (is_empty name) (invalid_argument "role name is required")
  refuse_if (is_builtin_role name) (failed_precondition "name reserved for a built-in role")
  r ← or_status (already_exists "role already exists") (Repo.create_role name description tenant)
  audit md "role.create" name ""
  pure (bare_role r)

unfoldable pub update_role : MetadataMap → String → String → Rpc Role
update_role md name description = do
  require_perm md "role:write"
  tenant ← active_tenant md
  refuse_if (is_builtin_role name) (failed_precondition "cannot modify a built-in role")
  found ← db "db error" (Repo.update_role name description tenant)
  r ← ok_or (not_found "role not found in this tenant") found
  pure (bare_role r)

unfoldable pub delete_role : MetadataMap → String → Rpc Bool
delete_role md name = do
  require_perm md "role:write"
  tenant ← active_tenant md
  refuse_if (is_builtin_role name) (failed_precondition "cannot delete a built-in role")
  owned ← db "db error" (tenant_role_exists name tenant)
  require owned (not_found "role not found in this tenant")
  db "failed to delete role" (Repo.delete_role name tenant)
  audit md "role.delete" name ""
  pure true

abbrev pub full_role : RoleWithPermsRow → Role
full_role r = record {
  id = r.id;
  name = r.name;
  description = r.description;
  permissions = r.permissions;
}

unfoldable pub list_roles : MetadataMap → Rpc (List Role)
list_roles md = do
  require_perm md "role:read"
  tenant ← active_tenant md
  rows ← db "failed to list roles" (list_roles_with_permissions tenant)
  pure (map full_role rows)

unfoldable pub assign_role : MetadataMap → String → String → String → Rpc Bool
assign_role md user_id role_name project_id = do
  require_perm md "role:assign"
  tenant ← active_tenant md
  uid ← parse_uuid (invalid_argument "invalid user id") user_id
  project ← validate_assign role_name project_id tenant
  db "failed to assign role" (Repo.assign_role uid role_name tenant project)
  invalidate_perms user_id
  audit md "role.assign" user_id role_name
  pure true

-- What became of one user id: `some tt` where the role was assigned.
abbrev pub assign_parsed : Option Uuid → String → Uuid → Option Uuid → Rpc (Option (Unit {0}))
assign_parsed none role_name tenant project = pure none
assign_parsed (some uid) role_name tenant project =
    attempt (Repo.assign_role uid role_name tenant project)

-- How many were assigned so far, and the ids that were not, with one more user.
abbrev pub tally : String → Option (Unit {0}) → ℕ × List String → Rpc (ℕ × List String)
tally uid none (assigned, failed) = pure (assigned, failed ++ uid ∷ [])
tally uid (some _) (assigned, failed) = do invalidate_perms uid; pure (suc assigned, failed)

-- The loop of `assign_role_bulk`. Its counter is an `i32`, which no message can fill.
unfoldable pub assign_all :
    List String → String → Uuid → Option Uuid → ℕ × List String → Rpc (ℕ × List String)
assign_all [] role_name tenant project acc = pure acc
assign_all (uid ∷ uids) role_name tenant project acc = do
  env ← ask
  done ← assign_parsed (env.parse_uuid uid) role_name tenant project
  acc' ← tally uid done acc
  assign_all uids role_name tenant project acc'

unfoldable pub assign_role_bulk :
    MetadataMap → List String → String → String → Rpc (ℕ × List String)
unfolding assign_all
assign_role_bulk md user_ids role_name project_id = do
  require_perm md "role:assign"
  tenant ← active_tenant md
  project ← validate_assign role_name project_id tenant
  (assigned, failed) ← assign_all user_ids role_name tenant project (0, [])
  audit md "role.assign_bulk" role_name
      (format (show_ℕ assigned ∷ " assigned, " ∷ show_ℕ (length failed) ∷ " failed" ∷ []))
  pure (assigned, failed)

unfoldable pub revoke_role : MetadataMap → String → String → String → Rpc Bool
revoke_role md user_id role_name project_id = do
  require_perm md "role:assign"
  tenant ← active_tenant md
  uid ← parse_uuid (invalid_argument "invalid user id") user_id
  exists ← db "db error" (role_exists role_name)
  require exists (not_found "role not found")
  project ← parse_opt_project project_id
  db "failed to revoke role" (Repo.revoke_role uid role_name tenant project)
  invalidate_perms user_id
  audit md "role.revoke" user_id role_name
  pure true

pub record RoleAssignment : Type 0 where
  pub role : String
  pub project_id : String
  pub project_slug : String

abbrev pub show_assignment : Env → RoleAssignmentRow → RoleAssignment
show_assignment env r = record {
  role = r.role;
  project_id = show_opt env r.project_id;
  project_slug = get_or r.project_slug "";
}

unfoldable pub get_user_role_assignments : MetadataMap → String → Rpc (List RoleAssignment)
get_user_role_assignments md user_id = do
  env ← ask
  require_perm md "role:read"
  tenant ← active_tenant md
  uid ← parse_uuid (invalid_argument "invalid user id") user_id
  rows ← db "failed to load role assignments" (Repo.get_user_role_assignments uid tenant)
  pure (map (show_assignment env) rows)

unfoldable pub list_permissions : MetadataMap → Rpc (List PermissionRow)
list_permissions md = do
  require_perm md "role:read"
  db "failed to list permissions" Repo.list_permissions

unfoldable pub grant_permission : MetadataMap → String → String → Rpc Bool
grant_permission md role_name permission_name = do
  require_perm md "role:write"
  tenant ← active_tenant md
  perm_role_guard role_name tenant
  db "failed to grant permission" (Repo.grant_permission role_name permission_name tenant)
  audit md "permission.grant" role_name permission_name
  pure true

unfoldable pub revoke_permission : MetadataMap → String → String → Rpc Bool
revoke_permission md role_name permission_name = do
  require_perm md "role:write"
  tenant ← active_tenant md
  perm_role_guard role_name tenant
  db "failed to revoke permission" (Repo.revoke_permission role_name permission_name tenant)
  audit md "permission.revoke" role_name permission_name
  pure true
