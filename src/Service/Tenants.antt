-- ===== src/Service/Tenants.antt =====
-- Administration of tenants, projects and members (src/grpc.rs).
use iam_rust_auth.Base.{String, Bool, true, ◌||◌, none, some, List, map, is_empty}
use iam_rust_auth.Db.{TenantRow, ProjectRow, MemberRow}
use iam_rust_auth.World.{
  Env, invalid_argument, already_exists, not_found, pure, ok_or, refuse_if, or_status, ◌>>=◌, ◌>>◌,
}
use iam_rust_auth.Repo
use iam_rust_auth.Repo.{
  create_tenant_with_admin, list_projects_by_tenant, list_members_by_tenant, get_user_by_email,
}
use iam_rust_auth.Service.Guards.{
  Rpc, MetadataMap, ask, db, audit_as, parse_uuid, caller_uuid, require_perm, active_tenant,
}

pub record Tenant : Type 0 where
  pub id : String
  pub slug : String
  pub name : String
  pub status : String

abbrev pub show_tenant : Env → TenantRow → Tenant
show_tenant env t = record {
  id = env.show_uuid t.id;
  slug = t.slug;
  name = t.name;
  status = t.status;
}

unfoldable pub create_tenant : MetadataMap → String → String → Rpc Tenant
create_tenant md slug name = do
  env ← ask
  require_perm md "tenant:write"
  caller ← caller_uuid md
  refuse_if (is_empty slug || is_empty name) (invalid_argument "slug and name are required")
  t ←
      or_status (already_exists "tenant slug already taken")
        (create_tenant_with_admin slug name caller)
  audit_as (env.show_uuid caller) "" "tenant.create" (env.show_uuid t.id) slug none
  pure (show_tenant env t)

unfoldable pub list_tenants : MetadataMap → Rpc (List Tenant)
list_tenants md = do
  env ← ask
  require_perm md "tenant:read"
  rows ← db "failed to list tenants" Repo.list_tenants
  pure (map (show_tenant env) rows)

pub record Project : Type 0 where
  pub id : String
  pub tenant_id : String
  pub slug : String
  pub name : String

abbrev pub show_project : Env → ProjectRow → Project
show_project env p = record {
  id = env.show_uuid p.id;
  tenant_id = env.show_uuid p.tenant_id;
  slug = p.slug;
  name = p.name;
}

unfoldable pub create_project : MetadataMap → String → String → Rpc Project
create_project md slug name = do
  env ← ask
  require_perm md "project:write"
  tenant ← active_tenant md
  refuse_if (is_empty slug || is_empty name) (invalid_argument "slug and name are required")
  p ←
      or_status (already_exists "project slug already taken in this tenant")
        (Repo.create_project tenant slug name)
  pure (show_project env p)

unfoldable pub list_projects : MetadataMap → Rpc (List Project)
list_projects md = do
  env ← ask
  require_perm md "project:read"
  tenant ← active_tenant md
  rows ← db "failed to list projects" (list_projects_by_tenant tenant)
  pure (map (show_project env) rows)

pub record TenantMember : Type 0 where
  pub user_id : String
  pub email : String
  pub status : String

abbrev pub show_member : Env → MemberRow → TenantMember
show_member env m = record { user_id = env.show_uuid m.user_id; email = m.email; status = m.status }

unfoldable pub add_member : MetadataMap → String → Rpc TenantMember
add_member md email = do
  env ← ask
  require_perm md "member:write"
  tenant ← active_tenant md
  found ← db "user lookup failed" (get_user_by_email email)
  u ← ok_or (not_found "no user with that email") found
  db "could not add member" (Repo.add_member u.id tenant)
  audit_as (env.show_uuid u.id) u.email "member.add" (env.show_uuid tenant) "" (some tenant)
  pure (record { user_id = env.show_uuid u.id; email = u.email; status = "active" })

unfoldable pub remove_member : MetadataMap → String → Rpc Bool
remove_member md user_id = do
  env ← ask
  require_perm md "member:write"
  tenant ← active_tenant md
  uid ← parse_uuid (invalid_argument "invalid user id") user_id
  db "could not remove member" (Repo.remove_member uid tenant)
  audit_as user_id "" "member.remove" (env.show_uuid tenant) "" (some tenant)
  pure true

unfoldable pub list_members : MetadataMap → Rpc (List TenantMember)
list_members md = do
  env ← ask
  require_perm md "member:read"
  tenant ← active_tenant md
  rows ← db "failed to list members" (list_members_by_tenant tenant)
  pure (map (show_member env) rows)
