-- ===== src/Repo/Tenants.antt =====
-- Tenants, projects and memberships (src/repo.rs).
use iam_rust_auth.Base.{
  String, Bool, ◌&&◌, ◌||◌, Option, none, List, [], ◌∷◌, ◌++◌, map, ◌==◌, if◌then◌else◌, is_none,
  find?, select, exists, delete, order_by, str_eq,
}
use mathlib.Core.Option
use mathlib.Core.List.{filter_map, head?}
use iam_rust_auth.Db.{Db, Uuid, UserRole, Member, MembershipRow, TenantRow, ProjectRow, MemberRow}
use iam_rust_auth.World.{
  Action, Result, ok, err, SqlError, unique_violation, foreign_key_violation, statement, query,
  execute, transaction, pure, draw, ◌>>=◌, ◌>>◌,
}
use iam_rust_auth.Repo.Tables.{has_user, has_tenant, tenant_tx, insert_user_roles}

abbrev pub is_active : String → Bool
is_active status = str_eq status "active"

-- The row of `tenants` that a membership joins to, if both are active.
abbrev pub active_join : Uuid → Db → Member → Option MembershipRow
active_join user_id d m =
    if m.user_id == user_id && is_active m.status
    then Option.map
        (λ t. record {
          tenant_id = t.id;
          tenant_slug = t.slug;
          tenant_name = t.name;
          status = m.status;
        })
        (find? (λ t. t.id == m.tenant_id && is_active t.status) d.tenants)
    else none

unfoldable pub list_memberships : Uuid → Action SqlError (List MembershipRow)
unfolding query find? order_by
list_memberships user_id env =
    query
      (λ d.
        order_by (λ a b. env.collate a.tenant_name b.tenant_name)
          (filter_map (active_join user_id d) d.memberships))
      env

-- `m JOIN t ON t.id = m.tenant_id WHERE …`, as a test of a database.
unfoldable pub active_member : Uuid → Uuid → Db → Bool
unfolding exists
active_member user_id tenant_id d =
    exists
      (λ m.
        m.user_id == user_id
        && m.tenant_id == tenant_id
        && is_active m.status
        && exists (λ t. t.id == m.tenant_id && is_active t.status) d.tenants)
      d.memberships

unfoldable pub is_active_member : Uuid → Uuid → Action SqlError Bool
unfolding query active_member
is_active_member user_id tenant_id = query (active_member user_id tenant_id)

unfoldable pub get_default_project : Uuid → Action SqlError (Option Uuid)
unfolding query select order_by
get_default_project tenant_id env =
    query
      (λ d.
        Option.map (λ p. p.id)
          (head? (
            order_by (λ a b. env.collate a.slug b.slug)
              (select (λ p. p.tenant_id == tenant_id) d.projects))))
      env

-- `INSERT INTO memberships … ON CONFLICT (user_id, tenant_id) DO NOTHING`.
unfoldable pub insert_membership : Uuid → Uuid → Db → Result SqlError (Unit × Db)
unfolding exists
insert_membership user_id tenant_id d =
    if exists (λ m. m.user_id == user_id && m.tenant_id == tenant_id) d.memberships
    then ok (tt, d)
    else if has_user user_id d && has_tenant tenant_id d
    then ok (
      tt,
      record d {
        memberships =
            d.memberships
            ++ record { user_id = user_id; tenant_id = tenant_id; status = "active" } ∷ [];
      },
    )
    else err foreign_key_violation

unfoldable pub create_membership : Uuid → Uuid → Action SqlError Unit
unfolding statement insert_membership
create_membership user_id tenant_id = statement (insert_membership user_id tenant_id)

unfoldable pub insert_tenant : TenantRow → Db → Result SqlError (TenantRow × Db)
unfolding exists
insert_tenant t d =
    if exists (λ s. s.id == t.id || str_eq s.slug t.slug) d.tenants
    then err unique_violation
    else ok (t, record d { tenants = d.tenants ++ t ∷ [] })

-- `SELECT $1, r.id, $2 FROM roles r WHERE r.name = 'admin' AND r.tenant_id IS NULL`
abbrev pub admin_assignments : Uuid → Uuid → Db → List UserRole
admin_assignments creator tenant_id d =
    map
      (λ r. record { user_id = creator; role_id = r.id; tenant_id = tenant_id; project_id = none })
      (select (λ r. str_eq r.name "admin" && is_none r.tenant_id) d.roles)

unfoldable pub create_tenant_with_admin : String → String → Uuid → Action SqlError TenantRow
unfolding transaction statement insert_tenant insert_membership insert_user_roles select
create_tenant_with_admin slug name creator = transaction do
  id ← draw (λ env n. env.random_uuid n)
  t ← statement (insert_tenant (record { id = id; slug = slug; name = name; status = "active" }))
  statement (insert_membership creator t.id)
  statement (λ d. insert_user_roles (admin_assignments creator t.id d) d)
  pure t

unfoldable pub list_tenants : Action SqlError (List TenantRow)
unfolding query order_by
list_tenants env = query (λ d. order_by (λ a b. env.collate a.name b.name) d.tenants) env

-- `projects` has the id as its key, and (tenant_id, slug) is unique.
unfoldable pub insert_project : ProjectRow → Db → Result SqlError (ProjectRow × Db)
unfolding exists
insert_project p d =
    if exists (λ q. q.id == p.id || q.tenant_id == p.tenant_id && str_eq q.slug p.slug) d.projects
    then err unique_violation
    else if has_tenant p.tenant_id d
    then ok (p, record d { projects = d.projects ++ p ∷ [] })
    else err foreign_key_violation

unfoldable pub create_project : Uuid → String → String → Action SqlError ProjectRow
unfolding tenant_tx statement insert_project
create_project tenant_id slug name = tenant_tx do
  id ← draw (λ env n. env.random_uuid n)
  statement (insert_project (record { id = id; tenant_id = tenant_id; slug = slug; name = name }))

unfoldable pub add_member : Uuid → Uuid → Action SqlError Unit
unfolding tenant_tx statement insert_membership
add_member user_id tenant_id = tenant_tx (statement (insert_membership user_id tenant_id))

unfoldable pub list_projects_by_tenant : Uuid → Action SqlError (List ProjectRow)
unfolding tenant_tx query select order_by
list_projects_by_tenant tenant_id env =
    tenant_tx
      (query λ d.
        order_by (λ a b. env.collate a.name b.name)
          (select (λ p. p.tenant_id == tenant_id) d.projects))
      env

-- The row of `users` that a membership of the tenant joins to.
abbrev pub member_join : Uuid → Db → Member → Option MemberRow
member_join tenant_id d m =
    if m.tenant_id == tenant_id
    then Option.map (λ u. record { user_id = u.id; email = u.email; status = m.status })
        (find? (λ u. u.id == m.user_id) d.users)
    else none

unfoldable pub list_members_by_tenant : Uuid → Action SqlError (List MemberRow)
unfolding tenant_tx query find? order_by
list_members_by_tenant tenant_id env =
    tenant_tx
      (query λ d.
        order_by (λ a b. env.collate a.email b.email)
          (filter_map (member_join tenant_id d) d.memberships))
      env

unfoldable pub remove_member : Uuid → Uuid → Action SqlError Unit
unfolding tenant_tx execute delete
remove_member user_id tenant_id = tenant_tx (
    execute λ d. record d {
      memberships = delete (λ m. m.user_id == user_id && m.tenant_id == tenant_id) d.memberships;
    })

unfoldable pub is_project_in_tenant : Uuid → Uuid → Action SqlError Bool
unfolding query exists
is_project_in_tenant project_id tenant_id =
    query λ d. exists (λ p. p.id == project_id && p.tenant_id == tenant_id) d.projects
