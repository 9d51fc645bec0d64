-- ===== src/Tenancy/Names.antt =====
-- How the name of a role is resolved (src/repo.rs, `assign_role` and `revoke_role`).
use iam_rust_auth.Base.{
  All-order_by, ◌≢◌, ◌≡◌, subst, String, Bool, true, ◌&&◌, ◌||◌, Option, some, List, [], ◌∷◌, arith,
  str_eq, is_none, is_some, select, exists, ◌++◌, All, All-select, Bool-cases, inl, inr, ap, ◌∙◌,
  none, suc, eq_refl, if◌then◌else◌, is_empty,
}
use mathlib.Core.List.{head?}
use iam_rust_auth.Db.{Db, Uuid, RoleRow}
use iam_rust_auth.World.{
  Env, World, bind-ok, or_status, or_status-ok, already_exists, pure, ◌>>=◌, ◌>>◌, query, ok, err,
  too_many_rows, statement, transaction, execute,
}
use iam_rust_auth.Repo
use iam_rust_auth.Service
use iam_rust_auth.Service.{
  Rpc, MetadataMap, Role, bare_role, meta, audit, audit_as, require_perm, active_tenant,
  parse_opt_project,
}
use iam_rust_auth.Repo.{
  resolve_role, visible, own_role, tenant_tx, set_config, delete_assignment, scalar, insert_role,
  is_tested, role_exists, insert_audit,
}

abbrev before : RoleRow → RoleRow → Bool
before a b = is_some a.tenant_id || is_none b.tenant_id

head?-All : {A : Type 0} (P : A → Type 0) (xs : List A) (x : A) → head? xs ≡ some x → All P xs → P x
head?-All P [] x h all = absurd (ground (arith))
head?-All P (y ∷ ys) x h (p, all) = subst P (ground (arith)) p

-- The role that a name is resolved to has that name, and is the tenant's own or a built-in template.
pub resolve_role-visible :
    (name : String) (tenant : Uuid) (d : Db) (r : RoleRow)
    → resolve_role name tenant d ≡ some r
    → (str_eq r.name name && visible tenant r) ≡ true
unfolding resolve_role
resolve_role-visible name tenant d r h =
    head?-All (λ s. (str_eq s.name name && visible tenant s) ≡ true) _ r h
      (All-order_by (λ s. (str_eq s.name name && visible tenant s) ≡ true) _ _
        (All-select (λ s. str_eq s.name name && visible tenant s) d.roles))

-- Two rows of one name make the subquery fail.
select-appended :
    {A : Type 0} (p : A → Bool) (xs : List A) (y : A)
    → p y ≡ true
    → (z : A) × (zs : List A) × (select p (xs ++ y ∷ []) ≡ z ∷ zs)
unfolding select
select-appended p [] y h = (y, [], ground arith)
select-appended p (x ∷ xs) y h =
    let (z, zs, e) = select-appended p xs y h in
    elim (Bool-cases (p x)) [ inl f ↦ (x, z ∷ zs, ground arith) | inr f ↦ (z, zs, ground arith) ]

scalar-appended :
    {A : Type 0} (p : A → Bool) (xs : List A) (y : A)
    → exists p xs ≡ true
    → p y ≡ true
    → scalar (select p (xs ++ y ∷ [])) ≡ err too_many_rows
unfolding select exists
scalar-appended p [] y h k = absurd (ground arith)
scalar-appended p (x ∷ xs) y h k =
    let (z, zs, e) = select-appended p xs y k in ground (arith, scalar-appended p xs y)

-- The role that the handler adds: the tenant's own, of that name.
create_role-adds :
    (name description : String) (tenant : Uuid) (env : Env) (w w' : World) (r : RoleRow)
    → Repo.create_role name description tenant env w ≡ (ok r, w')
    → (w'.db.roles ≡ w.db.roles ++ r ∷ []) × (r.name ≡ name) × (r.tenant_id ≡ some tenant)
unfolding Repo.create_role tenant_tx transaction execute set_config statement insert_role
create_role-adds name description tenant env w w' r h = (ground arith, ground arith, ground arith)

-- The revocation, where its subquery runs and finds two roles.
revoke_role-stuck :
    (user : Uuid) (name : String) (tenant : Uuid) (project : Option Uuid) (env : Env) (w : World)
    → exists (is_tested user tenant project) w.db.user_roles ≡ true
    → scalar (select (λ r. str_eq r.name name && visible tenant r) w.db.roles) ≡ err too_many_rows
    → let (r, w') = Repo.revoke_role user name tenant project env w in (r ≢ ok tt) × (w'.db ≡ w.db)
unfolding Repo.revoke_role tenant_tx transaction execute set_config statement delete_assignment
revoke_role-stuck user name tenant project env w tested two = (λ h. ground (arith), ground (arith))

-- The project that a request names, if it names one.
abbrev pub asked_project : Env → String → Option Uuid
asked_project env s = if is_empty s then none else env.parse_uuid s

revoke-refused :
    (md : MetadataMap) (user_id name project_id : String) (env : Env) (w : World)
    (tenant uid : Uuid)
    → env.parse_uuid (meta md "x-tenant-id") ≡ some tenant
    → env.parse_uuid user_id ≡ some uid
    → exists (is_tested uid tenant (asked_project env project_id)) w.db.user_roles ≡ true
    → scalar (select (λ r. str_eq r.name name && visible tenant r) w.db.roles) ≡ err too_many_rows
    → let (r, w') = Service.revoke_role md user_id name project_id env w in
      (r ≢ ok true) × (w'.db ≡ w.db)
unfolding Service.revoke_role require_perm active_tenant parse_opt_project role_exists query
    statement
revoke-refused md user_id name project_id env w tenant uid active parsed tested two =
    let stuck =
      revoke_role-stuck uid name tenant (asked_project env project_id) env
        (record w { calls = suc w.calls }) tested two in
    ((λ h. ground (arith, stuck.0)), ground (arith, stuck.1))

audit-roles :
    (md : MetadataMap) (k t x : String) (env : Env) (w : World)
    → (audit md k t x env w).1.db.roles ≡ w.db.roles
unfolding audit audit_as insert_audit execute statement
audit-roles md k t x env w = ground arith

-- Every tenant sees the templates.
template-visible :
    (name : String) (tenant : Uuid) (rs : List RoleRow)
    → exists (λ r. str_eq r.name name && is_none r.tenant_id) rs ≡ true
    → exists (λ r. str_eq r.name name && visible tenant r) rs ≡ true
unfolding exists
template-visible name tenant [] h = h
template-visible name tenant (r ∷ rs) h = ground (arith, template-visible name tenant rs)

-- The end of the handler, from the statement on.
abbrev adding : MetadataMap → String → String → Uuid → Rpc Role
adding md name description tenant = do
  r ← or_status (already_exists "role already exists") (Repo.create_role name description tenant)
  audit md "role.create" name ""
  pure (bare_role r)

-- What it adds.
abbrev Added : String → Uuid → World → World → Type 0
Added name tenant w w' =
    (r : RoleRow) × (w'.db.roles ≡ w.db.roles ++ r ∷ [])
    × (r.name ≡ name)
    × (r.tenant_id ≡ some tenant)

adding-reached :
    (md : MetadataMap) (name description : String) (env : Env) (w w' : World) (role : Role)
    (tenant : Uuid)
    → Service.create_role md name description env w ≡ (ok role, w')
    → env.parse_uuid (meta md "x-tenant-id") ≡ some tenant
    → adding md name description tenant env w ≡ (ok role, w')
unfolding Service.create_role require_perm active_tenant
adding-reached md name description env w w' role tenant h active = ground arith

recorded :
    (md : MetadataMap) (name : String) (r : RoleRow) (env : Env) (w w' : World) (role : Role)
    → (do audit md "role.create" name ""; pure (bare_role r)) env w ≡ (ok role, w')
    → w'.db.roles ≡ w.db.roles
recorded md name r env w w' role h = ground (arith, audit-roles md "role.create" name "" env w)

creates :
    (md : MetadataMap) (name description : String) (env : Env) (w w' : World) (role : Role)
    (tenant : Uuid)
    → adding md name description tenant env w ≡ (ok role, w')
    → Added name tenant w w'
creates md name description env w w' role tenant h =
    let m = Repo.create_role name description tenant in
    let (r, w₁, h₁, rest) =
      bind-ok (or_status (already_exists "role already exists") m) _ env w w' role h in
    let (roles, named, owned) =
      create_role-adds name description tenant env w w₁ r
        (or_status-ok (already_exists "role already exists") m env w w₁ r h₁) in
    (r, recorded md name r env w₁ w' role rest ∙ roles, named, owned)

-- A tenant that has made a role with the name of a built-in template can no longer revoke an assignment
-- under that name, whatever permissions the caller has: where the user has an assignment in the tenant
-- and in the project that is asked for, of whichever role, the revocation fails and changes nothing.
pub create_role-revoke_role :
    (md md' : MetadataMap) (name description user_id project_id : String) (env env' : Env)
    (w w' : World) (role : Role) (tenant uid : Uuid)
    → Service.create_role md name description env w ≡ (ok role, w')
    → env.parse_uuid (meta md "x-tenant-id") ≡ some tenant
    → env'.parse_uuid (meta md' "x-tenant-id") ≡ some tenant
    → env'.parse_uuid user_id ≡ some uid
    → exists (λ r. str_eq r.name name && is_none r.tenant_id) w.db.roles ≡ true
    → exists (is_tested uid tenant (asked_project env' project_id)) w'.db.user_roles ≡ true
    → let (r, w'') = Service.revoke_role md' user_id name project_id env' w' in
      (r ≢ ok true) × (w''.db ≡ w'.db)
create_role-revoke_role md md' name description user_id project_id env env' w w' role tenant uid h
      active active' parsed shadowed tested =
    let (r, roles, named, owned) =
      creates md name description env w w' role tenant
        (adding-reached md name description env w w' role tenant h active) in
    let fits = λ (s : RoleRow). str_eq s.name name && visible tenant s in
    let before : exists fits w.db.roles ≡ true = template-visible name tenant w.db.roles shadowed in
    let mine : fits r ≡ true = ground (arith, eq_refl r.name, ap (str_eq r.name) named) in
    let two : scalar (select fits w'.db.roles) ≡ err too_many_rows =
      rw roles (scalar-appended fits w.db.roles r before mine) in
    revoke-refused md' user_id name project_id env' w' tenant uid active' parsed tested two
