-- ===== src/Tenancy/Scope.antt =====
-- The roles and permissions of a user in one tenant (src/repo.rs, `get_user_roles_scoped` and
-- `get_user_permissions_scoped`).
use iam_rust_auth.Base.{
  ◌≡◌, refl, sym, ◌∙◌, ap, inl, inr, ◌&&◌, Option, List, [], ◌∷◌, arith, select, order_by,
  Bool-cases, ◌==◌,
}
use iam_rust_auth.Db.{Db, Uuid, UserRole}
use iam_rust_auth.World.{Env, World, query, statement, execute, transaction}
use iam_rust_auth.Repo.{
  in_scope, role_names, permission_names, get_user_roles_scoped, get_user_permissions_scoped,
  tenant_guc_tx, set_config,
}

-- The assignments of one user in one tenant.
abbrev pub own_assignments : Uuid → Uuid → List UserRole → List UserRole
own_assignments user tenant urs = select (λ ur. ur.user_id == user && ur.tenant_id == tenant) urs

in_scope-own :
    (user tenant : Uuid) (project : Option Uuid) (urs : List UserRole)
    → select (in_scope user tenant project) (own_assignments user tenant urs)
      ≡ select (in_scope user tenant project) urs
unfolding select
in_scope-own user tenant project [] = refl
in_scope-own user tenant project (ur ∷ urs) =
    elim (Bool-cases (ur.user_id == user && ur.tenant_id == tenant)) [
      | inl e ↦ ground (arith, in_scope-own user tenant project urs)
      | inr e ↦ ground (arith, in_scope-own user tenant project urs)
    ]

in_scope-depends :
    (user tenant : Uuid) (project : Option Uuid) (urs vrs : List UserRole)
    → own_assignments user tenant urs ≡ own_assignments user tenant vrs
    → select (in_scope user tenant project) urs ≡ select (in_scope user tenant project) vrs
in_scope-depends user tenant project urs vrs same =
    sym (in_scope-own user tenant project urs)
    ∙ ap (select (in_scope user tenant project)) same
    ∙ in_scope-own user tenant project vrs

-- A query in a transaction tells of the database what the query does.
query-result :
    {A : Type 0} (f : Db → A) (env : Env) (w : World) (d : Db)
    → f d ≡ f w.db
    → (tenant_guc_tx (query f) env (record w { db = d })).0 ≡ (tenant_guc_tx (query f) env w).0
unfolding tenant_guc_tx transaction execute query statement set_config
query-result f env w d same = ground (arith)

-- The roles and the permissions that the service reads for a user in a tenant depend on no assignment
-- but the user's own in that tenant: databases that differ only in the assignments of other tenants
-- and other users get the same answers, whichever statements fail.
pub scoped-own_assignments :
    (user tenant : Uuid) (project : Option Uuid) (env : Env) (w : World) (urs : List UserRole)
    → own_assignments user tenant urs ≡ own_assignments user tenant w.db.user_roles
    → let w' = record w { db = record w.db { user_roles = urs } } in
      ((get_user_roles_scoped user tenant project env w').0
        ≡ (get_user_roles_scoped user tenant project env w).0)
      × ((get_user_permissions_scoped user tenant project env w').0
          ≡ (get_user_permissions_scoped user tenant project env w).0)
unfolding get_user_roles_scoped get_user_permissions_scoped
scoped-own_assignments user tenant project env w urs same =
    let d : Db = record w.db { user_roles = urs } in
    let read = in_scope-depends user tenant project urs w.db.user_roles same in
    (
      query-result _ env w d (ap (λ rs. order_by env.collate (role_names w.db rs)) read),
      query-result _ env w d (ap (permission_names env w.db) read),
    )
