-- ===== src/Tenancy/Builtin.antt =====
-- The roles that a tenant's requests can change (src/grpc.rs, src/repo.rs).
use iam_rust_auth.Base.{
  ◌≡◌, refl, inl, inr, String, Bool, true, false, not, some, List, [], ◌∷◌, ◌++◌, arith, ==_iff,
  find?, column_eq, select, update, delete, Bool-cases,
}
use iam_rust_auth.Db.{Db, Uuid, RoleRow}
use iam_rust_auth.World.{Env, World, ok, err, Result, SqlError, statement, execute, transaction}
use iam_rust_auth.Repo
use iam_rust_auth.Repo.{
  tenant_tx, set_config, resolve_role, visible, own_role, insert_role, remove_role,
  insert_user_role, assign_resolved,
}

-- The built-in templates, and the roles of every other tenant.
abbrev pub foreign_roles : Uuid → Db → List RoleRow
foreign_roles tenant d = select (λ r. not (column_eq r.tenant_id tenant)) d.roles

select-delete :
    {A : Type 0} (q p : A → Bool) (xs : List A)
    → ((x : A) → p x ≡ true → q x ≡ false)
    → select q (delete p xs) ≡ select q xs
unfolding select delete
select-delete q p [] h = refl
select-delete q p (x ∷ xs) h = elim (Bool-cases (p x)) [
  | inl e ↦ ground (arith, h x e, select-delete q p xs h)
  | inr e ↦ ground (arith, select-delete q p xs h)
]

select-update :
    {A : Type 0} (q p : A → Bool) (f : A → A) (xs : List A)
    → ((x : A) → p x ≡ true → q x ≡ false)
    → ((x : A) → p x ≡ true → q (f x) ≡ false)
    → select q (update p f xs) ≡ select q xs
unfolding select update
select-update q p f [] h k = refl
select-update q p f (x ∷ xs) h k = elim (Bool-cases (p x)) [
  | inl e ↦ ground (arith, h x e, k x e, select-update q p f xs h k)
  | inr e ↦ ground (arith, select-update q p f xs h k)
]

select-append :
    {A : Type 0} (q : A → Bool) (xs : List A) (y : A)
    → q y ≡ false
    → select q (xs ++ y ∷ []) ≡ select q xs
unfolding select
select-append q [] y h = ground (arith)
select-append q (x ∷ xs) y h = ground (arith, select-append q xs y h)

-- The database after a statement: as it was, where a constraint refuses it.
abbrev pub committed : {A : Type 0} → Db → Result SqlError (A × Db) → Db
committed d (ok (a, d')) = d'
committed d (err e) = d

-- What a statement keeps, a transaction of it keeps, whichever of its statements fail.
pub tenant_tx-keeps :
    {A X : Type 0} (q : Db → X) (f : Db → Result SqlError (A × Db)) (env : Env) (w : World)
    → q (committed w.db (f w.db)) ≡ q w.db
    → q (tenant_tx (statement f) env w).1.db ≡ q w.db
unfolding tenant_tx transaction execute statement set_config
tenant_tx-keeps q f env w h = ground (arith)

own_role-tenant :
    (name : String) (tenant : Uuid) (r : RoleRow)
    → own_role name tenant r ≡ true
    → not (column_eq r.tenant_id tenant) ≡ false
own_role-tenant name tenant r h = ground (arith)

module _ (name description : String) (tenant : Uuid) (env : Env) (w : World) where
  created :
      foreign_roles tenant (Repo.create_role name description tenant env w).1.db
      ≡ foreign_roles tenant w.db
  unfolding Repo.create_role insert_role
  created = tenant_tx-keeps (foreign_roles tenant) (insert_role name description tenant) env w (
      ground (
        arith,
        ==_iff tenant tenant,
        select-append (λ (r : RoleRow). not (column_eq r.tenant_id tenant)) w.db.roles
            (record {
              id = w.db.next_role_id;
              name = name;
              description = description;
              tenant_id = some tenant;
            }),
      ))

  updated :
      foreign_roles tenant (Repo.update_role name description tenant env w).1.db
      ≡ foreign_roles tenant w.db
  unfolding Repo.update_role
  updated =
      tenant_tx-keeps (foreign_roles tenant)
        (λ d.
          let roles =
            update (own_role name tenant) (λ r. record r { description = description }) d.roles in
          ok (find? (own_role name tenant) roles, record d { roles = roles }))
        env w
        (select-update (λ (r : RoleRow). not (column_eq r.tenant_id tenant)) (own_role name tenant)
          (λ r. record r { description = description }) w.db.roles (own_role-tenant name tenant)
          (own_role-tenant name tenant))

  deleted :
      foreign_roles tenant (Repo.delete_role name tenant env w).1.db ≡ foreign_roles tenant w.db
  unfolding Repo.delete_role remove_role execute
  deleted =
      tenant_tx-keeps (foreign_roles tenant) (λ d. ok (tt, remove_role name tenant d)) env w
        (select-delete (λ (r : RoleRow). not (column_eq r.tenant_id tenant)) (own_role name tenant)
          w.db.roles (own_role-tenant name tenant))

  -- Creating, updating or deleting a role of one tenant leaves the built-in templates and the roles
  -- of every other tenant as they were, whatever the name and whichever statements fail.
  pub roles_isolated :
      (foreign_roles tenant (Repo.create_role name description tenant env w).1.db
        ≡ foreign_roles tenant w.db)
      × (foreign_roles tenant (Repo.update_role name description tenant env w).1.db
          ≡ foreign_roles tenant w.db)
      × (foreign_roles tenant (Repo.delete_role name tenant env w).1.db ≡ foreign_roles tenant w.db)
  roles_isolated = (created, updated, deleted)
