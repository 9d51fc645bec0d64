-- ===== src/History/Handlers/Admin.antt =====
-- Administration: the deletion of accounts, tenants and members, roles and permissions (src/grpc.rs).
use iam_rust_auth.Base.{
  refl, ◌≡◌, ℕ, String, Bool, true, Option, none, some, List, [], ◌∷◌, if◌then◌else◌,
}
use iam_rust_auth.Db.{Uuid}
use iam_rust_auth.World.{
  Order, World, Env, pure, ok_or, invalid_argument, user_deleted, bind-le, Within, Within-bind,
  ◌>>=◌, ◌>>◌,
}
use iam_rust_auth.Repo
use iam_rust_auth.Service
use iam_rust_auth.Service.{MetadataMap, Rpc}
use iam_rust_auth.History.Writes.{Writes}
use iam_rust_auth.History.Handlers.Common.{
  rules, require_perm-Within, audit_as-Within, audit-Within,
}
use iam_rust_auth.History.Handlers.Accounts.{encode-Within}

module _ {o : Order} ⦃s : Writes o⦄ where
  pub create_tenant-Within :
      (md : MetadataMap) (s n : String) → Within o (Service.create_tenant md s n)
  unfolding Service.create_tenant
  create_tenant-Within md s n = search (rules, audit_as-Within) depth 40 fits 4000

  pub list_tenants-Within : (md : MetadataMap) → Within o (Service.list_tenants md)
  unfolding Service.list_tenants
  list_tenants-Within md = search rules depth 20

  pub create_project-Within :
      (md : MetadataMap) (s n : String) → Within o (Service.create_project md s n)
  unfolding Service.create_project
  create_project-Within md s n = search rules depth 20

  pub list_projects-Within : (md : MetadataMap) → Within o (Service.list_projects md)
  unfolding Service.list_projects
  list_projects-Within md = search rules depth 20

  pub add_member-Within : (md : MetadataMap) (e : String) → Within o (Service.add_member md e)
  unfolding Service.add_member
  add_member-Within md e = search (rules, audit_as-Within) depth 40 fits 4000

  pub remove_member-Within : (md : MetadataMap) (i : String) → Within o (Service.remove_member md i)
  unfolding Service.remove_member
  remove_member-Within md i = search (rules, audit_as-Within) depth 40 fits 4000

  pub list_members-Within : (md : MetadataMap) → Within o (Service.list_members md)
  unfolding Service.list_members
  list_members-Within md = search rules depth 20

  pub create_role-Within : (md : MetadataMap) (n d : String) → Within o (Service.create_role md n d)
  unfolding Service.create_role
  create_role-Within md n d = search (rules, audit-Within) depth 40 fits 4000

  pub update_role-Within : (md : MetadataMap) (n d : String) → Within o (Service.update_role md n d)
  unfolding Service.update_role
  update_role-Within md n d = search rules depth 40 fits 4000

  pub delete_role-Within : (md : MetadataMap) (n : String) → Within o (Service.delete_role md n)
  unfolding Service.delete_role
  delete_role-Within md n = search (rules, audit-Within) depth 40 fits 4000

  pub list_roles-Within : (md : MetadataMap) → Within o (Service.list_roles md)
  unfolding Service.list_roles
  list_roles-Within md = search rules depth 20

  pub assign_role-Within :
      (md : MetadataMap) (i r p : String) → Within o (Service.assign_role md i r p)
  unfolding Service.assign_role
  assign_role-Within md i r p = search (rules, audit-Within) depth 40 fits 4000

  assign_parsed-Within :
      (i : Option Uuid) (r : String) (t : Uuid) (p : Option Uuid)
      → Within o (Service.assign_parsed i r t p)
  assign_parsed-Within none r t p = search rules
  assign_parsed-Within (some i) r t p = search rules

  tally-Within :
      (i : String) (done : Option (Unit {0})) (acc : ℕ × List String)
      → Within o (Service.tally i done acc)
  tally-Within i none (n, failed) = search rules
  tally-Within i (some _) (n, failed) = search rules

  assign_all-Within :
      (is : List String) (r : String) (t : Uuid) (p : Option Uuid) (acc : ℕ × List String)
      → Within o (Service.assign_all is r t p acc)
  unfolding Service.assign_all
  assign_all-Within [] r t p acc = search rules
  assign_all-Within (i ∷ is) r t p acc =
      Within-bind Service.ask
        (λ env. do
          done ← Service.assign_parsed (env.parse_uuid i) r t p
          acc' ← Service.tally i done acc
          Service.assign_all is r t p acc')
        (search rules)
        λ env.
          Within-bind (Service.assign_parsed (env.parse_uuid i) r t p)
            (λ done. do acc' ← Service.tally i done acc; Service.assign_all is r t p acc')
            (assign_parsed-Within (env.parse_uuid i) r t p)
            λ done.
              Within-bind (Service.tally i done acc) (λ acc'. Service.assign_all is r t p acc')
                (tally-Within i done acc) λ acc'. assign_all-Within is r t p acc'

  pub assign_role_bulk-Within :
      (md : MetadataMap) (is : List String) (r p : String)
      → Within o (Service.assign_role_bulk md is r p)
  unfolding Service.assign_role_bulk
  assign_role_bulk-Within md is r p =
      search (rules, assign_all-Within, audit-Within) depth 40 fits 4000

  pub revoke_role-Within :
      (md : MetadataMap) (i r p : String) → Within o (Service.revoke_role md i r p)
  unfolding Service.revoke_role
  revoke_role-Within md i r p = search (rules, audit-Within) depth 40 fits 4000

  pub get_user_role_assignments-Within :
      (md : MetadataMap) (i : String) → Within o (Service.get_user_role_assignments md i)
  unfolding Service.get_user_role_assignments
  get_user_role_assignments-Within md i = search rules depth 20

  pub list_permissions-Within : (md : MetadataMap) → Within o (Service.list_permissions md)
  unfolding Service.list_permissions
  list_permissions-Within md = search rules depth 20

  pub grant_permission-Within :
      (md : MetadataMap) (r p : String) → Within o (Service.grant_permission md r p)
  unfolding Service.grant_permission
  grant_permission-Within md r p = search (rules, audit-Within) depth 40 fits 4000

  pub revoke_permission-Within :
      (md : MetadataMap) (r p : String) → Within o (Service.revoke_permission md r p)
  unfolding Service.revoke_permission
  revoke_permission-Within md r p = search (rules, audit-Within) depth 40 fits 4000

-- `delete_user` once the caller is allowed to: with the id as it is parsed, and then known.
deletion : Env → MetadataMap → String → Bool → Uuid → Rpc Bool
deletion env md i hard uid = do
  payload ← Service.encode (user_deleted i hard)
  Service.db "failed to delete user"
      (Repo.delete_user_event_soft uid hard env.type_user_deleted payload)
  Service.audit md "user.delete" i (if hard then "hard" else "soft")
  pure true

module _ {o : Order} ⦃s : Writes o⦄ (env : Env) (md : MetadataMap) (i : String) (hard : Bool) where
  deletion-Within :
      (uid : Uuid)
      → ((t p : String) → Within o (Repo.delete_user_event_soft uid hard t p))
      → Within o (deletion env md i hard uid)
  unfolding deletion
  deletion-Within uid deletes = search (rules, encode-Within, audit-Within, deletes) depth 20

  parsed_deletion-le :
      (p : Option Uuid)
      → ((uid : Uuid) (t q : String)
          → p ≡ some uid
          → Within o (Repo.delete_user_event_soft uid hard t q))
      → (w : World)
      → o.Le w.db
          ((do uid ← ok_or (invalid_argument "invalid user id") p; deletion env md i hard uid) env
            w).1.db
  parsed_deletion-le none deletes w = o.le_refl w.db
  parsed_deletion-le (some uid) deletes w =
      (deletion-Within uid (λ t q. deletes uid t q refl)).at env w

  -- The deletion of a user, where the order respects that of the user with the parsed id.
  pub delete_user-le :
      (w : World)
      → ((uid : Uuid) (t q : String)
          → env.parse_uuid i ≡ some uid
          → Within o (Repo.delete_user_event_soft uid hard t q))
      → o.Le w.db (Service.delete_user md i hard env w).1.db
  unfolding Service.delete_user deletion
  delete_user-le w deletes =
      bind-le o (Service.require_perm md "user:delete") _ env
        ((require_perm-Within {o = o} md "user:delete").at env)
        (λ _. parsed_deletion-le (env.parse_uuid i) deletes) w
