-- ===== src/History/Elsewhere.antt =====
-- The statements of src/repo.rs that touch neither the users nor the ledger: those on recovery
-- codes, API keys, tenants, roles and permissions, clients and consents, and the outbox.
use iam_rust_auth.Base.{
  ◌≡◌, refl, String, Option, List, arith, Result-cases, inl, inr, [], ◌∷◌, find?, exists, select,
  update,
}
use iam_rust_auth.Db.{
  Db, Uuid, Instant, UserRole, TenantRow, ProjectRow, Consent, OauthClientRow, UserRow,
}
use iam_rust_auth.World.{
  Action, Result, ok, SqlError, statement, query, execute, Env, World, Order, Within,
  Within-statement, Within-execute, Within-still, within_rules,
}
use iam_rust_auth.Repo
use iam_rust_auth.Repo.{
  tenant_tx, tenant_guc_tx, set_config, insert_user, mark_deleted, insert_user_role,
  insert_user_roles, insert_outbox, update_user, insert_api_key, insert_tenant, insert_membership,
  insert_project, insert_role, remove_role, revoke_named, delete_assignment, insert_client,
  upsert_consent, incremented, default_assignments, admin_assignments, resolve_role,
  assign_resolved, delete_grant, scalar, own_role, visible,
}
use iam_rust_auth.History.Ledger.{Ledger, ledger}

-- What of the database these statements leave as it is.
abbrev pub view : Db → Ledger × List UserRow
view d = (ledger d, d.users)

-- An order that looks at nothing else.
pub record Ignores (o : Order) : Type 0 where
  pub same : (d d' : Db) → view d' ≡ view d → o.Le d d'

-- What a statement leaves, where it succeeds.
pub record Idle {A : Type 0} (run : Db → Result SqlError (A × Db)) : Type 0 where
  pub at : (d d' : Db) (a : A) → run d ≡ ok (a, d') → view d' ≡ view d

insert_user_roles-view :
    (rs : List UserRole) (d d' : Db) → insert_user_roles rs d ≡ ok (tt, d') → view d' ≡ view d
unfolding insert_user_roles insert_user_role
insert_user_roles-view [] d d' e = ground arith
insert_user_roles-view (r ∷ rs) d d' e = elim (Result-cases (insert_user_role r d)) [
  | inl ((_, d₁), f) ↦ ground (arith, insert_user_roles-view rs d₁ d')
  | inr (n, f) ↦ absurd (ground arith)
]

insert_project-Idle : (p : ProjectRow) → Idle (insert_project p)
unfolding insert_project
insert_project-Idle p = record { at = λ d d' a e. ground arith }

insert_tenant-Idle : (t : TenantRow) → Idle (insert_tenant t)
unfolding insert_tenant
insert_tenant-Idle t = record { at = λ d d' a e. ground arith }

insert_membership-Idle : (v t : Uuid) → Idle (insert_membership v t)
unfolding insert_membership
insert_membership-Idle v t = record { at = λ d d' a e. ground arith }

revoke_named-Idle :
    (a : Uuid) (b : String) (c : Uuid) (d : Option Uuid) (env : Env)
    → Idle (revoke_named a b c d env)
unfolding delete_assignment exists select
revoke_named-Idle a b c d env = record { at = λ x x' v e. ground arith }

module _ {o : Order} ⦃i : Ignores o⦄ where
  module _ {E A : Type 0} where
    pub idle :
        (m : Action E A) → ((env : Env) (w : World) → view (m env w).1.db ≡ view w.db) → Within o m
    idle m h = record { at = λ env w. i.same w.db (m env w).1.db (h env w) }

  module _ {A : Type 0} where
    pub Within-Idle : (run : Db → Result SqlError (A × Db)) → Idle run → Within o (statement run)
    Within-Idle run h = Within-statement run λ d a d' e. i.same d d' (h.at d d' a e)

  pub Within-idle_execute : (f : Db → Db) → ((d : Db) → view (f d) ≡ view d) → Within o (execute f)
  Within-idle_execute f h = Within-execute f λ d. i.same d (f d) (h d)

  pub set_config-Within : Within o set_config
  unfolding set_config
  set_config-Within = Within-idle_execute (λ d. d) (λ d. refl)

  pub tenant_tx-Within : {A : Type 0} (m : Action SqlError A) → Within o m → Within o (tenant_tx m)
  unfolding tenant_tx
  tenant_tx-Within m h = search (within_rules, set_config-Within)

  pub tenant_guc_tx-Within :
      {A : Type 0} (m : Action SqlError A) → Within o m → Within o (tenant_guc_tx m)
  unfolding tenant_guc_tx
  tenant_guc_tx-Within m h = search (within_rules, set_config-Within)

  pub insert_outbox-Within : (id : Uuid) (t p : String) → Within o (insert_outbox id t p)
  unfolding insert_outbox
  insert_outbox-Within id t p = search (within_rules, Within-idle_execute) depth 10

  pub insert_user_roles-Within :
      (f : Db → List UserRole) → Within o (statement (λ d. insert_user_roles (f d) d))
  insert_user_roles-Within f =
      Within-Idle (λ d. insert_user_roles (f d) d)
        (record { at = λ d d' a e. insert_user_roles-view (f d) d d' e })

  pub ruleset writing = (
    within_rules, tenant_tx-Within, tenant_guc_tx-Within, set_config-Within, insert_outbox-Within,
    insert_user_roles-Within,
  )

  pub insert_recovery_code-Within :
      (a : Uuid) (b : String) → Within o (Repo.insert_recovery_code a b)
  unfolding Repo.insert_recovery_code query statement execute update_user
  insert_recovery_code-Within a b = idle (Repo.insert_recovery_code a b) (λ env w. ground arith)

  pub delete_recovery_codes-Within : (a : Uuid) → Within o (Repo.delete_recovery_codes a)
  unfolding Repo.delete_recovery_codes query statement execute update_user
  delete_recovery_codes-Within a = idle (Repo.delete_recovery_codes a) (λ env w. ground arith)

  pub consume_recovery_code-Within :
      (a : Uuid) (b : String) → Within o (Repo.consume_recovery_code a b)
  unfolding Repo.consume_recovery_code query statement execute update_user
  consume_recovery_code-Within a b = idle (Repo.consume_recovery_code a b) (λ env w. ground arith)

  pub create_api_key-Within :
      (a : String) (b : Uuid) (c : String) (d : String) (e : List String) (f : Option Instant)
      (g : Uuid) (h : Option Uuid)
      → Within o (Repo.create_api_key a b c d e f g h)
  unfolding Repo.create_api_key query statement execute update_user insert_api_key
  create_api_key-Within a b c d e f g h =
      idle (Repo.create_api_key a b c d e f g h) (λ env w. ground arith)

  pub revoke_api_key-Within : (a : String) (b : Uuid) → Within o (Repo.revoke_api_key a b)
  unfolding Repo.revoke_api_key query statement execute update_user
  revoke_api_key-Within a b = idle (Repo.revoke_api_key a b) (λ env w. ground arith)

  pub touch_api_key-Within : (a : String) → Within o (Repo.touch_api_key a)
  unfolding Repo.touch_api_key query statement execute update_user
  touch_api_key-Within a = idle (Repo.touch_api_key a) (λ env w. ground arith)

  pub create_membership-Within : (a : Uuid) (b : Uuid) → Within o (Repo.create_membership a b)
  unfolding Repo.create_membership query statement execute update_user insert_membership
  create_membership-Within a b = idle (Repo.create_membership a b) (λ env w. ground arith)

  pub mark_outbox_published-Within : (a : Uuid) → Within o (Repo.mark_outbox_published a)
  unfolding Repo.mark_outbox_published query statement execute update_user
  mark_outbox_published-Within a = idle (Repo.mark_outbox_published a) (λ env w. ground arith)

  pub add_member-Within : (a : Uuid) (b : Uuid) → Within o (Repo.add_member a b)
  unfolding Repo.add_member insert_membership
  add_member-Within a b =
      tenant_tx-Within _ (Within-Idle _ (record { at = λ x x' v e. ground arith }))

  pub remove_member-Within : (a : Uuid) (b : Uuid) → Within o (Repo.remove_member a b)
  unfolding Repo.remove_member
  remove_member-Within a b = tenant_tx-Within _ (Within-idle_execute _ (λ x. refl))

  pub create_project-Within :
      (a : Uuid) (b : String) (c : String) → Within o (Repo.create_project a b c)
  unfolding Repo.create_project
  create_project-Within a b c = search (writing, Within-Idle, insert_project-Idle) depth 10

  pub assign_role-Within :
      (a : Uuid) (b : String) (c : Uuid) (d : Option Uuid) → Within o (Repo.assign_role a b c d)
  unfolding Repo.assign_role insert_user_role
  assign_role-Within a b c d =
      tenant_tx-Within _ (Within-Idle _ (record { at = λ x x' v e. ground arith }))

  pub revoke_role-Within :
      (a : Uuid) (b : String) (c : Uuid) (d : Option Uuid) → Within o (Repo.revoke_role a b c d)
  unfolding Repo.revoke_role
  revoke_role-Within a b c d = record {
    at = λ env w.
        (tenant_tx-Within (statement (revoke_named a b c d env))
            (Within-Idle (revoke_named a b c d env) (revoke_named-Idle a b c d env))).at
          env w;
  }

  pub create_role-Within : (a : String) (b : String) (c : Uuid) → Within o (Repo.create_role a b c)
  unfolding Repo.create_role insert_role
  create_role-Within a b c =
      tenant_tx-Within _ (Within-Idle _ (record { at = λ x x' v e. ground arith }))

  pub update_role-Within :
      (name description : String) (tenant : Uuid)
      → Within o (Repo.update_role name description tenant)
  unfolding Repo.update_role
  update_role-Within name description tenant = tenant_tx-Within _ (
      Within-Idle
        (λ d.
          let roles =
            update (own_role name tenant) (λ r. record r { description = description }) d.roles in
          ok (find? (own_role name tenant) roles, record d { roles = roles }))
        (record { at = λ d d' a e. ground arith }))

  pub delete_role-Within : (a : String) (b : Uuid) → Within o (Repo.delete_role a b)
  unfolding Repo.delete_role remove_role
  delete_role-Within a b = tenant_tx-Within _ (Within-idle_execute _ (λ x. refl))

  pub grant_permission-Within :
      (a : String) (b : String) (c : Uuid) → Within o (Repo.grant_permission a b c)
  unfolding Repo.grant_permission
  grant_permission-Within a b c = tenant_tx-Within _ (Within-idle_execute _ (λ x. refl))

  pub revoke_permission-Within :
      (a : String) (b : String) (c : Uuid) → Within o (Repo.revoke_permission a b c)
  unfolding Repo.revoke_permission
  revoke_permission-Within a b c =
      tenant_tx-Within _ (Within-Idle _ (record { at = λ x x' v e. ground arith }))

  pub create_tenant_with_admin-Within :
      (slug name : String) (c : Uuid) → Within o (Repo.create_tenant_with_admin slug name c)
  unfolding Repo.create_tenant_with_admin
  create_tenant_with_admin-Within slug name c =
      search (writing, Within-Idle, insert_tenant-Idle, insert_membership-Idle) depth 12

  pub insert_client-Within : (c : OauthClientRow) → Within o (statement (insert_client c))
  unfolding insert_client
  insert_client-Within c = Within-Idle (insert_client c) (record { at = λ d d' a e. ground arith })

  pub upsert_consent-Within : (c : Consent) → Within o (statement (upsert_consent c))
  unfolding upsert_consent
  upsert_consent-Within c =
      Within-Idle (upsert_consent c) (record { at = λ d d' a e. ground arith })
