-- ===== src/History/Requests.antt =====
-- Every request, every pass of the relay and every stream of the saga, as a step of an order on
-- databases that the statements respect (src/grpc.rs, src/relay.rs, src/saga.rs).
use iam_rust_auth.Base.{refl, String, ◌≡◌, suc, Bool, Option, none, some, List, [], ◌∷◌, arith}
use iam_rust_auth.Db.{Uuid, OutboxRow}
use iam_rust_auth.World.{
  World, Env, Order, Within, bind-le, Within-bind, Within-pure, Within-still, pure, asks, or_status,
  NatsMessage, ◌>>=◌, ◌>>◌,
}
use iam_rust_auth.Service
use iam_rust_auth.Service.{Rpc, MetadataMap}
use iam_rust_auth.Server.{Request, respond, serve}
use iam_rust_auth.Repo
use iam_rust_auth.Repo.{mark_outbox_published}
use iam_rust_auth.Relay.{drain, drain_rows, publish, relay_failed, message_of}
use iam_rust_auth.Saga.{Item, message, recv_error, consume, record_failure, ProfileCreationFailed}
use iam_rust_auth.History.Handlers.Common.{rules}
use iam_rust_auth.History.Writes.{Writes}
use iam_rust_auth.History.Handlers.Sessions.{
  list_my_memberships-Within, login-Within, login_totp-Within, logout-Within, refresh-Within,
  switch_tenant-Within, validate_token-Within,
}
use iam_rust_auth.History.Handlers.Clients.{
  create_authorization_code-Within, create_key-Within, exchange_authorization_code-Within,
  get_client-Within, get_consent-Within, get_jwks-Within, list_keys-Within, register_client-Within,
  revoke_key-Within, save_consent-Within, validate_key-Within,
}
use iam_rust_auth.History.Handlers.Admin.{
  delete_user-le, add_member-Within, assign_role-Within, assign_role_bulk-Within,
  create_project-Within, create_role-Within, create_tenant-Within, delete_role-Within,
  get_user_role_assignments-Within, grant_permission-Within, list_members-Within,
  list_permissions-Within, list_projects-Within, list_roles-Within, list_tenants-Within,
  remove_member-Within, revoke_permission-Within, revoke_role-Within, update_role-Within,
}
use iam_rust_auth.History.Handlers.Accounts.{
  change_password-Within, disable_second_factor-Within, enroll_totp-Within, get_totp_status-Within,
  list_audit_events-Within, register-Within, request_email_verification-Within,
  request_password_reset-Within, reset_password-Within, restore_user-Within, verify_email-Within,
}

respond-Within : {o : Order} {A : Type 0} (m : Rpc A) → Within o m → Within o (respond m)
respond-Within m h = Within-bind m (λ _. pure tt) h (λ _. Within-pure tt)

module _ {o : Order} ⦃s : Writes o⦄ where
  -- Every request is a step of the order, if the activation of a second factor is, and the deletion
  -- that the request asks for.
  pub serve-le :
      (md : MetadataMap) (r : Request) (env : Env) (w : World)
      → ((g : String) → Within o (Service.activate_totp md g))
      → ((i : String) (hard : Bool) (uid : Uuid) (t q : String)
          → r ≡ Request.delete_user i hard
          → env.parse_uuid i ≡ some uid
          → Within o (Repo.delete_user_event_soft uid hard t q))
      → o.Le w.db (serve md r env w).1.db
  unfolding serve
  serve-le md Request.get_jwks env w activates deletes =
      (respond-Within {o = o} _ (get_jwks-Within)).at env w
  serve-le md (Request.get_client a) env w activates deletes =
      (respond-Within {o = o} _ (get_client-Within a)).at env w
  serve-le md (Request.create_authorization_code a) env w activates deletes =
      (respond-Within {o = o} _ (create_authorization_code-Within a)).at env w
  serve-le md (Request.get_consent a b) env w activates deletes =
      (respond-Within {o = o} _ (get_consent-Within a b)).at env w
  serve-le md (Request.save_consent a b c) env w activates deletes =
      (respond-Within {o = o} _ (save_consent-Within a b c)).at env w
  serve-le md (Request.exchange_authorization_code a) env w activates deletes =
      (respond-Within {o = o} _ (exchange_authorization_code-Within a)).at env w
  serve-le md (Request.register_client a) env w activates deletes =
      (respond-Within {o = o} _ (register_client-Within md a)).at env w
  serve-le md (Request.register a b) env w activates deletes =
      (respond-Within {o = o} _ (register-Within a b)).at env w
  serve-le md (Request.login a b) env w activates deletes =
      (respond-Within {o = o} _ (login-Within a b)).at env w
  serve-le md (Request.refresh a) env w activates deletes =
      (respond-Within {o = o} _ (refresh-Within a)).at env w
  serve-le md (Request.logout a b) env w activates deletes =
      (respond-Within {o = o} _ (logout-Within md a b)).at env w
  serve-le md (Request.validate_token a) env w activates deletes =
      (respond-Within {o = o} _ (validate_token-Within a)).at env w
  serve-le md Request.list_my_memberships env w activates deletes =
      (respond-Within {o = o} _ (list_my_memberships-Within md)).at env w
  serve-le md (Request.switch_tenant a b) env w activates deletes =
      (respond-Within {o = o} _ (switch_tenant-Within md a b)).at env w
  serve-le md (Request.create_tenant a b) env w activates deletes =
      (respond-Within {o = o} _ (create_tenant-Within md a b)).at env w
  serve-le md Request.list_tenants env w activates deletes =
      (respond-Within {o = o} _ (list_tenants-Within md)).at env w
  serve-le md (Request.create_project a b) env w activates deletes =
      (respond-Within {o = o} _ (create_project-Within md a b)).at env w
  serve-le md Request.list_projects env w activates deletes =
      (respond-Within {o = o} _ (list_projects-Within md)).at env w
  serve-le md (Request.add_member a) env w activates deletes =
      (respond-Within {o = o} _ (add_member-Within md a)).at env w
  serve-le md (Request.remove_member a) env w activates deletes =
      (respond-Within {o = o} _ (remove_member-Within md a)).at env w
  serve-le md Request.list_members env w activates deletes =
      (respond-Within {o = o} _ (list_members-Within md)).at env w
  serve-le md Request.enroll_totp env w activates deletes =
      (respond-Within {o = o} _ (enroll_totp-Within md)).at env w
  serve-le md Request.get_totp_status env w activates deletes =
      (respond-Within {o = o} _ (get_totp_status-Within md)).at env w
  serve-le md (Request.activate_totp a) env w activates deletes =
      (respond-Within {o = o} _ (activates a)).at env w
  serve-le md (Request.disable_totp a) env w activates deletes =
      (respond-Within {o = o} _ (disable_second_factor-Within md a)).at env w
  serve-le md (Request.login_totp a b) env w activates deletes =
      (respond-Within {o = o} _ (login_totp-Within a b)).at env w
  serve-le md (Request.create_api_key a b c) env w activates deletes =
      (respond-Within {o = o} _ (create_key-Within md a b c)).at env w
  serve-le md Request.list_api_keys env w activates deletes =
      (respond-Within {o = o} _ (list_keys-Within md)).at env w
  serve-le md (Request.revoke_api_key a) env w activates deletes =
      (respond-Within {o = o} _ (revoke_key-Within md a)).at env w
  serve-le md (Request.validate_api_key a) env w activates deletes =
      (respond-Within {o = o} _ (validate_key-Within a)).at env w
  serve-le md (Request.restore_user a) env w activates deletes =
      (respond-Within {o = o} _ (restore_user-Within md a)).at env w
  serve-le md (Request.create_role a b) env w activates deletes =
      (respond-Within {o = o} _ (create_role-Within md a b)).at env w
  serve-le md (Request.update_role a b) env w activates deletes =
      (respond-Within {o = o} _ (update_role-Within md a b)).at env w
  serve-le md (Request.delete_role a) env w activates deletes =
      (respond-Within {o = o} _ (delete_role-Within md a)).at env w
  serve-le md Request.list_roles env w activates deletes =
      (respond-Within {o = o} _ (list_roles-Within md)).at env w
  serve-le md (Request.assign_role a b c) env w activates deletes =
      (respond-Within {o = o} _ (assign_role-Within md a b c)).at env w
  serve-le md (Request.assign_role_bulk a b c) env w activates deletes =
      (respond-Within {o = o} _ (assign_role_bulk-Within md a b c)).at env w
  serve-le md (Request.revoke_role a b c) env w activates deletes =
      (respond-Within {o = o} _ (revoke_role-Within md a b c)).at env w
  serve-le md (Request.get_user_role_assignments a) env w activates deletes =
      (respond-Within {o = o} _ (get_user_role_assignments-Within md a)).at env w
  serve-le md Request.list_permissions env w activates deletes =
      (respond-Within {o = o} _ (list_permissions-Within md)).at env w
  serve-le md (Request.grant_permission a b) env w activates deletes =
      (respond-Within {o = o} _ (grant_permission-Within md a b)).at env w
  serve-le md (Request.revoke_permission a b) env w activates deletes =
      (respond-Within {o = o} _ (revoke_permission-Within md a b)).at env w
  serve-le md (Request.request_email_verification a) env w activates deletes =
      (respond-Within {o = o} _ (request_email_verification-Within a)).at env w
  serve-le md (Request.verify_email a) env w activates deletes =
      (respond-Within {o = o} _ (verify_email-Within a)).at env w
  serve-le md (Request.request_password_reset a) env w activates deletes =
      (respond-Within {o = o} _ (request_password_reset-Within a)).at env w
  serve-le md (Request.reset_password a b) env w activates deletes =
      (respond-Within {o = o} _ (reset_password-Within a b)).at env w
  serve-le md (Request.change_password a b) env w activates deletes =
      (respond-Within {o = o} _ (change_password-Within md a b)).at env w
  serve-le md (Request.list_audit_events a) env w activates deletes =
      (respond-Within {o = o} _ (list_audit_events-Within md a)).at env w
  serve-le md (Request.delete_user a b) env w activates deletes =
      bind-le o (Service.delete_user md a b) (λ _. pure tt) env
        (λ v. delete_user-le env md a b v (λ uid t q e. deletes a b uid t q refl e))
        (λ _ v. o.le_refl v.db) w

  publish-Within : (m : NatsMessage) → Within o (publish m)
  unfolding publish
  publish-Within m = Within-still (publish m) (λ env w. ground arith)

  relay_rows-Within : (rows : List OutboxRow) → Within o (drain_rows rows)
  unfolding drain_rows
  relay_rows-Within [] = search rules
  relay_rows-Within (row ∷ rows) =
      Within-bind (asks λ e. e)
        (λ env. do
          publish (message_of env row)
          or_status relay_failed (mark_outbox_published row.id)
          drain_rows rows)
        (search rules)
        λ env.
          Within-bind (publish (message_of env row))
            (λ _. do or_status relay_failed (mark_outbox_published row.id); drain_rows rows)
            (publish-Within (message_of env row))
            λ _.
              Within-bind (or_status relay_failed (mark_outbox_published row.id))
                (λ _. drain_rows rows) (search rules) λ _. relay_rows-Within rows

  pub drain-Within : Within o drain
  unfolding drain
  drain-Within = search (rules, relay_rows-Within) depth 10

  record_failure-Within : (ev : Option ProfileCreationFailed) → Within o (record_failure ev)
  record_failure-Within none = search rules
  record_failure-Within (some ev) = search rules depth 10

  pub consume-Within : (items : List Item) → Within o (consume items)
  unfolding consume
  consume-Within [] = Within-pure 0
  consume-Within (recv_error ∷ items) = Within-pure 0
  consume-Within (message ev ∷ items) =
      Within-bind (record_failure ev) (λ _. do acks ← consume items; pure (suc acks))
        (record_failure-Within ev)
        λ _.
          Within-bind (consume items) (λ acks. pure (suc acks)) (consume-Within items)
            λ acks. Within-pure (suc acks)
