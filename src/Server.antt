-- ===== src/Server.antt =====
-- The server: the requests that it takes (src/grpc.rs, `impl AuthService for AuthSvc`), each handled
-- as a whole, and the two background tasks (src/relay.rs, src/saga.rs). Requests at one time are
-- taken one after another, in any order.
use iam_rust_auth.Base.{◌≡◌, String, Bool, false, ◌&&◌, List, Option, none, some}
use iam_rust_auth.Base.Int.{ℤ}
use iam_rust_auth.Db.{Uuid}
use iam_rust_auth.World.{World, Env, pure, ◌>>=◌}
use iam_rust_auth.Service
use iam_rust_auth.Service.{Rpc, MetadataMap, CodeRequest, ExchangeRequest, ClientRequest}
use iam_rust_auth.Relay.{drain}
use iam_rust_auth.Saga.{Item, consume}

-- The messages of the service, by the method that takes them.
pub data Request : Type 0 where
  get_jwks : Request
  get_client : String → Request
  create_authorization_code : CodeRequest → Request
  get_consent : String → String → Request
  save_consent : String → String → List String → Request
  exchange_authorization_code : ExchangeRequest → Request
  register_client : ClientRequest → Request
  register : String → String → Request
  login : String → String → Request
  refresh : String → Request
  logout : String → String → Request
  validate_token : String → Request
  list_my_memberships : Request
  switch_tenant : String → String → Request
  create_tenant : String → String → Request
  list_tenants : Request
  create_project : String → String → Request
  list_projects : Request
  add_member : String → Request
  remove_member : String → Request
  list_members : Request
  delete_user : String → Bool → Request
  enroll_totp : Request
  get_totp_status : Request
  activate_totp : String → Request
  disable_totp : String → Request
  login_totp : String → String → Request
  create_api_key : String → List String → ℤ → Request
  list_api_keys : Request
  revoke_api_key : String → Request
  validate_api_key : String → Request
  restore_user : String → Request
  create_role : String → String → Request
  update_role : String → String → Request
  delete_role : String → Request
  list_roles : Request
  assign_role : String → String → String → Request
  assign_role_bulk : List String → String → String → Request
  revoke_role : String → String → String → Request
  get_user_role_assignments : String → Request
  list_permissions : Request
  grant_permission : String → String → Request
  revoke_permission : String → String → Request
  request_email_verification : String → Request
  verify_email : String → Request
  request_password_reset : String → Request
  reset_password : String → String → Request
  change_password : String → String → Request
  list_audit_events : ℤ → Request

-- The response goes back to the client; the state stays.
abbrev pub respond : {A : Type 0} → Rpc A → Rpc Unit
respond m = do _ ← m; pure tt

-- The method of the service that a request is for.
unfoldable pub serve : MetadataMap → Request → Rpc Unit
serve md get_jwks = respond Service.get_jwks
serve md (get_client a) = respond (Service.get_client a)
serve md (create_authorization_code a) = respond (Service.create_authorization_code a)
serve md (get_consent a b) = respond (Service.get_consent a b)
serve md (save_consent a b c) = respond (Service.save_consent a b c)
serve md (exchange_authorization_code a) = respond (Service.exchange_authorization_code a)
serve md (register_client a) = respond (Service.register_client md a)
serve md (register a b) = respond (Service.register a b)
serve md (login a b) = respond (Service.login a b)
serve md (refresh a) = respond (Service.refresh a)
serve md (logout a b) = respond (Service.logout md a b)
serve md (validate_token a) = respond (Service.validate_token a)
serve md list_my_memberships = respond (Service.list_my_memberships md)
serve md (switch_tenant a b) = respond (Service.switch_tenant md a b)
serve md (create_tenant a b) = respond (Service.create_tenant md a b)
serve md list_tenants = respond (Service.list_tenants md)
serve md (create_project a b) = respond (Service.create_project md a b)
serve md list_projects = respond (Service.list_projects md)
serve md (add_member a) = respond (Service.add_member md a)
serve md (remove_member a) = respond (Service.remove_member md a)
serve md list_members = respond (Service.list_members md)
serve md (delete_user a b) = respond (Service.delete_user md a b)
serve md enroll_totp = respond (Service.enroll_totp md)
serve md get_totp_status = respond (Service.get_totp_status md)
serve md (activate_totp a) = respond (Service.activate_totp md a)
serve md (disable_totp a) = respond (Service.disable_second_factor md a)
serve md (login_totp a b) = respond (Service.login_totp a b)
serve md (create_api_key a b c) = respond (Service.create_key md a b c)
serve md list_api_keys = respond (Service.list_keys md)
serve md (revoke_api_key a) = respond (Service.revoke_key md a)
serve md (validate_api_key a) = respond (Service.validate_key a)
serve md (restore_user a) = respond (Service.restore_user md a)
serve md (create_role a b) = respond (Service.create_role md a b)
serve md (update_role a b) = respond (Service.update_role md a b)
serve md (delete_role a) = respond (Service.delete_role md a)
serve md list_roles = respond (Service.list_roles md)
serve md (assign_role a b c) = respond (Service.assign_role md a b c)
serve md (assign_role_bulk a b c) = respond (Service.assign_role_bulk md a b c)
serve md (revoke_role a b c) = respond (Service.revoke_role md a b c)
serve md (get_user_role_assignments a) = respond (Service.get_user_role_assignments md a)
serve md list_permissions = respond (Service.list_permissions md)
serve md (grant_permission a b) = respond (Service.grant_permission md a b)
serve md (revoke_permission a b) = respond (Service.revoke_permission md a b)
serve md (request_email_verification a) = respond (Service.request_email_verification a)
serve md (verify_email a) = respond (Service.verify_email a)
serve md (request_password_reset a) = respond (Service.request_password_reset a)
serve md (reset_password a b) = respond (Service.reset_password a b)
serve md (change_password a b) = respond (Service.change_password md a b)
serve md (list_audit_events a) = respond (Service.list_audit_events md a)

abbrev pub holds_of : (Uuid → Bool) → Option Uuid → Bool
holds_of who none = false
holds_of who (some id) = who id

-- The request deletes one of the users for good.
unfoldable pub erases : (Uuid → Bool) → Env → Request → Bool
erases who env (delete_user id hard) = hard && holds_of who (env.parse_uuid id)
erases who env _ = false

-- One step: a request, one pass of the relay, or one stream of the saga, each in any surroundings.
pub data Step : World → World → Type 0 where
  requested :
      {w w' : World} (env : Env) (md : MetadataMap) (r : Request)
      → (serve md r env w).1 ≡ w'
      → Step w w'
  relayed : {w w' : World} (env : Env) → (drain env w).1 ≡ w' → Step w w'
  compensated :
      {w w' : World} (env : Env) (items : List Item) → (consume items env w).1 ≡ w' → Step w w'

-- Any number of steps, in any order.
pub data Run : World → World → Type 0 where
  rest : {w w' : World} → w ≡ w' → Run w w'
  next : {w v w' : World} → Step w v → Run v w' → Run w w'
