-- ===== src/Service/Users.antt =====
-- Registration, deletion and restoration of users (src/grpc.rs).
use iam_rust_auth.Base.{
  String, Bool, true, ◌||◌, none, List, [], ◌∷◌, if◌then◌else◌, is_empty, split,
}
use iam_rust_auth.Db.{default_tenant_id}
use iam_rust_auth.World.{
  Event, user_registered, user_deleted, user_restored, invalid_argument, already_exists, internal,
  pure, ok_or, refuse_if, or_status, ignore, draw, ◌>>=◌, ◌>>◌,
}
use iam_rust_auth.Repo.{
  create_user_with_role_event, create_membership, delete_user_event_soft, restore_user_event,
}
use iam_rust_auth.Service.Guards.{
  Rpc, MetadataMap, ask, db, audit_as, audit, parse_uuid, require_perm,
}

-- `DEFAULT_ROLE`
abbrev pub default_role : String
default_role = "user"

-- `email.split('@').next().unwrap_or(email)`
abbrev pub first_part : String → List String → String
first_part email [] = email
first_part email (p ∷ _) = p

unfoldable pub display_name : String → String
unfolding split
display_name email = first_part email (split b'@' email)

abbrev pub encode : Event → Rpc String
encode ev env = ok_or (internal "failed to encode event") (env.encode_event ev) env

pub record RegisterResponse : Type 0 where
  pub user_id : String
  pub email : String

unfoldable pub register : String → String → Rpc RegisterResponse
unfolding display_name
register email password = do
  env ← ask
  refuse_if (is_empty email || is_empty password)
      (invalid_argument "email and password are required")
  hashed ← draw (λ e n. e.hash_password n password)
  hash ← ok_or (internal "failed to hash password") hashed
  id ← draw (λ e n. e.random_uuid n)
  payload ← encode (user_registered (env.show_uuid id) email (display_name email))
  or_status (already_exists "email already registered")
      (create_user_with_role_event id email hash default_role env.type_user_registered payload)
  ignore (create_membership id default_tenant_id)
  audit_as (env.show_uuid id) email "user.register" "" "" none
  pure (record { user_id = env.show_uuid id; email = email })

unfoldable pub delete_user : MetadataMap → String → Bool → Rpc Bool
delete_user md user_id hard = do
  env ← ask
  require_perm md "user:delete"
  uid ← parse_uuid (invalid_argument "invalid user id") user_id
  payload ← encode (user_deleted user_id hard)
  db "failed to delete user" (delete_user_event_soft uid hard env.type_user_deleted payload)
  audit md "user.delete" user_id (if hard then "hard" else "soft")
  pure true

unfoldable pub restore_user : MetadataMap → String → Rpc Bool
restore_user md user_id = do
  env ← ask
  require_perm md "user:delete"
  uid ← parse_uuid (invalid_argument "invalid user id") user_id
  payload ← encode (user_restored user_id)
  db "failed to restore user" (restore_user_event uid env.type_user_restored payload)
  audit md "user.restore" user_id ""
  pure true
