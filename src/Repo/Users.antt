-- ===== src/Repo/Users.antt =====
-- Identities (src/repo.rs): creation, lookup, soft and hard deletion, and the transactional outbox.
use iam_rust_auth.Base.{
  ℕ, String, Bool, false, ◌&&◌, ◌||◌, Option, none, some, List, [], ◌∷◌, ◌++◌, map, ◌==◌,
  if◌then◌else◌, is_none, find?, exists, select, update, take, str_eq, leb, order_by,
}
use iam_rust_auth.Db.{Db, Uuid, UserRow, UserRole, OutboxRow, default_tenant_id}
use iam_rust_auth.World.{
  Action, Result, ok, err, SqlError, unique_violation, statement, query, execute, transaction, pure,
  asks, draw, ◌>>=◌, ◌>>◌,
}
use iam_rust_auth.Repo.Tables.{remove_user, insert_user_roles, set_config}

-- The column defaults of `users`.
abbrev pub new_user : Uuid → String → String → UserRow
new_user id email hash = record {
  id = id;
  email = email;
  password_hash = hash;
  status = "active";
  email_verified = false;
  failed_login_attempts = 0;
  locked_until = none;
  totp_secret = none;
  totp_enabled = false;
  deleted_at = none;
}

-- `INSERT INTO users`: the id is a key, and the email is unique.
unfoldable pub insert_user : UserRow → Db → Result SqlError (Uuid × Db)
unfolding exists
insert_user u d =
    if exists (λ v. v.id == u.id || str_eq v.email u.email) d.users
    then err unique_violation
    else ok (u.id, record d { users = d.users ++ u ∷ [] })

-- `INSERT INTO outbox`. The payload is kept as the text that was bound, without the normal form of
-- `jsonb`, and the primary key, a UUID drawn for the row, is not checked.
unfoldable pub insert_outbox : Uuid → String → String → Action SqlError Unit
unfolding execute
insert_outbox id event_type payload = do
  event_id ← draw (λ env n. env.random_uuid n)
  now ← asks (λ env. env.now)
  execute λ d. record d {
    outbox =
        d.outbox
        ++ record {
          id = event_id;
          aggregate_id = id;
          event_type = event_type;
          payload = payload;
          created_at = now;
          published_at = none;
        }
          ∷ [];
  }

-- `INSERT INTO user_roles … SELECT …, r.id FROM roles r WHERE r.name = …`: the tenant is the
-- column's default.
abbrev pub default_assignments : Uuid → String → Db → List UserRole
default_assignments id role d =
    map
      (λ r. record {
        user_id = id;
        role_id = r.id;
        tenant_id = default_tenant_id;
        project_id = none;
      })
      (select (λ r. str_eq r.name role) d.roles)

unfoldable pub create_user : String → String → Action SqlError Uuid
unfolding statement insert_user
create_user email password_hash = do
  id ← draw (λ env n. env.random_uuid n)
  statement (insert_user (new_user id email password_hash))

unfoldable pub create_user_with_role : String → String → String → Action SqlError Uuid
unfolding transaction set_config statement insert_user insert_user_roles select
create_user_with_role email password_hash role = transaction do
  set_config
  new_id ← draw (λ env n. env.random_uuid n)
  id ← statement (insert_user (new_user new_id email password_hash))
  statement (λ d. insert_user_roles (default_assignments id role d) d)
  pure id

unfoldable pub get_user_by_email : String → Action SqlError (Option UserRow)
unfolding query find?
get_user_by_email email = query (λ d. find? (λ u. str_eq u.email email) d.users)

unfoldable pub get_user_by_id : Uuid → Action SqlError (Option UserRow)
unfolding query find?
get_user_by_id id = query (λ d. find? (λ u. u.id == id) d.users)

unfoldable pub delete_user : Uuid → Action SqlError Unit
unfolding execute remove_user
delete_user id = execute (remove_user id)

abbrev pub is_undeleted : Option UserRow → Bool
is_undeleted none = false
is_undeleted (some u) = is_none u.deleted_at

unfoldable pub is_user_active : Uuid → Action SqlError Bool
unfolding query find?
is_user_active id = query (λ d. is_undeleted (find? (λ u. u.id == id) d.users))

-- The two UPDATEs of a soft deletion.
unfoldable pub mark_deleted : Uuid → ℕ → Db → Db
unfolding update
mark_deleted id now d = record d {
  users =
      update (λ u. u.id == id && is_none u.deleted_at) (λ u. record u { deleted_at = some now })
        d.users;
}

unfoldable pub revoke_tokens_of : Uuid → ℕ → Db → Db
unfolding update
revoke_tokens_of id now d = record d {
  refresh_tokens =
      update (λ t. t.user_id == id && is_none t.revoked_at)
        (λ t. record t { revoked_at = some now }) d.refresh_tokens;
}

abbrev pub delete_statements : Uuid → Bool → Action SqlError Unit
delete_statements id hard env =
    if hard
    then execute (remove_user id) env
    else (execute (mark_deleted id env.now) >> execute (revoke_tokens_of id env.now)) env

unfoldable pub delete_user_event_soft : Uuid → Bool → String → String → Action SqlError Unit
unfolding transaction execute remove_user mark_deleted revoke_tokens_of insert_outbox
delete_user_event_soft id hard event_type payload =
    transaction do delete_statements id hard; insert_outbox id event_type payload

unfoldable pub restore_user_event : Uuid → String → String → Action SqlError Unit
unfolding transaction execute update insert_outbox
restore_user_event id event_type payload = transaction do
  execute λ d. record d {
    users = update (λ u. u.id == id) (λ u. record u { deleted_at = none }) d.users;
  }
  insert_outbox id event_type payload

unfoldable pub create_user_with_role_event :
    Uuid → String → String → String → String → String → Action SqlError Unit
unfolding transaction set_config statement insert_user insert_user_roles select insert_outbox
create_user_with_role_event id email password_hash role event_type payload = transaction do
  set_config
  _ ← statement (insert_user (new_user id email password_hash))
  statement (λ d. insert_user_roles (default_assignments id role d) d)
  insert_outbox id event_type payload

-- `ORDER BY created_at LIMIT …`.
unfoldable pub fetch_unpublished_outbox : ℕ → Action SqlError (List OutboxRow)
unfolding query select order_by
fetch_unpublished_outbox limit = query λ d. take limit (
    order_by (λ a b. leb a.created_at b.created_at) (select (λ r. is_none r.published_at) d.outbox))

unfoldable pub mark_outbox_published : Uuid → Action SqlError Unit
unfolding execute update
mark_outbox_published id env =
    execute
      (λ d. record d {
        outbox = update (λ r. r.id == id) (λ r. record r { published_at = some env.now }) d.outbox;
      })
      env
