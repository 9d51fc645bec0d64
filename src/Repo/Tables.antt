-- ===== src/Repo/Tables.antt =====
-- What several methods share: transactions, cascades, and the rows of `user_roles`
-- (src/repo.rs; migrations/0001, 0010).
use iam_rust_auth.Base.{
  Bool, true, ◌&&◌, ◌||◌, Option, none, some, List, [], ◌∷◌, ◌++◌, ◌==◌, if◌then◌else◌, is_none,
  get_or, column_eq, exists, delete,
}
use iam_rust_auth.Db.{Db, Uuid, RoleRow, UserRole}
use iam_rust_auth.World.{
  Action, Result, ok, err, SqlError, foreign_key_violation, execute, transaction, ◌>>◌,
}

-- `SELECT set_config('app.tenant_id', …)` and `SET LOCAL ROLE iam_rls` change no row.
unfoldable pub set_config : Action SqlError Unit
unfolding execute
set_config = execute (λ d. d)

-- A transaction under the role `iam_rls`.
unfoldable pub tenant_tx : {A : Type 0} → Action SqlError A → Action SqlError A
unfolding transaction set_config
tenant_tx m = transaction (do set_config; set_config; m)

-- A transaction with only `app.tenant_id` set.
unfoldable pub tenant_guc_tx : {A : Type 0} → Action SqlError A → Action SqlError A
unfolding transaction set_config
tenant_guc_tx m = transaction (do set_config; m)

-- The policy `tenant_isolation` on `roles`.
abbrev pub visible : Uuid → RoleRow → Bool
visible tenant r = column_eq r.tenant_id tenant || is_none r.tenant_id

-- Foreign keys.
abbrev pub has_user : Uuid → Db → Bool
has_user id d = exists (λ u. u.id == id) d.users

abbrev pub has_tenant : Uuid → Db → Bool
has_tenant id d = exists (λ t. t.id == id) d.tenants

abbrev pub has_project : Option Uuid → Db → Bool
has_project none d = true
has_project (some id) d = exists (λ p. p.id == id) d.projects

-- `DELETE FROM users WHERE id = …`, with ON DELETE CASCADE.
unfoldable pub remove_user : Uuid → Db → Db
unfolding delete
remove_user id d = record d {
  users = delete (λ u. u.id == id) d.users;
  refresh_tokens = delete (λ t. t.user_id == id) d.refresh_tokens;
  user_roles = delete (λ r. r.user_id == id) d.user_roles;
  email_verifications = delete (λ t. t.user_id == id) d.email_verifications;
  password_resets = delete (λ t. t.user_id == id) d.password_resets;
  totp_recovery_codes = delete (λ c. c.user_id == id) d.totp_recovery_codes;
  api_keys = delete (λ k. k.user_id == id) d.api_keys;
  memberships = delete (λ m. m.user_id == id) d.memberships;
}

-- The unique index `user_roles_unique`, which takes a NULL project for the nil UUID.
abbrev pub same_assignment : UserRole → UserRole → Bool
same_assignment a b =
    a.user_id == b.user_id
    && a.role_id == b.role_id
    && a.tenant_id == b.tenant_id
    && get_or a.project_id 0 == get_or b.project_id 0

-- `INSERT INTO user_roles … ON CONFLICT DO NOTHING`, of one row.
unfoldable pub insert_user_role : UserRole → Db → Result SqlError (Unit × Db)
unfolding exists
insert_user_role r d =
    if exists (same_assignment r) d.user_roles
    then ok (tt, d)
    else if has_user r.user_id d && has_tenant r.tenant_id d && has_project r.project_id d
    then ok (tt, record d { user_roles = d.user_roles ++ r ∷ [] })
    else err foreign_key_violation

-- The same, of several rows: a constraint that refuses one refuses all.
unfoldable pub insert_user_roles : List UserRole → Db → Result SqlError (Unit × Db)
unfolding insert_user_role
insert_user_roles [] d = ok (tt, d)
insert_user_roles (r ∷ rs) d = elim (insert_user_role r d) [
  | ok (_, d') ↦ insert_user_roles rs d'
  | err e ↦ err e
]
