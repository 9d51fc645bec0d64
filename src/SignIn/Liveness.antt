-- ===== src/SignIn/Liveness.antt =====
-- When a login succeeds (src/grpc.rs, `login` and `issue_for_active_tenant`).
use iam_rust_auth.Base.{
  ℕ, suc, ◌≡◌, refl, String, Bool, true, false, none, some, List, [], ◌∷◌, arith, find?, exists,
  str_eq, ◌==◌, order_by, Bool-cases, inl, inr, is_some, ◌∙◌, not, ◌&&◌, exists-update,
}
use mathlib.Core.List.{filter_map}
use iam_rust_auth.Db.{Db, Uuid, UserRow}
use iam_rust_auth.World.{Env, World, ok, query, statement, execute}
use iam_rust_auth.Repo.{
  get_user_by_email, reset_login_state, update_user, insert_audit, list_memberships, active_join,
  create_refresh_token, insert_refresh_token, has_user, has_tenant,
}
use iam_rust_auth.Service.{
  login, login_user, accept_password, issue_for_active_tenant, issue_tokens, first_tenant, audit_as,
  hash_token, bearer_pair,
}
use iam_rust_auth.Refresh.Liveness.{next_token}
use iam_rust_auth.SignIn.Password.{user_of_email, IsAcceptable}

-- The tenant that a login enters.
abbrev pub entered_tenant : Env → Db → Uuid → Uuid
entered_tenant env d id = first_tenant (
    order_by (λ a b. env.collate a.tenant_name b.tenant_name)
      (filter_map (active_join id d) d.memberships))

-- A row that is found exists under its id.
found-exists :
    (p : UserRow → Bool) (us : List UserRow) (u : UserRow)
    → find? p us ≡ some u
    → exists (λ v. v.id == u.id) us ≡ true
unfolding find? exists
found-exists p [] u e = absurd (ground arith)
found-exists p (v ∷ us) u e = ground (arith, found-exists p us u)

-- What a login needs to be able to issue a pair: the hash of the new refresh token is free, the user
-- and the tenant are there, and the library signs the access token.
abbrev pub IsReady : Env → World → UserRow → String → Type 0
IsReady env w u access =
    (exists (λ t. str_eq t.token_hash (hash_token env (next_token env w))) w.db.refresh_tokens
      ≡ false)
    × (has_user u.id w.db ≡ true)
    × (has_tenant (entered_tenant env w.db u.id) w.db ≡ true)
    × (env.issue_jwt w.draws (env.show_uuid u.id) u.email
          (env.show_uuid (entered_tenant env w.db u.id)) ""
        ≡ some access)

module _ (env : Env) (u : UserRow) (access : String) (up : (n : ℕ) → env.db_fails n ≡ false) where
  issues :
      (w : World)
      → IsReady env w u access
      → (issue_for_active_tenant u.id u.email env w).0
        ≡ ok (bearer_pair env access (next_token env w))
  unfolding issue_for_active_tenant issue_tokens list_memberships query create_refresh_token
      statement insert_refresh_token
  issues w (fresh, user, tenant, signed) = ground (arith, up w.calls, up (suc w.calls))

  -- The statements before it leave what is needed.
  audited-IsReady :
      (w : World) (a e k t x : String)
      → IsReady env w u access
      → IsReady env (audit_as a e k t x none env w).1 u access
        × ((audit_as a e k t x none env w).0 ≡ ok tt)
        × ((audit_as a e k t x none env w).1.draws ≡ w.draws)
  unfolding audit_as insert_audit execute statement hash_token
  audited-IsReady w a e k t x ready = elim (Bool-cases env.audit_enabled) [
    | inl f ↦ rw (f, up w.calls) (ready, refl, refl)
    | inr f ↦ rw f (ready, refl, refl)
  ]

  reset-IsReady :
      (w : World)
      → IsReady env w u access
      → IsReady env (reset_login_state u.id env w).1 u access
        × ((reset_login_state u.id env w).1.draws ≡ w.draws)
  unfolding reset_login_state update_user execute statement hash_token
  reset-IsReady w (fresh, user, tenant, signed) = rw (up w.calls) (
    (
      fresh,
      exists-update (λ v. v.id == u.id) (λ v. v.id == u.id)
            (λ v. record v { failed_login_attempts = 0; locked_until = none }) w.db.users
            (λ v. refl)
          ∙ user,
      tenant,
      signed,
    ),
    refl,
  )

  accepts :
      (w : World)
      → IsReady env w u access
      → (env.require_email_verification && not u.email_verified) ≡ false
      → is_some u.deleted_at ≡ false
      → u.totp_enabled ≡ false
      → (accept_password u env w).0 ≡ ok (bearer_pair env access (next_token env w))
  unfolding accept_password
  accepts w ready verified kept off =
      let (ready₁, drawn₁) = reset-IsReady w ready in
      let w₁ = (reset_login_state u.id env w).1 in
      let id = env.show_uuid u.id in
      let (ready₂, done, drawn₂) = audited-IsReady w₁ id u.email "login.success" "" "" ready₁ in
      let w₂ = (audit_as id u.email "login.success" "" "" none env w₁).1 in
      ground (arith, verified, issues w₂ ready₂)

-- Where no statement fails, a login with the right password of a user that may log in, and has no
-- second factor, is answered with a pair of tokens, if the tenant that it enters is there, the new
-- token's hash is free and the library signs the access token.
pub login_succeeds :
    (email password : String) (env : Env) (w : World) (u : UserRow) (access : String)
    → ((n : ℕ) → env.db_fails n ≡ false)
    → user_of_email w.db email ≡ some u
    → IsAcceptable env password u
    → u.totp_enabled ≡ false
    → exists (λ t. str_eq t.token_hash (hash_token env (next_token env w))) w.db.refresh_tokens
      ≡ false
    → has_tenant (entered_tenant env w.db u.id) w.db ≡ true
    → env.issue_jwt w.draws
        (env.show_uuid u.id)
        u.email
        (env.show_uuid (entered_tenant env w.db u.id))
        ""
      ≡ some access
    → (login email password env w).0 ≡ ok (bearer_pair env access (next_token env w))
unfolding login get_user_by_email query statement login_user
login_succeeds email password env w u access up found (right, free, kept, verified) off fresh tenant
      signed =
    ground (
      arith,
      up w.calls,
      accepts env u access up (record w { calls = suc w.calls })
          (fresh, found-exists (λ v. str_eq v.email email) w.db.users u found, tenant, signed)
          verified kept off,
    )
