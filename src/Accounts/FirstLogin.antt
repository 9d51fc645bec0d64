-- ===== src/Accounts/FirstLogin.antt =====
-- A registration, and then a login (src/grpc.rs, `register` and `login`).
use iam_rust_auth.Base.{
  ℕ, suc, ◌≡◌, refl, subst, String, true, false, none, some, List, [], ◌∷◌, ◌++◌, arith, find?,
  exists, str_eq, ◌==◌, find?-none, find?-append, exists_mono, eq_refl, inl, inr, ◌||◌,
  Option-cases,
}
use iam_rust_auth.Db.{default_tenant_id, Uuid, UserRow}
use iam_rust_auth.World.{
  Env, World, ok, statement, execute, bind-ok, or_status-ok, already_exists, or_status, ignore,
  pure, ◌>>◌, user_registered,
}
use iam_rust_auth.Repo.{
  create_user_with_role_event, create_membership, insert_membership, insert_audit, new_user,
  has_tenant,
}
use iam_rust_auth.Service.{
  Rpc, register, login, RegisterResponse, audit_as, hash_token, bearer_pair, display_name,
  default_role,
}
use iam_rust_auth.Accounts.Registration.{create_user_with_role_event-IsAtomic, IsAtomic}
use iam_rust_auth.Refresh.Liveness.{next_token}
use iam_rust_auth.SignIn.Password.{user_of_email}
use iam_rust_auth.SignIn.Liveness.{entered_tenant, login_succeeds}

membership-users :
    (id tenant : Uuid) (env : Env) (w : World)
    → (create_membership id tenant env w).1.db.users ≡ w.db.users
unfolding create_membership insert_membership statement
membership-users id tenant env w = ground arith

audit_as-users :
    (a e k t x : String) (env : Env) (w : World)
    → (audit_as a e k t x none env w).1.db.users ≡ w.db.users
unfolding audit_as insert_audit execute statement
audit_as-users a e k t x env w = ground arith

-- A user that the transaction has stored is the one that the address finds.
stored-found :
    (u : UserRow) (us us' : List UserRow)
    → exists (λ v. v.id == u.id || str_eq v.email u.email) us ≡ false
    → us' ≡ us ++ u ∷ []
    → find? (λ v. str_eq v.email u.email) us' ≡ some u
unfolding find?
stored-found u us us' fresh e =
    let same = λ (v : UserRow). str_eq v.email u.email in
    let new : exists same us ≡ false =
      exists_mono same (λ v. v.id == u.id || str_eq v.email u.email) us (λ v f. ground arith)
        fresh in
    ground (arith, e, find?-none same us new, find?-append same us (u ∷ []), eq_refl u.email)

-- The end of the handler, from the transaction on.
abbrev finish : Env → Uuid → String → String → String → Rpc RegisterResponse
finish env id email hash payload = do
  or_status (already_exists "email already registered")
      (create_user_with_role_event id email hash default_role env.type_user_registered payload)
  ignore (create_membership id default_tenant_id)
  audit_as (env.show_uuid id) email "user.register" "" "" none
  pure (record { user_id = env.show_uuid id; email = email })

finish-found :
    (id : Uuid) (email hash payload : String) (env : Env) (w w' : World) (r : RegisterResponse)
    → finish env id email hash payload env w ≡ (ok r, w')
    → user_of_email w'.db email ≡ some (new_user id email hash)
finish-found id email hash payload env w w' r h =
    let creates =
      create_user_with_role_event id email hash default_role env.type_user_registered payload in
    let u = new_user id email hash in
    let (_, w₁, h₁, r₁) =
      bind-ok (or_status (already_exists "email already registered") creates) _ env w w' r h in
    let (fresh, users, _) =
      subst (IsAtomic env w u env.type_user_registered payload)
        (or_status-ok (already_exists "email already registered") creates env w w₁ tt h₁)
        (create_user_with_role_event-IsAtomic id email hash default_role env.type_user_registered
          payload env w) in
    let w₂ = (create_membership id default_tenant_id env w₁).1 in
    stored-found u w.db.users w'.db.users fresh (
      ground (
        arith,
        membership-users id default_tenant_id env w₁,
        users,
        audit_as-users (env.show_uuid id) email "user.register" "" "" env w₂,
      ))

module _ (email password : String) (env : Env) (w w' : World) (r : RegisterResponse)
    (h : register email password env w ≡ (ok r, w')) where
  -- The row of the user that has been registered.
  registers :
      (hash : String) × (env.hash_password w.draws password ≡ some hash)
      × (user_of_email w'.db email ≡ some (new_user (env.random_uuid (suc w.draws)) email hash))
  unfolding register
  registers =
      let id : Uuid = env.random_uuid (suc w.draws) in
      elim (Option-cases (env.hash_password w.draws password)) [
        | inl n ↦ absurd (ground arith)
        | inr (hash, e) ↦
            elim (Option-cases
              (env.encode_event (user_registered (env.show_uuid id) email (display_name email)))) [
                | inl n ↦ absurd (ground arith)
                | inr (payload, f) ↦ (
                  hash,
                  e,
                  finish-found id email hash payload env (record w { draws = suc (suc w.draws) }) w'
                      r (ground arith),
                )
              ]
      ]

-- Who has registered can log in with the same password, where no statement of the login fails and
-- the service does not ask for a verified email: the answer is a pair of tokens, if the tenant that
-- the login enters is there, the new token's hash is free, the library signs the access token, and it
-- verifies a password against its own hash.
pub register-login :
    (email password : String) (env env' : Env) (w w' : World) (r : RegisterResponse)
    (access : String)
    → register email password env w ≡ (ok r, w')
    → ((n : ℕ) → env'.db_fails n ≡ false)
    → ((n : ℕ) (hash : String)
        → env.hash_password n password ≡ some hash
        → env'.verify_password hash password ≡ true)
    → env'.require_email_verification ≡ false
    → exists (λ t. str_eq t.token_hash (hash_token env' (next_token env' w'))) w'.db.refresh_tokens
      ≡ false
    → has_tenant (entered_tenant env' w'.db (env.random_uuid (suc w.draws))) w'.db ≡ true
    → env'.issue_jwt w'.draws
        (env'.show_uuid (env.random_uuid (suc w.draws)))
        email
        (env'.show_uuid (entered_tenant env' w'.db (env.random_uuid (suc w.draws))))
        ""
      ≡ some access
    → (login email password env' w').0 ≡ ok (bearer_pair env' access (next_token env' w'))
register-login email password env env' w w' r access h up verifies unasked fresh tenant signed =
    let (hash, e, found) = registers email password env w w' r h in
    login_succeeds email password env' w' (new_user (env.random_uuid (suc w.draws)) email hash)
      access up found (verifies w.draws hash e, refl, refl, ground arith) refl fresh tenant signed
