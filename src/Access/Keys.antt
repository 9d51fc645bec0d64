-- ===== src/Access/Keys.antt =====
-- API keys (src/grpc.rs, `validate_api_key` and `create_api_key`).
use iam_rust_auth.Base.{
  suc, ◌≡◌, refl, ◌⊎◌, inl, inr, String, Bool, true, false, Option, none, some, List, [], ◌∷◌,
  arith, find?, str_eq, Option-cases, Bool-cases, exists, ◌==◌, select, All, All-select,
}
use iam_rust_auth.Db.{Db, Uuid, UserRow, ApiKeyRow}
use iam_rust_auth.World.{Env, World, ok, err, unavailable, query, statement, execute, transaction}
use iam_rust_auth.Repo.{
  get_api_key_by_hash, get_user_by_id, is_active_member, active_member, get_user_permissions_scoped,
  in_scope, permission_names, tenant_guc_tx, set_config,
}
use iam_rust_auth.Service.{
  KeyIdentity, validate_key, check_scopes, effective_scopes, hash_token, is_expired,
}

-- The permissions that a user holds in a tenant and a project.
abbrev pub held_permissions : Env → Db → Uuid → Uuid → Option Uuid → List String
held_permissions env d user_id tenant_id project_id =
    permission_names env d (select (in_scope user_id tenant_id project_id) d.user_roles)

abbrev pub lists : List String → String → Bool
lists names s = exists (λ p. str_eq p s) names

effective_scopes-All :
    (scopes perms : List String) → All (λ s. lists perms s ≡ true) (effective_scopes scopes perms)
unfolding effective_scopes
effective_scopes-All scopes perms = All-select (lists perms) scopes

permissions_or_failure :
    (user_id tenant_id : Uuid) (project_id : Option Uuid) (env : Env) (w : World)
    → let r = (get_user_permissions_scoped user_id tenant_id project_id env w).0 in
      (r ≡ ok (held_permissions env w.db user_id tenant_id project_id)) ⊎ (r ≡ err unavailable)
unfolding get_user_permissions_scoped tenant_guc_tx transaction execute query statement set_config
permissions_or_failure user_id tenant_id project_id env w =
    elim (Bool-cases (env.db_fails w.calls)) [
      | inl e ↦ inr (ground arith)
      | inr e ↦ elim (Bool-cases (env.db_fails (suc w.calls))) [
        | inl e₁ ↦ inr (ground arith)
        | inr e₁ ↦ elim (Bool-cases (env.db_fails (suc (suc w.calls)))) [
          | inl e₂ ↦ inr (ground arith)
          | inr e₂ ↦ elim (Bool-cases (env.db_fails (suc (suc (suc w.calls))))) [
            | inl e₃ ↦ inr (ground arith)
            | inr e₃ ↦ inl (ground arith)
          ]
        ]
      ]
    ]

-- What the row of a key must say for it to be accepted.
abbrev pub IsLiveKey : Env → Db → ApiKeyRow → Type 0
IsLiveKey env d row =
    (row.revoked_at ≡ none)
    × (is_expired env.now row.expires_at ≡ false)
    × (active_member row.user_id row.tenant_id d ≡ true)

module _ (api_key : String) (env : Env) (w w' : World) (id : KeyIdentity)
    (h : validate_key api_key env w ≡ (ok id, w')) where
  stored : find? (λ k. str_eq k.key_hash (hash_token env api_key)) w.db.api_keys ≡ none → ⊥
  unfolding validate_key get_api_key_by_hash query statement
  stored n = ground (arith)

  module _ (row : ApiKeyRow)
      (e : find? (λ k. str_eq k.key_hash (hash_token env api_key)) w.db.api_keys ≡ some row) where
    live : IsLiveKey env w.db row
    unfolding validate_key get_api_key_by_hash get_user_by_id is_active_member query statement
    live = ground (arith)

    owned : find? (λ v. v.id == row.user_id) w.db.users ≡ none → ⊥
    unfolding validate_key get_api_key_by_hash get_user_by_id query statement
    owned n = ground (arith)

    kept :
        (u : UserRow) → find? (λ v. v.id == row.user_id) w.db.users ≡ some u → u.deleted_at ≡ none
    unfolding validate_key get_api_key_by_hash get_user_by_id query statement
    kept u e₁ = ground (arith)

    scopes_narrowed :
        id.scopes
        ≡ effective_scopes row.scopes
            (held_permissions env w.db row.user_id row.tenant_id row.project_id)
    unfolding validate_key get_api_key_by_hash get_user_by_id is_active_member query statement
    scopes_narrowed = ground (
      arith,
      permissions_or_failure row.user_id row.tenant_id row.project_id env
          (record w { calls = suc (suc (suc w.calls)) }),
    )

-- An API key is accepted only if its hash is stored, unrevoked and unexpired, its owner exists and
-- is not deleted, and the owner is still an active member of the key's tenant; the scopes that
-- come back are those of the key that are among the permissions that the owner holds there now.
pub validate_key-IsLiveKey :
    (api_key : String) (env : Env) (w w' : World) (id : KeyIdentity)
    → validate_key api_key env w ≡ (ok id, w')
    → (row : ApiKeyRow) × (u : UserRow) × (find?
          (λ k. str_eq k.key_hash (hash_token env api_key))
          w.db.api_keys
        ≡ some row)
      × (find? (λ v. v.id == row.user_id) w.db.users ≡ some u)
      × (u.deleted_at ≡ none)
      × IsLiveKey env w.db row
      × (id.scopes
          ≡ effective_scopes row.scopes
              (held_permissions env w.db row.user_id row.tenant_id row.project_id))
      × All
          (λ s. lists (held_permissions env w.db row.user_id row.tenant_id row.project_id) s ≡ true)
          id.scopes
validate_key-IsLiveKey api_key env w w' id h =
    elim (Option-cases
      (find? (λ (k : ApiKeyRow). str_eq k.key_hash (hash_token env api_key)) w.db.api_keys)) [
        | inl n ↦ absurd (stored api_key env w w' id h n)
        | inr (row, e) ↦
            elim (Option-cases (find? (λ (v : UserRow). v.id == row.user_id) w.db.users)) [
              | inl n ↦ absurd (owned api_key env w w' id h row e n)
              | inr (u, e₁) ↦
                  let perms : List String =
                    held_permissions env w.db row.user_id row.tenant_id row.project_id in
                  let narrowed : id.scopes ≡ effective_scopes row.scopes perms =
                    scopes_narrowed api_key env w w' id h row e in
                  (
                    row,
                    u,
                    e,
                    e₁,
                    kept api_key env w w' id h row e u e₁,
                    live api_key env w w' id h row e,
                    narrowed,
                    rw narrowed (effective_scopes-All row.scopes perms),
                  )
            ]
      ]

pub check_scopes-pure :
    (perms scopes : List String) (env : Env) (w : World) → (check_scopes perms scopes env w).1 ≡ w
unfolding check_scopes
check_scopes-pure perms [] env w = refl
check_scopes-pure perms (s ∷ ss) env w = ground (arith, check_scopes-pure perms ss env w)
