-- ===== src/SignIn/SecondFactor.antt =====
-- The second step (src/grpc.rs, `login_totp`; src/repo.rs, `consume_recovery_code`).
use iam_rust_auth.Base.{
  suc, ◌≡◌, ◌⊎◌, inl, inr, String, Bool, true, false, ◌&&◌, Option, none, some, List, arith, find?,
  is_none, str_eq, Option-cases, Bool-cases, update, exists, ◌==◌, exists-update_self, eq_iff,
  order_by,
}
use mathlib.Core.List.{filter_map}
use iam_rust_auth.Db.{Db, Uuid, UserRow, RecoveryCode}
use iam_rust_auth.World.{
  Env, World, Claims, ok, unauthenticated, query, statement, execute, ignore, require, ◌>>=◌, ◌>>◌,
}
use iam_rust_auth.TotpSecret.{decrypt}
use iam_rust_auth.Totp.{validate}
use iam_rust_auth.Repo.{
  get_user_by_id, consume_recovery_code, is_unused, reset_login_state, update_user, insert_audit,
  create_refresh_token, insert_refresh_token, list_memberships, active_join,
}
use iam_rust_auth.Service.{
  TokenPair, login_totp, check_mfa, is_locked, hash_token, text_or_empty, audit_as, issue_tokens,
  issue_for_active_tenant, first_tenant, Rpc, ask, db,
}

-- The code that a user would have to give now, or one of the recovery codes that are not used up.
abbrev pub accepts_code : Env → String → String → Bool
accepts_code env stored given =
    validate env.totp given (text_or_empty (decrypt env.crypto env.totp_enc stored))

abbrev pub has_recovery_code : Uuid → String → Db → Bool
has_recovery_code id hash d =
    exists (λ c. c.user_id == id && str_eq c.code_hash hash && is_none c.used_at)
      d.totp_recovery_codes

-- What the row of a user must say for the second step to succeed.
abbrev pub IsEnrolled : Env → UserRow → String → Type 0
IsEnrolled env u stored =
    (u.totp_secret ≡ some stored)
    × (u.totp_enabled ≡ true)
    × (is_none u.deleted_at ≡ true)
    × (is_locked env.now u ≡ false)

-- The proof of possession: a code of now, or a recovery code, which is then used up.
abbrev pub IsProven : Env → World → World → Uuid → String → String → Type 0
IsProven env w w' uid stored given =
    (accepts_code env stored given ≡ true)
    ⊎ (has_recovery_code uid (hash_token env given) w.db ≡ true)
      × (has_recovery_code uid (hash_token env given) w'.db ≡ false)

consumed :
    (uid : Uuid) (hash : String) (env : Env) (codes : List RecoveryCode)
    → exists
        (is_unused uid hash)
        (update (is_unused uid hash) (λ c. record c { used_at = some env.now }) codes)
      ≡ false
consumed uid hash env codes =
    exists-update_self (is_unused uid hash) (λ c. record c { used_at = some env.now }) codes
      (λ c. ground arith)

issue_tokens-codes :
    (id : Uuid) (email : String) (tenant : Uuid) (project : Option Uuid) (env : Env) (w : World)
    → (issue_tokens id email tenant project env w).1.db.totp_recovery_codes
      ≡ w.db.totp_recovery_codes
unfolding issue_tokens create_refresh_token statement insert_refresh_token
issue_tokens-codes id email tenant project env w = ground (arith)

issue_for_active_tenant-codes :
    (id : Uuid) (email : String) (env : Env) (w : World)
    → (issue_for_active_tenant id email env w).1.db.totp_recovery_codes ≡ w.db.totp_recovery_codes
unfolding issue_for_active_tenant list_memberships query statement
issue_for_active_tenant-codes id email env w = ground (
  arith,
  issue_tokens-codes id email
      (first_tenant (
        order_by (λ a b. env.collate a.tenant_name b.tenant_name)
          (filter_map (active_join id w.db) w.db.memberships)))
      none env (record w { calls = suc w.calls }),
)

-- What is left of the step once the code is right: it keeps the recovery codes.
abbrev admit : Uuid → String → Rpc TokenPair
admit uid email = do
  env ← ask
  ignore (reset_login_state uid)
  audit_as (env.show_uuid uid) email "login.success" "" "2fa" none
  issue_for_active_tenant uid email

audit_as-codes :
    (actor email action target detail : String) (tenant : Option Uuid) (env : Env) (w : World)
    → let (r, w') = audit_as actor email action target detail tenant env w in
      (r ≡ ok tt) × (w'.db.totp_recovery_codes ≡ w.db.totp_recovery_codes)
unfolding audit_as insert_audit execute statement
audit_as-codes actor email action target detail tenant env w = ground (arith)

reset_login_state-codes :
    (uid : Uuid) (env : Env) (w : World)
    → (reset_login_state uid env w).1.db.totp_recovery_codes ≡ w.db.totp_recovery_codes
unfolding reset_login_state update_user execute statement
reset_login_state-codes uid env w = ground (arith)

admit-codes :
    (uid : Uuid) (email : String) (env : Env) (w : World)
    → (admit uid email env w).1.db.totp_recovery_codes ≡ w.db.totp_recovery_codes
admit-codes uid email env w =
    let w₁ : World = (reset_login_state uid env w).1 in
    let w₂ : World = (audit_as (env.show_uuid uid) email "login.success" "" "2fa" none env w₁).1 in
    ground (
      arith,
      reset_login_state-codes uid env w,
      audit_as-codes (env.show_uuid uid) email "login.success" "" "2fa" none env w₁,
      issue_for_active_tenant-codes uid email env w₂,
    )

recovered :
    (uid : Uuid) (hash email : String) (env : Env) (w w' : World) (pair : TokenPair)
    → ((do
      right ← db "db error" (consume_recovery_code uid hash)
      require right (unauthenticated "invalid code")
      admit uid email)
        env w)
      ≡ (ok pair, w')
    → (has_recovery_code uid hash w.db ≡ true) × (has_recovery_code uid hash w'.db ≡ false)
unfolding consume_recovery_code statement
recovered uid hash email env w w' pair h =
    let used : Db = record w.db {
      totp_recovery_codes =
          update (is_unused uid hash) (λ c. record c { used_at = some env.now })
            w.db.totp_recovery_codes;
    } in
    ground (
      arith,
      consumed uid hash env w.db.totp_recovery_codes,
      admit-codes uid email env (record w { calls = suc w.calls; db = used }),
    )

module _ (uid : Uuid) (u : UserRow) (stored given : String) (env : Env) (w w' : World)
    (pair : TokenPair) (h : check_mfa uid u stored given env w ≡ (ok pair, w')) where
  checked_unlocked : is_locked env.now u ≡ false
  unfolding check_mfa
  checked_unlocked = ground (arith)

  checked_proof : IsProven env w w' uid stored given
  unfolding check_mfa
  checked_proof = elim (Bool-cases (accepts_code env stored given)) [
    | inl e ↦ inl e
    | inr e ↦ inr (recovered uid (hash_token env given) u.email env w w' pair (ground arith))
  ]

-- The token of the second step, as `common::jwt` reads it, and the user that it names.
abbrev pub IsMfaToken : Env → World → String → Uuid → UserRow → Type 0
IsMfaToken env w mfa_token uid u =
    (claims : Claims) × (env.parse_jwt mfa_token ≡ some claims)
    × (claims.purpose ≡ "mfa")
    × (env.parse_uuid claims.sub ≡ some uid)
    × (find? (λ v. v.id == uid) w.db.users ≡ some u)

module _ (mfa_token given : String) (env : Env) (w w' : World) (pair : TokenPair)
    (h : login_totp mfa_token given env w ≡ (ok pair, w')) where
  parsed : env.parse_jwt mfa_token ≡ none → ⊥
  unfolding login_totp
  parsed e = ground (arith)

  module _ (claims : Claims) (e : env.parse_jwt mfa_token ≡ some claims) where
    purposed : claims.purpose ≡ "mfa"
    unfolding login_totp
    purposed = (eq_iff claims.purpose "mfa").0 (ground (arith))

    named : env.parse_uuid claims.sub ≡ none → ⊥
    unfolding login_totp
    named n = ground (arith)

    module _ (uid : Uuid) (e₁ : env.parse_uuid claims.sub ≡ some uid) where
      stored_user : find? (λ v. v.id == uid) w.db.users ≡ none → ⊥
      unfolding login_totp get_user_by_id query statement
      stored_user n = ground (arith)

      module _ (u : UserRow) (e₂ : find? (λ v. v.id == uid) w.db.users ≡ some u) where
        enrolled : u.totp_secret ≡ none → ⊥
        unfolding login_totp get_user_by_id query statement
        enrolled n = ground (arith)

        checked :
            (stored : String)
            → u.totp_secret ≡ some stored
            → (u.totp_enabled ≡ true)
              × (is_none u.deleted_at ≡ true)
              × (check_mfa uid u stored given env (record w { calls = suc w.calls })
                  ≡ (ok pair, w'))
        unfolding login_totp get_user_by_id query statement
        checked stored s = ground (arith)

-- The second step succeeds only for a token that the library reads, whose purpose is the second
-- step and whose subject is a stored user with the factor enabled, neither deleted nor locked; and
-- with a code that is valid now, or a recovery code that was unused and is used up afterwards.
pub login_totp-IsProven :
    (mfa_token given : String) (env : Env) (w w' : World) (pair : TokenPair)
    → login_totp mfa_token given env w ≡ (ok pair, w')
    → (uid : Uuid) × (u : UserRow) × (stored : String) × IsMfaToken env w mfa_token uid u
      × IsEnrolled env u stored
      × IsProven env w w' uid stored given
login_totp-IsProven mfa_token given env w w' pair h =
    elim (Option-cases (env.parse_jwt mfa_token)) [
      | inl n ↦ absurd (parsed mfa_token given env w w' pair h n)
      | inr (claims, e) ↦ elim (Option-cases (env.parse_uuid claims.sub)) [
        | inl n ↦ absurd (named mfa_token given env w w' pair h claims e n)
        | inr (uid, e₁) ↦ elim (Option-cases (find? (λ (v : UserRow). v.id == uid) w.db.users)) [
          | inl n ↦ absurd (stored_user mfa_token given env w w' pair h claims e uid e₁ n)
          | inr (u, e₂) ↦ elim (Option-cases u.totp_secret) [
            | inl n ↦ absurd (enrolled mfa_token given env w w' pair h claims e uid e₁ u e₂ n)
            | inr (stored, s) ↦
                let (on, kept, right) =
                  checked mfa_token given env w w' pair h claims e uid e₁ u e₂ stored s in
                let w₁ : World = record w { calls = suc w.calls } in
                (
                  uid,
                  u,
                  stored,
                  (claims, e, purposed mfa_token given env w w' pair h claims e, e₁, e₂),
                  (s, on, kept, checked_unlocked uid u stored given env w₁ w' pair right),
                  checked_proof uid u stored given env w₁ w' pair right,
                )
          ]
        ]
      ]
    ]
