-- ===== src/Access/Tokens.antt =====
-- The check of an access token (src/grpc.rs, `validate_token`).
use iam_rust_auth.Base.{
  suc, ◌≡◌, ◌⊎◌, inl, inr, String, Bool, true, false, not, ◌&&◌, none, some, List, arith, find?,
  is_empty, str_eq, if◌then◌else◌, Option-cases, Bool-cases, exists, ◌==◌,
}
use iam_rust_auth.Db.{Db, Uuid}
use iam_rust_auth.World.{Env, World, Claims, Result, ok, err, query, statement, RedisEntry}
use iam_rust_auth.Cache.{is_denied, command, denylist_key, is_held}
use iam_rust_auth.Repo.{
  is_token_revoked, is_user_active, is_active_member, active_member, is_undeleted,
}
use iam_rust_auth.Service.{Identity, validate_token, check_token, tenant_claim}

abbrev is_ok : {E A : Type 0} → Result E A → Bool
is_ok (ok a) = true
is_ok (err e) = false

-- Postgres or Redis says that the token is revoked.
abbrev pub in_denylist : String → Db → Bool
in_denylist jti d = exists (λ t. str_eq t.jti jti) d.revoked_tokens

abbrev pub in_redis : Env → String → List RedisEntry → Bool
in_redis env jti r = exists (is_held env.now (denylist_key jti)) r

-- Whether Redis gives an answer: there is a connection, the command does not fail, and the token has
-- an id to ask for.
abbrev pub redis_answers : Env → World → String → Bool
redis_answers env w jti =
    env.redis_enabled && not (env.redis_fails w.redis_calls) && not (is_empty jti)

-- The token is in neither list, as far as one is asked.
abbrev pub is_not_denied : Env → World → String → Bool
is_not_denied env w jti =
    if redis_answers env w jti then not (in_redis env jti w.redis) else not (in_denylist jti w.db)

abbrev pub is_live_user : Uuid → Db → Bool
is_live_user id d = is_undeleted (find? (λ u. u.id == id) d.users)

-- What claims must say for a token to be accepted as a user's.
abbrev pub IsAccepted : Env → World → Claims → Uuid → Type 0
IsAccepted env w claims uid =
    (env.parse_uuid claims.sub ≡ some uid)
    × (is_not_denied env w claims.jti ≡ true)
    × (is_live_user uid w.db ≡ true)
    × ((is_empty claims.tenant_id ≡ true)
        ⊎ ((tid : Uuid) × (env.parse_uuid claims.tenant_id ≡ some tid)
            × (active_member uid tid w.db ≡ true)))

abbrev pub NamesClaims : Identity → Claims → Type 0
NamesClaims id claims =
    (id.user_id ≡ claims.sub)
    × (id.email ≡ claims.email)
    × (id.tenant_id ≡ claims.tenant_id)
    × (id.project_id ≡ claims.project_id)

-- The tenant claim of someone who is not a member is refused, or the query fails.
tenant_claim_refused :
    (uid tid : Uuid) (t : String) (env : Env) (w : World)
    → is_empty t ≡ false
    → env.parse_uuid t ≡ some tid
    → active_member uid tid w.db ≡ false
    → is_ok (tenant_claim uid t env w).0 ≡ false
unfolding tenant_claim is_active_member query statement
tenant_claim_refused uid tid t env w held e out = ground (arith)

module _ (token : String) (env : Env) (w w' : World) (id : Identity)
    (h : validate_token token env w ≡ (ok id, w')) where
  parsed : env.parse_access_jwt token ≡ none → ⊥
  unfolding validate_token check_token
  parsed n = ground (arith)

  module _ (claims : Claims) (e : env.parse_access_jwt token ≡ some claims) where
    copied : NamesClaims id claims
    unfolding validate_token check_token
    copied = ground (arith)

    named : env.parse_uuid claims.sub ≡ none → ⊥
    unfolding validate_token check_token
    named n = ground (arith)

    undenied : is_not_denied env w claims.jti ≡ true
    unfolding validate_token check_token is_denied command is_token_revoked query statement
    undenied = ground (arith)

    module _ (uid : Uuid) (e₁ : env.parse_uuid claims.sub ≡ some uid) where
      live : is_live_user uid w.db ≡ true
      unfolding validate_token check_token is_denied command is_token_revoked is_user_active query
          statement
      live = ground (arith)

      member :
          (tid : Uuid)
          → is_empty claims.tenant_id ≡ false
          → env.parse_uuid claims.tenant_id ≡ some tid
          → active_member uid tid w.db ≡ true
      unfolding validate_token check_token is_denied command is_token_revoked is_user_active query
          statement
      member tid held e₂ =
          let asked : World = record w { calls = suc (suc w.calls) } in
          ground (
            arith,
            tenant_claim_refused uid tid claims.tenant_id env asked held e₂,
            tenant_claim_refused uid tid claims.tenant_id env
                (record asked { redis_calls = suc w.redis_calls }) held e₂,
            tenant_claim_refused uid tid claims.tenant_id env
                (record w { calls = suc w.calls; redis_calls = suc w.redis_calls }) held e₂,
          )

      tenanted : is_empty claims.tenant_id ≡ false → env.parse_uuid claims.tenant_id ≡ none → ⊥
      unfolding validate_token check_token tenant_claim
      tenanted held n = ground (arith)

      scoped :
          (is_empty claims.tenant_id ≡ true)
          ⊎ ((tid : Uuid) × (env.parse_uuid claims.tenant_id ≡ some tid)
              × (active_member uid tid w.db ≡ true))
      scoped = elim (Bool-cases (is_empty claims.tenant_id)) [
        | inl e ↦ inl e
        | inr held ↦ elim (Option-cases (env.parse_uuid claims.tenant_id)) [
          | inl n ↦ absurd (tenanted held n)
          | inr (tid, e₂) ↦ inr (tid, e₂, member tid held e₂)
        ]
      ]

-- An access token is accepted only if the library verifies it, its id is not in the denylist that is
-- asked (Redis, where it answers, else Postgres), its subject is a stored user that is not deleted,
-- and its tenant, if it names one, still has the subject as an active member; the identity that comes
-- back names the claims' user, address, tenant and project.
pub validate_token-IsAccepted :
    (token : String) (env : Env) (w w' : World) (id : Identity)
    → validate_token token env w ≡ (ok id, w')
    → (claims : Claims) × (uid : Uuid) × (env.parse_access_jwt token ≡ some claims)
      × IsAccepted env w claims uid
      × NamesClaims id claims
validate_token-IsAccepted token env w w' id h = elim (Option-cases (env.parse_access_jwt token)) [
  | inl n ↦ absurd (parsed token env w w' id h n)
  | inr (claims, e) ↦ elim (Option-cases (env.parse_uuid claims.sub)) [
    | inl n ↦ absurd (named token env w w' id h claims e n)
    | inr (uid, e₁) ↦ (
      claims,
      uid,
      e,
      (
        e₁,
        undenied token env w w' id h claims e,
        live token env w w' id h claims e uid e₁,
        scoped token env w w' id h claims e uid e₁,
      ),
      copied token env w w' id h claims e,
    )
  ]
]
