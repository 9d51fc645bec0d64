-- ===== src/Access/Logout.antt =====
-- Signing out (src/grpc.rs, `logout`).
use iam_rust_auth.Base.{
  ℕ, suc, ◌*◌, ◌≡◌, refl, ◌∙◌, String, Bool, true, false, some, List, [], ◌∷◌, ◌++◌, arith, str_eq,
  eq_refl, exists, exists-append, exists-update_self, update, is_empty,
}
use iam_rust_auth.Db.{Db, Instant, RefreshTokenRow, RevokedToken}
use iam_rust_auth.World.{Env, World, Claims, ok, err, unauthenticated, statement, execute, query}
use iam_rust_auth.Cache.{deny, is_denied, command}
use iam_rust_auth.Repo.{
  revoke_refresh_token, revoke_access_jti, is_unrevoked, is_token_revoked, insert_audit,
}
use iam_rust_auth.Service.{
  MetadataMap, logout, validate_token, check_token, hash_token, audit, audit_as,
}
use iam_rust_auth.Access.Tokens.{in_denylist}

-- The token, by its hash, is stored unrevoked.
abbrev pub has_live_token : String → Db → Bool
has_live_token hash d = exists (is_unrevoked hash) d.refresh_tokens

revoked :
    (hash : String) (now : Instant) (ts : List RefreshTokenRow)
    → exists
        (is_unrevoked hash)
        (update (is_unrevoked hash) (λ t. record t { revoked_at = some now }) ts)
      ≡ false
revoked hash now ts =
    exists-update_self (is_unrevoked hash) (λ t. record t { revoked_at = some now }) ts
      (λ t. ground arith)

listed :
    (jti : String) (ts : List RevokedToken) (t : RevokedToken)
    → t.jti ≡ jti
    → exists (λ s. str_eq s.jti jti) (ts ++ t ∷ []) ≡ true
unfolding exists
listed jti ts t e =
    exists-append (λ (s : RevokedToken). str_eq s.jti jti) ts (t ∷ []) ∙ ground (arith, eq_refl jti)

-- A logout that succeeds, where no statement fails, leaves no unrevoked row of the refresh token,
-- and the id of the access token, if that is read and its expiry is in range, in the durable
-- denylist.
pub logout-denies :
    (md : MetadataMap) (refresh_token access_token : String) (env : Env) (w w' : World)
    (claims : Claims)
    → ((n : ℕ) → env.db_fails n ≡ false)
    → is_empty access_token ≡ false
    → env.parse_jwt access_token ≡ some claims
    → env.timestamp_in_range claims.exp ≡ true
    → logout md refresh_token access_token env w ≡ (ok true, w')
    → (has_live_token (hash_token env refresh_token) w'.db ≡ false)
      × (in_denylist claims.jti w'.db ≡ true)
unfolding logout revoke_refresh_token revoke_access_jti execute statement deny command audit
    audit_as insert_audit
logout-denies md refresh_token access_token env w w' claims up given e range h = ground (
  arith,
  up w.calls,
  up (suc w.calls),
  revoked (hash_token env refresh_token) env.now w.db.refresh_tokens,
  listed claims.jti w.db.revoked_tokens
      (record { jti = claims.jti; expires_at = claims.exp * 1000000 }) refl,
)

-- Without Redis, and where the lookup does not fail, an access token in the durable denylist is
-- refused.
pub validate_token_denied :
    (token : String) (env : Env) (w : World) (claims : Claims)
    → env.redis_enabled ≡ false
    → env.db_fails w.calls ≡ false
    → env.parse_access_jwt token ≡ some claims
    → in_denylist claims.jti w.db ≡ true
    → (validate_token token env w).0 ≡ err (unauthenticated "token revoked")
unfolding validate_token check_token is_denied command is_token_revoked query statement
validate_token_denied token env w claims off up e listed = ground (arith)
