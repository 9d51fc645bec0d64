-- ===== src/Service/Exchange.antt =====
-- The exchange of an authorization code, with PKCE (src/grpc.rs).
use iam_rust_auth.Base.{
  ℕ, String, Bool, false, not, ◌&&◌, ◌||◌, Option, none, some, ltb, ◌==◌, if◌then◌else◌, is_empty,
  get_or, str_eq,
}
use iam_rust_auth.Base.Int.{ℤ}
use iam_rust_auth.Db.{Instant, OauthClientRow, AuthorizationCode}
use iam_rust_auth.World.{
  Env, Status, unauthenticated, invalid_argument, permission_denied, internal, pure, ok_or, require,
  refuse_if, attempt, draw, ◌>>=◌, ◌>>◌,
}
use iam_rust_auth.Repo.{
  get_oauth_client, get_client_tenant, get_email, get_authorization_code, claim_code,
  is_active_member,
}
use iam_rust_auth.Service.Guards.{Rpc, ask, db, hash_token, verify_pkce}
use iam_rust_auth.Service.Tokens.{issue_tokens}

pub record ExchangeRequest : Type 0 where
  pub auth_code : String
  pub client_id : String
  pub redirect_uri : String
  pub client_secret : String
  pub code_verifier : String

pub record OidcTokens : Type 0 where
  pub access_token : String
  pub id_token : String
  pub refresh_token : String
  pub expires_in : ℤ
  pub token_type : String
  pub scope : String

-- `challenge.as_deref().map(|c| !c.is_empty()).unwrap_or(false)`
abbrev pub has_pkce : AuthorizationCode → Bool
has_pkce row = elim row.code_challenge [ none ↦ false | some c ↦ not (is_empty c) ]

-- `used || expired || client_id != req.client_id || redirect_uri != req.redirect_uri`
abbrev pub is_unusable : Instant → ExchangeRequest → AuthorizationCode → Bool
is_unusable now req row =
    row.used
    || ltb row.expires_at now
    || not (str_eq row.client_id req.client_id)
    || not (str_eq row.redirect_uri req.redirect_uri)

abbrev pub invalid_grant : Status
invalid_grant = invalid_argument "invalid_grant"

-- `.map(|r| r.rows_affected()).unwrap_or(0)`
abbrev pub is_claimed : Option ℕ → Bool
is_claimed n = get_or n 0 == 1

abbrev pub pkce_holds : Env → ExchangeRequest → AuthorizationCode → Bool
pkce_holds env req row =
    verify_pkce env (get_or row.code_challenge "") (get_or row.code_challenge_method "S256")
      req.code_verifier

abbrev pub secret_is : Option String → String → Bool
secret_is none provided = false
secret_is (some h) provided = str_eq h provided

-- A confidential client by its secret, a public one by PKCE.
unfoldable pub authenticate_client : ExchangeRequest → AuthorizationCode → OauthClientRow → Rpc Unit
unfolding hash_token
authenticate_client req row c = do
  env ← ask
  if c.is_confidential
      then require (secret_is c.client_secret_hash (hash_token env req.client_secret))
          (unauthenticated "invalid_client")
      else require (has_pkce row) (invalid_argument "PKCE required for public clients")

-- The first half of the exchange: the code is looked up and claimed.
unfoldable pub claim : ExchangeRequest → Rpc AuthorizationCode
unfolding hash_token
claim req = do
  env ← ask
  found ← db "code lookup failed" (get_authorization_code (hash_token env req.auth_code))
  row ← ok_or invalid_grant found
  refuse_if (is_unusable env.now req row) invalid_grant
  claimed ← attempt (claim_code (hash_token env req.auth_code))
  require (is_claimed claimed) invalid_grant
  pure row

-- The second half: PKCE, the client, the membership, and the tokens.
unfoldable pub redeem : ExchangeRequest → AuthorizationCode → Rpc OidcTokens
unfolding authenticate_client verify_pkce
redeem req row = do
  env ← ask
  refuse_if (has_pkce row && not (pkce_holds env req row)) invalid_grant
  found ← db "client lookup failed" (get_oauth_client row.client_id)
  c ← ok_or (invalid_argument "invalid_client") found
  authenticate_client req row c
  email ← db "user lookup failed" (get_email row.user_id)
  tenant ← db "client tenant lookup failed" (get_client_tenant row.client_id)
  member ← db "membership check failed" (is_active_member row.user_id tenant)
  require member (permission_denied "not a member of this organization")
  pair ← issue_tokens row.user_id email tenant none
  signed ← draw (λ e n.
      e.issue_id_jwt n (e.show_uuid row.user_id) email row.client_id (get_or row.nonce "")
        e.oidc_issuer)
  id_token ← ok_or (internal "failed to sign id_token") signed
  pure (record {
    access_token = pair.access_token;
    id_token = id_token;
    refresh_token = pair.refresh_token;
    expires_in = pair.expires_in;
    token_type = "Bearer";
    scope = row.scope;
  })

unfoldable pub exchange_authorization_code : ExchangeRequest → Rpc OidcTokens
unfolding claim redeem
exchange_authorization_code req = do row ← claim req; redeem req row
