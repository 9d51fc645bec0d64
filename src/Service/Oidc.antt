-- ===== src/Service/Oidc.antt =====
-- OIDC: the key set, clients, consents, and the issue of authorization codes (src/grpc.rs).
use iam_rust_auth.Base.{
  ◌+◌, ◌*◌, String, Bool, true, false, Option, none, some, List, [], ◌∷◌, get_or,
}
use iam_rust_auth.Base.Int.{second}
use iam_rust_auth.Db.{Uuid, Instant, OauthClientRow, AuthorizationCode, SigningKey}
use iam_rust_auth.World.{
  invalid_argument, permission_denied, not_found, internal, pure, ok_or, require, draw, statement,
  ◌>>=◌, ◌>>◌,
}
use iam_rust_auth.Repo.{
  get_oauth_client, nullif_empty, insert_authorization_code, get_consent_scopes, upsert_consent,
  insert_client, get_signing_keys, is_active_member,
}
use iam_rust_auth.Service.Guards.{
  Rpc, MetadataMap, ask, db, hash_token, parse_uuid, require_perm, active_tenant,
}

pub record Jwk : Type 0 where
  pub kid : String
  pub kty : String
  pub use' : String
  pub alg : String
  pub n : String
  pub e : String

abbrev pub public_jwk : String → String × String → Jwk
public_jwk kid (n, e) = record { kid = kid; kty = "RSA"; use' = "sig"; alg = "RS256"; n = n; e = e }

-- The loop over the keys: the first that does not parse ends it.
unfoldable pub to_jwks : List SigningKey → Rpc (List Jwk)
to_jwks [] = pure []
to_jwks (k ∷ ks) = do
  env ← ask
  pk ← ok_or (internal "invalid public key") (env.rsa_public k.public_pem)
  rest ← to_jwks ks
  pure (public_jwk k.kid pk ∷ rest)

unfoldable pub get_jwks : Rpc (List Jwk)
unfolding to_jwks
get_jwks = do rows ← db "jwks query failed" get_signing_keys; to_jwks rows

pub record OauthClient : Type 0 where
  pub client_id : String
  pub name : String
  pub redirect_uris : List String
  pub scopes : List String
  pub grant_types : List String
  pub is_confidential : Bool

-- The secret's hash and the tenant are kept back.
abbrev pub public_client : OauthClientRow → OauthClient
public_client c = record {
  client_id = c.client_id;
  name = c.name;
  redirect_uris = c.redirect_uris;
  scopes = c.scopes;
  grant_types = c.grant_types;
  is_confidential = c.is_confidential;
}

unfoldable pub get_client : String → Rpc OauthClient
get_client client_id = do
  found ← db "client lookup failed" (get_oauth_client client_id)
  c ← ok_or (not_found "client not found") found
  pure (public_client c)

pub record CodeRequest : Type 0 where
  pub client_id : String
  pub user_id : String
  pub redirect_uri : String
  pub scope : String
  pub code_challenge : String
  pub code_challenge_method : String
  pub nonce : String

-- `now() + interval '5 minutes'`
abbrev pub code_expiry : Instant → Instant
code_expiry now = now + 300 * second

abbrev pub code_row : CodeRequest → String → Uuid → Instant → AuthorizationCode
code_row req code_hash user_id now = record {
  code_hash = code_hash;
  client_id = req.client_id;
  user_id = user_id;
  redirect_uri = req.redirect_uri;
  scope = req.scope;
  code_challenge = nullif_empty req.code_challenge;
  code_challenge_method = nullif_empty req.code_challenge_method;
  nonce = nullif_empty req.nonce;
  expires_at = code_expiry now;
  used = false;
}

unfoldable pub create_authorization_code : CodeRequest → Rpc String
unfolding hash_token
create_authorization_code req = do
  env ← ask
  uid ← parse_uuid (invalid_argument "invalid user id") req.user_id
  found ← db "client lookup failed" (get_oauth_client req.client_id)
  c ← ok_or (not_found "client not found") found
  member ← db "membership check failed" (is_active_member uid c.tenant_id)
  require member (permission_denied "not a member of this client's organization")
  auth_code ← draw (λ e n. e.random_base64url n 32)
  db "could not create authorization code"
      (statement (insert_authorization_code (code_row req (hash_token env auth_code) uid env.now)))
  pure auth_code

-- `row.map(|r| r.0).unwrap_or_default()`
unfoldable pub get_consent : String → String → Rpc (List String)
get_consent user_id client_id = do
  uid ← parse_uuid (invalid_argument "invalid user id") user_id
  found ← db "consent lookup failed" (get_consent_scopes uid client_id)
  pure (get_or found [])

unfoldable pub save_consent : String → String → List String → Rpc Bool
save_consent user_id client_id scopes = do
  uid ← parse_uuid (invalid_argument "invalid user id") user_id
  db "could not save consent" (
      statement (upsert_consent (record { user_id = uid; client_id = client_id; scopes = scopes })))
  pure true

pub record ClientRequest : Type 0 where
  pub name : String
  pub redirect_uris : List String
  pub scopes : List String
  pub is_confidential : Bool

-- The secret that is shown once, and the hash that is kept: a public client has neither.
unfoldable pub client_secret : Bool → Rpc (String × Option String)
unfolding hash_token
client_secret true = do
  env ← ask
  s ← draw (λ e n. e.random_base64url n 32)
  pure (s, some (hash_token env s))
client_secret false = pure ("", none)

abbrev pub scopes_or_default : List String → List String
scopes_or_default [] = "openid" ∷ "profile" ∷ "email" ∷ []
scopes_or_default (s ∷ ss) = s ∷ ss

abbrev pub client_grants : List String
client_grants = "authorization_code" ∷ "refresh_token" ∷ []

pub record RegisteredClient : Type 0 where
  pub client_id : String
  pub client_secret : String

unfoldable pub register_client : MetadataMap → ClientRequest → Rpc RegisteredClient
unfolding client_secret
register_client md req = do
  env ← ask
  require_perm md "role:write"
  tenant ← active_tenant md
  id ← draw (λ e n. e.random_uuid n)
  (secret, secret_hash) ← client_secret req.is_confidential
  db "could not register client" (
      statement (
        insert_client (record {
          client_id = env.show_uuid id;
          client_secret_hash = secret_hash;
          name = req.name;
          redirect_uris = req.redirect_uris;
          scopes = scopes_or_default req.scopes;
          grant_types = client_grants;
          is_confidential = req.is_confidential;
          tenant_id = tenant;
        })))
  pure (record { client_id = env.show_uuid id; client_secret = secret })
