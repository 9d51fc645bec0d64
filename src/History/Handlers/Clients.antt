-- ===== src/History/Handlers/Clients.antt =====
-- API keys, and the clients and codes of OIDC (src/grpc.rs).
use iam_rust_auth.Base.{String, Bool, true, false, List, [], ◌∷◌, exists, str_eq, format}
use iam_rust_auth.Base.Int.{ℤ}
use iam_rust_auth.Db.{AuthorizationCode, OauthClientRow, SigningKey}
use iam_rust_auth.World.{Order, internal, permission_denied, ok_or, require, Within, Within-bind}
use iam_rust_auth.Service
use iam_rust_auth.Service.{MetadataMap, CodeRequest, ExchangeRequest, ClientRequest}
use iam_rust_auth.History.Writes.{Writes}
use iam_rust_auth.History.Handlers.Common.{rules, audit-Within}
use iam_rust_auth.History.Handlers.Sessions.{issue_tokens-Within}

module _ {o : Order} ⦃s : Writes o⦄ where
  check_scopes-Within : (ps ss : List String) → Within o (Service.check_scopes ps ss)
  unfolding Service.check_scopes
  check_scopes-Within ps [] = search rules
  check_scopes-Within ps (s ∷ ss) =
      Within-bind
        (require (exists (λ p. str_eq p s) ps)
          (permission_denied (format ("cannot grant a scope you do not hold: " ∷ s ∷ []))))
        (λ _. Service.check_scopes ps ss) (search rules) λ _. check_scopes-Within ps ss

  pub create_key-Within :
      (md : MetadataMap) (n : String) (ss : List String) (ttl : ℤ)
      → Within o (Service.create_key md n ss ttl)
  unfolding Service.create_key
  create_key-Within md n ss ttl =
      search (rules, check_scopes-Within, audit-Within) depth 40 fits 6000

  pub list_keys-Within : (md : MetadataMap) → Within o (Service.list_keys md)
  unfolding Service.list_keys
  list_keys-Within md = search rules depth 20

  pub revoke_key-Within : (md : MetadataMap) (i : String) → Within o (Service.revoke_key md i)
  unfolding Service.revoke_key
  revoke_key-Within md i = search (rules, audit-Within) depth 20

  pub validate_key-Within : (k : String) → Within o (Service.validate_key k)
  unfolding Service.validate_key
  validate_key-Within k = search rules depth 40 fits 6000

  to_jwks-Within : (ks : List SigningKey) → Within o (Service.to_jwks ks)
  unfolding Service.to_jwks
  to_jwks-Within [] = search rules
  to_jwks-Within (k ∷ ks) = Within-bind Service.ask _ (search rules) λ env.
      Within-bind (ok_or (internal "invalid public key") (env.rsa_public k.public_pem)) _
        (search rules)
        λ pk. Within-bind (Service.to_jwks ks) _ (to_jwks-Within ks) λ rest. search rules

  pub get_jwks-Within : Within o Service.get_jwks
  unfolding Service.get_jwks
  get_jwks-Within = search (rules, to_jwks-Within) depth 20

  pub get_client-Within : (c : String) → Within o (Service.get_client c)
  unfolding Service.get_client
  get_client-Within c = search rules depth 20

  pub create_authorization_code-Within :
      (r : CodeRequest) → Within o (Service.create_authorization_code r)
  unfolding Service.create_authorization_code
  create_authorization_code-Within r = search rules depth 40 fits 4000

  pub get_consent-Within : (i c : String) → Within o (Service.get_consent i c)
  unfolding Service.get_consent
  get_consent-Within i c = search rules depth 20

  pub save_consent-Within :
      (i c : String) (ss : List String) → Within o (Service.save_consent i c ss)
  unfolding Service.save_consent
  save_consent-Within i c ss = search rules depth 20

  authenticate_client-Within :
      (r : ExchangeRequest) (row : AuthorizationCode) (c : OauthClientRow)
      → Within o (Service.authenticate_client r row c)
  unfolding Service.authenticate_client
  authenticate_client-Within r row c = search rules depth 20

  claim-Within : (r : ExchangeRequest) → Within o (Service.claim r)
  unfolding Service.claim
  claim-Within r = search rules depth 30 fits 4000

  redeem-Within : (r : ExchangeRequest) (row : AuthorizationCode) → Within o (Service.redeem r row)
  unfolding Service.redeem
  redeem-Within r row =
      search (rules, authenticate_client-Within, issue_tokens-Within) depth 50 fits 8000

  pub exchange_authorization_code-Within :
      (r : ExchangeRequest) → Within o (Service.exchange_authorization_code r)
  unfolding Service.exchange_authorization_code
  exchange_authorization_code-Within r = search (rules, claim-Within, redeem-Within) depth 20

  client_secret-Within : (b : Bool) → Within o (Service.client_secret b)
  unfolding Service.client_secret
  client_secret-Within true = search rules depth 10
  client_secret-Within false = search rules depth 10

  pub register_client-Within :
      (md : MetadataMap) (r : ClientRequest) → Within o (Service.register_client md r)
  unfolding Service.register_client
  register_client-Within md r = search (rules, client_secret-Within) depth 40 fits 4000
