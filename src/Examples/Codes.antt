-- ===== src/Examples/Codes.antt =====
-- Authorization codes: the theorems at a sample database.
use iam_rust_auth.Base.{◌≤◌, ◌≡◌, refl, some}
use iam_rust_auth.Base.Int.{pos}
use iam_rust_auth.Db.{AuthorizationCode, OauthClientRow}
use iam_rust_auth.World.{World}
use iam_rust_auth.Repo.{claim_code}
use iam_rust_auth.Service.{exchange_authorization_code, ExchangeRequest, OidcTokens}
use iam_rust_auth.Samples.{sample, sample_db, sample_env, running}
use iam_rust_auth.Codes.Redeem.{code_of, client_of, claimed_row}
use iam_rust_auth.Codes.Exchange.{exchange-IsGranted, IsGranted}
use iam_rust_auth.Codes.Race.{Race, start, won, lost, race-once}

abbrev pub request : ExchangeRequest
request = record {
  auth_code = "code";
  client_id = "console";
  redirect_uri = "https://c/cb";
  client_secret = "s3cret";
  code_verifier = "verifier";
}

abbrev pub tokens : OidcTokens
tokens = record {
  access_token = "at-10-20";
  id_token = "id-token";
  refresh_token = "r1";
  expires_in = pos 900;
  token_type = "Bearer";
  scope = "openid";
}

abbrev pub exchanged : World
exchanged = (exchange_authorization_code request sample_env sample).1

exchange-IsGranted_example :
    (row : AuthorizationCode) × (c : OauthClientRow) × (code_of "#code" sample_db ≡ some row)
    × (client_of row.client_id sample_db ≡ some c)
    × IsGranted sample_env request sample_db row c
    × (code_of "#code" exchanged.db ≡ some (claimed_row row))
unfolding running
exchange-IsGranted_example = exchange-IsGranted request sample_env sample exchanged tokens refl

-- Two requests claim the code, one after the other.
abbrev two_claims :
    Race "#code" sample_db
      (claim_code "#code" sample_env (claim_code "#code" sample_env sample).1).1.db
      1
unfolding running
two_claims =
    lost sample_db (claim_code "#code" sample_env sample).1.db 1 sample_env
      (claim_code "#code" sample_env sample).1
      (won sample_db sample_db 0 sample_env sample 1 (start sample_db) refl refl refl) refl

race-once_example : 1 ≤ 1
race-once_example = race-once two_claims
