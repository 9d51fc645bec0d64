-- ===== src/Repo/Oauth.antt =====
-- The queries on OAuth clients, authorization codes, consents and signing keys that the handlers of
-- src/grpc.rs, src/keys.rs and src/main.rs make themselves.
use iam_rust_auth.Base.{
  ℕ, String, Bool, true, not, ◌&&◌, Option, none, some, List, [], ◌∷◌, ◌++◌, ◌==◌, if◌then◌else◌,
  is_empty, find?, exists, update, count, str_eq,
}
use mathlib.Core.Option
use iam_rust_auth.Db.{Db, Uuid, OauthClientRow, AuthorizationCode, Consent, SigningKey}
use iam_rust_auth.World.{
  Action, Result, ok, err, SqlError, unique_violation, foreign_key_violation, row_not_found,
  statement, query,
}
use iam_rust_auth.Repo.Tables.{has_tenant}

-- `SELECT … FROM oauth_clients WHERE client_id = $1`
unfoldable pub get_oauth_client : String → Action SqlError (Option OauthClientRow)
unfolding query find?
get_oauth_client client_id = query λ d. find? (λ c. str_eq c.client_id client_id) d.oauth_clients

abbrev pub one_row : {A : Type 0} → Db → Option A → Result SqlError (A × Db)
one_row d none = err row_not_found
one_row d (some a) = ok (a, d)

-- `SELECT tenant_id FROM oauth_clients WHERE client_id = $1`, with `fetch_one`.
unfoldable pub get_client_tenant : String → Action SqlError Uuid
unfolding statement find?
get_client_tenant client_id = statement λ d.
    one_row d
      (Option.map (λ c. c.tenant_id) (find? (λ c. str_eq c.client_id client_id) d.oauth_clients))

-- `SELECT email FROM users WHERE id = $1`, with `fetch_one`.
unfoldable pub get_email : Uuid → Action SqlError String
unfolding statement find?
get_email id =
    statement λ d. one_row d (Option.map (λ u. u.email) (find? (λ u. u.id == id) d.users))

-- `NULLIF(s, '')`
abbrev pub nullif_empty : String → Option String
nullif_empty s = if is_empty s then none else some s

-- `INSERT INTO oauth_authorization_codes`: the code's hash is the key.
unfoldable pub insert_authorization_code : AuthorizationCode → Db → Result SqlError (Unit × Db)
unfolding exists
insert_authorization_code c d =
    if exists (λ b. str_eq b.code_hash c.code_hash) d.oauth_authorization_codes
    then err unique_violation
    else if exists (λ a. str_eq a.client_id c.client_id) d.oauth_clients
    then ok (tt, record d { oauth_authorization_codes = d.oauth_authorization_codes ++ c ∷ [] })
    else err foreign_key_violation

unfoldable pub get_authorization_code : String → Action SqlError (Option AuthorizationCode)
unfolding query find?
get_authorization_code code_hash =
    query λ d. find? (λ c. str_eq c.code_hash code_hash) d.oauth_authorization_codes

-- `code_hash = $1 AND used = false`
abbrev pub is_unclaimed : String → AuthorizationCode → Bool
is_unclaimed code_hash c = str_eq c.code_hash code_hash && not c.used

-- `UPDATE oauth_authorization_codes SET used = true WHERE …`, with `rows_affected`.
unfoldable pub claim_code : String → Action SqlError ℕ
unfolding statement count update
claim_code code_hash = statement λ d. ok (
  count (is_unclaimed code_hash) d.oauth_authorization_codes,
  record d {
    oauth_authorization_codes =
        update (is_unclaimed code_hash) (λ c. record c { used = true }) d.oauth_authorization_codes;
  },
)

unfoldable pub get_consent_scopes : Uuid → String → Action SqlError (Option (List String))
unfolding query find?
get_consent_scopes user_id client_id = query λ d.
    Option.map (λ c. c.scopes)
      (find? (λ c. c.user_id == user_id && str_eq c.client_id client_id) d.oauth_consents)

-- `INSERT … ON CONFLICT (user_id, client_id) DO UPDATE SET scopes = EXCLUDED.scopes`.
unfoldable pub upsert_consent : Consent → Db → Result SqlError (Unit × Db)
unfolding exists update
upsert_consent c d =
    if exists (λ a. str_eq a.client_id c.client_id) d.oauth_clients
    then if exists (λ b. b.user_id == c.user_id && str_eq b.client_id c.client_id) d.oauth_consents
      then ok (
        tt,
        record d {
          oauth_consents =
              update (λ b. b.user_id == c.user_id && str_eq b.client_id c.client_id)
                (λ b. record b { scopes = c.scopes }) d.oauth_consents;
        },
      )
      else ok (tt, record d { oauth_consents = d.oauth_consents ++ c ∷ [] })
    else err foreign_key_violation

-- `INSERT INTO oauth_clients`.
unfoldable pub insert_client : OauthClientRow → Db → Result SqlError (Unit × Db)
unfolding exists
insert_client c d =
    if exists (λ a. str_eq a.client_id c.client_id) d.oauth_clients
    then err unique_violation
    else if has_tenant c.tenant_id d
    then ok (tt, record d { oauth_clients = d.oauth_clients ++ c ∷ [] })
    else err foreign_key_violation

-- `SELECT … FROM oidc_signing_keys`
unfoldable pub get_signing_keys : Action SqlError (List SigningKey)
unfolding query
get_signing_keys = query λ d. d.oidc_signing_keys
