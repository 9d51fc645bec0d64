-- ===== src/Codes/Redeem.antt =====
-- The two halves of the exchange of a code: what claiming it, and redeeming it, ask for and leave
-- (src/grpc.rs, `exchange_authorization_code`).
use iam_rust_auth.Base.{
  suc, ◌≡◌, refl, ◌⊎◌, inl, inr, ◌∙◌, String, true, false, not, ◌&&◌, Option, none, some, List,
  arith, find?, str_eq, Bool-cases, ◌==◌, update, find?-update, find?-holds,
}
use iam_rust_auth.Db.{Db, Uuid, UserRow, AuthorizationCode, OauthClientRow}
use iam_rust_auth.World.{Env, World, ok, err, unavailable, row_not_found, query, statement}
use iam_rust_auth.Repo.{
  get_authorization_code, claim_code, is_unclaimed, get_oauth_client, get_client_tenant, get_email,
  is_active_member, create_refresh_token, insert_refresh_token, active_member,
}
use iam_rust_auth.Service.{
  ExchangeRequest, OidcTokens, claim, redeem, authenticate_client, hash_token, is_unusable,
  has_pkce, pkce_holds, secret_is, issue_tokens,
}

abbrev pub code_of : String → Db → Option AuthorizationCode
code_of hash d = find? (λ c. str_eq c.code_hash hash) d.oauth_authorization_codes

abbrev pub client_of : String → Db → Option OauthClientRow
client_of id d = find? (λ c. str_eq c.client_id id) d.oauth_clients

-- The client has proved that it is the one that the code was made for: by its secret, or by PKCE.
abbrev pub IsAuthenticated : Env → ExchangeRequest → AuthorizationCode → OauthClientRow → Type 0
IsAuthenticated env req row c =
    (c.is_confidential ≡ true)
      × (secret_is c.client_secret_hash (hash_token env req.client_secret) ≡ true)
    ⊎ (c.is_confidential ≡ false) × (has_pkce row ≡ true)

-- The row once it has been claimed.
abbrev pub claimed_row : AuthorizationCode → AuthorizationCode
claimed_row row = record row { used = true }

claimed_lookup :
    (hash : String) (codes : List AuthorizationCode) (row : AuthorizationCode)
    → find? (λ c. str_eq c.code_hash hash) codes ≡ some row
    → row.used ≡ false
    → find? (λ c. str_eq c.code_hash hash) (update (is_unclaimed hash) claimed_row codes)
      ≡ some (claimed_row row)
claimed_lookup hash codes row e fresh =
    find?-update (λ (c : AuthorizationCode). str_eq c.code_hash hash) (is_unclaimed hash)
      claimed_row codes (λ c. refl)
    ∙ rw e (
        ground
          (arith, find?-holds (λ (c : AuthorizationCode). str_eq c.code_hash hash) codes row e))

-- A claim that succeeds leaves the code used.
pub claims :
    (req : ExchangeRequest) (env : Env) (w w' : World) (row : AuthorizationCode)
    → claim req env w ≡ (ok row, w')
    → (code_of (hash_token env req.auth_code) w.db ≡ some row)
      × (is_unusable env.now req row ≡ false)
      × (code_of (hash_token env req.auth_code) w'.db ≡ some (claimed_row row))
      × (w'.db ≡ record w.db { oauth_authorization_codes = w'.db.oauth_authorization_codes })
unfolding claim get_authorization_code query statement claim_code
claims req env w w' row h =
    ground (arith, claimed_lookup (hash_token env req.auth_code) w.db.oauth_authorization_codes row)

issue_tokens-keeps :
    (id : Uuid) (email : String) (tenant : Uuid) (project : Option Uuid) (env : Env) (w : World)
    → (issue_tokens id email tenant project env w).1.db.oauth_authorization_codes
      ≡ w.db.oauth_authorization_codes
unfolding issue_tokens create_refresh_token statement insert_refresh_token
issue_tokens-keeps id email tenant project env w = ground (arith)

pub authenticates :
    (req : ExchangeRequest) (row : AuthorizationCode) (c : OauthClientRow) (env : Env)
    (w w' : World)
    → authenticate_client req row c env w ≡ (ok tt, w')
    → IsAuthenticated env req row c × (w' ≡ w)
unfolding authenticate_client
authenticates req row c env w w' h = elim (Bool-cases c.is_confidential) [
  | inl e ↦ (inl (e, ground arith), ground arith)
  | inr e ↦ (inr (e, ground arith), ground arith)
]

pub authenticate_client-pure :
    (req : ExchangeRequest) (row : AuthorizationCode) (c : OauthClientRow) (env : Env) (w : World)
    → (authenticate_client req row c env w).1 ≡ w
unfolding authenticate_client
authenticate_client-pure req row c env w = ground (arith)

get_email-pure :
    (id : Uuid) (env : Env) (w : World) → (get_email id env w).1 ≡ record w { calls = suc w.calls }
unfolding get_email statement
get_email-pure id env w = ground (arith)

get_client_tenant-of :
    (id : String) (c : OauthClientRow) (env : Env) (w : World)
    → client_of id w.db ≡ some c
    → let (r, w') = get_client_tenant id env w in
      ((r ≡ ok c.tenant_id) ⊎ (r ≡ err unavailable)) × (w' ≡ record w { calls = suc w.calls })
unfolding get_client_tenant statement
get_client_tenant-of id c env w e = elim (Bool-cases (env.db_fails w.calls)) [
  | inl down ↦ (inr (ground arith), ground arith)
  | inr up ↦ (inl (ground arith), ground arith)
]

is_active_member-pure :
    (user_id tenant_id : Uuid) (env : Env) (w : World)
    → (is_active_member user_id tenant_id env w).1.db ≡ w.db
unfolding is_active_member query statement
is_active_member-pure user_id tenant_id env w = ground (arith)

member_or_failure :
    (user_id tenant_id : Uuid) (env : Env) (w : World)
    → let r = (is_active_member user_id tenant_id env w).0 in
      (r ≡ ok (active_member user_id tenant_id w.db)) ⊎ (r ≡ err unavailable)
unfolding is_active_member query statement
member_or_failure user_id tenant_id env w = elim (Bool-cases (env.db_fails w.calls)) [
  | inl down ↦ inr (ground arith)
  | inr up ↦ inl (ground arith)
]

get_email-of :
    (id : Uuid) (u : UserRow) (env : Env) (w : World)
    → find? (λ v. v.id == id) w.db.users ≡ some u
    → ((get_email id env w).0 ≡ ok u.email) ⊎ ((get_email id env w).0 ≡ err unavailable)
unfolding get_email statement
get_email-of id u env w e = elim (Bool-cases (env.db_fails w.calls)) [
  | inl down ↦ inr (ground arith)
  | inr up ↦ inl (ground arith)
]

get_email-none :
    (id : Uuid) (env : Env) (w : World)
    → find? (λ v. v.id == id) w.db.users ≡ none
    → ((get_email id env w).0 ≡ err row_not_found) ⊎ ((get_email id env w).0 ≡ err unavailable)
unfolding get_email statement
get_email-none id env w e = elim (Bool-cases (env.db_fails w.calls)) [
  | inl down ↦ inr (ground arith)
  | inr up ↦ inl (ground arith)
]

module _ (req : ExchangeRequest) (row : AuthorizationCode) (env : Env) (w w' : World)
    (tokens : OidcTokens) (h : redeem req row env w ≡ (ok tokens, w')) where
  pub known_client : client_of row.client_id w.db ≡ none → ⊥
  unfolding redeem get_oauth_client query statement
  known_client n = ground (arith)

  pub proven : (has_pkce row && not (pkce_holds env req row)) ≡ false
  unfolding redeem
  proven = ground (arith)

  module _ (c : OauthClientRow) (e : client_of row.client_id w.db ≡ some c) where
    pub authenticated :
        (authenticate_client req row c env (record w { calls = suc w.calls })).0 ≡ ok tt
    unfolding redeem get_oauth_client query statement
    authenticated = ground (arith)

    pub member : active_member row.user_id c.tenant_id w.db ≡ true
    unfolding redeem get_oauth_client query statement
    member =
        let w₁ : World = record w { calls = suc w.calls } in
        let w₂ : World = record w { calls = suc (suc w.calls) } in
        let w₃ : World = record w { calls = suc (suc (suc w.calls)) } in
        ground (
          arith,
          authenticate_client-pure req row c env w₁,
          get_email-pure row.user_id env w₁,
          get_client_tenant-of row.client_id c env w₂ e,
          member_or_failure row.user_id c.tenant_id env w₃,
        )

    pub known_user : find? (λ v. v.id == row.user_id) w.db.users ≡ none → ⊥
    unfolding redeem get_oauth_client query statement
    known_user n =
        let w₁ : World = record w { calls = suc w.calls } in
        ground
          (arith, authenticate_client-pure req row c env w₁, get_email-none row.user_id env w₁ n)

    pub redeem-keeps :
        (u : UserRow)
        → find? (λ v. v.id == row.user_id) w.db.users ≡ some u
        → w'.db.oauth_authorization_codes ≡ w.db.oauth_authorization_codes
    unfolding redeem get_oauth_client query statement
    redeem-keeps u found =
        let w₁ : World = record w { calls = suc w.calls } in
        let w₂ : World = record w { calls = suc (suc w.calls) } in
        let w₃ : World = record w { calls = suc (suc (suc w.calls)) } in
        let w₄ : World = (is_active_member row.user_id c.tenant_id env w₃).1 in
        ground (
          arith,
          authenticate_client-pure req row c env w₁,
          get_email-pure row.user_id env w₁,
          get_email-of row.user_id u env w₁ found,
          get_client_tenant-of row.client_id c env w₂ e,
          is_active_member-pure row.user_id c.tenant_id env w₃,
          issue_tokens-keeps row.user_id u.email c.tenant_id none env w₄,
        )
