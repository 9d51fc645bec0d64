-- ===== src/Codes/Exchange.antt =====
-- The exchange of an authorization code (src/grpc.rs, `exchange_authorization_code`).
use iam_rust_auth.Base.{
  suc, ◌≡◌, sym, inl, inr, ap, ◌∙◌, true, false, not, ◌&&◌, some, arith, find?, Option-cases, ◌==◌,
}
use iam_rust_auth.Db.{Db, Uuid, UserRow, AuthorizationCode, OauthClientRow}
use iam_rust_auth.World.{Env, World, Status, run-cases, ok, err, query, statement}
use iam_rust_auth.Repo.{get_authorization_code, active_member}
use iam_rust_auth.Service.{
  ExchangeRequest, OidcTokens, exchange_authorization_code, claim, redeem, hash_token, is_unusable,
  has_pkce, pkce_holds, invalid_grant,
}
use iam_rust_auth.Codes.Redeem.{
  code_of, client_of, IsAuthenticated, claimed_row, claims, authenticates, authenticate_client-pure,
  known_client, proven, authenticated, member, known_user, redeem-keeps,
}

-- What a code must have been good for, for tokens to be issued on it.
abbrev pub IsGranted : Env → ExchangeRequest → Db → AuthorizationCode → OauthClientRow → Type 0
IsGranted env req d row c =
    (is_unusable env.now req row ≡ false)
    × ((has_pkce row && not (pkce_holds env req row)) ≡ false)
    × IsAuthenticated env req row c
    × (active_member row.user_id c.tenant_id d ≡ true)

redeems :
    (req : ExchangeRequest) (env : Env) (w w₁ w' : World) (row : AuthorizationCode)
    (tokens : OidcTokens)
    → claim req env w ≡ (ok row, w₁)
    → exchange_authorization_code req env w ≡ (ok tokens, w')
    → redeem req row env w₁ ≡ (ok tokens, w')
unfolding exchange_authorization_code
redeems req env w w₁ w' row tokens e h = ground (arith)

unclaimed :
    (req : ExchangeRequest) (env : Env) (w w₁ w' : World) (e : Status) (tokens : OidcTokens)
    → claim req env w ≡ (err e, w₁)
    → exchange_authorization_code req env w ≡ (ok tokens, w')
    → ⊥
unfolding exchange_authorization_code
unclaimed req env w w₁ w' e tokens n h = ground (arith)

member_before :
    (user_id tenant_id : Uuid) (d d' : Db)
    → d' ≡ record d { oauth_authorization_codes = d'.oauth_authorization_codes }
    → active_member user_id tenant_id d' ≡ true
    → active_member user_id tenant_id d ≡ true
unfolding active_member
member_before user_id tenant_id d d' same h = sym (ap (active_member user_id tenant_id) same) ∙ h

module _ (req : ExchangeRequest) (env : Env) (w w₁ w' : World) (row : AuthorizationCode)
    (tokens : OidcTokens) (e : claim req env w ≡ (ok row, w₁))
    (r : redeem req row env w₁ ≡ (ok tokens, w')) where
  granted :
      (c : OauthClientRow)
      → client_of row.client_id w₁.db ≡ some c
      → IsGranted env req w.db row c
        × (code_of (hash_token env req.auth_code) w'.db ≡ some (claimed_row row))
  granted c found =
      let (looked, usable, claimed, same) = claims req env w w₁ row e in
      let member₁ : active_member row.user_id c.tenant_id w₁.db ≡ true =
        member req row env w₁ w' tokens r c found in
      elim (Option-cases (find? (λ (v : UserRow). v.id == row.user_id) w₁.db.users)) [
        | inl n ↦ absurd (known_user req row env w₁ w' tokens r c found n)
        | inr (u, e₂) ↦ (
          (
            usable,
            proven req row env w₁ w' tokens r,
            (authenticates req row c env (record w₁ { calls = suc w₁.calls })
                (record w₁ { calls = suc w₁.calls })
                (ground (
                  arith,
                  authenticated req row env w₁ w' tokens r c found,
                  authenticate_client-pure req row c env (record w₁ { calls = suc w₁.calls }),
                ))).0,
            member_before row.user_id c.tenant_id w.db w₁.db same member₁,
          ),
          ground (arith, claimed, redeem-keeps req row env w₁ w' tokens r c found u e₂),
        )
      ]

-- Tokens are issued on a code only if it is stored, unused, unexpired and for this client and
-- redirect address; its PKCE challenge, if it has one, is met; its client is stored, and has proved
-- itself by its secret or, if it is public, by PKCE; and the user is an active member of the client's
-- tenant. The code is used afterwards.
pub exchange-IsGranted :
    (req : ExchangeRequest) (env : Env) (w w' : World) (tokens : OidcTokens)
    → exchange_authorization_code req env w ≡ (ok tokens, w')
    → (row : AuthorizationCode) × (c : OauthClientRow) × (code_of
          (hash_token env req.auth_code)
          w.db
        ≡ some row)
      × (client_of row.client_id w.db ≡ some c)
      × IsGranted env req w.db row c
      × (code_of (hash_token env req.auth_code) w'.db ≡ some (claimed_row row))
exchange-IsGranted req env w w' tokens h = elim (run-cases (claim req env w)) [
  | inr (n, w₁, e) ↦ absurd (unclaimed req env w w₁ w' n tokens e h)
  | inl (row, w₁, e) ↦
      let r = redeems req env w w₁ w' row tokens e h in
      let (looked, usable, claimed, same) = claims req env w w₁ row e in
      elim (Option-cases (client_of row.client_id w₁.db)) [
        | inl n ↦ absurd (known_client req row env w₁ w' tokens r n)
        | inr (c, found) ↦
            let (all, used) = granted req env w w₁ w' row tokens e r c found in
            (row, c, looked, ground (arith, same, found), all, used)
      ]
]

-- A code that is used is refused, whoever presents it, where the lookup does not fail, and nothing
-- but the count of statements changes.
pub exchange_used :
    (req : ExchangeRequest) (env : Env) (w : World) (row : AuthorizationCode)
    → env.db_fails w.calls ≡ false
    → code_of (hash_token env req.auth_code) w.db ≡ some row
    → row.used ≡ true
    → exchange_authorization_code req env w ≡ (err invalid_grant, record w { calls = suc w.calls })
unfolding exchange_authorization_code claim get_authorization_code query statement
exchange_used req env w row up e used = ground (arith)
