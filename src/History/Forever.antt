-- ===== src/History/Forever.antt =====
-- What has ended stays ended (src/grpc.rs: `refresh`, `exchange_authorization_code`, `logout` and
-- `validate_token`, with any steps of the server between).
use iam_rust_auth.Base.{
  ℕ, ◌≡◌, ◌≢◌, refl, ap, ◌∙◌, String, Bool, true, false, ◌&&◌, none, some, arith, exists-append,
  str_eq, is_empty, find?-holds, find?-update,
}
use iam_rust_auth.Db.{Uuid, Instant, RefreshTokenRow, AuthorizationCode, RevokedToken}
use iam_rust_auth.World.{World, Env, Claims, ok, err, unauthenticated, statement, execute}
use iam_rust_auth.Cache.{deny, command}
use iam_rust_auth.Repo.{revoke_refresh_token, revoke_access_jti, insert_audit, is_unrevoked}
use iam_rust_auth.Service.{
  MetadataMap, TokenPair, ExchangeRequest, OidcTokens, refresh, logout, validate_token,
  exchange_authorization_code, hash_token, is_rotated, in_grace, audit, audit_as,
}
use iam_rust_auth.Server.{
  Request, erases, delete_user, requested, relayed, compensated, Run, rest, next,
}
use iam_rust_auth.Refresh.Soundness.{row_of, token_row, refresh-IsExchangeable}
use iam_rust_auth.Codes.Redeem.{code_of}
use iam_rust_auth.Codes.Exchange.{exchange-IsGranted}
use iam_rust_auth.Access.Tokens.{in_denylist}
use iam_rust_auth.Access.Logout.{logout-denies, validate_token_denied}
use iam_rust_auth.History.Run.{spares_all, run-Follows}

-- Nobody in particular is spared by every run.
abbrev nobody : Uuid → Bool
nobody id = false

erases-nobody : (env : Env) (r : Request) → erases nobody env r ≡ false
unfolding erases
erases-nobody env (delete_user id hard) = ground arith
erases-nobody env _ = refl

spares_all-nobody : {w w' : World} (run : Run w w') → spares_all nobody run ≡ true
spares_all-nobody (rest e) = refl
spares_all-nobody (next (requested env md r e) run) =
    ground (arith, erases-nobody env r, spares_all-nobody run)
spares_all-nobody (next (relayed env e) run) = spares_all-nobody run
spares_all-nobody (next (compensated env items e) run) = spares_all-nobody run

-- A row that is revoked is found as it is after any steps that do not delete its owner for good.
revoked_row-stays :
    (who : Uuid → Bool) (h : String) {w w' : World} (run : Run w w') (row : RefreshTokenRow)
    (t : Instant)
    → spares_all who run ≡ true
    → who row.user_id ≡ true
    → row_of h w.db ≡ some row
    → row.revoked_at ≡ some t
    → row_of h w'.db ≡ some row
revoked_row-stays who h run row t spared own e revoked =
    let (row', found, moves) = (run-Follows who run spared).sessions.at h row e own in
    ground (arith, found, moves.final)

-- A refresh token that is revoked, and was not rotated less than a minute before `env.now`, is never
-- exchanged again: not after any requests, passes of the relay and streams of the saga, in any
-- order and with any failures, unless one of the requests deletes the token's owner for good.
pub revoked_forever :
    (who : Uuid → Bool) (token : String) (env : Env) {w w' : World} (run : Run w w')
    (row : RefreshTokenRow) (t : Instant) (pair : TokenPair)
    → spares_all who run ≡ true
    → who row.user_id ≡ true
    → token_row env w token ≡ some row
    → row.revoked_at ≡ some t
    → (is_rotated row && in_grace env.now t) ≡ false
    → (refresh token env w').0 ≢ ok pair
revoked_forever who token env {w} {w'} run row t pair spared own e revoked old h =
    let stays = revoked_row-stays who (hash_token env token) run row t spared own e revoked in
    let (row', found, fits, _) =
      refresh-IsExchangeable token env w' (refresh token env w').1 pair (ground arith) in
    ground (arith, stays, found, fits)

-- An authorization code that is used is never exchanged again, whatever steps the server makes,
-- whoever presents the code, and whichever statements fail.
pub used_forever :
    (req : ExchangeRequest) (env : Env) {w w' : World} (run : Run w w') (row : AuthorizationCode)
    (tokens : OidcTokens)
    → code_of (hash_token env req.auth_code) w.db ≡ some row
    → row.used ≡ true
    → (exchange_authorization_code req env w').0 ≢ ok tokens
used_forever req env {w} {w'} run row tokens e used h =
    let (row', found, moves) =
      (run-Follows nobody run (spares_all-nobody run)).codes.at (hash_token env req.auth_code) row e
        refl in
    let (row'', c, again, _, granted, _) =
      exchange-IsGranted req env w' (exchange_authorization_code req env w').1 tokens
        (ground arith) in
    ground (arith, found, moves.final, again, granted)

-- The row that a logout ends is found revoked, and not rotated.
abbrev logged_out : Instant → RefreshTokenRow → RefreshTokenRow
logged_out now row = record row { revoked_at = some now }

logout-revokes :
    (md : MetadataMap) (refresh_token access_token : String) (env : Env) (w w' : World)
    (row : RefreshTokenRow)
    → ((n : ℕ) → env.db_fails n ≡ false)
    → token_row env w refresh_token ≡ some row
    → row.revoked_at ≡ none
    → logout md refresh_token access_token env w ≡ (ok true, w')
    → token_row env w' refresh_token ≡ some (logged_out env.now row)
unfolding logout revoke_refresh_token revoke_access_jti execute statement deny command audit
    audit_as insert_audit
logout-revokes md refresh_token access_token env w w' row up e live h = ground (
  arith,
  up w.calls,
  find?-holds (λ (t : RefreshTokenRow). str_eq t.token_hash (hash_token env refresh_token))
      w.db.refresh_tokens row,
  find?-update (λ (t : RefreshTokenRow). str_eq t.token_hash (hash_token env refresh_token))
      (is_unrevoked (hash_token env refresh_token)) (logged_out env.now) w.db.refresh_tokens
      (λ t. refl),
)

denylist-stays :
    (jti : String) {w w' : World} (run : Run w w')
    → in_denylist jti w.db ≡ true
    → in_denylist jti w'.db ≡ true
denylist-stays jti {w} {w'} run e =
    let (more, added) = (run-Follows nobody run (spares_all-nobody run)).denied in
    ground (
      arith,
      added,
      exists-append (λ (t : RevokedToken). str_eq t.jti jti) w.db.revoked_tokens more,
    )

-- A logout that succeeds where no statement fails is final. After any steps of the server that do
-- not delete the owner of the refresh token for good, the refresh token, if it was live at the
-- logout and its row named no successor, is not exchanged, whatever fails; and the access token, if
-- it was read at the logout with an expiry in range, is refused where the denylist of Postgres is
-- asked (there is no Redis, and the lookup does not fail).
pub logout_forever :
    (who : Uuid → Bool) (md : MetadataMap) (refresh_token access_token : String) (env env' : Env)
    (w : World) {w₁ w₂ : World} (run : Run w₁ w₂) (claims : Claims) (row : RefreshTokenRow)
    (pair : TokenPair)
    → ((n : ℕ) → env.db_fails n ≡ false)
    → is_empty access_token ≡ false
    → env.parse_jwt access_token ≡ some claims
    → env.timestamp_in_range claims.exp ≡ true
    → token_row env w refresh_token ≡ some row
    → row.revoked_at ≡ none
    → row.replaced_by ≡ none
    → logout md refresh_token access_token env w ≡ (ok true, w₁)
    → who row.user_id ≡ true
    → spares_all who run ≡ true
    → hash_token env' refresh_token ≡ hash_token env refresh_token
    → env'.redis_enabled ≡ false
    → env'.db_fails w₂.calls ≡ false
    → env'.parse_access_jwt access_token ≡ some claims
    → ((refresh refresh_token env' w₂).0 ≢ ok pair)
      × ((validate_token access_token env' w₂).0 ≡ err (unauthenticated "token revoked"))
logout_forever who md refresh_token access_token env env' w {w₁} {w₂} run claims row pair up given
      read range e live fresh out own spared same off asked read' =
    let there : token_row env' w₁ refresh_token ≡ some (logged_out env.now row) =
      ap (λ h. row_of h w₁.db) same
      ∙ logout-revokes md refresh_token access_token env w w₁ row up e live out in
    let listed =
      (logout-denies md refresh_token access_token env w w₁ claims up given read range out).1 in
    (
      revoked_forever who refresh_token env' run (logged_out env.now row) env.now pair spared own
          there refl (ground arith),
      validate_token_denied access_token env' w₂ claims off asked read'
          (denylist-stays claims.jti run listed),
    )
