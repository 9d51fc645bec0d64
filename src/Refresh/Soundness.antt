-- ===== src/Refresh/Soundness.antt =====
-- When a refresh succeeds, and what it has issued (src/grpc.rs, `refresh`).
use iam_rust_auth.Base.{
  suc, ◌≡◌, refl, ap, ◌∙◌, ◌⊎◌, inl, inr, String, true, false, Option, none, some, List, [], ◌∷◌,
  ◌++◌, arith, find?, find?-append, find?-update, find?-none, exists, exists-find?, update, str_eq,
  eq_iff, eq_refl, ltb, Option-cases, Bool-cases,
}
use iam_rust_auth.Db.{Db, Instant, RefreshTokenRow}
use iam_rust_auth.World.{Env, World, ok, query, statement, execute}
use iam_rust_auth.Repo.{get_refresh_token, rotate_refresh_token, is_unrevoked}
use iam_rust_auth.Service.{
  TokenPair, refresh, refresh_live, refresh_revoked, is_rotated, in_grace, hash_token, reissue,
}
use iam_rust_auth.Refresh.Issue.{issued_row, reissue-stores}

-- The row of a token, by its hash.
abbrev pub row_of : String → Db → Option RefreshTokenRow
row_of hash d = find? (λ t. str_eq t.token_hash hash) d.refresh_tokens

abbrev pub token_row : Env → World → String → Option RefreshTokenRow
token_row env w token = row_of (hash_token env token) w.db

-- The state in which a row may be exchanged for a new pair: live, or rotated a moment ago.
abbrev pub IsExchangeable : Env → RefreshTokenRow → Type 0
IsExchangeable env row =
    (row.revoked_at ≡ none) × (ltb row.expires_at env.now ≡ false)
    ⊎ ((t : Instant) × (row.revoked_at ≡ some t)
        × (is_rotated row ≡ true)
        × (in_grace env.now t ≡ true))

unknown_fails :
    (token : String) (env : Env) (w w' : World) (pair : TokenPair)
    → token_row env w token ≡ none
    → refresh token env w ≡ (ok pair, w')
    → ⊥
unfolding refresh get_refresh_token query statement
unknown_fails token env w w' pair e h = ground arith

row_fits :
    (token : String) (env : Env) (w w' : World) (pair : TokenPair) (row : RefreshTokenRow)
    → token_row env w token ≡ some row
    → refresh token env w ≡ (ok pair, w')
    → IsExchangeable env row
unfolding refresh get_refresh_token query statement refresh_live refresh_revoked
row_fits token env w w' pair row e h = elim (Option-cases row.revoked_at) [
  | inl live ↦ inl (live, ground arith)
  | inr (t, revoked) ↦ inr (t, revoked, ground arith, ground arith)
]

module _ (ts : List RefreshTokenRow) (new : RefreshTokenRow) where
  -- A row that was added under a new hash is found by it.
  pub find-appended :
      exists (λ t. str_eq t.token_hash new.token_hash) ts ≡ false
      → find? (λ t. str_eq t.token_hash new.token_hash) (ts ++ new ∷ []) ≡ some new
  unfolding find?
  find-appended fresh =
      rw (find?-append (λ (t : RefreshTokenRow). str_eq t.token_hash new.token_hash) ts (new ∷ []))
        (rw (find?-none (λ (t : RefreshTokenRow). str_eq t.token_hash new.token_hash) ts fresh)
          (rw (eq_refl new.token_hash)))

  distinct_hash :
      (old : String)
      → exists (λ t. str_eq t.token_hash new.token_hash) ts ≡ false
      → exists (λ t. str_eq t.token_hash old) ts ≡ true
      → str_eq new.token_hash old ≡ false
  distinct_hash old fresh held = elim (Bool-cases (str_eq new.token_hash old)) [
    | inl e ↦
        let same : new.token_hash ≡ old = (eq_iff new.token_hash old).0 e in
        let moved : exists (λ t. str_eq t.token_hash new.token_hash) ts ≡ true = rw same held in cc
    | inr e ↦ e
  ]

  -- Also after the token of another hash has been rotated.
  pub find-rotated :
      (old : String) (f : RefreshTokenRow → RefreshTokenRow)
      → ((t : RefreshTokenRow) → (f t).token_hash ≡ t.token_hash)
      → exists (λ t. str_eq t.token_hash new.token_hash) ts ≡ false
      → exists (λ t. str_eq t.token_hash old) ts ≡ true
      → find?
          (λ t. str_eq t.token_hash new.token_hash)
          (update (is_unrevoked old) f (ts ++ new ∷ []))
        ≡ some new
  find-rotated old f keeps fresh held =
      find?-update (λ (t : RefreshTokenRow). str_eq t.token_hash new.token_hash) (is_unrevoked old)
        f (ts ++ new ∷ []) (λ x. ap (λ s. str_eq s new.token_hash) (keeps x))
      ∙ rw (find-appended fresh) (ground (arith, distinct_hash old fresh held))

-- The new row, in the database that a refresh leaves, whether or not the rotation was stored.
live_issued :
    (hash : String) (env : Env) (w w' : World) (pair : TokenPair) (row : RefreshTokenRow)
    → exists (λ t. str_eq t.token_hash hash) w.db.refresh_tokens ≡ true
    → refresh_live hash row env w ≡ (ok pair, w')
    → row_of (hash_token env pair.refresh_token) w'.db
      ≡ some (issued_row env pair row.user_id row.tenant_id row.project_id)
unfolding refresh_live rotate_refresh_token execute statement
live_issued hash env w w' pair row held h =
    let new : RefreshTokenRow = issued_row env pair row.user_id row.tenant_id row.project_id in
    ground (
      arith,
      reissue-stores row env w (reissue row env w).1 pair,
      find-appended w.db.refresh_tokens new,
      find-rotated w.db.refresh_tokens new hash
          (λ t. record t {
            revoked_at = some env.now;
            replaced_by = some (hash_token env pair.refresh_token);
          })
          (λ t. refl),
    )

issued :
    (token : String) (env : Env) (w w' : World) (pair : TokenPair) (row : RefreshTokenRow)
    → token_row env w token ≡ some row
    → refresh token env w ≡ (ok pair, w')
    → row_of (hash_token env pair.refresh_token) w'.db
      ≡ some (issued_row env pair row.user_id row.tenant_id row.project_id)
unfolding refresh get_refresh_token query statement refresh_revoked
issued token env w w' pair row e h =
    let new : RefreshTokenRow = issued_row env pair row.user_id row.tenant_id row.project_id in
    let w₁ : World = record w { calls = suc w.calls } in
    let held : exists (λ t. str_eq t.token_hash (hash_token env token)) w.db.refresh_tokens ≡ true =
      exists-find? (λ (t : RefreshTokenRow). str_eq t.token_hash (hash_token env token))
        w.db.refresh_tokens
      ∙ ground (arith) in
    ground (
      arith,
      live_issued (hash_token env token) env w₁ w' pair row held,
      reissue-stores row env w₁ w' pair,
      find-appended w.db.refresh_tokens new,
    )

-- A refresh that succeeds was given a token that is stored, and is live or was rotated less than a
-- minute ago; the token of the new pair is stored for the same user, tenant and project, unrevoked.
-- This holds whatever statements fail on the way.
pub refresh-IsExchangeable :
    (token : String) (env : Env) (w w' : World) (pair : TokenPair)
    → refresh token env w ≡ (ok pair, w')
    → (row : RefreshTokenRow) × (token_row env w token ≡ some row)
      × IsExchangeable env row
      × (row_of (hash_token env pair.refresh_token) w'.db
          ≡ some (issued_row env pair row.user_id row.tenant_id row.project_id))
refresh-IsExchangeable token env w w' pair h = elim (Option-cases (token_row env w token)) [
  | inl e ↦ absurd (unknown_fails token env w w' pair e h)
  | inr (row, e) ↦
      (row, e, row_fits token env w w' pair row e h, issued token env w w' pair row e h)
]
