-- ===== src/History/Codes.antt =====
-- The statements on authorization codes and one-time tokens (src/repo.rs) add them to the ledger, or
-- use them up.
use iam_rust_auth.Base.{
  ◌≡◌, refl, sym, subst, String, Bool, true, some, List, [], ◌∷◌, ◌++◌, arith, inl, inr,
  Result-cases, update,
}
use iam_rust_auth.Db.{Db, Uuid, Instant, AuthorizationCode, OneTimeToken}
use iam_rust_auth.World.{ok, statement, Within, Within-statement, Within-returning}
use iam_rust_auth.Repo
use iam_rust_auth.Repo.{
  insert_refresh_token, insert_token, consume_token, insert_authorization_code, revoke_tokens_of,
  mark_deleted, remove_user, delete_statements, fresh_token, is_unrevoked, is_live, is_unclaimed,
  with_verifications, with_resets, unconsumed,
}
use iam_rust_auth.History.Rows.{Tracks, Tracks-append, Tracks-update}
use iam_rust_auth.History.Ledger.{
  ledger, history, Follows, Follows-refl, CodeMoves, CodeMoves-refl, TokenMoves, TokenMoves-refl,
  code_is, token_is, any_code, token_of,
}

module _ (who : Uuid → Bool) where
  codes_follow :
      (d : Db) (cs : List AuthorizationCode)
      → Tracks code_is any_code CodeMoves d.oauth_authorization_codes cs
      → Follows who (ledger d) (ledger (record d { oauth_authorization_codes = cs }))
  codes_follow d cs h = record {
    sessions = (Follows-refl who (ledger d)).sessions;
    codes = h;
    resets = (Follows-refl who (ledger d)).resets;
    verifications = (Follows-refl who (ledger d)).verifications;
    audit = (Follows-refl who (ledger d)).audit;
    denied = (Follows-refl who (ledger d)).denied;
  }

  resets_follow :
      (d : Db) (ts : List OneTimeToken)
      → Tracks token_is (token_of who) TokenMoves d.password_resets ts
      → Follows who (ledger d) (ledger (record d { password_resets = ts }))
  resets_follow d ts h = record {
    sessions = (Follows-refl who (ledger d)).sessions;
    codes = (Follows-refl who (ledger d)).codes;
    resets = h;
    verifications = (Follows-refl who (ledger d)).verifications;
    audit = (Follows-refl who (ledger d)).audit;
    denied = (Follows-refl who (ledger d)).denied;
  }

  verifications_follow :
      (d : Db) (ts : List OneTimeToken)
      → Tracks token_is (token_of who) TokenMoves d.email_verifications ts
      → Follows who (ledger d) (ledger (record d { email_verifications = ts }))
  verifications_follow d ts h = record {
    sessions = (Follows-refl who (ledger d)).sessions;
    codes = (Follows-refl who (ledger d)).codes;
    resets = (Follows-refl who (ledger d)).resets;
    verifications = h;
    audit = (Follows-refl who (ledger d)).audit;
    denied = (Follows-refl who (ledger d)).denied;
  }

  codes_added :
      (c : AuthorizationCode) (d d' : Db)
      → d' ≡ record d { oauth_authorization_codes = d.oauth_authorization_codes ++ c ∷ [] }
      → Follows who (ledger d) (ledger d')
  codes_added c d d' e =
      subst (λ x. Follows who (ledger d) (ledger x)) (sym e)
        (codes_follow d (d.oauth_authorization_codes ++ c ∷ [])
          (Tracks-append code_is any_code CodeMoves-refl d.oauth_authorization_codes (c ∷ [])))

  pub insert_authorization_code-Within :
      (c : AuthorizationCode) → Within (history who) (statement (insert_authorization_code c))
  unfolding insert_authorization_code history
  insert_authorization_code-Within c =
      Within-statement {o = history who} (insert_authorization_code c)
        λ d a d' q. codes_added c d d' (ground arith)

  pub claim_code-Within : (h : String) → Within (history who) (Repo.claim_code h)
  unfolding Repo.claim_code history
  claim_code-Within h = Within-returning {o = history who} _ _ λ d.
      codes_follow d
        (update (is_unclaimed h) (λ c. record c { used = true }) d.oauth_authorization_codes)
        (Tracks-update code_is any_code (is_unclaimed h) (λ c. record c { used = true })
          (λ k c. refl) (λ c. ground arith) d.oauth_authorization_codes)

  -- What an issue and a use of a one-time token do to a table of them.
  tokens_added :
      (t : OneTimeToken) (d : Db) (ts ts' : List OneTimeToken)
      → insert_token t ts d ≡ ok ts'
      → Tracks token_is (token_of who) TokenMoves ts ts'
  unfolding insert_token
  tokens_added t d ts ts' e =
      subst (λ x. Tracks token_is (token_of who) TokenMoves ts x) (ground arith)
        (Tracks-append token_is (token_of who) TokenMoves-refl ts (t ∷ []))

  tokens_consumed :
      (h : String) (now : Instant) (ts : List OneTimeToken)
      → Tracks token_is (token_of who) TokenMoves ts (consume_token h now ts).1
  unfolding consume_token
  tokens_consumed h now ts =
      Tracks-update token_is (token_of who) (is_live h now)
        (λ t. record t { consumed_at = some now }) (λ k t. refl) (λ t. ground arith) ts

  pub create_password_reset-Within :
      (h : String) (id : Uuid) (e : Instant)
      → Within (history who) (Repo.create_password_reset h id e)
  unfolding Repo.create_password_reset history
  create_password_reset-Within h id e = Within-statement {o = history who} _ λ d a d' q.
      elim (Result-cases (insert_token (unconsumed h id e) d.password_resets d)) [
        | inl (ts, f) ↦
            subst (λ x. Follows who (ledger d) (ledger x)) {x = record d { password_resets = ts }}
              {y = d'} (ground arith)
              (resets_follow d ts (tokens_added (unconsumed h id e) d d.password_resets ts f))
        | inr (n, f) ↦ absurd (ground arith)
      ]

  pub create_email_verification-Within :
      (h : String) (id : Uuid) (e : Instant)
      → Within (history who) (Repo.create_email_verification h id e)
  unfolding Repo.create_email_verification history
  create_email_verification-Within h id e = Within-statement {o = history who} _ λ d a d' q.
      elim (Result-cases (insert_token (unconsumed h id e) d.email_verifications d)) [
        | inl (ts, f) ↦
            subst (λ x. Follows who (ledger d) (ledger x))
              {x = record d { email_verifications = ts }} {y = d'} (ground arith)
              (verifications_follow d ts
                (tokens_added (unconsumed h id e) d d.email_verifications ts f))
        | inr (n, f) ↦ absurd (ground arith)
      ]

  pub consume_password_reset-Within :
      (h : String) → Within (history who) (Repo.consume_password_reset h)
  unfolding Repo.consume_password_reset history
  consume_password_reset-Within h = record {
    at = λ env w.
        (Within-returning {o = history who} (λ d. (consume_token h env.now d.password_resets).0)
            (λ d. record d { password_resets = (consume_token h env.now d.password_resets).1 })
            λ d.
              resets_follow d (consume_token h env.now d.password_resets).1
                (tokens_consumed h env.now d.password_resets)).at
          env w;
  }

  pub consume_email_verification-Within :
      (h : String) → Within (history who) (Repo.consume_email_verification h)
  unfolding Repo.consume_email_verification history
  consume_email_verification-Within h = record {
    at = λ env w.
        (Within-returning {o = history who} (λ d. (consume_token h env.now d.email_verifications).0)
            (λ d. record d {
              email_verifications = (consume_token h env.now d.email_verifications).1;
            })
            λ d.
              verifications_follow d (consume_token h env.now d.email_verifications).1
                (tokens_consumed h env.now d.email_verifications)).at
          env w;
  }
