-- ===== src/History/Sessions.antt =====
-- The statements on refresh tokens (src/repo.rs) issue them at the end of the ledger, or end them.
use iam_rust_auth.Base.{
  ◌≡◌, refl, sym, subst, String, Bool, ◌&&◌, Option, some, List, [], ◌∷◌, ◌++◌, arith, ◌==◌, update,
  is_none, if◌then◌else◌,
}
use iam_rust_auth.Db.{Db, Uuid, Instant, RefreshTokenRow}
use iam_rust_auth.World.{execute, Within, Within-statement, Within-execute}
use iam_rust_auth.Repo
use iam_rust_auth.Repo.{
  insert_refresh_token, insert_token, consume_token, insert_authorization_code, revoke_tokens_of,
  mark_deleted, remove_user, delete_statements, fresh_token, is_unrevoked, is_live, is_unclaimed,
  with_verifications, with_resets, unconsumed,
}
use iam_rust_auth.History.Rows.{Tracks, Tracks-append, Tracks-update}
use iam_rust_auth.History.Ledger.{
  ledger, history, Follows, Follows-refl, SessionMoves, SessionMoves-refl, session_is, session_of,
}

revoked_moves :
    (h : String) (now : Instant) (s : Option String) (t : RefreshTokenRow)
    → SessionMoves t
        (if is_unrevoked h t then record t { revoked_at = some now; replaced_by = s } else t)
revoked_moves h now s t = ground arith

module _ (who : Uuid → Bool) where
  -- The ledger after a change of one of its tables.
  sessions_follow :
      (d : Db) (ts : List RefreshTokenRow)
      → Tracks session_is (session_of who) SessionMoves d.refresh_tokens ts
      → Follows who (ledger d) (ledger (record d { refresh_tokens = ts }))
  sessions_follow d ts h = record {
    sessions = h;
    codes = (Follows-refl who (ledger d)).codes;
    resets = (Follows-refl who (ledger d)).resets;
    verifications = (Follows-refl who (ledger d)).verifications;
    audit = (Follows-refl who (ledger d)).audit;
    denied = (Follows-refl who (ledger d)).denied;
  }

  -- An UPDATE of refresh tokens that are not revoked.
  sessions_updated :
      (p : RefreshTokenRow → Bool) (f : RefreshTokenRow → RefreshTokenRow)
      → ((k : String) (t : RefreshTokenRow) → session_is k (f t) ≡ session_is k t)
      → ((t : RefreshTokenRow) → SessionMoves t (if p t then f t else t))
      → Within
          (history who)
          (execute λ d. record d { refresh_tokens = update p f d.refresh_tokens })
  unfolding history
  sessions_updated p f same moves =
      Within-execute {o = history who}
        (λ d. record d { refresh_tokens = update p f d.refresh_tokens })
        λ d.
          sessions_follow d (update p f d.refresh_tokens)
            (Tracks-update session_is (session_of who) p f same moves d.refresh_tokens)

  pub revoke_refresh_token-Within :
      (h : String) → Within (history who) (Repo.revoke_refresh_token h)
  unfolding Repo.revoke_refresh_token
  revoke_refresh_token-Within h = record {
    at = λ env w.
        (sessions_updated (is_unrevoked h) (λ t. record t { revoked_at = some env.now })
            (λ k t. refl) (λ t. revoked_moves h env.now t.replaced_by t)).at
          env w;
  }

  pub rotate_refresh_token-Within :
      (h s : String) → Within (history who) (Repo.rotate_refresh_token h s)
  unfolding Repo.rotate_refresh_token
  rotate_refresh_token-Within h s = record {
    at = λ env w.
        (sessions_updated (is_unrevoked h)
            (λ t. record t { revoked_at = some env.now; replaced_by = some s }) (λ k t. refl)
            (λ t. revoked_moves h env.now (some s) t)).at
          env w;
  }

  pub revoke_tokens_of-Within :
      (id : Uuid) (now : Instant) → Within (history who) (execute (revoke_tokens_of id now))
  unfolding revoke_tokens_of
  revoke_tokens_of-Within id now =
      sessions_updated (λ t. t.user_id == id && is_none t.revoked_at)
        (λ t. record t { revoked_at = some now }) (λ k t. refl) (λ t. ground arith)

  pub revoke_all_user_refresh_tokens-Within :
      (id : Uuid) → Within (history who) (Repo.revoke_all_user_refresh_tokens id)
  unfolding Repo.revoke_all_user_refresh_tokens
  revoke_all_user_refresh_tokens-Within id = record {
    at = λ env w. (revoke_tokens_of-Within id env.now).at env w;
  }

  sessions_added :
      (t : RefreshTokenRow) (d d' : Db)
      → d' ≡ record d { refresh_tokens = d.refresh_tokens ++ t ∷ [] }
      → Follows who (ledger d) (ledger d')
  sessions_added t d d' e =
      subst (λ x. Follows who (ledger d) (ledger x)) (sym e)
        (sessions_follow d (d.refresh_tokens ++ t ∷ [])
          (Tracks-append session_is (session_of who) SessionMoves-refl d.refresh_tokens (t ∷ [])))

  pub create_refresh_token-Within :
      (id : Uuid) (h : String) (e : Instant) (t : Uuid) (p : Option Uuid)
      → Within (history who) (Repo.create_refresh_token id h e t p)
  unfolding Repo.create_refresh_token insert_refresh_token history
  create_refresh_token-Within id h e t p =
      Within-statement {o = history who} (insert_refresh_token (fresh_token id h e t p))
        λ d a d' q. sessions_added (fresh_token id h e t p) d d' (ground arith)
