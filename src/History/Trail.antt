-- ===== src/History/Trail.antt =====
-- The audit trail and the denylist are added to, and a deletion spares the tokens of other users
-- (src/repo.rs).
use iam_rust_auth.Base.{
  ◌≡◌, refl, suc, String, Bool, true, false, ◌&&◌, Option, List, [], ◌∷◌, ◌++◌, arith, inl, inr,
  ◌==◌, exists, str_eq, Bool-cases,
}
use iam_rust_auth.Db.{Db, Uuid, Instant, AuditRow, RevokedToken}
use iam_rust_auth.World.{execute, Within, Within-execute, Within-bind, within_rules}
use iam_rust_auth.Repo
use iam_rust_auth.Repo.{
  insert_refresh_token, insert_token, consume_token, insert_authorization_code, revoke_tokens_of,
  mark_deleted, remove_user, delete_statements, fresh_token, is_unrevoked, is_live, is_unclaimed,
  with_verifications, with_resets, unconsumed,
}
use iam_rust_auth.History.Rows.{Tracks-delete, IsPrefix}
use iam_rust_auth.History.Ledger.{
  ledger, history, Follows, Follows-refl, SessionMoves-refl, TokenMoves-refl, session_is, token_is,
  session_of, token_of,
}
use iam_rust_auth.History.Elsewhere.{insert_outbox-Within}
use iam_rust_auth.History.Idle.{history_ignores, mark_deleted-Within}
use iam_rust_auth.History.Sessions.{revoke_tokens_of-Within}

abbrev audit_row :
    String → String → String → String → String → Option Uuid → Instant → Db → AuditRow
audit_row a e k t x tenant now d = record {
  id = d.next_audit_id;
  actor_id = a;
  actor_email = e;
  action = k;
  target = t;
  detail = x;
  created_at = now;
  tenant_id = tenant;
}

module _ (who : Uuid → Bool) where
  -- The trail and the denylist are added to at their ends.
  pub insert_audit-Within :
      (a e k t x : String) (tenant : Option Uuid)
      → Within (history who) (Repo.insert_audit a e k t x tenant)
  unfolding Repo.insert_audit history
  insert_audit-Within a e k t x tenant = record {
    at = λ env w.
        (Within-execute {o = history who}
            (λ d. record d {
              audit_events = d.audit_events ++ audit_row a e k t x tenant env.now d ∷ [];
              next_audit_id = suc d.next_audit_id;
            })
            λ d. record {
              sessions = (Follows-refl who (ledger d)).sessions;
              codes = (Follows-refl who (ledger d)).codes;
              resets = (Follows-refl who (ledger d)).resets;
              verifications = (Follows-refl who (ledger d)).verifications;
              audit = (audit_row a e k t x tenant env.now d ∷ [], refl);
              denied = (Follows-refl who (ledger d)).denied;
            }).at
          env w;
  }

  denied_follow :
      (d : Db) (ts : List RevokedToken)
      → IsPrefix d.revoked_tokens ts
      → Follows who (ledger d) (ledger (record d { revoked_tokens = ts }))
  denied_follow d ts h = record {
    sessions = (Follows-refl who (ledger d)).sessions;
    codes = (Follows-refl who (ledger d)).codes;
    resets = (Follows-refl who (ledger d)).resets;
    verifications = (Follows-refl who (ledger d)).verifications;
    audit = (Follows-refl who (ledger d)).audit;
    denied = h;
  }

  pub revoke_access_jti-Within :
      (jti : String) (e : Instant) → Within (history who) (Repo.revoke_access_jti jti e)
  unfolding Repo.revoke_access_jti history
  revoke_access_jti-Within jti e = Within-execute {o = history who} _ λ d.
      elim (Bool-cases (exists (λ t. str_eq t.jti jti) d.revoked_tokens)) [
        | inl f ↦ rw f (Follows-refl who (ledger d))
        | inr f ↦ rw f (
            denied_follow d (d.revoked_tokens ++ record { jti = jti; expires_at = e } ∷ [])
              (record { jti = jti; expires_at = e } ∷ [], refl))
      ]

  -- The hard deletion of another user leaves the user's rows.
  remove_user-Follows :
      (id : Uuid) (d : Db) → (who id) ≡ false → Follows who (ledger d) (ledger (remove_user id d))
  unfolding remove_user
  remove_user-Follows id d other = record {
    sessions =
        Tracks-delete session_is (session_of who) SessionMoves-refl (λ t. t.user_id == id)
          (λ t m. ground arith) d.refresh_tokens;
    codes = (Follows-refl who (ledger d)).codes;
    resets =
        Tracks-delete token_is (token_of who) TokenMoves-refl (λ t. t.user_id == id)
          (λ t m. ground arith) d.password_resets;
    verifications =
        Tracks-delete token_is (token_of who) TokenMoves-refl (λ t. t.user_id == id)
          (λ t m. ground arith) d.email_verifications;
    audit = (Follows-refl who (ledger d)).audit;
    denied = (Follows-refl who (ledger d)).denied;
  }

  delete_statements-Within :
      (id : Uuid) (hard : Bool)
      → (hard && who id) ≡ false
      → Within (history who) (delete_statements id hard)
  unfolding history
  delete_statements-Within id true other = record {
    at = λ env w.
        (Within-execute {o = history who} (remove_user id)
            λ d. remove_user-Follows id d (ground arith)).at
          env w;
  }
  delete_statements-Within id false other = record {
    at = λ env w.
        (Within-bind {o = history who} (execute (mark_deleted id env.now))
            (λ _. execute (revoke_tokens_of id env.now)) (mark_deleted-Within who id env.now)
            (λ _. revoke_tokens_of-Within who id env.now)).at
          env w;
  }

  pub delete_user_event_soft-Within :
      (id : Uuid) (hard : Bool) (t p : String)
      → (hard && who id) ≡ false
      → Within (history who) (Repo.delete_user_event_soft id hard t p)
  unfolding Repo.delete_user_event_soft
  delete_user_event_soft-Within id hard t p other =
      search (within_rules, delete_statements-Within, insert_outbox-Within, history_ignores who)
        depth 10
