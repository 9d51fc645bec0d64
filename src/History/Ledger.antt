-- ===== src/History/Ledger.antt =====
-- The credentials and records that the service keeps, and how they may change: a refresh token, an
-- authorization code and a one-time token end once and for all; the audit trail and the denylist
-- are only added to (migrations/; src/repo.rs).
use iam_rust_auth.Base.{
  ◌≡◌, ◌⊎◌, inr, refl, ap, ◌∙◌, String, Bool, true, false, none, List, str_eq, arith,
}
use iam_rust_auth.Db.{
  Db, Uuid, RefreshTokenRow, AuthorizationCode, OneTimeToken, AuditRow, RevokedToken,
}
use iam_rust_auth.World.{Order}
use iam_rust_auth.History.Rows.{
  IsPrefix, IsPrefix-refl, IsPrefix-trans, Tracks, Tracks-refl, Tracks-trans,
}

-- What is fixed of a refresh token from its issue on; a revoked one is fixed altogether.
pub record SessionMoves (t t' : RefreshTokenRow) : Type 0 where
  pub owner : t'.user_id ≡ t.user_id
  pub tenant : t'.tenant_id ≡ t.tenant_id
  pub project : t'.project_id ≡ t.project_id
  pub expiry : t'.expires_at ≡ t.expires_at
  pub final : (t.revoked_at ≡ none) ⊎ (t' ≡ t)

pub record CodeMoves (c c' : AuthorizationCode) : Type 0 where
  pub grant : c' ≡ record c { used = c'.used }
  pub final : (c.used ≡ false) ⊎ (c' ≡ c)

pub record TokenMoves (t t' : OneTimeToken) : Type 0 where
  pub owner : t'.user_id ≡ t.user_id
  pub expiry : t'.expires_at ≡ t.expires_at
  pub final : (t.consumed_at ≡ none) ⊎ (t' ≡ t)

pub SessionMoves-refl : (t : RefreshTokenRow) → SessionMoves t t
SessionMoves-refl t = record {
  owner = refl;
  tenant = refl;
  project = refl;
  expiry = refl;
  final = inr refl;
}

pub CodeMoves-refl : (c : AuthorizationCode) → CodeMoves c c
CodeMoves-refl c = record { grant = refl; final = inr refl }

pub TokenMoves-refl : (t : OneTimeToken) → TokenMoves t t
TokenMoves-refl t = record { owner = refl; expiry = refl; final = inr refl }

SessionMoves-trans :
    (a b c : RefreshTokenRow) → SessionMoves a b → SessionMoves b c → SessionMoves a c
SessionMoves-trans a b c p q = ground arith

CodeMoves-trans : (a b c : AuthorizationCode) → CodeMoves a b → CodeMoves b c → CodeMoves a c
CodeMoves-trans a b c p q = ground arith

TokenMoves-trans : (a b c : OneTimeToken) → TokenMoves a b → TokenMoves b c → TokenMoves a c
TokenMoves-trans a b c p q = ground arith

abbrev pub session_is : String → RefreshTokenRow → Bool
session_is h t = str_eq t.token_hash h

abbrev pub code_is : String → AuthorizationCode → Bool
code_is h c = str_eq c.code_hash h

abbrev pub token_is : String → OneTimeToken → Bool
token_is h t = str_eq t.token_hash h

abbrev pub any_code : AuthorizationCode → Bool
any_code c = true

abbrev pub session_of : (Uuid → Bool) → RefreshTokenRow → Bool
session_of who t = who t.user_id

abbrev pub token_of : (Uuid → Bool) → OneTimeToken → Bool
token_of who t = who t.user_id

-- The tables that are spoken of.
pub record Ledger : Type 0 where
  pub sessions : List RefreshTokenRow
  pub codes : List AuthorizationCode
  pub resets : List OneTimeToken
  pub verifications : List OneTimeToken
  pub audit : List AuditRow
  pub denied : List RevokedToken

abbrev pub ledger : Db → Ledger
ledger d = record {
  sessions = d.refresh_tokens;
  codes = d.oauth_authorization_codes;
  resets = d.password_resets;
  verifications = d.email_verifications;
  audit = d.audit_events;
  denied = d.revoked_tokens;
}

-- `m` comes after `l` as far as the users `who` are concerned: their refresh tokens and one-time
-- tokens are still there, each ended at most, and so is every authorization code; the audit trail
-- and the denylist have only grown.
pub record Follows (who : Uuid → Bool) (l m : Ledger) : Type 0 where
  pub sessions : Tracks session_is (session_of who) SessionMoves l.sessions m.sessions
  pub codes : Tracks code_is any_code CodeMoves l.codes m.codes
  pub resets : Tracks token_is (token_of who) TokenMoves l.resets m.resets
  pub verifications : Tracks token_is (token_of who) TokenMoves l.verifications m.verifications
  pub audit : IsPrefix l.audit m.audit
  pub denied : IsPrefix l.denied m.denied

module _ (who : Uuid → Bool) where
  own_session :
      (t t' : RefreshTokenRow)
      → SessionMoves t t'
      → session_of who t ≡ true
      → session_of who t' ≡ true
  own_session t t' m e = ap who m.owner ∙ e

  own_token :
      (t t' : OneTimeToken) → TokenMoves t t' → token_of who t ≡ true → token_of who t' ≡ true
  own_token t t' m e = ap who m.owner ∙ e

  pub Follows-refl : (l : Ledger) → Follows who l l
  Follows-refl l = record {
    sessions = Tracks-refl session_is (session_of who) SessionMoves-refl l.sessions;
    codes = Tracks-refl code_is any_code CodeMoves-refl l.codes;
    resets = Tracks-refl token_is (token_of who) TokenMoves-refl l.resets;
    verifications = Tracks-refl token_is (token_of who) TokenMoves-refl l.verifications;
    audit = IsPrefix-refl l.audit;
    denied = IsPrefix-refl l.denied;
  }

  pub Follows-trans : (l m n : Ledger) → Follows who l m → Follows who m n → Follows who l n
  Follows-trans l m n p q = record {
    sessions =
        Tracks-trans session_is (session_of who) SessionMoves-trans own_session l.sessions
          m.sessions n.sessions p.sessions q.sessions;
    codes =
        Tracks-trans code_is any_code CodeMoves-trans (λ x y a e. refl) l.codes m.codes n.codes
          p.codes q.codes;
    resets =
        Tracks-trans token_is (token_of who) TokenMoves-trans own_token l.resets m.resets n.resets
          p.resets q.resets;
    verifications =
        Tracks-trans token_is (token_of who) TokenMoves-trans own_token l.verifications
          m.verifications n.verifications p.verifications q.verifications;
    audit = IsPrefix-trans l.audit m.audit n.audit p.audit q.audit;
    denied = IsPrefix-trans l.denied m.denied n.denied p.denied q.denied;
  }

  unfoldable pub history : Order
  history = record {
    Le = λ d d'. Follows who (ledger d) (ledger d');
    le_refl = λ d. Follows-refl (ledger d);
    le_trans = λ a b c p q. Follows-trans (ledger a) (ledger b) (ledger c) p q;
  }
