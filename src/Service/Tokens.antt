-- ===== src/Service/Tokens.antt =====
-- Token pairs (src/grpc.rs, `issue_tokens` and `issue_for_active_tenant`).
use iam_rust_auth.Base.{String, Bool, false, Option, none, some, List, [], ◌∷◌}
use iam_rust_auth.Base.Int.{ℤ, add_seconds}
use iam_rust_auth.Db.{Uuid, MembershipRow, default_tenant_id}
use iam_rust_auth.World.{Env, internal, pure, ok_or, draw, ◌>>=◌, ◌>>◌}
use iam_rust_auth.Repo.{create_refresh_token, list_memberships}
use iam_rust_auth.Service.Guards.{Rpc, ask, db, hash_token, gen_refresh_token}

pub record TokenPair : Type 0 where
  pub access_token : String
  pub refresh_token : String
  pub expires_in : ℤ
  pub token_type : String
  pub mfa_required : Bool
  pub mfa_token : String

abbrev pub bearer_pair : Env → String → String → TokenPair
bearer_pair env access refresh = record {
  access_token = access;
  refresh_token = refresh;
  expires_in = env.access_ttl_secs;
  token_type = "Bearer";
  mfa_required = false;
  mfa_token = "";
}

-- `p.map(|p| p.to_string()).unwrap_or_default()`
abbrev pub show_opt : Env → Option Uuid → String
show_opt env none = ""
show_opt env (some p) = env.show_uuid p

unfoldable pub issue_tokens : Uuid → String → Uuid → Option Uuid → Rpc TokenPair
unfolding hash_token
issue_tokens user_id email tenant_id project_id = do
  env ← ask
  signed ← draw (λ e n.
      e.issue_jwt n (e.show_uuid user_id) email (e.show_uuid tenant_id) (show_opt e project_id))
  access ← ok_or (internal "failed to sign token") signed
  refresh ← gen_refresh_token
  db "failed to persist refresh token" (
      create_refresh_token user_id (hash_token env refresh)
        (add_seconds env.now env.refresh_ttl_secs) tenant_id project_id)
  pure (bearer_pair env access refresh)

-- `members.first().map(|m| m.tenant_id).unwrap_or(DEFAULT_TENANT_ID)`
abbrev pub first_tenant : List MembershipRow → Uuid
first_tenant [] = default_tenant_id
first_tenant (m ∷ _) = m.tenant_id

unfoldable pub issue_for_active_tenant : Uuid → String → Rpc TokenPair
unfolding issue_tokens
issue_for_active_tenant user_id email = do
  members ← db "failed to load memberships" (list_memberships user_id)
  issue_tokens user_id email (first_tenant members) none
