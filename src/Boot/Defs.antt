-- ===== src/Boot/Defs.antt =====
-- The functions of src/main.rs: the internal token, the connection retries, and the bootstrap of an
-- administrator, a demo account and a client.
use iam_rust_auth.Base.{
  ℕ, zero, suc, String, Bool, true, false, not, ◌&&◌, ◌||◌, Option, none, some, List, [], ◌∷◌, ◌++◌,
  if◌then◌else◌, is_empty, exists, str_eq,
}
use iam_rust_auth.Db.{UserRow, default_tenant_id}
use iam_rust_auth.World.{Env, Action, pure, ok_or, asks, or_status, draw, execute, ◌>>=◌}
use iam_rust_auth.Repo.{get_user_by_email, create_user_with_role, create_membership}
use iam_rust_auth.Service.{MetadataMap, get_text}

-- The settings of the interceptor: `internal_token()`, `internal_auth_optional()`.
pub record InternalAuth : Type 0 where
  pub token : String
  pub is_optional : Bool

abbrev pub token_matches : String → Option String → Bool
token_matches token none = false
token_matches token (some t) = not (is_empty token) && str_eq t token

-- The closure `check`: whether a call is let through.
unfoldable pub check : InternalAuth → MetadataMap → Bool
unfolding get_text
check auth md =
    if is_empty auth.token && auth.is_optional
    then true
    else token_matches auth.token (get_text md "x-internal-token")

-- `connect_with_retry`: so many attempts, of which `outcomes` says which succeed; the pool is the
-- attempt that did.
unfoldable pub connect_from : ℕ → ℕ → (ℕ → Bool) → Option ℕ
connect_from zero i outcomes = none
connect_from (suc left) i outcomes =
    let rest = connect_from left (suc i) outcomes in if outcomes i then some i else rest

abbrev pub connect_attempts : ℕ
connect_attempts = 15

unfoldable pub connect_with_retry : (ℕ → Bool) → Option ℕ
unfolding connect_from
connect_with_retry outcomes = connect_from connect_attempts 0 outcomes

-- `anyhow::Error`, which ends the start.
pub data BootError : Type 0 where
  boot_failed : BootError

abbrev pub make_user : String → String → String → Option UserRow → Action BootError Unit
make_user email pass role (some _) = pure tt
make_user email pass role none = do
  hashed ← draw (λ e n. e.hash_password n pass)
  hash ← ok_or boot_failed hashed
  id ← or_status boot_failed (create_user_with_role email hash role)
  or_status boot_failed (create_membership id default_tenant_id)

-- `bootstrap_admin` with the role "admin", and `bootstrap_demo` with the role "viewer".
unfoldable pub bootstrap_user : String → String → String → Action BootError Unit
bootstrap_user email pass role = if is_empty email || is_empty pass then pure tt else (do
  found ← or_status boot_failed (get_user_by_email email)
  make_user email pass role found)

-- `bootstrap_oidc_client`, for redirect URIs that are split and trimmed; the tenant is the column's
-- default, and a client that exists is left alone.
unfoldable pub bootstrap_oidc_client : String → String → List String → Action BootError Unit
unfolding exists
bootstrap_oidc_client client_id secret redirects = do
  env ← asks (λ (e : Env). e)
  or_status boot_failed (
      execute λ d.
        if exists (λ c. str_eq c.client_id client_id) d.oauth_clients then d else record d {
          oauth_clients =
              d.oauth_clients
              ++ record {
                client_id = client_id;
                client_secret_hash = some (env.sha256_hex secret);
                name = "IAM Admin Console";
                redirect_uris = redirects;
                scopes = "openid" ∷ "profile" ∷ "email" ∷ [];
                grant_types = "authorization_code" ∷ "refresh_token" ∷ [];
                is_confidential = true;
                tenant_id = default_tenant_id;
              }
                ∷ [];
        })
