-- ===== src/Examples/Access.antt =====
-- Access tokens and API keys: the theorems at a sample database.
use iam_rust_auth.Base.{
  ℕ, ◌≡◌, refl, true, false, some, none, find?, [], ◌∷◌, All, ◌==◌, str_eq, ◌≤◌, length, map,
  column_eq,
}
use iam_rust_auth.Base.Int.{pos}
use iam_rust_auth.Db.{ApiKeyRow, UserRow, Uuid}
use iam_rust_auth.World.{Env, World, Claims, ok}
use iam_rust_auth.Service.{
  validate_token, validate_key, create_key, logout, Identity, KeyIdentity, MetadataMap, ApiKey,
  hash_token, effective_scopes, list_audit_events, AuditEvent, audit_event, lists_perm, get_text,
  meta,
}
use iam_rust_auth.Samples.{alice, sample, sample_db, sample_env, running}
use iam_rust_auth.Access.Tokens.{validate_token-IsAccepted, IsAccepted, NamesClaims}
use iam_rust_auth.Access.Keys.{validate_key-IsLiveKey, IsLiveKey, held_permissions, lists}
use iam_rust_auth.Access.RoundTrip.{create_key-validate_key}
use iam_rust_auth.Accounts.Trail.{page, IsLimit, IsNewestFirst, list_audit_events-IsPage}

abbrev identity : Identity
identity = record {
  user_id = "10";
  email = "alice@x";
  roles = "editor" ∷ [];
  permissions = "profile:read" ∷ [];
  tenant_id = "20";
  project_id = "";
}

abbrev validated : World
validated = (validate_token "jwt-alice" sample_env sample).1

validate_token-IsAccepted_example :
    (claims : Claims) × (uid : Uuid) × (sample_env.parse_access_jwt "jwt-alice" ≡ some claims)
    × IsAccepted sample_env sample claims uid
    × NamesClaims identity claims
unfolding running
validate_token-IsAccepted_example =
    validate_token-IsAccepted "jwt-alice" sample_env sample validated identity refl

abbrev key_identity : KeyIdentity
key_identity = record { user_id = "10"; email = "alice@x"; scopes = "profile:read" ∷ [] }

abbrev key_validated : World
key_validated = (validate_key "key" sample_env sample).1

validate_key-IsLiveKey_example :
    (row : ApiKeyRow) × (u : UserRow) × (find?
        (λ k. str_eq k.key_hash (hash_token sample_env "key"))
        sample_db.api_keys
      ≡ some row)
    × (find? (λ v. v.id == row.user_id) sample_db.users ≡ some u)
    × (u.deleted_at ≡ none)
    × IsLiveKey sample_env sample_db row
    × (key_identity.scopes
        ≡ effective_scopes row.scopes
            (held_permissions sample_env sample_db row.user_id row.tenant_id row.project_id))
    × All
        (λ s.
          lists (held_permissions sample_env sample_db row.user_id row.tenant_id row.project_id) s
          ≡ true)
        key_identity.scopes
unfolding running
validate_key-IsLiveKey_example =
    validate_key-IsLiveKey "key" sample_env sample key_validated key_identity refl

abbrev pub alice_md : MetadataMap
alice_md =
    ("x-user-id", some "10")
    ∷ ("x-tenant-id", some "20")
    ∷ ("x-user-permissions", some "role:write,profile:read")
    ∷ []

abbrev created : World
created = (create_key alice_md "ci" ("profile:read" ∷ []) (pos 60) sample_env sample).1

abbrev created_entry : ApiKey
created_entry = record {
  id = "r99";
  name = "ci";
  scopes = "profile:read" ∷ [];
  created_at = "time";
  expires_at = "time";
  last_used_at = "";
}

abbrev pub signed_out : World
signed_out = (logout alice_md "live" "jwt-alice" sample_env sample).1

abbrev pub no_redis : Env
no_redis = record sample_env { redis_enabled = false }

abbrev auditor : MetadataMap
auditor = ("x-tenant-id", some "20") ∷ ("x-user-permissions", some "audit:read") ∷ []

abbrev logout_event : AuditEvent
logout_event = record {
  id = 1;
  actor_id = "10";
  actor_email = "";
  action = "auth.logout";
  target = "";
  detail = "";
  created_at = "time";
}

abbrev audited : World
audited = (list_audit_events auditor (pos 0) sample_env signed_out).1

list_audit_events-IsPage_example :
    (lists_perm (get_text auditor "x-user-permissions") "audit:read" ≡ true)
    × ((tenant : Uuid) × (n : ℕ) × (sample_env.parse_uuid (meta auditor "x-tenant-id")
          ≡ some tenant)
        × IsLimit (pos 0) n
        × (length (logout_event ∷ []) ≤ n)
        × (logout_event ∷ [] ≡ map (audit_event sample_env) (page tenant n signed_out.db))
        × All (λ r. column_eq r.tenant_id tenant ≡ true) (page tenant n signed_out.db)
        × IsNewestFirst (page tenant n signed_out.db))
unfolding running
list_audit_events-IsPage_example =
    list_audit_events-IsPage auditor (pos 0) sample_env signed_out audited (logout_event ∷ []) refl

create_key-validate_key_example :
    (validate_key "iamk_r99_r1" sample_env created).0
    ≡ ok (record { user_id = "10"; email = "alice@x"; scopes = "profile:read" ∷ [] })
unfolding running
create_key-validate_key_example =
    create_key-validate_key alice_md "ci" ("profile:read" ∷ []) (pos 60) sample_env sample_env
      sample created "iamk_r99_r1" created_entry 10 20 alice refl refl refl (λ n. refl) refl refl
      refl refl refl
