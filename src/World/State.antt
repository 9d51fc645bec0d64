-- ===== src/World/State.antt =====
-- The state of the service and its surroundings (src/grpc.rs, `AuthSvc`), and the parameters that
-- stand for libraries, the clock, random bytes and failures.
use iam_rust_auth.Base.{ℕ, String, Bool, Option, List}
use iam_rust_auth.Base.Int.{ℤ}
use iam_rust_auth.TotpSecret.{Crypto, Encryptor}
use iam_rust_auth.Db.{Db, Uuid, Instant}

-- The claims of a token that `common::jwt` issued.
pub record Claims : Type 0 where
  pub sub : String
  pub email : String
  pub tenant_id : String
  pub project_id : String
  pub purpose : String
  pub jti : String
  pub exp : ℕ

-- The events of `common::events` that the service writes to its outbox.
pub data Event : Type 0 where
  user_registered : String → String → String → Event
  user_deleted : String → Bool → Event
  user_restored : String → Event

-- A key of Redis holds a mark of the denylist, or a list of permissions as JSON.
pub data RedisValue : Type 0 where
  mark : RedisValue
  perms : List String → RedisValue

pub record RedisEntry : Type 0 where
  pub key : String
  pub value : RedisValue
  pub expires_at : Instant

pub record Mail : Type 0 where
  pub to : String
  pub subject : String
  pub body : String

-- `totp_rs`, as totp.rs calls it: the base32 form of a secret, the n-th generated secret, whether
-- `TOTP::new` takes one, the code check of the current time, and the enrolment URL.
pub record TotpLib : Type 0 where
  pub generate_secret : ℕ → List ℕ
  pub to_encoded : List ℕ → String
  pub from_encoded : String → Option (List ℕ)
  pub accepts : List ℕ → String → String → Bool
  pub check_current : List ℕ → String → Option Bool
  pub get_url : List ℕ → String → String → String

-- A message in the JetStream stream; its id is the `Nats-Msg-Id` header.
pub record NatsMessage : Type 0 where
  pub subject : String
  pub msg_id : String
  pub payload : String

-- What becomes of a publication: stored and acknowledged, stored with the acknowledgement lost, or
-- not stored.
pub data Delivery : Type 0 where
  acknowledged unacknowledged lost : Delivery

pub record World : Type 0 where
  pub db : Db
  pub redis : List RedisEntry
  pub mails : List Mail
  -- statements sent to Postgres, commands sent to Redis, and random values drawn so far
  pub calls : ℕ
  pub redis_calls : ℕ
  pub draws : ℕ
  -- the stream, newest first, and the number of publications so far
  pub stream : List NatsMessage
  pub publications : ℕ

pub record Env : Type 0 where
  -- the clock, read at one instant throughout a request: `Utc::now()` and SQL's `now()`
  pub now : Instant
  -- whether the n-th statement, the n-th command fails: any schedule of failures
  pub db_fails : ℕ → Bool
  pub redis_fails : ℕ → Bool
  -- whether a Redis connection was made at startup
  pub redis_enabled : Bool
  -- `common::events`
  pub subject_prefix : String
  pub type_user_registered : String
  pub type_user_deleted : String
  pub type_user_restored : String
  -- what becomes of the n-th publication
  pub delivery : ℕ → Delivery
  -- the n-th draw: so many random bytes, in hexadecimal and in base64url; a fresh UUID
  pub random_hex : ℕ → ℕ → String
  pub random_base64url : ℕ → ℕ → String
  pub random_uuid : ℕ → Uuid
  -- `common::jwt`: a kid with its private and public PEM
  pub generate_rsa_keypair : ℕ → Option (String × String × String)
  -- `uuid`
  pub parse_uuid : String → Option Uuid
  pub show_uuid : Uuid → String
  -- `sha2` with `hex`, and with base64url
  pub sha256_hex : String → String
  pub sha256_base64url : String → String
  -- `common::password`, `common::jwt`
  pub hash_password : ℕ → String → Option String
  pub verify_password : String → String → Bool
  pub issue_jwt : ℕ → String → String → String → String → Option String
  pub issue_mfa_jwt : ℕ → String → ℕ → Option String
  pub issue_id_jwt : ℕ → String → String → String → String → String → Option String
  pub parse_jwt : String → Option Claims
  pub parse_access_jwt : String → Option Claims
  pub access_ttl_secs : ℤ
  -- `common::config`, the settings of `AuthSvc`
  pub refresh_ttl_secs : ℤ
  pub audit_enabled : Bool
  pub login_max_failures : ℤ
  pub login_lockout_secs : ℤ
  pub require_email_verification : Bool
  pub is_production : Bool
  pub oidc_issuer : String
  -- `serde_json`, `chrono` and the order of Postgres's collation
  pub encode_event : Event → Option String
  pub rfc3339 : Instant → String
  pub timestamp_in_range : ℕ → Bool
  pub collate : String → String → Bool
  -- `totp_rs`, and the cryptography that TOTP secrets are stored with
  pub totp : TotpLib
  pub crypto : Crypto
  pub totp_enc : Encryptor
  -- the n-th draw: random bytes, and a random number below a bound
  pub random_bytes : ℕ → ℕ → List ℕ
  pub random_below : ℕ → ℕ → ℕ
  -- Redis's SCAN from a cursor, over the keys that match a glob pattern: the next cursor, and some
  -- of the keys; and how many rounds its full iteration takes at most
  pub redis_scan : ℕ → String → List RedisEntry → ℕ × List String
  pub scan_rounds : ℕ
  -- Whether Postgres runs a subquery that no row needs: its planner decides.
  pub runs_unneeded : Bool
  -- `rsa`: the modulus and the exponent of a public key in PEM, in base64url
  pub rsa_public : String → Option (String × String)
