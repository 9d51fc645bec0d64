-- ===== src/Samples/Services.antt =====
-- The libraries of the examples: a hash puts `#` before its text, and nothing fails.
use iam_rust_auth.Base.{
  ℕ, ◌*◌, ◌%◌, String, true, false, Option, none, some, [], ◌∷◌, ◌==◌, str_eq, if◌then◌else◌,
  format,
}
use iam_rust_auth.Base.Int.{pos, second}
use iam_rust_auth.TotpSecret.{Crypto}
use iam_rust_auth.World.{Env, Claims, TotpLib, acknowledged}

abbrev pub hash : String → String
hash s = format ("#" ∷ s ∷ [])

abbrev pub show_id : ℕ → String
show_id n =
    if n == 1
    then "1"
    else if n == 10
    then "10"
    else if n == 11
    then "11"
    else if n == 20
    then "20"
    else if n == 30
    then "30"
    else if n == 31
    then "31"
    else "99"

abbrev pub parse_id : String → Option ℕ
parse_id s =
    if str_eq s "1"
    then some 1
    else if str_eq s "10"
    then some 10
    else if str_eq s "11"
    then some 11
    else if str_eq s "20"
    then some 20
    else if str_eq s "30"
    then some 30
    else if str_eq s "31"
    then some 31
    else none

abbrev pub alice_claims : Claims
alice_claims = record {
  sub = "10";
  email = "alice@x";
  tenant_id = "20";
  project_id = "";
  purpose = "access";
  jti = "j-new";
  exp = 1600;
}

abbrev pub parse_token : String → Option Claims
parse_token s =
    if str_eq s "jwt-alice"
    then some alice_claims
    else if str_eq s "jwt-old"
    then some (record alice_claims { jti = "j-old" })
    else if str_eq s "mfa-bob"
    then some (record alice_claims { sub = "11"; purpose = "mfa" })
    else none

abbrev pub sample_totp : TotpLib
sample_totp = record {
  generate_secret = λ n. n ∷ [];
  to_encoded = λ bytes. "NEWSECRET";
  from_encoded = λ s. if str_eq s "BOBSECRET" then some (1 ∷ []) else some (2 ∷ []);
  accepts = λ bytes issuer account. true;
  check_current = λ bytes given. some (str_eq given "123456");
  get_url = λ bytes issuer account. "otpauth://";
}

-- The identity as a cipher, and bytes of a fixed length as text.
abbrev pub sample_crypto : Crypto
sample_crypto = record {
  aes_encrypt = λ key nonce text. some text;
  aes_decrypt = λ key nonce text. some text;
  sha256 = λ bytes. bytes;
  base64_encode = λ bytes. "AAAA";
  base64_decode = λ s. some (1 ∷ 2 ∷ 3 ∷ 4 ∷ 5 ∷ 6 ∷ 7 ∷ 8 ∷ 9 ∷ 10 ∷ 11 ∷ 12 ∷ 13 ∷ []);
  utf8_encode = λ s. 13 ∷ [];
  utf8_decode = λ bytes. some "BOBSECRET";
}

abbrev pub sample_env : Env
sample_env = record {
  now = 1000 * second;
  db_fails = λ n. false;
  redis_fails = λ n. false;
  redis_enabled = true;
  subject_prefix = "iam.";
  type_user_registered = "user.registered";
  type_user_deleted = "user.deleted";
  type_user_restored = "user.restored";
  delivery = λ n. acknowledged;
  random_hex = λ n k. format ("r" ∷ show_id n ∷ []);
  random_base64url = λ n k. format ("u" ∷ show_id n ∷ []);
  random_uuid = λ n. 30;
  generate_rsa_keypair = λ n. some ("kid", "priv", "pub");
  parse_uuid = parse_id;
  show_uuid = show_id;
  sha256_hex = hash;
  sha256_base64url = hash;
  hash_password = λ n s. some (format ("hash-of-" ∷ s ∷ []));
  verify_password = λ h s. str_eq h (format ("hash-of-" ∷ s ∷ []));
  issue_jwt = λ n sub email tenant project. some (format ("at-" ∷ sub ∷ "-" ∷ tenant ∷ []));
  issue_mfa_jwt = λ n sub ttl. some (format ("mfa-" ∷ sub ∷ []));
  issue_id_jwt = λ n sub email client nonce issuer. some "id-token";
  parse_jwt = parse_token;
  parse_access_jwt = parse_token;
  access_ttl_secs = pos 900;
  refresh_ttl_secs = pos 4000;
  audit_enabled = true;
  login_max_failures = pos 3;
  login_lockout_secs = pos 600;
  require_email_verification = true;
  is_production = true;
  oidc_issuer = "https://iam";
  encode_event = λ ev. some "{}";
  rfc3339 = λ t. "time";
  timestamp_in_range = λ n. true;
  collate = λ a b. true;
  totp = sample_totp;
  crypto = sample_crypto;
  totp_enc = record { cipher = none };
  random_bytes = λ n k. [];
  random_below = λ n k. n % k;
  redis_scan = λ cursor pattern r. (0, []);
  scan_rounds = 2;
  runs_unneeded = false;
  rsa_public = λ pem. some ("n", "e");
}
