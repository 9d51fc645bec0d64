-- ===== src/TotpSecret/Defs.antt =====
-- The module `totpsecret` (src/totpsecret.rs), over the cryptography that it calls.
use iam_rust_auth.Base.{
  ℕ, String, Bool, Option, none, some, List, ◌++◌, ltb, ◌==◌, if◌then◌else◌, Result, ok, err,
  is_empty, is_some, length, take, drop, format, strip_prefix, [], ◌∷◌,
}

-- `aes_gcm`, `sha2`, `base64` (the standard alphabet) and UTF-8. Bytes are numbers.
pub record Crypto : Type 0 where
  pub aes_encrypt : List ℕ → List ℕ → List ℕ → Option (List ℕ)
  pub aes_decrypt : List ℕ → List ℕ → List ℕ → Option (List ℕ)
  pub sha256 : List ℕ → List ℕ
  pub base64_encode : List ℕ → String
  pub base64_decode : String → Option (List ℕ)
  pub utf8_encode : String → List ℕ
  pub utf8_decode : List ℕ → Option String

-- The cipher as its key; `none` passes secrets through.
pub record Encryptor : Type 0 where
  pub cipher : Option (List ℕ)

pub data CryptError : Type 0 where
  encrypt_failed key_not_set decode_failed too_short decrypt_failed not_utf8 : CryptError

abbrev pub prefix : String
prefix = "enc:v1:"

abbrev pub nonce_len : ℕ
nonce_len = 12

module _ (lib : Crypto) where
  abbrev pub checked_key : String → Option (List ℕ) → List ℕ
  checked_key key none = lib.sha256 (lib.utf8_encode key)
  checked_key key (some b) = if length b == 32 then b else lib.sha256 (lib.utf8_encode key)

  unfoldable pub derive_key : String → List ℕ
  derive_key key = checked_key key (lib.base64_decode key)

  -- `Encryptor::new`
  unfoldable pub new : String → Encryptor
  unfolding derive_key
  new key =
      if is_empty key then record { cipher = none } else record { cipher = some (derive_key key) }

  abbrev pub sealed : List ℕ → Option (List ℕ) → Result CryptError String
  sealed nonce none = err encrypt_failed
  sealed nonce (some ct) = ok (format (prefix ∷ lib.base64_encode (nonce ++ ct) ∷ []))

  abbrev pub encrypt_with : Option (List ℕ) → List ℕ → String → Result CryptError String
  encrypt_with none nonce plaintext = ok plaintext
  encrypt_with (some key) nonce plaintext =
      sealed nonce (lib.aes_encrypt key nonce (lib.utf8_encode plaintext))

  -- `encrypt`, with the random nonce as an argument.
  unfoldable pub encrypt : Encryptor → List ℕ → String → Result CryptError String
  encrypt e nonce plaintext = encrypt_with e.cipher nonce plaintext

  abbrev pub to_text : Option String → Result CryptError String
  to_text none = err not_utf8
  to_text (some s) = ok s

  abbrev pub opened : Option (List ℕ) → Result CryptError String
  opened none = err decrypt_failed
  opened (some pt) = to_text (lib.utf8_decode pt)

  abbrev pub decrypt_raw : List ℕ → Option (List ℕ) → Result CryptError String
  decrypt_raw key none = err decode_failed
  decrypt_raw key (some raw) =
      if ltb (length raw) nonce_len
      then err too_short
      else opened (lib.aes_decrypt key (take nonce_len raw) (drop nonce_len raw))

  abbrev pub decrypt_rest : Option (List ℕ) → String → Result CryptError String
  decrypt_rest none rest = err key_not_set
  decrypt_rest (some key) rest = decrypt_raw key (lib.base64_decode rest)

  abbrev pub decrypt_stripped : Option (List ℕ) → String → Option String → Result CryptError String
  decrypt_stripped cipher stored none = ok stored
  decrypt_stripped cipher stored (some rest) = decrypt_rest cipher rest

  unfoldable pub decrypt : Encryptor → String → Result CryptError String
  unfolding strip_prefix
  decrypt e stored = decrypt_stripped e.cipher stored (strip_prefix prefix stored)

-- `enabled`
abbrev pub enabled : Encryptor → Bool
enabled e = is_some e.cipher
