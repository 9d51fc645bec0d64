-- ===== src/TotpSecret/Laws.antt =====
-- What a stored secret reads back as (src/totpsecret.rs, `encrypt` and `decrypt`).
use Prim.Native.String
use Prim.Native.Char.{code}
use text.Mathlib.TextLemmas.{nil-append, cons-append, append-nil}
use iam_rust_auth.Base.{
  ==_iff, ℕ, ◌≡◌, refl, sym, ◌∙◌, ap, inl, inr, String, false, some, List, [], ◌∷◌, ◌++◌, arith,
  length, take, drop, format, strip_prefix, ltb, ok, Option-cases,
}
use iam_rust_auth.TotpSecret.Defs.{Crypto, encrypt, decrypt, prefix, nonce_len}

take-append : {A : Type 0} (xs ys : List A) → take (length xs) (xs ++ ys) ≡ xs
take-append [] ys = refl
take-append (x ∷ xs) ys = ap (λ zs. x ∷ zs) (take-append xs ys)

drop-append : {A : Type 0} (xs ys : List A) → drop (length xs) (xs ++ ys) ≡ ys
drop-append [] ys = refl
drop-append (x ∷ xs) ys = drop-append xs ys

length-append : {A : Type 0} (xs ys : List A) → ltb (length (xs ++ ys)) (length xs) ≡ false
length-append [] ys = ground (arith)
length-append (x ∷ xs) ys = ground (arith, length-append xs ys)

strip_prefix-append : (p s : String) → strip_prefix p (String.◌++◌ p s) ≡ some s
unfolding strip_prefix
strip_prefix-append String.[] s = ap some (nil-append s)
strip_prefix-append (String.◌∷◌ c p) s =
    rw (cons-append c p s) (rw (strip_prefix-append p s) (ground (arith, ==_iff (code c) (code c))))

-- What the round trip needs of the libraries, for one key, one nonce and one text.
pub record IsLossless (lib : Crypto) (key nonce : List ℕ) (text : String) : Type 0 where
  pub base64 :
      (ct : List ℕ)
      → lib.aes_encrypt key nonce (lib.utf8_encode text) ≡ some ct
      → lib.base64_decode (lib.base64_encode (nonce ++ ct)) ≡ some (nonce ++ ct)
  pub aes :
      (ct : List ℕ)
      → lib.aes_encrypt key nonce (lib.utf8_encode text) ≡ some ct
      → lib.aes_decrypt key nonce ct ≡ some (lib.utf8_encode text)
  pub utf8 : lib.utf8_decode (lib.utf8_encode text) ≡ some text

abbrev sealed_text : Crypto → List ℕ → List ℕ → String
sealed_text lib nonce ct = format (prefix ∷ lib.base64_encode (nonce ++ ct) ∷ [])

sealed_as :
    (lib : Crypto) (key nonce ct : List ℕ) (text stored : String)
    → lib.aes_encrypt key nonce (lib.utf8_encode text) ≡ some ct
    → encrypt lib (record { cipher = some key }) nonce text ≡ ok stored
    → stored ≡ sealed_text lib nonce ct
unfolding encrypt
sealed_as lib key nonce ct text stored e h = ground (arith)

stripped :
    (lib : Crypto) (nonce ct : List ℕ)
    → strip_prefix prefix (sealed_text lib nonce ct) ≡ some (lib.base64_encode (nonce ++ ct))
stripped lib nonce ct =
    strip_prefix-append prefix (String.◌++◌ (lib.base64_encode (nonce ++ ct)) "")
    ∙ ap some (append-nil (lib.base64_encode (nonce ++ ct)))

opens :
    (lib : Crypto) (key nonce ct : List ℕ) (text : String)
    → IsLossless lib key nonce text
    → length nonce ≡ nonce_len
    → lib.aes_encrypt key nonce (lib.utf8_encode text) ≡ some ct
    → decrypt lib (record { cipher = some key }) (sealed_text lib nonce ct) ≡ ok text
unfolding decrypt
opens lib key nonce ct text laws size e = rw (stripped lib nonce ct) (
    rw (laws.base64 ct e) (
      rw (sym size) (
        rw (length-append nonce ct) (
          rw (take-append nonce ct)
            (rw (drop-append nonce ct) (rw (laws.aes ct e) (rw laws.utf8 refl)))))))

-- A secret that was encrypted is read back with the same key, given a nonce of twelve bytes and
-- libraries that undo each other on it.
pub decrypt-encrypt :
    (lib : Crypto) (key nonce : List ℕ) (text stored : String)
    → IsLossless lib key nonce text
    → length nonce ≡ nonce_len
    → encrypt lib (record { cipher = some key }) nonce text ≡ ok stored
    → decrypt lib (record { cipher = some key }) stored ≡ ok text
unfolding encrypt decrypt
decrypt-encrypt lib key nonce text stored laws size h =
    elim (Option-cases (lib.aes_encrypt key nonce (lib.utf8_encode text))) [
      | inl n ↦ absurd (ground (arith))
      | inr (ct, e) ↦
          let stored_as : stored ≡ sealed_text lib nonce ct =
            sealed_as lib key nonce ct text stored e h in
          rw stored_as (opens lib key nonce ct text laws size e)
    ]
