-- ===== src/Totp.antt =====
-- src/totp.rs: TOTP secrets, code validation and recovery codes.
use iam_rust_auth.Base.{
  ℕ, zero, suc, String, Bool, false, Option, none, some, List, [], ◌∷◌, if◌then◌else◌, get_or,
  format, take, drop,
}
use iam_rust_auth.World.{TotpLib, Action, pure, draw, ◌>>=◌}

abbrev pub issuer : String
issuer = "IAM"

pub record GenSecret : Type 0 where
  pub base32 : String
  pub otpauth_uri : String

-- `generate`, for the bytes of a generated secret.
unfoldable pub generate : TotpLib → List ℕ → String → Option GenSecret
generate lib bytes account =
    if lib.accepts bytes issuer account
    then some
        (record { base32 = lib.to_encoded bytes; otpauth_uri = lib.get_url bytes issuer account })
    else none

abbrev pub validate_bytes : TotpLib → String → Option (List ℕ) → Bool
validate_bytes lib totp_code none = false
validate_bytes lib totp_code (some bytes) =
    if lib.accepts bytes issuer "iam"
    then get_or (lib.check_current bytes totp_code) false
    else false

unfoldable pub validate : TotpLib → String → String → Bool
validate lib totp_code secret_b32 = validate_bytes lib totp_code (lib.from_encoded secret_b32)

-- `ALPHA`: letters and digits that are not mistaken for one another.
abbrev pub alphabet : List String
alphabet =
    "a" ∷ "b" ∷ "c" ∷ "d" ∷ "e" ∷ "f" ∷ "g" ∷ "h" ∷ "j" ∷ "k" ∷ "m" ∷ "n" ∷ "p" ∷ "q" ∷ "r" ∷ "s"
    ∷ "t" ∷ "u" ∷ "v" ∷ "w" ∷ "x" ∷ "y" ∷ "z" ∷ "2" ∷ "3" ∷ "4" ∷ "5" ∷ "6" ∷ "7" ∷ "8" ∷ "9" ∷ []

-- `ALPHA[i]`; an index past the end, which would panic, gives the empty text.
abbrev pub letter : List String → ℕ → String
letter [] i = ""
letter (a ∷ rest) zero = a
letter (a ∷ rest) (suc i) = letter rest i

-- `n` random letters.
unfoldable pub letters : {E : Type 0} → ℕ → Action E (List String)
letters zero = pure []
letters (suc n) = do
  i ← draw (λ env k. env.random_below k 31)
  rest ← letters n
  pure (letter alphabet i ∷ rest)

-- `format!("{}-{}", &s[..4], &s[4..])`
abbrev pub hyphenate : List String → String
hyphenate ls = format (format (take 4 ls) ∷ "-" ∷ format (drop 4 ls) ∷ [])

unfoldable pub generate_recovery_codes : {E : Type 0} → ℕ → Action E (List String)
unfolding letters
generate_recovery_codes zero = pure []
generate_recovery_codes (suc n) = do
  ls ← letters 8
  rest ← generate_recovery_codes n
  pure (hyphenate ls ∷ rest)
