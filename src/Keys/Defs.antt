-- ===== src/Keys/Defs.antt =====
-- The keys that a `JwtManager` is made of (src/keys.rs, `load_jwt_manager`).
use iam_rust_auth.Base.{
  String, true, Option, none, some, List, [], ◌∷◌, ◌++◌, if◌then◌else◌, exists, str_eq, Result, ok,
  err, ◌||◌, ◌&&◌,
}
use iam_rust_auth.Db.{Db, SigningKey}
use iam_rust_auth.World.{
  Action, SqlError, unique_violation, statement, pure, ok_or, or_status, draw, ◌>>=◌, ◌>>◌,
}
use iam_rust_auth.Repo.{get_signing_keys}

pub data KeyError : Type 0 where
  sql_failed generation_failed no_active_key : KeyError

-- A `HashMap` from kid to public PEM: the last of equal keys counts, and stands first.
abbrev pub Publics : Type 0
Publics = List (String × String)

pub record Keyring : Type 0 where
  pub active_kid : String
  pub active_private : String
  pub publics : Publics

-- The loop over the rows: every public key is kept, and the last active row is the signing key.
unfoldable pub scan_keys :
    List SigningKey → Publics × Option (String × String) → Publics × Option (String × String)
scan_keys [] acc = acc
scan_keys (k ∷ ks) (publics, found) =
    scan_keys ks
      ((k.kid, k.public_pem) ∷ publics, if k.active then some (k.kid, k.private_pem) else found)

-- The index `oidc_signing_keys_one_active`, and the key `kid`.
unfoldable pub insert_signing_key : SigningKey → Db → Result SqlError (Unit × Db)
unfolding exists
insert_signing_key k d =
    if exists (λ j. str_eq j.kid k.kid || j.active && k.active) d.oidc_signing_keys
    then err unique_violation
    else ok (tt, record d { oidc_signing_keys = d.oidc_signing_keys ++ k ∷ [] })

abbrev pub first_key : Action KeyError Keyring
first_key = do
  generated ← draw (λ e n. e.generate_rsa_keypair n)
  (kid, priv_pem, pub_pem) ← ok_or generation_failed generated
  or_status sql_failed (
      statement (
        insert_signing_key
          (record { kid = kid; private_pem = priv_pem; public_pem = pub_pem; active = true })))
  pure (record { active_kid = kid; active_private = priv_pem; publics = (kid, pub_pem) ∷ [] })

abbrev pub keyring_of : Publics × Option (String × String) → Action KeyError Keyring
keyring_of (publics, found) = do
  (kid, priv_pem) ← ok_or no_active_key found
  pure (record { active_kid = kid; active_private = priv_pem; publics = publics })

abbrev pub keyring_for : List SigningKey → Action KeyError Keyring
keyring_for [] = first_key
keyring_for (k ∷ ks) = keyring_of (scan_keys (k ∷ ks) ([], none))

unfoldable pub load_keys : Action KeyError Keyring
unfolding scan_keys insert_signing_key
load_keys = do rows ← or_status sql_failed get_signing_keys; keyring_for rows
