-- ===== src/Keys/Laws.antt =====
-- The keys that are loaded (src/keys.rs).
use iam_rust_auth.Base.{
  ◌≡◌, refl, inl, inr, ◌⊎◌, ◌≤◌, String, true, false, Option, none, some, List, [], ◌∷◌, arith,
  str_eq, eq_refl, find?, exists, count, count-exists, exists-find?, if◌then◌else◌, Bool-cases,
  Option-cases, List-cases, suc,
}
use mathlib.Core.Option
use iam_rust_auth.Db.{SigningKey}
use iam_rust_auth.World.{World, Env, ok, statement, query}
use iam_rust_auth.Repo.{get_signing_keys}
use iam_rust_auth.Keys.Defs.{Keyring, Publics, scan_keys, load_keys, keyring_of, insert_signing_key}

-- The row of a kid, and the public key that tokens with a kid are verified with.
abbrev pub row_of : String → List SigningKey → Option SigningKey
row_of kid ks = find? (λ k. str_eq k.kid kid) ks

abbrev pub verifying : String → Publics → Option (String × String)
verifying kid publics = find? (λ p. str_eq p.0 kid) publics

-- The kid is the key of the table.
abbrev pub HasKeys : List SigningKey → Type 0
HasKeys ks = (kid : String) → count (λ k. str_eq k.kid kid) ks ≤ 1

scan_keys-absent :
    (kid : String) (ks : List SigningKey) (publics : Publics) (found : Option (String × String))
    → exists (λ k. str_eq k.kid kid) ks ≡ false
    → verifying kid (scan_keys ks (publics, found)).0 ≡ verifying kid publics
unfolding scan_keys exists find?
scan_keys-absent kid [] publics found h = refl
scan_keys-absent kid (k ∷ ks) publics found h = ground (
  arith,
  scan_keys-absent kid ks ((k.kid, k.public_pem) ∷ publics)
      (if k.active then some (k.kid, k.private_pem) else found),
)

-- Every row is kept for verification under its kid.
scan_keys-publishes :
    (kid : String) (j : SigningKey) (ks : List SigningKey) (publics : Publics)
    (found : Option (String × String))
    → count (λ k. str_eq k.kid kid) ks ≤ 1
    → row_of kid ks ≡ some j
    → verifying kid (scan_keys ks (publics, found)).0 ≡ some (j.kid, j.public_pem)
unfolding scan_keys find? count
scan_keys-publishes kid j [] publics found one e = absurd (ground arith)
scan_keys-publishes kid j (k ∷ ks) publics found one e =
    let next = if k.active then some (k.kid, k.private_pem) else found in
    elim (Bool-cases (str_eq k.kid kid)) [
      | inl here ↦ ground (
        arith,
        scan_keys-absent kid ks ((k.kid, k.public_pem) ∷ publics) next
            (count-exists (λ i. str_eq i.kid kid) ks (ground arith)),
      )
      | inr there ↦
          ground (arith, scan_keys-publishes kid j ks ((k.kid, k.public_pem) ∷ publics) next)
    ]

-- The row of a signing key.
abbrev pub Signs : List SigningKey → String → String → SigningKey → Type 0
Signs ks kid private k = (row_of kid ks ≡ some k) × (k.active ≡ true) × (k.private_pem ≡ private)

found-count :
    (kid : String) (ks : List SigningKey) (k : SigningKey)
    → row_of kid ks ≡ some k
    → 1 ≤ count (λ i. str_eq i.kid kid) ks
unfolding find? count
found-count kid [] k e = absurd (ground arith)
found-count kid (i ∷ ks) k e = ground (arith, found-count kid ks k)

scan_keys-Signs :
    (kid private : String) (ks : List SigningKey) (publics : Publics)
    (found : Option (String × String))
    → count (λ k. str_eq k.kid kid) ks ≤ 1
    → (scan_keys ks (publics, found)).1 ≡ some (kid, private)
    → (found ≡ some (kid, private)) ⊎ ((k : SigningKey) × Signs ks kid private k)
unfolding scan_keys find? count
scan_keys-Signs kid private [] publics found one e = inl e
scan_keys-Signs kid private (k ∷ ks) publics found one e =
    elim (scan_keys-Signs kid private ks ((k.kid, k.public_pem) ∷ publics)
      (if k.active then some (k.kid, k.private_pem) else found) (ground arith) e) [
        | inr (j, (row, on, pem)) ↦ inr (j, (ground (arith, found-count kid ks j row), on, pem))
        | inl here ↦ elim (Bool-cases k.active) [
          | inl on ↦ inr (k, (ground (arith, eq_refl k.kid), on, ground arith))
          | inr off ↦ inl (ground arith)
        ]
      ]

-- The public key that the table holds under a kid.
abbrev pub public_of : String → List SigningKey → Option (String × String)
public_of kid ks = Option.map (λ k. (k.kid, k.public_pem)) (row_of kid ks)

scan_keys-verifying :
    (kid : String) (ks : List SigningKey)
    → count (λ k. str_eq k.kid kid) ks ≤ 1
    → verifying kid (scan_keys ks ([], none)).0 ≡ public_of kid ks
unfolding find?
scan_keys-verifying kid ks one = elim (Option-cases (row_of kid ks)) [
  | inl e ↦ ground (
    arith,
    scan_keys-absent kid ks [] none,
    exists-find? (λ (k : SigningKey). str_eq k.kid kid) ks,
  )
  | inr (k, e) ↦ ground (arith, scan_keys-publishes kid k ks [] none one e)
]

-- What a ring of keys has to do with the rows of the table: its signing key is that of an active row,
-- and the key that verifies a kid is the public key of the kid's row.
abbrev pub IsRingOf : List SigningKey → String → Keyring → Type 0
IsRingOf ks kid ring =
    ((k : SigningKey) × Signs ks ring.active_kid ring.active_private k)
    × (verifying kid ring.publics ≡ public_of kid ks)

keyring_of-IsRingOf :
    (ks : List SigningKey) (kid : String) (env : Env) (w w' : World) (ring : Keyring)
    → HasKeys ks
    → keyring_of (scan_keys ks ([], none)) env w ≡ (ok ring, w')
    → IsRingOf ks kid ring × (w' ≡ w)
keyring_of-IsRingOf ks kid env w w' ring keyed h = elim (Option-cases (scan_keys ks ([], none)).1) [
  | inl e ↦ absurd (ground (arith))
  | inr ((active, private), e) ↦ elim (scan_keys-Signs active private ks [] none (keyed active) e) [
    | inl n ↦ absurd (ground arith)
    | inr (k, signs) ↦
        let made : ring ≡ record {
          active_kid = active;
          active_private = private;
          publics = (scan_keys ks ([], none)).0;
        } =
          ground arith in
        (rw made ((k, signs), scan_keys-verifying kid ks (keyed kid)), ground arith)
  ]
]

abbrev made : String → String → String → SigningKey
made kid private public = record {
  kid = kid;
  private_pem = private;
  public_pem = public;
  active = true;
}

abbrev made_ring : String → String → String → Keyring
made_ring kid private public = record {
  active_kid = kid;
  active_private = private;
  publics = (kid, public) ∷ [];
}

made-IsRingOf :
    (own private public kid : String)
    → IsRingOf (made own private public ∷ []) kid (made_ring own private public)
unfolding find?
made-IsRingOf own private public kid =
    ((made own private public, (ground (arith, eq_refl own), refl, refl)), ground arith)

first-made :
    (own private public : String) (env : Env) (w w' : World) (ring : Keyring)
    → w.db.oidc_signing_keys ≡ []
    → env.generate_rsa_keypair w.draws ≡ some (own, private, public)
    → load_keys env w ≡ (ok ring, w')
    → (w'.db.oidc_signing_keys ≡ made own private public ∷ [])
      × (ring ≡ made_ring own private public)
unfolding load_keys get_signing_keys query statement insert_signing_key exists
first-made own private public env w w' ring e f h = (ground arith, ground arith)

-- The keys that are loaded, stored before or made at the first start, are those of the table as it is
-- afterwards: the signing key is the private key of an active row, and a token is verified, under any
-- kid, with the public key of that kid's row, and with none where there is no row. The kid is the
-- table's key.
pub load_keys-IsRingOf :
    (kid : String) (env : Env) (w w' : World) (ring : Keyring)
    → HasKeys w.db.oidc_signing_keys
    → load_keys env w ≡ (ok ring, w')
    → IsRingOf w'.db.oidc_signing_keys kid ring
unfolding load_keys get_signing_keys query statement
load_keys-IsRingOf kid env w w' ring keyed h = elim (List-cases w.db.oidc_signing_keys) [
  | inl e ↦ elim (Option-cases (env.generate_rsa_keypair w.draws)) [
    | inl n ↦ absurd (ground arith)
    | inr ((own, private, public), f) ↦
        let (rows, loaded) = first-made own private public env w w' ring e f h in
        rw (rows, loaded) (made-IsRingOf own private public kid)
  ]
  | inr (k, ks, e) ↦
      let w₁ : World = record w { calls = suc w.calls } in
      let (ringed, same) =
        keyring_of-IsRingOf w.db.oidc_signing_keys kid env w₁ w' ring keyed (ground arith) in
      rw same ringed
]
