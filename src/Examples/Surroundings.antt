-- ===== src/Examples/Surroundings.antt =====
-- The relay, the cache, stored secrets, keys and the start: the theorems at concrete data.
use iam_rust_auth.Base.{
  All, ℕ, ◌≡◌, refl, true, false, some, List, [], ◌∷◌, ◌↔◌, ◌++◌, ap, sym, map, select, Bool-cases,
  str_eq, inl, inr, String, none, exists, count, eq_iff, eq_refl, arith,
}
use mathlib.Core.Option
use iam_rust_auth.Db.{SigningKey}
use iam_rust_auth.World.{ok, World, Env, RedisEntry, RedisValue}
use iam_rust_auth.Service.{MetadataMap}
use iam_rust_auth.TotpSecret.{decrypt, IsLossless, decrypt-encrypt}
use iam_rust_auth.Cache.{
  get_perms, invalidate_perms, scan_from, perms_pattern, holds_key, lists_key, glob, is_plain,
  invalidate_perms-forgets,
}
use iam_rust_auth.Keys.{Keyring, HasKeys, IsRingOf, load_keys-IsRingOf}
use iam_rust_auth.Boot.{check, InternalAuth, IsTrusted, check-IsTrusted}
use iam_rust_auth.Relay.{
  drain, drain-sends, run, backlog, run-empties, in_stream, drain-IsDelivered, IsDelivered, Keeps,
  HasSent, batch, HasIds,
}
use iam_rust_auth.Samples.{sample, sample_db, sample_env, sample_crypto, running, at}

sample_ids : HasIds sample_db.outbox
unfolding count running
sample_ids id = ground arith

drain-IsDelivered_example :
    IsDelivered sample_env (drain sample_env sample).1
    × Keeps sample (drain sample_env sample).1
    × HasSent sample_env (batch sample_db) (drain sample_env sample)
unfolding running
drain-IsDelivered_example = drain-IsDelivered sample_env sample refl sample_ids (refl, (refl, tt))

-- The two keys of a service whose signing key has been replaced.
abbrev keys : List SigningKey
keys =
    record { kid = "new"; private_pem = "p2"; public_pem = "q2"; active = true }
    ∷ record { kid = "old"; private_pem = "p1"; public_pem = "q1"; active = false }
    ∷ []

abbrev keyed : World
keyed = record sample { db = record sample_db { oidc_signing_keys = keys } }

abbrev ring : Keyring
ring = record {
  active_kid = "new";
  active_private = "p2";
  publics = ("old", "q1") ∷ ("new", "q2") ∷ [];
}

kids : HasKeys keys
unfolding count
kids kid = ground (arith, eq_iff "new" kid, eq_iff "old" kid, eq_iff "new" "old")

load_keys-IsRingOf_example : IsRingOf keys "old" ring
unfolding running
load_keys-IsRingOf_example =
    load_keys-IsRingOf "old" sample_env keyed (record keyed { calls = 1 }) ring kids refl

abbrev guarded : InternalAuth
guarded = record { token = "t"; is_optional = false }

abbrev call : MetadataMap
call = ("x-internal-token", some "t") ∷ []

check-IsTrusted_example : (check guarded call ≡ true) ↔ IsTrusted guarded call
check-IsTrusted_example = check-IsTrusted guarded call

abbrev nonce : List ℕ
nonce = 1 ∷ 2 ∷ 3 ∷ 4 ∷ 5 ∷ 6 ∷ 7 ∷ 8 ∷ 9 ∷ 10 ∷ 11 ∷ 12 ∷ []

-- The libraries of the samples undo each other on this secret.
sample-IsLossless : IsLossless sample_crypto [] nonce "BOBSECRET"
sample-IsLossless = record {
  base64 = λ ct h. ap (Option.map (λ c. nonce ++ c)) h;
  aes = λ ct h. sym h;
  utf8 = refl;
}

decrypt-encrypt_example :
    decrypt sample_crypto (record { cipher = some [] }) "enc:v1:AAAA" ≡ ok "BOBSECRET"
unfolding running
decrypt-encrypt_example =
    decrypt-encrypt sample_crypto [] nonce "BOBSECRET" "enc:v1:AAAA" sample-IsLossless refl refl

drain-sends_example :
    ((drain sample_env sample).0 ≡ ok tt)
    × All (λ r. in_stream sample_env r (drain sample_env sample).1 ≡ true) (batch sample_db)
unfolding running
drain-sends_example =
    drain-sends sample_env sample (λ n. refl) (λ n. refl) sample_ids (refl, (refl, tt))

run-empties_example : backlog (run (sample_env ∷ []) sample).db ≡ 0
unfolding running
run-empties_example = run-empties (sample_env ∷ []) sample ((λ n. (refl, refl)), tt) (omega arith)

-- A Redis whose scan takes one round, and returns the keys that match.
abbrev matching : String → List RedisEntry → List String
matching pattern es = map (λ e. e.key) (select (λ e. glob pattern e.key) es)

abbrev scanning : Env
scanning = record sample_env { redis_scan = λ c pattern es. (0, matching pattern es) }

abbrev cached_world : World
cached_world = record sample {
  redis =
      record { key = "perms:20:-:10"; value = RedisValue.perms ("p" ∷ []); expires_at = at 1050 }
      ∷ [];
}

matching_listed :
    (pattern k : String) (es : List RedisEntry)
    → glob pattern k ≡ true
    → holds_key k es ≡ true
    → lists_key k (matching pattern es) ≡ true
unfolding exists select
matching_listed pattern k [] m h = absurd (ground arith)
matching_listed pattern k (e ∷ es) m h = elim (Bool-cases (str_eq e.key k)) [
  | inl here ↦
      let same : e.key ≡ k = (eq_iff e.key k).0 here in
      let found : glob pattern e.key ≡ true = rw same m in
      ground (arith, found, eq_refl k, ap (λ x. str_eq k x) same)
  | inr there ↦ ground (arith, matching_listed pattern k es m)
]

invalidate_perms-forgets_example :
    let w' = (invalidate_perms {E = Unit {0}} "10" scanning cached_world).1 in
    (scan_from {E = Unit {0}} 12 (perms_pattern "10") 0 scanning cached_world
      ≡ invalidate_perms "10" scanning cached_world)
    × ((get_perms {E = Unit {0}} "20" "" "10" scanning w').0 ≡ ok none)
unfolding running is_plain
invalidate_perms-forgets_example =
    invalidate_perms-forgets "20" "" "10" scanning cached_world (λ c. 1) (λ k. 0) 10 refl
      (λ n. refl) refl (λ pattern c es. inl refl)
      (λ pattern k c es plain m held ahead. inl (matching_listed pattern k es m held))
      (λ k. omega arith) (omega arith)
