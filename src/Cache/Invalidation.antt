-- ===== src/Cache/Invalidation.antt =====
-- The loop over SCAN that drops a user's cached permissions (src/cache.rs, `invalidate_perms`).
use iam_rust_auth.Base.{
  ℕ, zero, suc, ◌+◌, ◌≤◌, ◌<◌, ◌≡◌, refl, sym, subst, ◌⊎◌, inl, inr, String, Bool, true, false,
  none, List, [], ◌∷◌, arith, exists, delete, find?-none, str_eq, eq_iff, ◌==◌, Bool-cases,
}
use iam_rust_auth.World.{World, Env, RedisEntry, ok}
use iam_rust_auth.Cache.Glob.{glob, is_plain, perms_pattern-plain, perms_pattern-matches}
use iam_rust_auth.Cache.Defs.{
  command, delete_keys, del, after_scan, scan_from, invalidate_perms, perms_pattern, perms_key,
  get_perms, is_held,
}

abbrev pub holds_key : String → List RedisEntry → Bool
holds_key k es = exists (λ e. str_eq e.key k) es

abbrev pub lists_key : String → List String → Bool
lists_key k keys = exists (str_eq k) keys

deletes-gone :
    (p : RedisEntry → Bool) (k : String) (es : List RedisEntry)
    → holds_key k es ≡ false
    → holds_key k (delete p es) ≡ false
unfolding exists delete
deletes-gone p k [] h = refl
deletes-gone p k (e ∷ es) h = ground (arith, deletes-gone p k es)

listed-gone :
    (keys : List String) (k : String) (es : List RedisEntry)
    → lists_key k keys ≡ true
    → holds_key k (delete (λ e. lists_key e.key keys) es) ≡ false
unfolding exists delete
listed-gone keys k [] h = refl
listed-gone keys k (e ∷ es) h = elim (Bool-cases (str_eq e.key k)) [
  | inl same ↦
      let listed : lists_key e.key keys ≡ true =
        subst (λ x. lists_key x keys ≡ true) (sym ((eq_iff e.key k).0 same)) h in
      ground (arith, listed, listed-gone keys k es h)
  | inr other ↦ ground (arith, listed-gone keys k es h)
]

module _ (k pattern : String) (env : Env) (on : env.redis_enabled ≡ true)
    (up : (n : ℕ) → env.redis_fails n ≡ false) (E : Type 0) where
  -- DEL of a list of keys.
  delete_keys-gone :
      (keys : List String) (w : World)
      → (holds_key k w.redis ≡ false) ⊎ (lists_key k keys ≡ true)
      → holds_key k (delete_keys keys env w).redis ≡ false
  unfolding delete_keys command del exists
  delete_keys-gone [] w (inl absent) = absent
  delete_keys-gone [] w (inr listed) = absurd (ground arith)
  delete_keys-gone (x ∷ xs) w (inl absent) =
      ground
        (arith, up w.redis_calls, deletes-gone (λ e. lists_key e.key (x ∷ xs)) k w.redis absent)
  delete_keys-gone (x ∷ xs) w (inr listed) =
      ground (arith, up w.redis_calls, listed-gone (x ∷ xs) k w.redis listed)

  delete_keys-holds :
      (keys : List String) (w : World)
      → holds_key k w.redis ≡ false
      → holds_key k (delete_keys keys env w).redis ≡ false
  delete_keys-holds keys w absent = delete_keys-gone keys w (inl absent)

  -- SCAN as Redis documents it, told by how many buckets a cursor has yet to visit and by the bucket
  -- of a key: a round goes on to a later bucket, and returns the keys of those that it passes.
  module _ (left : ℕ → ℕ) (place : ℕ)
      (advances : (c : ℕ) (es : List RedisEntry)
        → ((env.redis_scan c pattern es).0 ≡ 0) ⊎ (left (env.redis_scan c pattern es).0 < left c))
      (returns : (c : ℕ) (es : List RedisEntry)
        → holds_key k es ≡ true
        → place < left c
        → (lists_key k (env.redis_scan c pattern es).1 ≡ true)
          ⊎ (((env.redis_scan c pattern es).0 == 0) ≡ false)
            × (place < left (env.redis_scan c pattern es).0)) where
    -- A round deletes the key, or it lies in a later bucket.
    round :
        (c : ℕ) (w : World)
        → (holds_key k w.redis ≡ false) ⊎ (place < left c)
        → let (n, keys) = env.redis_scan c pattern w.redis in
          (holds_key k (delete_keys keys env (record w { redis_calls = suc w.redis_calls })).redis
            ≡ false)
          ⊎ ((n == 0) ≡ false) × (place < left n)
    round c w state =
        let w₁ : World = record w { redis_calls = suc w.redis_calls } in
        let keys : List String = (env.redis_scan c pattern w.redis).1 in
        elim (Bool-cases (holds_key k w.redis)) [
          | inl held ↦ elim (returns c w.redis held (ground arith)) [
            | inl listed ↦ inl (delete_keys-gone keys w₁ (inr listed))
            | inr later ↦ inr later
          ]
          | inr absent ↦ inl (delete_keys-gone keys w₁ (inl absent))
        ]

    scan_from-gone :
        (fuel c : ℕ) (w : World)
        → left c ≤ fuel
        → (holds_key k w.redis ≡ false) ⊎ (place < left c)
        → holds_key k (scan_from {E = E} fuel pattern c env w).1.redis ≡ false
    unfolding scan_from command after_scan
    scan_from-gone zero c w few (inl absent) = absent
    scan_from-gone zero c w few (inr ahead) = absurd (omega arith)
    scan_from-gone (suc fuel) c w few state =
        let w₁ : World = record w { redis_calls = suc w.redis_calls } in
        let n : ℕ = (env.redis_scan c pattern w.redis).0 in
        let w₂ : World = delete_keys (env.redis_scan c pattern w.redis).1 env w₁ in
        elim (Bool-cases (n == 0)) [
          | inl ended ↦ ground (arith, up w.redis_calls, round c w state)
          | inr more ↦
              let fewer : left n ≤ fuel = ground (arith, advances c w.redis) in
              let state' : (holds_key k w₂.redis ≡ false) ⊎ (place < left n) =
                elim (round c w state) [ inl gone ↦ inl gone | inr (_, later) ↦ inr later ] in
              ground (arith, up w.redis_calls, scan_from-gone fuel n w₂ fewer state')
        ]

module _ (pattern : String) (env : Env) (E : Type 0) (left : ℕ → ℕ)
    (advances : (c : ℕ) (es : List RedisEntry)
      → ((env.redis_scan c pattern es).0 ≡ 0)
        ⊎ (left (env.redis_scan c pattern es).0 < left c)) where
  -- With more than a round of fuel for each bucket, further fuel changes nothing.
  scan_from-ends :
      (fuel c more : ℕ) (w : World)
      → left c < fuel
      → scan_from {E = E} (fuel + more) pattern c env w ≡ scan_from fuel pattern c env w
  unfolding scan_from command after_scan
  scan_from-ends zero c more w enough = absurd (omega arith)
  scan_from-ends (suc fuel) c more w enough =
      let w₁ : World = record w { redis_calls = suc w.redis_calls } in
      let n : ℕ = (env.redis_scan c pattern w.redis).0 in
      let w₂ : World = delete_keys (env.redis_scan c pattern w.redis).1 env w₁ in
      let e : suc fuel + more ≡ suc (fuel + more) = omega arith in
      elim (Bool-cases (n == 0)) [
        | inl ended ↦ rw e (ground arith)
        | inr further ↦
            let fewer : left n < fuel = ground (arith, advances c w.redis) in
            rw e (ground (arith, scan_from-ends fuel n more w₂ fewer))
      ]

not_held :
    (now : ℕ) (k : String) (es : List RedisEntry)
    → holds_key k es ≡ false
    → exists (is_held now k) es ≡ false
unfolding exists
not_held now k [] h = refl
not_held now k (e ∷ es) h = ground (arith, not_held now k es)

get_perms-none :
    (tenant project user : String) (env : Env) (w : World)
    → holds_key (perms_key tenant project user) w.redis ≡ false
    → (get_perms {E = Unit {0}} tenant project user env w).0 ≡ ok none
unfolding get_perms command
get_perms-none tenant project user env w gone =
    let k = perms_key tenant project user in
    ground (arith, find?-none (is_held env.now k) w.redis (not_held env.now k w.redis gone))

-- Where Redis is connected and no command fails, the user's id has none of the special characters that
-- a pattern may have besides the star, and SCAN behaves as documented (a round ends the iteration or
-- goes on to a later bucket, and returns the keys that match the pattern in the buckets that it
-- passes), the loop ends by itself in as many rounds as there are buckets, so that more rounds would
-- change nothing; and no permissions of the user are cached afterwards, under any tenant and project.
pub invalidate_perms-forgets :
    (tenant project user : String) (env : Env) (w : World) (left : ℕ → ℕ) (place : String → ℕ)
    (more : ℕ)
    → env.redis_enabled ≡ true
    → ((n : ℕ) → env.redis_fails n ≡ false)
    → is_plain user ≡ true
    → ((pattern : String) (c : ℕ) (es : List RedisEntry)
        → ((env.redis_scan c pattern es).0 ≡ 0) ⊎ (left (env.redis_scan c pattern es).0 < left c))
    → ((pattern k : String) (c : ℕ) (es : List RedisEntry)
        → is_plain pattern ≡ true
        → glob pattern k ≡ true
        → holds_key k es ≡ true
        → place k < left c
        → (lists_key k (env.redis_scan c pattern es).1 ≡ true)
          ⊎ (((env.redis_scan c pattern es).0 == 0) ≡ false)
            × (place k < left (env.redis_scan c pattern es).0))
    → ((k : String) → place k < left 0)
    → left 0 < env.scan_rounds
    → let w' = (invalidate_perms {E = Unit {0}} user env w).1 in
      (scan_from {E = Unit {0}} (env.scan_rounds + more) (perms_pattern user) 0 env w
        ≡ invalidate_perms user env w)
      × ((get_perms {E = Unit {0}} tenant project user env w').0 ≡ ok none)
unfolding invalidate_perms
invalidate_perms-forgets tenant project user env w left place more on up plain advances returns
      ahead enough =
    let k = perms_key tenant project user in
    let pattern = perms_pattern user in
    let gone : holds_key k (scan_from {E = Unit {0}} env.scan_rounds pattern 0 env w).1.redis
        ≡ false =
      scan_from-gone k pattern env on up (Unit {0}) left (place k) (advances pattern)
        (λ c es.
          returns pattern k c es (perms_pattern-plain user plain)
            (perms_pattern-matches tenant project user))
        env.scan_rounds 0 w (omega arith) (inr (ahead k)) in
    (
      ground (
        arith,
        scan_from-ends pattern env (Unit {0}) left (advances pattern) env.scan_rounds 0 more w
            enough,
      ),
      get_perms-none tenant project user env (invalidate_perms {E = Unit {0}} user env w).1
          (ground (arith, gone)),
    )
