-- ===== src/Cache/Defs.antt =====
-- The methods of `Cache` (src/cache.rs). Redis holds keys with an expiry; a command fails where the
-- schedule of failures says so, and then has changed nothing.
use iam_rust_auth.Base.{
  ℕ, zero, suc, ◌+◌, ◌*◌, String, Bool, ◌&&◌, ◌||◌, Option, none, some, List, [], ◌∷◌, ltb, ◌==◌,
  if◌then◌else◌, is_empty, find?, exists, delete, str_eq, format,
}
use iam_rust_auth.Base.Int.{ℤ, is_nonpos, to_ℕ, second}
use iam_rust_auth.Db.{Instant}
use iam_rust_auth.World.{
  World, Env, RedisEntry, RedisValue, mark, perms, Action, Result, ok, err, pure, ◌>>◌,
}

abbrev pub perms_ttl_secs : ℕ
perms_ttl_secs = 60

abbrev pub answer : {E A : Type 0} → World → A × List RedisEntry → Result E (Option A) × World
answer w (a, r) = (ok (some a), record w { redis = r })

-- One command: `none` where there is no connection, or the command fails.
unfoldable pub command :
    {E A : Type 0} → (List RedisEntry → A × List RedisEntry) → Action E (Option A)
command run env w =
    let w' = record w { redis_calls = suc w.redis_calls } in
    if env.redis_enabled
    then (if env.redis_fails w.redis_calls then (ok none, w') else answer w' (run w.redis))
    else (ok none, w)

-- A key that has not expired.
abbrev pub is_held : Instant → String → RedisEntry → Bool
is_held now key e = str_eq e.key key && ltb now e.expires_at

-- `SETEX`
unfoldable pub set_ex : String → RedisValue → Instant → List RedisEntry → Unit {0} × List RedisEntry
unfolding delete
set_ex key value expires_at r = (
  tt,
  record { key = key; value = value; expires_at = expires_at } ∷ delete (λ e. str_eq e.key key) r,
)

abbrev pub denylist_key : String → String
denylist_key jti = format ("denylist:" ∷ jti ∷ [])

unfoldable pub deny : {E : Type 0} → String → ℤ → Action E Unit
unfolding command set_ex
deny jti ttl_secs env =
    if is_empty jti || is_nonpos ttl_secs
    then pure tt env
    else (do command (set_ex (denylist_key jti) mark (env.now + to_ℕ ttl_secs * second)); pure tt)
        env

-- `some b` where Redis has answered.
unfoldable pub is_denied : {E : Type 0} → String → Action E (Option Bool)
unfolding command exists
is_denied jti env =
    if is_empty jti
    then pure none env
    else command (λ r. (exists (is_held env.now (denylist_key jti)) r, r)) env

-- The sentinel for an empty tenant or project.
abbrev pub or_dash : String → String
or_dash s = if is_empty s then "-" else s

abbrev pub perms_key : String → String → String → String
perms_key tenant project user_id =
    format ("perms:" ∷ or_dash tenant ∷ ":" ∷ or_dash project ∷ ":" ∷ user_id ∷ [])

abbrev pub cached : Option RedisEntry → Option (List String)
cached none = none
cached (some e) = elim e.value [ mark ↦ none | perms ps ↦ some ps ]

abbrev pub flatten : Option (Option (List String)) → Option (List String)
flatten none = none
flatten (some o) = o

unfoldable pub get_perms : {E : Type 0} → String → String → String → Action E (Option (List String))
unfolding command find?
get_perms tenant project user_id env w =
    let (r, w') =
      command {E = Unit {0}}
        (λ es. (cached (find? (is_held env.now (perms_key tenant project user_id)) es), es)) env
        w in
    (elim r [ ok o ↦ ok (flatten o) | _ ↦ ok none ], w')

-- `serde_json` writes every list of texts.
unfoldable pub set_perms : {E : Type 0} → String → String → String → List String → Action E Unit
unfolding command set_ex
set_perms tenant project user_id ps env =
    (do
      command
          (set_ex (perms_key tenant project user_id) (perms ps) (env.now + perms_ttl_secs * second))
      pure tt)
      env

-- `DEL` of several keys.
unfoldable pub del : List String → List RedisEntry → Unit {0} × List RedisEntry
unfolding exists delete
del keys r = (tt, delete (λ e. exists (str_eq e.key) keys) r)

abbrev pub perms_pattern : String → String
perms_pattern user_id = format ("perms:*:*:" ∷ user_id ∷ [])

-- `if !keys.is_empty() { … DEL … }`
unfoldable pub delete_keys : List String → Env → World → World
unfolding command del
delete_keys [] env w = w
delete_keys (k ∷ ks) env w = (command {E = Unit {0}} (del (k ∷ ks)) env w).1

-- What follows the answer of SCAN: the keys are deleted, and the loop goes on from the next cursor
-- until that is 0. A failure ends it.
unfoldable pub after_scan :
    {E : Type 0}
    → (ℕ → Action E Unit)
    → Env
    → World
    → Result (Unit {0}) (Option (ℕ × List String))
    → Result E Unit × World
unfolding delete_keys
after_scan loop env w (ok (some (next, keys))) =
    let w' = delete_keys keys env w in if next == 0 then (ok tt, w') else loop next env w'
after_scan loop env w (ok none) = (ok tt, w)
after_scan loop env w (err _) = (ok tt, w)

-- The loop of `invalidate_perms`, on fuel.
unfoldable pub scan_from : {E : Type 0} → ℕ → String → ℕ → Action E Unit
unfolding command after_scan
scan_from zero pattern cursor env w = (ok tt, w)
scan_from (suc fuel) pattern cursor env w =
    let (res, w') = command {E = Unit {0}} (λ r. (env.redis_scan cursor pattern r, r)) env w in
    after_scan (scan_from fuel pattern) env w' res

unfoldable pub invalidate_perms : {E : Type 0} → String → Action E Unit
unfolding scan_from
invalidate_perms user_id env =
    if env.redis_enabled
    then scan_from env.scan_rounds (perms_pattern user_id) 0 env
    else pure tt env
