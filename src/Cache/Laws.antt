-- ===== src/Cache/Laws.antt =====
-- What the cache promises (src/cache.rs).
use iam_rust_auth.Base.{
  ℕ, suc, ◌+◌, ◌*◌, ◌≡◌, String, true, false, some, List, arith, eq_refl, exists, find?, is_empty,
  ltb, leb,
}
use iam_rust_auth.Base.Int.{pos, second}
use iam_rust_auth.World.{World, Env, ok}
use iam_rust_auth.Cache.Defs.{
  deny, is_denied, command, set_ex, denylist_key, get_perms, set_perms, perms_key, perms_ttl_secs,
}

-- Where Redis is connected and neither command fails, an id that was denied for some seconds is
-- denied until they have passed.
pub deny-is_denied :
    (jti : String) (ttl : ℕ) (env env' : Env) (w : World)
    → env.redis_enabled ≡ true
    → env'.redis_enabled ≡ true
    → env.redis_fails w.redis_calls ≡ false
    → env'.redis_fails (suc w.redis_calls) ≡ false
    → is_empty jti ≡ false
    → leb 1 ttl ≡ true
    → ltb env'.now (env.now + ttl * second) ≡ true
    → (is_denied {E = Unit {0}} jti env' (deny {E = Unit {0}} jti (pos ttl) env w).1).0
      ≡ ok (some true)
unfolding deny is_denied command set_ex exists
deny-is_denied jti ttl env env' w on on' up up' named lasts soon =
    ground (arith, eq_refl (denylist_key jti))

-- Where Redis is connected and neither command fails, the permissions that were stored are read
-- back within the minute that they are kept for.
pub set_perms-get_perms :
    (tenant project user : String) (ps : List String) (env env' : Env) (w : World)
    → env.redis_enabled ≡ true
    → env'.redis_enabled ≡ true
    → env.redis_fails w.redis_calls ≡ false
    → env'.redis_fails (suc w.redis_calls) ≡ false
    → ltb env'.now (env.now + perms_ttl_secs * second) ≡ true
    → (get_perms {E = Unit {0}} tenant project user env'
        (set_perms {E = Unit {0}} tenant project user ps env w).1).0
      ≡ ok (some ps)
unfolding set_perms get_perms command set_ex find?
set_perms-get_perms tenant project user ps env env' w on on' up up' soon =
    ground (arith, eq_refl (perms_key tenant project user))
