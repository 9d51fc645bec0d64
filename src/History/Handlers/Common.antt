-- ===== src/History/Handlers/Common.antt =====
-- The helpers that the handlers share (src/grpc.rs), and the commands to Redis (src/cache.rs).
use iam_rust_auth.Base.{
  ℕ, String, Option, none, some, List, [], ◌∷◌, ◌∙◌, ◌≡◌, zero, suc, refl, arith,
}
use iam_rust_auth.Base.Int.{ℤ}
use iam_rust_auth.Db.{Uuid}
use iam_rust_auth.World.{
  World, Env, Action, Order, Within, Within-still, Within-when, RedisEntry, Status, ignore, Result,
  ok, err, within_rules,
}
use iam_rust_auth.Repo
use iam_rust_auth.Cache
use iam_rust_auth.Service
use iam_rust_auth.Service.{MetadataMap}
use iam_rust_auth.History.Writes.{Writes, writes}
use iam_rust_auth.History.Reads.{reads}

module _ {o : Order} {E : Type 0} where
  pub deny-Within : (jti : String) (ttl : ℤ) → Within o {E = E} (Cache.deny jti ttl)
  unfolding Cache.deny Cache.command
  deny-Within jti ttl = Within-still (Cache.deny jti ttl) (λ env w. ground arith)

  pub is_denied-Within : (jti : String) → Within o {E = E} (Cache.is_denied jti)
  unfolding Cache.is_denied Cache.command
  is_denied-Within jti = Within-still (Cache.is_denied jti) (λ env w. ground arith)

  pub get_perms-Within : (t p s : String) → Within o {E = E} (Cache.get_perms t p s)
  unfolding Cache.get_perms Cache.command
  get_perms-Within t p s = Within-still (Cache.get_perms t p s) (λ env w. ground arith)

  pub set_perms-Within :
      (t p s : String) (ps : List String) → Within o {E = E} (Cache.set_perms t p s ps)
  unfolding Cache.set_perms Cache.command
  set_perms-Within t p s ps = Within-still (Cache.set_perms t p s ps) (λ env w. ground arith)

command-db :
    {A : Type 0} (run : List RedisEntry → A × List RedisEntry) (env : Env) (w : World)
    → (Cache.command {E = Unit {0}} run env w).1.db ≡ w.db
unfolding Cache.command
command-db run env w = ground arith

delete_keys-db :
    (keys : List String) (env : Env) (w : World) → (Cache.delete_keys keys env w).db ≡ w.db
unfolding Cache.delete_keys
delete_keys-db [] env w = refl
delete_keys-db (k ∷ ks) env w = command-db (Cache.del (k ∷ ks)) env w

module _ (E : Type 0) where
  after_scan-db :
      (loop : ℕ → Action E (Unit {0})) (env : Env) (w : World)
      (r : Result (Unit {0}) (Option (ℕ × List String)))
      → ((n : ℕ) (v : World) → (loop n env v).1.db ≡ v.db)
      → (Cache.after_scan loop env w r).1.db ≡ w.db
  unfolding Cache.after_scan
  after_scan-db loop env w (ok (some (next, keys))) h =
      ground (arith, h next (Cache.delete_keys keys env w), delete_keys-db keys env w)
  after_scan-db loop env w (ok none) h = refl
  after_scan-db loop env w (err _) h = refl

  scan_from-db :
      (fuel : ℕ) (pattern : String) (cursor : ℕ) (env : Env) (w : World)
      → (Cache.scan_from {E = E} fuel pattern cursor env w).1.db ≡ w.db
  unfolding Cache.scan_from
  scan_from-db zero pattern cursor env w = refl
  scan_from-db (suc fuel) pattern cursor env w =
      let (r, w') =
        Cache.command {E = Unit {0}} (λ es. (env.redis_scan cursor pattern es, es)) env w in
      after_scan-db (Cache.scan_from fuel pattern) env w' r
        (λ n v. scan_from-db fuel pattern n env v)
      ∙ command-db (λ es. (env.redis_scan cursor pattern es, es)) env w

module _ {o : Order} where
  pub invalidate_perms-Within : (s : String) → Within o {E = Status} (Cache.invalidate_perms s)
  unfolding Cache.invalidate_perms
  invalidate_perms-Within s =
      Within-still (Cache.invalidate_perms s) (λ env w.
        ground (arith, scan_from-db Status env.scan_rounds (Cache.perms_pattern s) 0 env w))

  pub require_perm-Within : (md : MetadataMap) (p : String) → Within o (Service.require_perm md p)
  unfolding Service.require_perm
  require_perm-Within md p = search within_rules

  pub caller_uuid-Within : (md : MetadataMap) → Within o (Service.caller_uuid md)
  unfolding Service.caller_uuid
  caller_uuid-Within md = Within-still (Service.caller_uuid md) (λ env w. ground arith)

  pub parse_uuid-Within : (e : Status) (s : String) → Within o (Service.parse_uuid e s)
  parse_uuid-Within e s = Within-still (Service.parse_uuid e s) (λ env w. ground arith)

  pub parse_opt_project-Within : (s : String) → Within o (Service.parse_opt_project s)
  unfolding Service.parse_opt_project
  parse_opt_project-Within s = search (within_rules, parse_uuid-Within)

  pub active_tenant-Within : (md : MetadataMap) → Within o (Service.active_tenant md)
  unfolding Service.active_tenant
  active_tenant-Within md = search (within_rules, parse_uuid-Within)

  require_project-Within : (p : Option Uuid) (t : Uuid) → Within o (Service.require_project p t)
  require_project-Within none t = search reads
  require_project-Within (some p) t = search reads

  pub validate_assign-Within : (r p : String) (t : Uuid) → Within o (Service.validate_assign r p t)
  unfolding Service.validate_assign
  validate_assign-Within r p t =
      search (reads, parse_opt_project-Within, require_project-Within) depth 14

  pub perm_role_guard-Within : (r : String) (t : Uuid) → Within o (Service.perm_role_guard r t)
  unfolding Service.perm_role_guard
  perm_role_guard-Within r t = search reads depth 10

pub ruleset rules = (
  reads, writes, deny-Within, is_denied-Within, get_perms-Within, set_perms-Within,
  invalidate_perms-Within, require_perm-Within, caller_uuid-Within, parse_uuid-Within,
  parse_opt_project-Within, active_tenant-Within, validate_assign-Within, perm_role_guard-Within,
)

module _ {o : Order} ⦃s : Writes o⦄ where
  pub audit_as-Within :
      (a e k t x : String) (tenant : Option Uuid) → Within o (Service.audit_as a e k t x tenant)
  unfolding Service.audit_as
  audit_as-Within a e k t x tenant = record {
    at = λ env w.
        (Within-when {o = o} env.audit_enabled (ignore (Repo.insert_audit a e k t x tenant))
            (search rules)).at
          env w;
  }

  pub audit-Within : (md : MetadataMap) (k t x : String) → Within o (Service.audit md k t x)
  unfolding Service.audit
  audit-Within md k t x = record {
    at = λ env w.
        (audit_as-Within (Service.meta md "x-user-id") (Service.meta md "x-user-email") k t x
            (Service.tenant_of (Service.active_tenant md env w))).at
          env w;
  }
