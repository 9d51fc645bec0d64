-- ===== src/Tenancy/Bulk.antt =====
-- The assignment of a role to many users (src/grpc.rs, `assign_role_bulk`).
use iam_rust_auth.Base.{
  ℕ, suc, ◌+◌, ◌≡◌, refl, sym, subst, ap, String, Option, none, some, List, [], ◌∷◌, ◌++◌, arith,
  length, zero, inl, inr, Bool-cases, Result,
}
use iam_rust_auth.Db.{Uuid}
use iam_rust_auth.World.{Env, World, Action, Status, ok, err, and_then, pure, run-cases}
use iam_rust_auth.Cache.{
  invalidate_perms, scan_from, after_scan, delete_keys, perms_pattern, command,
}
use iam_rust_auth.Service.{assign_all, assign_parsed, tally}

length-append_one : (xs : List String) (x : String) → length (xs ++ x ∷ []) ≡ suc (length xs)
length-append_one [] x = refl
length-append_one (y ∷ ys) x = ap suc (length-append_one ys x)

-- What is counted, and what is listed as failed, so far.
abbrev pub tallied : ℕ × List String → ℕ
tallied (assigned, failed) = assigned + length failed

-- The tally of one more user, whatever became of the assignment.
abbrev pub Tallied : ℕ → Result Status (ℕ × List String) × World → Type 0
Tallied n (ok acc, w) = tallied acc ≡ n
Tallied n (err e, w) = ⊥

after_scan-ok :
    (loop : ℕ → Action Status (Unit {0})) (env : Env) (w : World)
    (r : Result (Unit {0}) (Option (ℕ × List String)))
    → ((n : ℕ) (v : World) → (loop n env v).0 ≡ ok tt)
    → (after_scan loop env w r).0 ≡ ok tt
unfolding after_scan
after_scan-ok loop env w (ok (some (next, keys))) h =
    ground (arith, h next (delete_keys keys env w))
after_scan-ok loop env w (ok none) h = refl
after_scan-ok loop env w (err _) h = refl

scan_from-ok :
    (fuel : ℕ) (pattern : String) (cursor : ℕ) (env : Env) (w : World)
    → (scan_from {E = Status} fuel pattern cursor env w).0 ≡ ok tt
unfolding scan_from
scan_from-ok zero pattern cursor env w = refl
scan_from-ok (suc fuel) pattern cursor env w =
    let (r, w') = command {E = Unit {0}} (λ es. (env.redis_scan cursor pattern es, es)) env w in
    after_scan-ok (scan_from fuel pattern) env w' r (λ n v. scan_from-ok fuel pattern n env v)

invalidate_perms-ok :
    (uid : String) (env : Env) (w : World) → (invalidate_perms {E = Status} uid env w).0 ≡ ok tt
unfolding invalidate_perms
invalidate_perms-ok uid env w = elim (Bool-cases env.redis_enabled) [
  | inl e ↦ ground (arith, scan_from-ok env.scan_rounds (perms_pattern uid) 0 env w)
  | inr e ↦ ground (arith)
]

tally-Tallied :
    (uid : String) (done : Option (Unit {0})) (acc : ℕ × List String) (env : Env) (w : World)
    → Tallied (suc (tallied acc)) (tally uid done acc env w)
tally-Tallied uid none (assigned, failed) env w = ground (arith, length-append_one failed uid)
tally-Tallied uid (some d) (assigned, failed) env w =
    subst
      (λ r. Tallied (suc (assigned + length failed)) (
        and_then {E = Status} r (λ _. pure (suc assigned, failed)) env
          (invalidate_perms {E = Status} uid env w).1))
      (sym (invalidate_perms-ok uid env w)) (ground (arith))

assign_parsed-ok :
    (uid : Option Uuid) (role_name : String) (tenant : Uuid) (project : Option Uuid) (env : Env)
    (w w' : World) (e : Status)
    → assign_parsed uid role_name tenant project env w ≡ (err e, w')
    → ⊥
assign_parsed-ok none role_name tenant project env w w' e h = ground (arith)
assign_parsed-ok (some uid) role_name tenant project env w w' e h = ground (arith)

module _ (uid : String) (uids : List String) (role_name : String) (tenant : Uuid)
    (project : Option Uuid) (acc acc' : ℕ × List String) (env : Env) (w w₁ w₂ : World)
    (done : Option (Unit {0})) where
  assign_all_step :
      assign_parsed (env.parse_uuid uid) role_name tenant project env w ≡ (ok done, w₁)
      → tally uid done acc env w₁ ≡ (ok acc', w₂)
      → assign_all (uid ∷ uids) role_name tenant project acc env w
        ≡ assign_all uids role_name tenant project acc' env w₂
  unfolding assign_all
  assign_all_step e e₂ = ground (arith)

-- The loop of the bulk assignment never fails, and the users that it counts and those that it
-- lists as failed are together as many as the users of the list, on top of any tally to start
-- from, whichever statements fail.
pub assign_all-Tallied :
    (uids : List String) (role_name : String) (tenant : Uuid) (project : Option Uuid)
    (acc : ℕ × List String) (env : Env) (w : World)
    → Tallied (tallied acc + length uids) (assign_all uids role_name tenant project acc env w)
unfolding assign_all
assign_all-Tallied [] role_name tenant project acc env w = ground (arith)
assign_all-Tallied (uid ∷ uids) role_name tenant project acc env w =
    elim (run-cases (assign_parsed (env.parse_uuid uid) role_name tenant project env w)) [
      | inr (n, w₁, e) ↦
          absurd (assign_parsed-ok (env.parse_uuid uid) role_name tenant project env w w₁ n e)
      | inl (done, w₁, e) ↦ elim (run-cases (tally uid done acc env w₁)) [
        | inr (n, w₂, e₂) ↦
            absurd (subst (Tallied (suc (tallied acc))) e₂ (tally-Tallied uid done acc env w₁))
        | inl (acc', w₂, e₂) ↦
            let one : tallied acc' ≡ suc (tallied acc) =
              subst (Tallied (suc (tallied acc))) e₂ (tally-Tallied uid done acc env w₁) in
            let total : tallied acc' + length uids ≡ tallied acc + suc (length uids) =
              rw one (ground (arith)) in
            subst (Tallied (tallied acc + suc (length uids)))
              (sym
                (assign_all_step uid uids role_name tenant project acc acc' env w w₁ w₂ done e e₂))
              (subst (λ n. Tallied n (assign_all uids role_name tenant project acc' env w₂)) total
                (assign_all-Tallied uids role_name tenant project acc' env w₂))
      ]
    ]
