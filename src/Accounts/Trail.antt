-- ===== src/Accounts/Trail.antt =====
-- The audit trail as it is read (src/grpc.rs, `list_audit_events`; src/repo.rs, `list_audit`).
use iam_rust_auth.Base.{
  ℕ, zero, suc, ◌≤◌, ◌≡◌, refl, ap, inl, inr, ◌<◌, ◌⊎◌, Bool, true, some, List, [], ◌∷◌, map, arith,
  length, take, leb, ltb, All, select, order_by, insert_by, column_eq, Bool-cases, Option-cases,
  All-select, All-order_by, All-take, length-take,
}
use iam_rust_auth.Base.Int.{ℤ, pos, negsuc}
use iam_rust_auth.Db.{Db, Uuid, AuditRow}
use iam_rust_auth.World.{Env, World, ok, query, statement}
use iam_rust_auth.Repo.{list_audit}
use iam_rust_auth.Service.{
  MetadataMap, AuditEvent, audit_event, list_audit_events, page_size, require_perm, lists_perm,
  get_text, active_tenant, meta,
}

-- The length of a page: what is asked for, from one to two hundred, and else fifty.
abbrev pub IsLimit : ℤ → ℕ → Type 0
IsLimit (pos asked) n =
    (1 ≤ asked) × (asked ≤ 200) × (n ≡ asked) ⊎ ((asked ≡ 0) ⊎ (200 < asked)) × (n ≡ 50)
IsLimit (negsuc asked) n = n ≡ 50

page_size-IsLimit : (limit : ℤ) → IsLimit limit (page_size limit)
unfolding page_size
page_size-IsLimit (pos zero) = inr (inl refl, refl)
page_size-IsLimit (pos (suc n)) = elim (Bool-cases (ltb 200 (suc n))) [
  | inl over ↦ inr (inr (ground arith), ground arith)
  | inr fits ↦ inl (omega arith, ground arith, ground arith)
]
page_size-IsLimit (negsuc n) = refl

-- Each row is newer than those behind it, or as new.
abbrev pub IsNewestFirst : List AuditRow → Type 0
IsNewestFirst [] = Unit
IsNewestFirst (r ∷ rs) = All (λ s. s.id ≤ r.id) rs × IsNewestFirst rs

abbrev newer : AuditRow → AuditRow → Bool
newer a b = leb b.id a.id

All-le_trans :
    (a b : ℕ) (rs : List AuditRow) → a ≤ b → All (λ s. s.id ≤ a) rs → All (λ s. s.id ≤ b) rs
All-le_trans a b [] h all = tt
All-le_trans a b (r ∷ rs) h (p, all) = (omega arith, All-le_trans a b rs h all)

All-insert_newer :
    (a : ℕ) (r : AuditRow) (rs : List AuditRow)
    → r.id ≤ a
    → All (λ s. s.id ≤ a) rs
    → All (λ s. s.id ≤ a) (insert_by newer r rs)
unfolding insert_by
All-insert_newer a r [] h all = (h, tt)
All-insert_newer a r (s ∷ rs) h (p, all) = ground (arith, All-insert_newer a r rs h all)

insert_newer-IsNewestFirst :
    (r : AuditRow) (rs : List AuditRow) → IsNewestFirst rs → IsNewestFirst (insert_by newer r rs)
unfolding insert_by
insert_newer-IsNewestFirst r [] h = (tt, tt)
insert_newer-IsNewestFirst r (s ∷ rs) (all, h) = elim (Bool-cases (leb s.id r.id)) [
  | inl e ↦ ground (arith, All-le_trans s.id r.id rs)
  | inr e ↦ ground (arith, All-insert_newer s.id r rs, insert_newer-IsNewestFirst r rs h)
]

order_newer-IsNewestFirst : (rs : List AuditRow) → IsNewestFirst (order_by newer rs)
unfolding order_by
order_newer-IsNewestFirst [] = tt
order_newer-IsNewestFirst (r ∷ rs) =
    insert_newer-IsNewestFirst r (order_by newer rs) (order_newer-IsNewestFirst rs)

take-IsNewestFirst : (n : ℕ) (rs : List AuditRow) → IsNewestFirst rs → IsNewestFirst (take n rs)
take-IsNewestFirst zero rs h = tt
take-IsNewestFirst (suc n) [] h = tt
take-IsNewestFirst (suc n) (r ∷ rs) (all, h) =
    (All-take (λ s. s.id ≤ r.id) n rs all, take-IsNewestFirst n rs h)

-- The rows that `list_audit` selects.
abbrev pub page : Uuid → ℕ → Db → List AuditRow
page tenant n d =
    take n (order_by newer (select (λ e. column_eq e.tenant_id tenant) d.audit_events))

lists :
    (md : MetadataMap) (limit : ℤ) (env : Env) (w w' : World) (events : List AuditEvent)
    → list_audit_events md limit env w ≡ (ok events, w')
    → (lists_perm (get_text md "x-user-permissions") "audit:read" ≡ true)
      × ((tenant : Uuid) × (env.parse_uuid (meta md "x-tenant-id") ≡ some tenant)
          × (events ≡ map (audit_event env) (page tenant (page_size limit) w.db)))
unfolding list_audit_events require_perm active_tenant list_audit query statement
lists md limit env w w' events h = elim (Option-cases (env.parse_uuid (meta md "x-tenant-id"))) [
  | inl e ↦ absurd (ground arith)
  | inr (tenant, e) ↦ (ground arith, (tenant, e, ground arith))
]

length-map : {A B : Type 0} (f : A → B) (xs : List A) → length (map f xs) ≡ length xs
length-map f [] = refl
length-map f (x ∷ xs) = ap suc (length-map f xs)

-- Events are read only by callers who hold audit:read. They are the latest rows of the caller's own
-- tenant, the newest first, and no more than the caller asks for, if that is from one to two
-- hundred, or else fifty.
pub list_audit_events-IsPage :
    (md : MetadataMap) (limit : ℤ) (env : Env) (w w' : World) (events : List AuditEvent)
    → list_audit_events md limit env w ≡ (ok events, w')
    → (lists_perm (get_text md "x-user-permissions") "audit:read" ≡ true)
      × ((tenant : Uuid) × (n : ℕ) × (env.parse_uuid (meta md "x-tenant-id") ≡ some tenant)
          × IsLimit limit n
          × (length events ≤ n)
          × (events ≡ map (audit_event env) (page tenant n w.db))
          × All (λ r. column_eq r.tenant_id tenant ≡ true) (page tenant n w.db)
          × IsNewestFirst (page tenant n w.db))
list_audit_events-IsPage md limit env w w' events h =
    let (allowed, found) = lists md limit env w w' events h in
    let (tenant, parsed, shown) = found in
    let n = page_size limit in
    let rows = select (λ (r : AuditRow). column_eq r.tenant_id tenant) w.db.audit_events in
    (
      allowed,
      (
        tenant,
        n,
        parsed,
        page_size-IsLimit limit,
        omega (
          arith,
          ap length shown,
          length-map (audit_event env) (page tenant n w.db),
          length-take n (order_by newer rows),
        ),
        shown,
        All-take (λ r. column_eq r.tenant_id tenant ≡ true) n (order_by newer rows)
            (All-order_by (λ r. column_eq r.tenant_id tenant ≡ true) newer rows
              (All-select (λ r. column_eq r.tenant_id tenant) w.db.audit_events)),
        take-IsNewestFirst n (order_by newer rows) (order_newer-IsNewestFirst rows),
      ),
    )
