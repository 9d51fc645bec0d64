-- ===== src/Codes/Race.antt =====
-- Exchanges of one code that run at the same time (src/grpc.rs, `exchange_authorization_code`): each
-- looks the row up and then claims it, and the statements of several requests interleave.
use iam_rust_auth.Base.{
  not, ◌||◌, ℕ, suc, ◌≤◌, ◌≡◌, refl, ◌⊎◌, inl, inr, ap, ◌∙◌, String, Bool, true, false, some, arith,
  Bool-cases, exists, update, exists-update_self, count, count-none,
}
use iam_rust_auth.Db.{Db}
use iam_rust_auth.World.{Env, World, ok, statement}
use iam_rust_auth.Repo.{claim_code, is_unclaimed}
use iam_rust_auth.Service.{is_claimed}

-- The code can still be claimed.
abbrev pub is_open : String → Db → Bool
is_open hash d = exists (is_unclaimed hash) d.oauth_authorization_codes

-- The requests' statements, in the order in which they reach the database, and how many requests
-- have won the code so far. A request's claim may run at any time, under its own environment and with
-- any count of statements behind it; other statements may change what they like, but open no code.
pub data Race (hash : String) : Db → Db → ℕ → Type 0 where
  start : (d : Db) → Race hash d d 0
  won :
      (d₀ d : Db) (n : ℕ) (env : Env) (w : World) (k : ℕ)
      → Race hash d₀ d n
      → w.db ≡ d
      → (claim_code hash env w).0 ≡ ok k
      → is_claimed (some k) ≡ true
      → Race hash d₀ (claim_code hash env w).1.db (suc n)
  lost :
      (d₀ d : Db) (n : ℕ) (env : Env) (w : World)
      → Race hash d₀ d n
      → w.db ≡ d
      → Race hash d₀ (claim_code hash env w).1.db n
  other :
      (d₀ d d' : Db) (n : ℕ)
      → Race hash d₀ d n
      → (not (is_open hash d') || is_open hash d) ≡ true
      → Race hash d₀ d' n

claim_closes :
    (hash : String) (env : Env) (w : World) (k : ℕ)
    → (claim_code hash env w).0 ≡ ok k
    → (is_open hash (claim_code hash env w).1.db ≡ false)
      × (k ≡ count (is_unclaimed hash) w.db.oauth_authorization_codes)
unfolding claim_code statement
claim_closes hash env w k h =
    let closed : exists (is_unclaimed hash) (
          update (is_unclaimed hash) (λ c. record c { used = true }) w.db.oauth_authorization_codes)
        ≡ false =
      exists-update_self (is_unclaimed hash) (λ c. record c { used = true })
        w.db.oauth_authorization_codes (λ c. ground arith) in
    (ground (arith, closed), ground arith)

claim_reopens_none :
    (hash : String) (env : Env) (w : World)
    → is_open hash w.db ≡ false
    → is_open hash (claim_code hash env w).1.db ≡ false
unfolding claim_code statement
claim_reopens_none hash env w shut = ground (
  arith,
  exists-update_self (is_unclaimed hash) (λ c. record c { used = true })
      w.db.oauth_authorization_codes (λ c. ground arith),
)

closed-count :
    (hash : String) (d : Db)
    → is_open hash d ≡ false
    → count (is_unclaimed hash) d.oauth_authorization_codes ≡ 0
closed-count hash d shut = count-none (is_unclaimed hash) d.oauth_authorization_codes shut

-- Once a request has won the code it is closed, so no second one wins it.
race :
    {hash : String} {d₀ d : Db} {n : ℕ}
    → Race hash d₀ d n
    → (n ≡ 0) ⊎ (n ≡ 1) × (is_open hash d ≡ false)
race (start d) = inl refl
race {hash} (won d₀ d n env w k r same ran one) =
    let (closed, counted) = claim_closes hash env w k ran in
    elim (race r) [
      | inl z ↦ inr (ap suc z, closed)
      | inr (z, shut) ↦
          let none_left : count (is_unclaimed hash) w.db.oauth_authorization_codes ≡ 0 =
            closed-count hash w.db (ap (is_open hash) same ∙ shut) in
          absurd (ground (arith, counted, none_left))
    ]
race {hash} (lost d₀ d n env w r same) = elim (race r) [
  | inl z ↦ inl z
  | inr (z, shut) ↦ inr (z, claim_reopens_none hash env w (ap (is_open hash) same ∙ shut))
]
race {hash} (other d₀ d d' n r closes) = elim (race r) [
  | inl z ↦ inl z
  | inr (z, shut) ↦ inr (
    z,
    elim (Bool-cases (is_open hash d')) [ inl reopened ↦ absurd (ground (arith)) | inr e ↦ e ],
  )
]

-- However the statements of concurrent exchanges interleave, and whichever of them fail, at most one
-- exchange of a code gets past the claim.
pub race-once : {hash : String} {d₀ d : Db} {n : ℕ} → Race hash d₀ d n → n ≤ 1
race-once r = elim (race r) [ inl z ↦ ground arith | inr (z, _) ↦ ground arith ]
