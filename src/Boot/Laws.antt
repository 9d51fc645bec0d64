-- ===== src/Boot/Laws.antt =====
-- The start of the service (src/main.rs).
use iam_rust_auth.Base.{
  ltb, not, ◌||◌, ℕ, zero, suc, ◌+◌, ◌<◌, ◌≤◌, ◌≡◌, sym, ◌==◌, ==_iff, ◌∙◌, ◌⊎◌, ◌↔◌, inl, inr,
  Bool, true, false, some, arith, eq_iff, eq_refl, is_empty, Bool-cases, Option-cases, ap,
}
use iam_rust_auth.Service.{MetadataMap, get_text}
use iam_rust_auth.Boot.Defs.{
  InternalAuth, check, connect_from, connect_with_retry, connect_attempts,
}

-- The internal call is let through without a token, or with the one that is configured.
abbrev pub IsTrusted : InternalAuth → MetadataMap → Type 0
IsTrusted auth md =
    ((is_empty auth.token ≡ true) × (auth.is_optional ≡ true))
    ⊎ ((is_empty auth.token ≡ false) × (get_text md "x-internal-token" ≡ some auth.token))

-- A call is let through exactly if its metadata have the configured token, or no token is
-- configured and the setting makes it optional.
pub check-IsTrusted :
    (auth : InternalAuth) (md : MetadataMap) → (check auth md ≡ true) ↔ IsTrusted auth md
unfolding check
check-IsTrusted auth md = (
  λ h. elim (Bool-cases (is_empty auth.token)) [
    | inl e ↦ inl (e, ground (arith))
    | inr e ↦ elim (Option-cases (get_text md "x-internal-token")) [
      | inl n ↦ absurd (ground (arith))
      | inr (t, f) ↦ inr (e, f ∙ ap some ((eq_iff t auth.token).0 (ground (arith))))
    ]
  ],
  λ h. elim h [ inl (e, o) ↦ ground (arith) | inr (e, f) ↦ ground (arith, eq_refl auth.token) ],
)

connect_from-first :
    (left i : ℕ) (outcomes : ℕ → Bool) (k : ℕ)
    → connect_from left i outcomes ≡ some k
    → (i ≤ k)
      × (k < i + left)
      × (outcomes k ≡ true)
      × ((j : ℕ) → i ≤ j → j < k → outcomes j ≡ false)
unfolding connect_from
connect_from-first zero i outcomes k h = absurd (ground (arith))
connect_from-first (suc left) i outcomes k h = elim (Bool-cases (outcomes i)) [
  | inl e ↦
      let same : i ≡ k = ground (arith) in
      (ground (arith), ground (arith), ground (arith), (λ j a b. absurd (ground (arith))))
  | inr e ↦
      let (low, high, up, down) = connect_from-first left (suc i) outcomes k (ground (arith)) in
      (
        ground (arith),
        ground (arith),
        up,
        (λ j a b. elim (Bool-cases (i == j)) [
          | inl same ↦ ap outcomes (sym ((==_iff i j).0 same)) ∙ e
          | inr differ ↦ down j (ground (arith)) b
        ]),
      )
]

-- The connection that is used, if there is one, is of the first attempt that succeeds, among
-- fifteen.
pub connect_with_retry-first :
    (outcomes : ℕ → Bool) (k : ℕ)
    → connect_with_retry outcomes ≡ some k
    → (k < 15) × (outcomes k ≡ true) × ((j : ℕ) → (not (ltb j k) || not (outcomes j)) ≡ true)
unfolding connect_with_retry
connect_with_retry-first outcomes k h =
    let (low, high, up, down) = connect_from-first connect_attempts 0 outcomes k h in
    (
      high,
      up,
      (λ j. elim (Bool-cases (ltb j k)) [
        | inl e ↦ ground (arith, down j (ground (arith)) (ground (arith)))
        | inr e ↦ ground (arith)
      ]),
    )
