-- ===== src/World/Success.antt =====
-- What an action that has succeeded tells of its parts.
use iam_rust_auth.Base.{◌≡◌, subst, inl, inr, arith, Result-cases, Result, ok}
use iam_rust_auth.Db.{Db}
use iam_rust_auth.World.State.{World, Env}
use iam_rust_auth.World.Monad.{
  Action, Status, or_status, and_then, ◌>>=◌, run-cases, SqlError, statement, execute,
}

-- A sequence succeeds if its first part does, and the rest does from there.
pub bind-ok :
    {E A B : Type 0} (m : Action E A) (f : A → Action E B) (env : Env) (w w₂ : World) (b : B)
    → (m >>= f) env w ≡ (ok b, w₂)
    → (a : A) × (w₁ : World) × (m env w ≡ (ok a, w₁)) × (f a env w₁ ≡ (ok b, w₂))
bind-ok m f env w w₂ b h = elim (run-cases (m env w)) [
  | inl (a, w₁, e) ↦ (a, w₁, e, subst (λ x. and_then x.0 f env x.1 ≡ (ok b, w₂)) e h)
  | inr (n, w₁, e) ↦
      let failed = subst (λ x. and_then x.0 f env x.1 ≡ (ok b, w₂)) e h in absurd (ground (arith))
]

-- A statement that succeeds has run on the database, and drawn no random value.
pub statement-ok :
    {A : Type 0} (run : Db → Result SqlError (A × Db)) (env : Env) (w w₁ : World) (a : A)
    → statement run env w ≡ (ok a, w₁)
    → (run w.db ≡ ok (a, w₁.db)) × (w₁.draws ≡ w.draws)
unfolding statement
statement-ok run env w w₁ a h = elim (Result-cases (run w.db)) [
  | inl ((a', d), e) ↦ (ground (arith), ground (arith))
  | inr (n, e) ↦ absurd (ground (arith))
]

pub execute-ok :
    (f : Db → Db) (env : Env) (w w₁ : World)
    → execute f env w ≡ (ok tt, w₁)
    → (w₁.db ≡ f w.db) × (w₁.draws ≡ w.draws)
unfolding execute statement
execute-ok f env w w₁ h = (ground (arith), ground (arith))

-- An action whose errors are turned into a status has succeeded with what it succeeds with.
pub or_status-ok :
    {A : Type 0} (e : Status) (m : Action SqlError A) (env : Env) (w w' : World) (a : A)
    → or_status e m env w ≡ (ok a, w')
    → m env w ≡ (ok a, w')
or_status-ok e m env w w' a h = elim (run-cases (m env w)) [
  | inl (b, v, f) ↦ ground arith
  | inr (n, v, f) ↦ absurd (ground arith)
]
