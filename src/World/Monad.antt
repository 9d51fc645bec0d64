-- ===== src/World/Monad.antt =====
-- The service's functions as actions on the `World`: each ends with a value or an error, and leaves
-- a state in both cases.
pub use iam_rust_auth.Base.{Result, ok, err}
use iam_rust_auth.Base.{
  ℕ, suc, ◌≡◌, refl, ◌⊎◌, inl, inr, Bool, true, false, Option, none, some, String, if◌then◌else◌,
}
use iam_rust_auth.Db.{Db}
use iam_rust_auth.World.State.{World, Env}

-- `tonic::Status`: a code and its message.
pub data Status : Type 0 where
  invalid_argument unauthenticated permission_denied not_found : String → Status
  already_exists failed_precondition internal : String → Status

-- `sqlx::Error`: the connection fails, a constraint refuses, no row, a value out of range, or a
-- scalar subquery with several rows.
pub data SqlError : Type 0 where
  unavailable unique_violation foreign_key_violation : SqlError
  row_not_found out_of_range too_many_rows : SqlError

abbrev pub Action : Type 0 → Type 0 → Type 0
Action E A = Env → World → Result E A × World

module _ {E A : Type 0} where
  abbrev pub pure : A → Action E A
  pure a env w = (ok a, w)

  abbrev pub fail : E → Action E A
  fail e env w = (err e, w)

  abbrev pub asks : (Env → A) → Action E A
  asks f env w = (ok (f env), w)

  abbrev pub gets : (World → A) → Action E A
  gets f env w = (ok (f w), w)

  -- `o.ok_or(e)`
  abbrev pub ok_or : E → Option A → Action E A
  ok_or e none env w = (err e, w)
  ok_or e (some a) env w = (ok a, w)

abbrev pub modify : {E : Type 0} → (World → World) → Action E Unit
modify f env w = (ok tt, f w)

module _ {E A B : Type 0} where
  abbrev pub and_then : Result E A → (A → Action E B) → Action E B
  and_then (ok a) f env w = f a env w
  and_then (err e) f env w = (err e, w)

  infixl 5 ◌>>=◌ ◌>>◌
  abbrev pub ◌>>=◌ : Action E A → (A → Action E B) → Action E B
  ◌>>=◌ m f env w = let (r, w') = m env w in and_then r f env w'

  abbrev pub ◌>>◌ : Action E A → Action E B → Action E B
  m >> k = m >>= λ _. k

-- `if !b { return Err(e) }`
abbrev pub require : {E : Type 0} → Bool → E → Action E Unit
require true e env w = (ok tt, w)
require false e env w = (err e, w)

-- `if b { return Err(e) }`
abbrev pub refuse_if : {E : Type 0} → Bool → E → Action E Unit
refuse_if true e env w = (err e, w)
refuse_if false e env w = (ok tt, w)

-- `m.map_err(|_| e)`
abbrev pub or_status : {E F A : Type 0} → F → Action E A → Action F A
or_status e m env w = let (r, w') = m env w in (elim r [ ok a ↦ ok a | err _ ↦ err e ], w')

-- `match m { Ok(a) => …, Err(_) => … }`
abbrev pub attempt : {E F A : Type 0} → Action E A → Action F (Option A)
attempt m env w = let (r, w') = m env w in (elim r [ ok a ↦ ok (some a) | err _ ↦ ok none ], w')

-- `let _ = m`: the result is dropped.
abbrev pub ignore : {E F A : Type 0} → Action E A → Action F Unit
ignore m env w = let (r, w') = m env w in (ok tt, w')

-- `if b { m }`
abbrev pub when : {E : Type 0} → Bool → Action E Unit → Action E Unit
when true m env w = m env w
when false m env w = (ok tt, w)

-- The next random value, drawn from the n-th position.
abbrev pub draw : {E A : Type 0} → (Env → ℕ → A) → Action E A
draw f env w = (ok (f env w.draws), record w { draws = suc w.draws })

-- One statement sent to Postgres. It fails where the schedule of failures says so, and then has
-- changed nothing; else it runs, or a constraint refuses it.
abbrev pub settle : {A : Type 0} → World → Result SqlError (A × Db) → Result SqlError A × World
settle w (ok (a, d)) = (ok a, record w { db = d })
settle w (err e) = (err e, w)

unfoldable pub statement : {A : Type 0} → (Db → Result SqlError (A × Db)) → Action SqlError A
statement run env w =
    let w' = record w { calls = suc w.calls } in
    if env.db_fails w.calls then (err unavailable, w') else settle w' (run w.db)

-- A SELECT.
unfoldable pub query : {A : Type 0} → (Db → A) → Action SqlError A
unfolding statement
query f = statement (λ d. ok (f d, d))

-- An INSERT, UPDATE or DELETE that no constraint can refuse.
unfoldable pub execute : (Db → Db) → Action SqlError Unit
unfolding statement
execute f = statement (λ d. ok (tt, f d))

-- `begin`, the statements, `commit`: an error on the way, or of the commit, rolls all back.
abbrev pub restore : {A : Type 0} → World → Result SqlError A × World → Result SqlError A × World
restore w (ok a, w') = (ok a, w')
restore w (err e, w') = (err e, record w' { db = w.db })

unfoldable pub transaction : {A : Type 0} → Action SqlError A → Action SqlError A
unfolding execute
transaction m env w = restore w ((do execute (λ d. d); a ← m; execute (λ d. d); pure a) env w)

-- An action ends with a value or with an error.
pub run-cases :
    {E A : Type 0} (x : Result E A × World)
    → ((a : A) × (w : World) × (x ≡ (ok a, w))) ⊎ ((e : E) × (w : World) × (x ≡ (err e, w)))
run-cases (ok a, w) = inl (a, w, refl)
run-cases (err e, w) = inr (e, w, refl)
