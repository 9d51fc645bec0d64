-- ===== src/Base/Int.antt =====
-- The signed numbers (`i64`, `i32`) that settings, requests and claims carry.
use Prim.Native.Nat.{ℕ, suc, ◌+◌, ◌-◌, ◌*◌}
use mathlib.Core.Bool.{Bool, true, false}
use iam_rust_auth.Base.Tests.{ltb, leb, if◌then◌else◌}

-- `negsuc n` is -(n + 1).
pub data ℤ : Type 0 where
  pos : ℕ → ℤ
  negsuc : ℕ → ℤ

-- `z > 0`
abbrev pub is_pos : ℤ → Bool
is_pos (pos n) = ltb 0 n
is_pos (negsuc _) = false

-- `z <= 0`
abbrev pub is_nonpos : ℤ → Bool
is_nonpos (pos n) = leb n 0
is_nonpos (negsuc _) = true

-- `z as u64`, for a `z` that is not negative.
abbrev pub to_ℕ : ℤ → ℕ
to_ℕ (pos n) = n
to_ℕ (negsuc _) = 0

-- `n >= z`, for a count `n`.
abbrev pub reaches : ℕ → ℤ → Bool
reaches n (pos m) = leb m n
reaches n (negsuc _) = true

-- a - b, as an integer.
abbrev pub sub_ℕ : ℕ → ℕ → ℤ
sub_ℕ a b = if leb b a then pos (a - b) else negsuc (b - a - 1)

-- Microseconds in a second: the resolution of Postgres's TIMESTAMPTZ.
abbrev pub second : ℕ
second = 1_000_000

-- `t + Duration::seconds(z)` in microseconds since 1970, which is as early as an instant goes here.
abbrev pub add_seconds : ℕ → ℤ → ℕ
add_seconds t (pos n) = t + n * second
add_seconds t (negsuc n) = t - suc n * second
