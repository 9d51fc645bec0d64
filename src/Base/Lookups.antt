-- ===== src/Base/Lookups.antt =====
-- What SELECT and EXISTS find.
use mathlib.Core.Path.{◌≡◌, refl}
use mathlib.Core.Logic.{inl, inr}
use mathlib.Core.Bool.{Bool, true, false, ◌||◌}
use mathlib.Core.Option.{none, some}
use mathlib.Core.List.{List, [], ◌∷◌, ◌++◌}
use native.Mathlib.Omega.{arith}
use iam_rust_auth.Base.Tests.{if◌then◌else◌, is_some, Bool-cases}
use iam_rust_auth.Base.Rows.{find?, select, exists, All}

module _ {ℓ} {A : Type ℓ} (p : A → Bool) where
  -- A row that is found satisfies the condition.
  pub find?-holds : (xs : List A) (x : A) → find? p xs ≡ some x → p x ≡ true
  unfolding find?
  find?-holds [] x h = cc
  find?-holds (y ∷ ys) x h = elim (Bool-cases (p y)) [
    | inl e ↦ ground (arith, find?-holds ys x)
    | inr e ↦ find?-holds ys x (ground arith)
  ]

  pub find?-append :
      (xs ys : List A)
      → find? p (xs ++ ys) ≡ (if is_some (find? p xs) then find? p xs else find? p ys)
  unfolding find?
  find?-append [] ys = refl
  find?-append (x ∷ xs) ys = ground (arith, find?-append xs ys)

  pub exists-append : (xs ys : List A) → exists p (xs ++ ys) ≡ (exists p xs || exists p ys)
  unfolding exists
  exists-append [] ys = refl
  exists-append (x ∷ xs) ys = ground (arith, exists-append xs ys)

  -- A row exists exactly when one is found.
  pub exists-find? : (xs : List A) → exists p xs ≡ is_some (find? p xs)
  unfolding exists find?
  exists-find? [] = refl
  exists-find? (x ∷ xs) = ground (arith, exists-find? xs)

  pub find?-none : (xs : List A) → exists p xs ≡ false → find? p xs ≡ none
  unfolding exists find?
  find?-none [] h = refl
  find?-none (x ∷ xs) h = ground (arith, find?-none xs)

  pub All-select : (xs : List A) → All (λ x. p x ≡ true) (select p xs)
  unfolding select
  All-select [] = tt
  All-select (x ∷ xs) = ground (arith, All-select xs)
