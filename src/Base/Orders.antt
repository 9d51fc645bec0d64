-- ===== src/Base/Orders.antt =====
-- What ORDER BY and LIMIT keep of the rows.
use Prim.Native.Nat.{ℕ, zero, suc, ◌≤◌}
use mathlib.Core.Path.{◌≡◌, refl}
use mathlib.Core.Logic.{inl, inr}
use mathlib.Core.Bool.{Bool, ◌&&◌}
use mathlib.Core.List.{List, [], ◌∷◌}
use native.Mathlib.Omega.{arith}
use iam_rust_auth.Base.Tests.{Bool-cases}
use iam_rust_auth.Base.Rows.{All, length, take, count, select, insert_by, order_by}

module _ {A : Type 0} where
  pub All-take : (P : A → Type 0) (n : ℕ) (xs : List A) → All P xs → All P (take n xs)
  All-take P zero xs h = tt
  All-take P (suc n) [] h = tt
  All-take P (suc n) (x ∷ xs) (p, h) = (p, All-take P n xs h)

  pub length-take : (n : ℕ) (xs : List A) → length (take n xs) ≤ n
  length-take zero xs = omega arith
  length-take (suc n) [] = omega arith
  length-take (suc n) (x ∷ xs) = omega (arith, length-take n xs)

module _ {A : Type 0} (P : A → Type 0) (le : A → A → Bool) where
  All-insert_by : (x : A) (xs : List A) → P x → All P xs → All P (insert_by le x xs)
  unfolding insert_by
  All-insert_by x [] p all = (p, tt)
  All-insert_by x (y ∷ ys) p (q, all) = elim (Bool-cases (le x y)) [
    | inl e ↦ rw e (p, (q, all))
    | inr e ↦ rw e (q, All-insert_by x ys p all)
  ]

  pub All-order_by : (xs : List A) → All P xs → All P (order_by le xs)
  unfolding order_by
  All-order_by [] all = tt
  All-order_by (x ∷ xs) (p, all) = All-insert_by x (order_by le xs) p (All-order_by xs all)

module _ {A : Type 0} (q : A → Bool) where
  -- Sorting keeps how many rows satisfy a condition, and a limit adds none.
  count-insert_by :
      (le : A → A → Bool) (x : A) (xs : List A) → count q (insert_by le x xs) ≡ count q (x ∷ xs)
  unfolding count insert_by
  count-insert_by le x [] = refl
  count-insert_by le x (y ∷ ys) = ground (arith, count-insert_by le x ys)

  pub count-order_by : (le : A → A → Bool) (xs : List A) → count q (order_by le xs) ≡ count q xs
  unfolding order_by count
  count-order_by le [] = refl
  count-order_by le (x ∷ xs) =
      ground (arith, count-insert_by le x (order_by le xs), count-order_by le xs)

  pub count-take : (n : ℕ) (xs : List A) → count q (take n xs) ≤ count q xs
  unfolding count
  count-take zero xs = ground arith
  count-take (suc n) [] = omega arith
  count-take (suc n) (x ∷ xs) = ground (arith, count-take n xs)

  pub count-select :
      (p : A → Bool) (xs : List A) → count q (select p xs) ≡ count (λ x. p x && q x) xs
  unfolding count select
  count-select p [] = refl
  count-select p (x ∷ xs) = ground (arith, count-select p xs)
