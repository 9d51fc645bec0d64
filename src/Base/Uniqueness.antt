-- ===== src/Base/Uniqueness.antt =====
-- What INSERT, UPDATE and DELETE do to a unique index and to a CHECK on the rows.
use Prim.Native.Nat.{◌+◌, ◌≤◌}
use mathlib.Core.Path.{◌≡◌, refl}
use mathlib.Core.Logic.{inl, inr}
use mathlib.Core.Bool.{Bool, true, false, ◌&&◌}
use mathlib.Core.Option.{some}
use mathlib.Core.List.{List, [], ◌∷◌, ◌++◌}
use native.Mathlib.Omega.{arith}
use iam_rust_auth.Base.Tests.{Bool-cases}
use iam_rust_auth.Base.Rows.{find?, exists, update, delete, count}
use iam_rust_auth.Base.Updates.{count-none, count-exists}

module _ {A : Type 0} where
  pub count-append :
      (q : A → Bool) (xs : List A) (x : A) → count q (xs ++ x ∷ []) ≡ count q xs + count q (x ∷ [])
  unfolding count
  count-append q [] x = ground arith
  count-append q (y ∷ ys) x = ground (arith, count-append q ys x)

  pub count-update :
      (q p : A → Bool) (f : A → A) (xs : List A)
      → ((x : A) → q (f x) ≡ q x)
      → count q (update p f xs) ≡ count q xs
  unfolding count update
  count-update q p f [] h = refl
  count-update q p f (x ∷ xs) h = ground (arith, h x, count-update q p f xs h)

  pub count-delete : (q p : A → Bool) (xs : List A) → count q (delete p xs) ≤ count q xs
  unfolding count delete
  count-delete q p [] = omega arith
  count-delete q p (x ∷ xs) = ground (arith, count-delete q p xs)

  pub exists-delete-false :
      (q p : A → Bool) (xs : List A) → exists q xs ≡ false → exists q (delete p xs) ≡ false
  unfolding exists delete
  exists-delete-false q p [] h = refl
  exists-delete-false q p (x ∷ xs) h = ground (arith, exists-delete-false q p xs)

  -- An update that breaks no row, as long as `r` holds of none that it changes.
  pub exists-update-false :
      (q p r : A → Bool) (f : A → A) (xs : List A)
      → ((x : A) → p x ≡ true → r x ≡ false → q x ≡ false → q (f x) ≡ false)
      → exists (λ x. p x && r x) xs ≡ false
      → exists q xs ≡ false
      → exists q (update p f xs) ≡ false
  unfolding exists update
  exists-update-false q p r f [] k n h = refl
  exists-update-false q p r f (x ∷ xs) k n h = ground (arith, k x, exists-update-false q p r f xs k)

  pub exists-nothing : (p : A → Bool) (xs : List A) → exists (λ x. p x && false) xs ≡ false
  unfolding exists
  exists-nothing p [] = refl
  exists-nothing p (x ∷ xs) = ground (arith, exists-nothing p xs)

  pub exists_mono :
      (q p : A → Bool) (xs : List A)
      → ((x : A) → q x ≡ true → p x ≡ true)
      → exists p xs ≡ false
      → exists q xs ≡ false
  unfolding exists
  exists_mono q p [] k h = refl
  exists_mono q p (x ∷ xs) k h = ground (arith, k x, exists_mono q p xs k)

  -- The INSERT of a row that the index has seen no equal of.
  pub count-append_fresh :
      (q p : A → Bool) (xs : List A) (x : A)
      → (q x ≡ true → (y : A) → q y ≡ true → p y ≡ true)
      → exists p xs ≡ false
      → count q xs ≤ 1
      → count q (xs ++ x ∷ []) ≤ 1
  unfolding count
  count-append_fresh q p xs x k h le = elim (Bool-cases (q x)) [
    | inl e ↦ ground (arith, count-append q xs x, count-none q xs (exists_mono q p xs (k e) h))
    | inr e ↦ ground (arith, count-append q xs x)
  ]

  -- Where the index is unique, what holds of the row found holds of every row of its key.
  pub exists-found :
      (q p : A → Bool) (xs : List A) (x : A)
      → count q xs ≤ 1
      → find? q xs ≡ some x
      → p x ≡ false
      → exists (λ y. q y && p y) xs ≡ false
  unfolding exists find? count
  exists-found q p [] x le e h = refl
  exists-found q p (y ∷ ys) x le e h = elim (Bool-cases (q y)) [
    | inl f ↦ ground (
      arith,
      exists_mono (λ z. q z && p z) q ys (λ z g. ground arith) (count-exists q ys (ground arith)),
    )
    | inr f ↦ ground (arith, exists-found q p ys x)
  ]
