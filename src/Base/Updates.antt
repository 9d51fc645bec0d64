-- ===== src/Base/Updates.antt =====
-- What UPDATE and DELETE change, and what they leave.
use mathlib.Core.Path.{◌≡◌, refl}
use mathlib.Core.Bool.{Bool, false}
use mathlib.Core.Option.{Option, none, some}
use mathlib.Core.Option
use mathlib.Core.List.{List, [], ◌∷◌}
use native.Mathlib.Omega.{arith}
use iam_rust_auth.Base.Tests.{if◌then◌else◌}
use iam_rust_auth.Base.Rows.{find?, exists, update, delete, count}

module _ {ℓ} {A : Type ℓ} where
  -- A condition that an update leaves as it is finds the same row, updated.
  pub find?-update :
      (q p : A → Bool) (f : A → A) (xs : List A)
      → ((x : A) → q (f x) ≡ q x)
      → find? q (update p f xs) ≡ Option.map (λ x. if p x then f x else x) (find? q xs)
  unfolding find? update
  find?-update q p f [] h = refl
  find?-update q p f (x ∷ xs) h = ground (arith, h x, find?-update q p f xs h)

  pub exists-update :
      (q p : A → Bool) (f : A → A) (xs : List A)
      → ((x : A) → q (f x) ≡ q x)
      → exists q (update p f xs) ≡ exists q xs
  unfolding exists update
  exists-update q p f [] h = refl
  exists-update q p f (x ∷ xs) h = ground (arith, h x, exists-update q p f xs h)

  -- An update that makes its condition false leaves no row that satisfies it.
  pub exists-update_self :
      (p : A → Bool) (f : A → A) (xs : List A)
      → ((x : A) → p (f x) ≡ false)
      → exists p (update p f xs) ≡ false
  unfolding exists update
  exists-update_self p f [] h = refl
  exists-update_self p f (x ∷ xs) h = ground (arith, h x, exists-update_self p f xs h)

  -- A deletion that spares the first row found leaves it the first found.
  pub find?-delete :
      (q p : A → Bool) (xs : List A) (x : A)
      → find? q xs ≡ some x
      → p x ≡ false
      → find? q (delete p xs) ≡ some x
  unfolding find? delete
  find?-delete q p [] x e h = e
  find?-delete q p (y ∷ ys) x e h = ground (arith, find?-delete q p ys x)

  pub exists-delete : (p : A → Bool) (xs : List A) → exists p (delete p xs) ≡ false
  unfolding exists delete
  exists-delete p [] = refl
  exists-delete p (x ∷ xs) = ground (arith, exists-delete p xs)

  pub count-exists : (p : A → Bool) (xs : List A) → count p xs ≡ 0 → exists p xs ≡ false
  unfolding exists count
  count-exists p [] h = refl
  count-exists p (x ∷ xs) h = ground (arith, count-exists p xs)

  pub count-none : (p : A → Bool) (xs : List A) → exists p xs ≡ false → count p xs ≡ 0
  unfolding exists count
  count-none p [] h = refl
  count-none p (x ∷ xs) h = ground (arith, count-none p xs)
