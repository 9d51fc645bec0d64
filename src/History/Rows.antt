-- ===== src/History/Rows.antt =====
-- How the rows of a table outlive its statements (src/repo.rs): those that are found by a key stay,
-- and change only as a relation on rows says; and tables that are only added to.
use iam_rust_auth.Base.{
  ◌≡◌, sym, String, Bool, true, false, some, List, [], ◌++◌, arith, if◌then◌else◌, find?, update,
  delete, find?-append, find?-update, find?-delete,
}
use mathlib.Core.List.{append-nil, append_assoc}

-- `ys` is `xs` with rows added at its end.
abbrev pub IsPrefix : {A : Type 0} → List A → List A → Type 0
IsPrefix {A} xs ys = (zs : List A) × (ys ≡ xs ++ zs)

module _ {A : Type 0} where
  pub IsPrefix-refl : (xs : List A) → IsPrefix xs xs
  IsPrefix-refl xs = ([], sym (append-nil xs))

  pub IsPrefix-trans : (xs ys zs : List A) → IsPrefix xs ys → IsPrefix ys zs → IsPrefix xs zs
  IsPrefix-trans xs ys zs (us, p) (vs, q) = (us ++ vs, rw (q, p) (append_assoc xs us vs))

-- Each row of `xs` that is `mine`, as a key finds it, is found by that key in `ys`, and `Moves` to
-- what is found.
module _ {A : Type 0} (is : String → A → Bool) (mine : A → Bool) (Moves : A → A → Type 0) where
  pub record Tracks (xs ys : List A) : Type 0 where
    pub at :
        (k : String) (x : A)
        → find? (is k) xs ≡ some x
        → mine x ≡ true
        → (y : A) × (find? (is k) ys ≡ some y) × Moves x y

module _ {A : Type 0} (is : String → A → Bool) (mine : A → Bool) {Moves : A → A → Type 0} where
  pub Tracks-refl : ((x : A) → Moves x x) → (xs : List A) → Tracks is mine Moves xs xs
  Tracks-refl r xs = record { at = λ k x e m. (x, e, r x) }

  pub Tracks-trans :
      ((x y z : A) → Moves x y → Moves y z → Moves x z)
      → ((x y : A) → Moves x y → mine x ≡ true → mine y ≡ true)
      → (xs ys zs : List A) → Tracks is mine Moves xs ys
      → Tracks is mine Moves ys zs
      → Tracks is mine Moves xs zs
  Tracks-trans t own xs ys zs p q = record {
    at = λ k x e m.
        let (y, f, a) = p.at k x e m in
        let (z, g, b) = q.at k y f (own x y a m) in (z, g, t x y z a b);
  }

  pub Tracks-append : ((x : A) → Moves x x) → (xs ys : List A) → Tracks is mine Moves xs (xs ++ ys)
  Tracks-append r xs ys = record {
    at = λ k x e m. (x, ground (arith, find?-append (is k) xs ys), r x);
  }

  pub Tracks-update :
      (p : A → Bool) (f : A → A)
      → ((k : String) (x : A) → is k (f x) ≡ is k x)
      → ((x : A) → Moves x (if p x then f x else x))
      → (xs : List A) → Tracks is mine Moves xs (update p f xs)
  Tracks-update p f same moves xs = record {
    at = λ k x e m.
        (if p x then f x else x, ground (arith, find?-update (is k) p f xs (same k)), moves x);
  }

  pub Tracks-delete :
      ((x : A) → Moves x x)
      → (p : A → Bool) → ((x : A) → mine x ≡ true → p x ≡ false)
      → (xs : List A) → Tracks is mine Moves xs (delete p xs)
  Tracks-delete r p foreign xs = record {
    at = λ k x e m. (x, find?-delete (is k) p xs x e (foreign x m), r x);
  }
