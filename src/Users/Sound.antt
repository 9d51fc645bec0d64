-- ===== src/Users/Sound.antt =====
-- The rows of `users` (migrations/0001, 0005, 0009; src/repo.rs): ids and emails are unique, a second
-- factor that is on has a secret, and the failed logins fit their column.
use Prim.Native.Nat.{◌≤◌}
use iam_rust_auth.Base.{
  ◌≡◌, String, Bool, true, false, not, ◌&&◌, ◌||◌, List, [], ◌∷◌, ◌++◌, ◌==◌, str_eq, count, exists,
  find?, some, update, delete, is_some, leb, arith, sym, ap, ◌∙◌, count-append_fresh, count-update,
  count-delete, exists-append, exists-update-false, exists-delete-false, exists-found, eq_iff,
}
use iam_rust_auth.Db.{Uuid, UserRow}
use iam_rust_auth.World.{Order}
use iam_rust_auth.Repo.{i32_max}

abbrev pub inconsistent : UserRow → Bool
inconsistent u =
    not ((not u.totp_enabled || is_some u.totp_secret) && leb u.failed_login_attempts i32_max)

pub record Sound (us : List UserRow) : Type 0 where
  pub ids : (id : Uuid) → count (λ u. u.id == id) us ≤ 1
  pub emails : (email : String) → count (λ u. str_eq u.email email) us ≤ 1
  pub rows : exists inconsistent us ≡ false

-- The order of the databases that are as sound as the ones before them.
unfoldable pub soundness : Order
soundness = record {
  Le = λ d d'. Sound d.users → Sound d'.users;
  le_refl = λ d s. s;
  le_trans = λ a b c f g s. g (f s);
}

-- An UPDATE that leaves the keys alone and breaks no row, as long as `r` holds of none that it
-- changes.
pub update-Sound :
    (p r : UserRow → Bool) (f : UserRow → UserRow) (us : List UserRow)
    → ((u : UserRow) → (f u).id ≡ u.id)
    → ((u : UserRow) → (f u).email ≡ u.email)
    → ((u : UserRow)
        → p u ≡ true
        → r u ≡ false
        → inconsistent u ≡ false
        → inconsistent (f u) ≡ false)
    → exists (λ u. p u && r u) us ≡ false
    → Sound us
    → Sound (update p f us)
update-Sound p r f us same mail kept none_of s = record {
  ids = λ id.
      ground
        (arith, s.ids id, count-update (λ u. u.id == id) p f us (λ u. ap (λ i. i == id) (same u)));
  emails = λ e. ground (
    arith,
    s.emails e,
    count-update (λ u. str_eq u.email e) p f us (λ u. ap (λ i. str_eq i e) (mail u)),
  );
  rows = exists-update-false inconsistent p r f us kept none_of s.rows;
}

pub delete-Sound : (p : UserRow → Bool) (us : List UserRow) → Sound us → Sound (delete p us)
delete-Sound p us s = record {
  ids = λ id. ground (arith, s.ids id, count-delete (λ u. u.id == id) p us);
  emails = λ e. ground (arith, s.emails e, count-delete (λ u. str_eq u.email e) p us);
  rows = exists-delete-false inconsistent p us s.rows;
}

same_email : (a b e : String) → str_eq a e ≡ true → str_eq b e ≡ true → str_eq b a ≡ true
same_email a b e h k = (eq_iff b a).1 ((eq_iff b e).0 k ∙ sym ((eq_iff a e).0 h))

-- The INSERT of a user whose id and email no row has.
pub append-Sound :
    (u : UserRow) (us : List UserRow)
    → inconsistent u ≡ false
    → exists (λ v. v.id == u.id || str_eq v.email u.email) us ≡ false
    → Sound us
    → Sound (us ++ u ∷ [])
unfolding exists
append-Sound u us sound fresh s = record {
  ids = λ i.
      count-append_fresh (λ v. v.id == i) (λ v. v.id == u.id || str_eq v.email u.email) us u
        (λ a y b. ground arith) fresh (s.ids i);
  emails = λ e.
      count-append_fresh (λ v. str_eq v.email e) (λ v. v.id == u.id || str_eq v.email u.email) us u
        (λ a y b. ground (arith, same_email u.email y.email e a b)) fresh (s.emails e);
  rows = ground (arith, exists-append inconsistent us (u ∷ []), s.rows);
}

-- What the row found of an id is not, no row of the id is.
pub found-Sound :
    (id : Uuid) (r : UserRow → Bool) (us : List UserRow) (u : UserRow)
    → Sound us
    → find? (λ v. v.id == id) us ≡ some u
    → r u ≡ false
    → exists (λ v. v.id == id && r v) us ≡ false
found-Sound id r us u s e h = exists-found (λ v. v.id == id) r us u (s.ids id) e h
