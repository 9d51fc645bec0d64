-- ===== src/Users/Activation.antt =====
-- The activation of a second factor, `activate_totp` of src/grpc.rs: it turns on what the user has a
-- secret for.
use iam_rust_auth.Base.{
  ◌≡◌, refl, String, Bool, true, false, not, ◌&&◌, ◌==◌, Option, some, none, is_some, find?, exists,
  arith,
}
use iam_rust_auth.Db.{Uuid, UserRow}
use iam_rust_auth.World.{
  World, Env, ok, Within, ok_or, require, pure, ◌>>=◌, ◌>>◌, Status, unauthenticated, internal,
  failed_precondition, execute, statement, query, bind-le_after, Within-bind, Within-pure,
}
use iam_rust_auth.Repo
use iam_rust_auth.Repo.{update_user}
use iam_rust_auth.Service
use iam_rust_auth.Service.{MetadataMap, Rpc, ask, caller_uuid, own_user, db, audit}
use iam_rust_auth.TotpSecret.{decrypt}
use iam_rust_auth.Totp.{validate}
use iam_rust_auth.History.Handlers.Common.{audit-Within}
use iam_rust_auth.History.Handlers.Accounts.{own_user-Within}
use iam_rust_auth.Users.Sound.{soundness, update-Sound, found-Sound}
use iam_rust_auth.Users.Instance.{soundness_writes}

abbrev lacks_secret : UserRow → Bool
lacks_secret u = not (is_some u.totp_secret)

-- The UPDATE, where every row of the id has a secret.
enable_totp-le :
    (id : Uuid) (env : Env) (w : World)
    → exists (λ u. u.id == id && lacks_secret u) w.db.users ≡ false
    → soundness.Le w.db (Repo.enable_totp id env w).1.db
unfolding soundness Repo.enable_totp execute statement update_user
enable_totp-le id env w have = λ s. ground (
  arith,
  update-Sound (λ u. u.id == id) lacks_secret (λ u. record u { totp_enabled = true }) w.db.users
      (λ u. refl) (λ u. refl) (λ u a b c. ground arith) have s,
)

own_user-found :
    (id : Uuid) (env : Env) (w w' : World) (u : UserRow)
    → own_user id env w ≡ (ok u, w')
    → find? (λ v. v.id == id) w'.db.users ≡ some u
unfolding Repo.get_user_by_id query statement
own_user-found id env w w' u e = ground arith

-- The end of the activation, from a database in which the user has a secret.
turn_on : MetadataMap → Uuid → Rpc Bool
turn_on md uid = do
  db "failed to enable 2FA" (Repo.enable_totp uid)
  audit md "totp.activate" "" ""
  pure true

abbrev checked : MetadataMap → String → Env → Uuid → UserRow → Rpc Bool
checked md given env uid u = do
  stored ← ok_or (failed_precondition "no pending enrollment; call EnrollTotp first") u.totp_secret
  secret ←
      ok_or (internal "failed to read secret")
        (Service.result_ok (decrypt env.crypto env.totp_enc stored))
  require (validate env.totp given secret) (unauthenticated "invalid code")
  db "failed to enable 2FA" (Repo.enable_totp uid)
  audit md "totp.activate" "" ""
  pure true

turn_on-le :
    (md : MetadataMap) (uid : Uuid) (env : Env) (w : World)
    → exists (λ u. u.id == uid && lacks_secret u) w.db.users ≡ false
    → soundness.Le w.db (turn_on md uid env w).1.db
unfolding turn_on
turn_on-le md uid env w have =
    bind-le_after soundness (db "failed to enable 2FA" (Repo.enable_totp uid))
      (λ _. do audit md "totp.activate" "" ""; pure true) env w (enable_totp-le uid env w have)
      λ a w' e.
        (Within-bind (audit md "totp.activate" "" "") (λ _. pure true)
            (audit-Within ⦃s = soundness_writes⦄ md "totp.activate" "" "")
            (λ _. Within-pure true)).at
          env w'

module _ {B : Type 0} where
  ok_or-le :
      {A : Type 0} (e : Status) (x : Option A) (f : A → Rpc B) (env : Env) (w : World)
      → ((a : A) → x ≡ some a → soundness.Le w.db (f a env w).1.db)
      → soundness.Le w.db ((ok_or e x >>= f) env w).1.db
  ok_or-le e none f env w h = soundness.le_refl w.db
  ok_or-le e (some a) f env w h = h a refl

  require-le :
      (b : Bool) (e : Status) (m : Rpc B) (env : Env) (w : World)
      → soundness.Le w.db (m env w).1.db
      → soundness.Le w.db ((require b e >> m) env w).1.db
  require-le true e m env w h = h
  require-le false e m env w h = soundness.le_refl w.db

checked-le :
    (md : MetadataMap) (given : String) (env : Env) (uid : Uuid) (u : UserRow) (w : World)
    → (is_some u.totp_secret ≡ true
        → exists (λ v. v.id == uid && lacks_secret v) w.db.users ≡ false)
    → soundness.Le w.db (checked md given env uid u env w).1.db
unfolding turn_on
checked-le md given env uid u w h = ok_or-le _ u.totp_secret _ env w λ stored e.
    ok_or-le _ (Service.result_ok (decrypt env.crypto env.totp_enc stored)) _ env w λ secret _.
      require-le (validate env.totp given secret) _ (turn_on md uid) env w
        (turn_on-le md uid env w (h (ground arith)))

-- The activation keeps the users sound: it turns the second factor on for a user that has a secret.
pub activate_totp-Within :
    (md : MetadataMap) (given : String) → Within soundness (Service.activate_totp md given)
unfolding Service.activate_totp caller_uuid soundness
activate_totp-Within md given = record {
  at = λ env w. ok_or-le _ (env.parse_uuid (Service.meta md "x-user-id")) _ env w λ uid _.
      bind-le_after soundness (own_user uid) (λ u. checked md given env uid u) env w
        ((own_user-Within {o = soundness} ⦃s = soundness_writes⦄ uid).at env w)
        λ u w' e s.
          checked-le md given env uid u w'
            (λ has.
              found-Sound uid lacks_secret w'.db.users u s (own_user-found uid env w w' u e)
                (ground arith))
            s;
}
