-- ===== src/World/Footprint.antt =====
-- What an action does to the database, by the way it is built (src/grpc.rs, src/repo.rs): an order
-- on databases that each statement respects is respected by the whole action, whichever statements
-- fail and on the error paths too.
use iam_rust_auth.Base.{
  ◌≡◌, ℕ, Bool, true, false, Option, none, some, if◌then◌else◌, refl, sym, ap, subst, suc, arith,
}
use iam_rust_auth.Db.{Db}
use iam_rust_auth.World.State.{World, Env}
use iam_rust_auth.World.Monad.{
  Action, Result, ok, err, SqlError, pure, fail, asks, gets, ok_or, and_then, ◌>>=◌, ◌>>◌, require,
  refuse_if, or_status, attempt, ignore, when, draw, statement, query, execute, transaction, settle,
  restore,
}

pub record Order : Type 1 where
  pub Le : Db → Db → Type 0
  pub le_refl : (d : Db) → Le d d
  pub le_trans : (a b c : Db) → Le a b → Le b c → Le a c

-- The database that `m` leaves stands above the one it found.
pub record Within (o : Order) {E A : Type 0} (m : Action E A) : Type 0 where
  pub at : (env : Env) (w : World) → o.Le w.db (m env w).1.db

module _ {o : Order} {E A : Type 0} where
  pub Within-pure : (a : A) → Within o {E = E} (pure a)
  Within-pure a = record { at = λ env w. o.le_refl w.db }

  pub Within-fail : (e : E) → Within o {A = A} (fail e)
  Within-fail e = record { at = λ env w. o.le_refl w.db }

  pub Within-asks : (f : Env → A) → Within o {E = E} (asks f)
  Within-asks f = record { at = λ env w. o.le_refl w.db }

  pub Within-gets : (f : World → A) → Within o {E = E} (gets f)
  Within-gets f = record { at = λ env w. o.le_refl w.db }

  pub Within-draw : (f : Env → ℕ → A) → Within o {E = E} (draw f)
  Within-draw f = record { at = λ env w. o.le_refl w.db }

  pub Within-ok_or : (e : E) (a : Option A) → Within o (ok_or e a)
  Within-ok_or e none = record { at = λ env w. o.le_refl w.db }
  Within-ok_or e (some a) = record { at = λ env w. o.le_refl w.db }

  pub Within-if :
      (b : Bool) (m n : Action E A) → Within o m → Within o n → Within o (if b then m else n)
  Within-if true m n hm hn = hm
  Within-if false m n hm hn = hn

  -- An action that leaves the database as it is.
  pub Within-still :
      (m : Action E A) → ((env : Env) (w : World) → (m env w).1.db ≡ w.db) → Within o m
  Within-still m h = record {
    at = λ env w. subst (λ d. o.Le w.db d) (sym (h env w)) (o.le_refl w.db);
  }

module _ (o : Order) {E A B : Type 0} where
  and_then-le :
      (r : Result E A) (f : A → Action E B) (env : Env) (w : World)
      → ((a : A) → o.Le w.db (f a env w).1.db)
      → o.Le w.db (and_then r f env w).1.db
  and_then-le (ok a) f env w h = h a
  and_then-le (err e) f env w h = o.le_refl w.db

  -- The rule of a sequence, in some surroundings.
  pub bind-le :
      (m : Action E A) (f : A → Action E B) (env : Env)
      → ((w : World) → o.Le w.db (m env w).1.db)
      → ((a : A) (w : World) → o.Le w.db (f a env w).1.db)
      → (w : World) → o.Le w.db ((m >>= f) env w).1.db
  bind-le m f env hm hf w =
      let (r, w') = m env w in
      o.le_trans w.db w'.db (and_then r f env w').1.db (hm w)
        (and_then-le r f env w' (λ a. hf a w'))

  and_then-le_after :
      (r : Result E A) (f : A → Action E B) (env : Env) (w : World)
      → ((a : A) → r ≡ ok a → o.Le w.db (f a env w).1.db)
      → o.Le w.db (and_then r f env w).1.db
  and_then-le_after (ok a) f env w h = h a refl
  and_then-le_after (err e) f env w h = o.le_refl w.db

  -- The same from one world, where the rest may use that the first part has succeeded.
  pub bind-le_after :
      (m : Action E A) (f : A → Action E B) (env : Env) (w : World)
      → o.Le w.db (m env w).1.db
      → ((a : A) (w' : World) → m env w ≡ (ok a, w') → o.Le w'.db (f a env w').1.db)
      → o.Le w.db ((m >>= f) env w).1.db
  bind-le_after m f env w hm hf =
      let (r, w') = m env w in
      o.le_trans w.db w'.db (and_then r f env w').1.db hm
        (and_then-le_after r f env w' (λ a e. hf a w' (ap (λ x. (x, w')) e)))

module _ {o : Order} {E A B : Type 0} where
  pub Within-bind :
      (m : Action E A) (f : A → Action E B)
      → Within o m
      → ((a : A) → Within o (f a))
      → Within o (m >>= f)
  Within-bind m f hm hf = record { at = λ env. bind-le o m f env (hm.at env) (λ a. (hf a).at env) }

module _ {o : Order} {E F : Type 0} {A : Type 0} where
  pub Within-or_status : (e : F) (m : Action E A) → Within o m → Within o (or_status e m)
  Within-or_status e m h = record { at = h.at }

  pub Within-attempt : (m : Action E A) → Within o m → Within o {E = F} (attempt m)
  Within-attempt m h = record { at = h.at }

  pub Within-ignore : (m : Action E A) → Within o m → Within o {E = F} (ignore m)
  Within-ignore m h = record { at = h.at }

module _ {o : Order} {E : Type 0} where
  pub Within-require : (b : Bool) (e : E) → Within o (require b e)
  Within-require true e = record { at = λ env w. o.le_refl w.db }
  Within-require false e = record { at = λ env w. o.le_refl w.db }

  pub Within-refuse_if : (b : Bool) (e : E) → Within o (refuse_if b e)
  Within-refuse_if true e = record { at = λ env w. o.le_refl w.db }
  Within-refuse_if false e = record { at = λ env w. o.le_refl w.db }

  pub Within-when : (b : Bool) (m : Action E Unit) → Within o m → Within o (when b m)
  Within-when true m h = h
  Within-when false m h = record { at = λ env w. o.le_refl w.db }

module _ (o : Order) {A : Type 0} where
  settle-le :
      (w : World) (r : Result SqlError (A × Db))
      → ((a : A) (d : Db) → r ≡ ok (a, d) → o.Le w.db d)
      → o.Le w.db (settle w r).1.db
  settle-le w (ok (a, d)) h = h a d refl
  settle-le w (err e) h = o.le_refl w.db

  restore-le :
      (w : World) (x : Result SqlError A × World) → o.Le w.db x.1.db → o.Le w.db (restore w x).1.db
  restore-le w (ok a, w') h = h
  restore-le w (err e, w') h = o.le_refl w.db

module _ {o : Order} {A : Type 0} where
  pub Within-statement :
      (run : Db → Result SqlError (A × Db))
      → ((d : Db) (a : A) (d' : Db) → run d ≡ ok (a, d') → o.Le d d')
      → Within o (statement run)
  unfolding statement
  Within-statement run h = record {
    at = λ env w.
        elim (env.db_fails w.calls)
          as (λ b.
            o.Le w.db
              (if b
                then (err SqlError.unavailable, record w { calls = suc w.calls })
                else settle (record w { calls = suc w.calls }) (run w.db)).1.db) [
                  | true ↦ o.le_refl w.db
                  | false ↦ settle-le o (record w { calls = suc w.calls }) (run w.db) (h w.db)
                ];
  }

  -- An UPDATE that returns something.
  pub Within-returning :
      (g : Db → A) (f : Db → Db)
      → ((d : Db) → o.Le d (f d))
      → Within o (statement λ d. ok (g d, f d))
  Within-returning g f h =
      Within-statement (λ d. ok (g d, f d)) λ d a d' e. subst (λ x. o.Le d x) (ground arith) (h d)

  pub Within-query : (f : Db → A) → Within o (query f)
  unfolding query
  Within-query f = Within-returning f (λ d. d) o.le_refl

module _ {o : Order} where
  pub Within-execute : (f : Db → Db) → ((d : Db) → o.Le d (f d)) → Within o (execute f)
  unfolding execute
  Within-execute f h = Within-returning (λ _. tt) f h

module _ {o : Order} {A : Type 0} where
  pub Within-transaction : (m : Action SqlError A) → Within o m → Within o (transaction m)
  unfolding transaction
  Within-transaction m h = record {
    at = λ env w. restore-le o w ((do execute (λ d. d); a ← m; execute (λ d. d); pure a) env w) (
        (Within-bind (execute (λ d. d)) _ (Within-execute (λ d. d) o.le_refl) (λ _.
            Within-bind m _ h (λ a.
              Within-bind (execute (λ d. d)) _ (Within-execute (λ d. d) o.le_refl)
                (λ _. Within-pure a)))).at
          env w);
  }

pub ruleset within_rules = (
  Within-pure, Within-fail, Within-asks, Within-gets, Within-draw, Within-ok_or, Within-if,
  Within-bind, Within-or_status, Within-attempt, Within-ignore, Within-require, Within-refuse_if,
  Within-when, Within-query, Within-transaction,
)
