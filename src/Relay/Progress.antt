-- ===== src/Relay/Progress.antt =====
-- How the outbox empties (src/relay.rs, `run` and `drain`).
use iam_rust_auth.Base.{
  ℕ, zero, suc, ◌+◌, ◌*◌, ◌-◌, ◌≤◌, ◌≡◌, refl, sym, ap, ◌∙◌, Bool, true, false, not, ◌&&◌, some,
  List, [], ◌∷◌, arith, All, ◌==◌, length, take, count, exists, select, update, order_by, leb,
  is_none, count-order_by, count-take, count-select,
}
use iam_rust_auth.Db.{Db, Uuid, OutboxRow}
use iam_rust_auth.World.{Env, World, acknowledged, statement, execute}
use iam_rust_auth.Repo.{mark_outbox_published}
use iam_rust_auth.Relay.Defs.{drain_rows, drain, publish, message_of, run}
use iam_rust_auth.Relay.Stream.{batch}
use iam_rust_auth.Relay.Delivery.{drain_step, fetched}

abbrev pub unpublished : OutboxRow → Bool
unpublished r = is_none r.published_at

-- How many events wait.
abbrev pub backlog : Db → ℕ
backlog d = count unpublished d.outbox

abbrev is_among : List OutboxRow → OutboxRow → Bool
is_among rs r = exists (λ s. r.id == s.id) rs

-- The marking of rows, one after another.
abbrev marked : Uuid → ℕ → List OutboxRow → List OutboxRow
marked id now = update (λ r. r.id == id) (λ r. record r { published_at = some now })

abbrev mark_all : ℕ → List OutboxRow → List OutboxRow → List OutboxRow
mark_all now [] outbox = outbox
mark_all now (r ∷ rs) outbox = mark_all now rs (marked r.id now outbox)

module _ {A : Type 0} where
  count-ext : (p q : A → Bool) (xs : List A) → ((x : A) → p x ≡ q x) → count p xs ≡ count q xs
  unfolding count
  count-ext p q [] h = refl
  count-ext p q (x ∷ xs) h = ground (arith, h x, count-ext p q xs h)

  count_mono :
      (p q : A → Bool) (xs : List A) → ((x : A) → p x ≡ true → q x ≡ true) → count p xs ≤ count q xs
  unfolding count
  count_mono p q [] h = omega arith
  count_mono p q (x ∷ xs) h = ground (arith, h x, count_mono p q xs h)

  -- The rows that satisfy `p` are those that satisfy `q` too, and those that do not.
  count-split :
      (p q : A → Bool) (xs : List A)
      → count (λ x. p x && not (q x)) xs + count (λ x. p x && q x) xs ≡ count p xs
  unfolding count
  count-split p q [] = refl
  count-split p q (x ∷ xs) = ground (arith, count-split p q xs)

  length-count : (xs : List A) → count (λ x. true) xs ≡ length xs
  unfolding count
  length-count [] = refl
  length-count (x ∷ xs) = ap suc (length-count xs)

  length-take_drop : (n : ℕ) (xs : List A) → length (take n xs) + (length xs - n) ≡ length xs
  length-take_drop zero xs = omega arith
  length-take_drop (suc n) [] = omega arith
  length-take_drop (suc n) (x ∷ xs) = omega (arith, length-take_drop n xs)

count-marked :
    (p : OutboxRow → Bool) (id : Uuid) (now : ℕ) (outbox : List OutboxRow)
    → ((r : OutboxRow) → p (record r { published_at = some now }) ≡ false)
    → count p (marked id now outbox) ≡ count (λ r. p r && not (r.id == id)) outbox
unfolding count update
count-marked p id now [] h = refl
count-marked p id now (r ∷ rs) h = ground (arith, h r, count-marked p id now rs h)

-- What still waits after the marking is what is not among the marked.
count-mark_all :
    (rs : List OutboxRow) (now : ℕ) (outbox : List OutboxRow)
    → count unpublished (mark_all now rs outbox)
      ≡ count (λ r. unpublished r && not (is_among rs r)) outbox
unfolding exists
count-mark_all [] now outbox =
    count-ext unpublished (λ r. unpublished r && not (is_among [] r)) outbox (λ r. ground arith)
count-mark_all (r ∷ rs) now outbox =
    count-mark_all rs now (marked r.id now outbox)
    ∙ count-marked (λ s. unpublished s && not (is_among rs s)) r.id now outbox (λ s. refl)
    ∙ count-ext (λ s. (unpublished s && not (is_among rs s)) && not (s.id == r.id))
        (λ s. unpublished s && not (is_among (r ∷ rs) s)) outbox (λ s. ground arith)

length-le-count : (rs : List OutboxRow) → length rs ≤ count (is_among rs) rs
unfolding exists count
length-le-count [] = omega arith
length-le-count (r ∷ rs) = ground (
  arith,
  length-le-count rs,
  count_mono (is_among rs) (is_among (r ∷ rs)) rs (λ s h. ground arith),
)

-- The unpublished rows, the oldest first.
abbrev waiting : Db → List OutboxRow
waiting d =
    order_by (λ a b. leb a.created_at b.created_at) (select (λ r. is_none r.published_at) d.outbox)

length-waiting : (d : Db) → length (waiting d) ≡ backlog d
length-waiting d =
    let le = λ (a b : OutboxRow). leb a.created_at b.created_at in
    sym (length-count (waiting d))
    ∙ count-order_by (λ r. true) le (select unpublished d.outbox)
    ∙ count-select (λ r. true) unpublished d.outbox
    ∙ count-ext (λ r. unpublished r && true) unpublished d.outbox (λ r. ground arith)

-- The rows of a batch are among those that wait.
batch-le : (d : Db) → length (batch d) ≤ count (λ r. unpublished r && is_among (batch d) r) d.outbox
batch-le d =
    let le = λ (a b : OutboxRow). leb a.created_at b.created_at in
    omega (
      arith,
      length-le-count (batch d),
      count-take (is_among (batch d)) 100 (waiting d),
      count-order_by (is_among (batch d)) le (select unpublished d.outbox),
      count-select (is_among (batch d)) unpublished d.outbox,
    )

marking_progress :
    (now : ℕ) (d : Db) → count unpublished (mark_all now (batch d) d.outbox) ≤ backlog d - 100
marking_progress now d = omega (
  arith,
  count-mark_all (batch d) now d.outbox,
  count-split unpublished (is_among (batch d)) d.outbox,
  batch-le d,
  length-waiting d,
  length-take_drop 100 (waiting d),
)

-- Every publication is acknowledged, and no statement fails.
abbrev pub IsHealthy : Env → Type 0
IsHealthy env = (n : ℕ) → (env.delivery n ≡ acknowledged) × (env.db_fails n ≡ false)

drain_rows-marks :
    (rows : List OutboxRow) (env : Env) (w : World)
    → IsHealthy env
    → (drain_rows rows env w).1.db.outbox ≡ mark_all env.now rows w.db.outbox
unfolding drain_rows publish mark_outbox_published execute statement
drain_rows-marks [] env w h = refl
drain_rows-marks (r ∷ rs) env w h =
    let w₁ : World = (publish (message_of env r) env w).1 in
    ground (
      arith,
      h w.publications,
      h w₁.calls,
      drain_rows-marks rs env (mark_outbox_published r.id env w₁).1 h,
    )

drain-progress :
    (env : Env) (w : World) → IsHealthy env → backlog (drain env w).1.db ≤ backlog w.db - 100
drain-progress env w h =
    let w₁ : World = record w { calls = suc w.calls } in
    let done : (drain env w).1.db.outbox ≡ mark_all env.now (batch w.db) w.db.outbox =
      ap (λ x. x.1.db.outbox) (drain_step env w w₁ (batch w.db) (fetched env w (h w.calls).1))
      ∙ drain_rows-marks (batch w.db) env w₁ h in
    omega (arith, ap (count unpublished) done, marking_progress env.now w.db)

-- Once everything works again the outbox empties: of so many healthy ticks in a row, each takes a
-- hundred events off the backlog, so after one tick for each hundred that wait nothing waits, if
-- none is written meanwhile.
pub run-empties :
    (envs : List Env) (w : World)
    → All IsHealthy envs
    → backlog w.db ≤ 100 * length envs
    → backlog (run envs w).db ≡ 0
unfolding run
run-empties [] w h few = omega arith
run-empties (env ∷ envs) w (h, hs) few =
    run-empties envs (drain env w).1 hs (omega (arith, drain-progress env w h))
