-- ===== src/Relay/Completeness.antt =====
-- When every row is published (src/relay.rs, `drain`).
use iam_rust_auth.Base.{ℕ, suc, ◌≡◌, refl, ◌∙◌, ap, true, false, List, [], ◌∷◌, arith, All, Result}
use iam_rust_auth.Db.{Uuid, OutboxRow}
use iam_rust_auth.World.{Env, World, acknowledged, ok, err, statement, execute}
use iam_rust_auth.Repo.{mark_outbox_published}
use iam_rust_auth.Relay.Defs.{RelayError, message_of, publish, drain_rows, drain}
use iam_rust_auth.Relay.Stream.{batch, in_stream, IsDelivered, HasIds}
use iam_rust_auth.Relay.Delivery.{drain-IsDelivered, HasSent, drain_step, fetched}

module _ (env : Env) (arrives : (n : ℕ) → env.delivery n ≡ acknowledged)
    (up : (n : ℕ) → env.db_fails n ≡ false) where
  publish-ok : (r : OutboxRow) (w : World) → (publish (message_of env r) env w).0 ≡ ok tt
  unfolding publish
  publish-ok r w = ground (arith, arrives w.publications)

  mark_outbox_published-ok : (id : Uuid) (w : World) → (mark_outbox_published id env w).0 ≡ ok tt
  unfolding mark_outbox_published execute statement
  mark_outbox_published-ok id w = ground (arith, up w.calls)

  drain_rows-ok : (rows : List OutboxRow) (w : World) → (drain_rows rows env w).0 ≡ ok tt
  unfolding drain_rows
  drain_rows-ok [] w = refl
  drain_rows-ok (r ∷ rs) w =
      let w₁ : World = (publish (message_of env r) env w).1 in
      ground (
        arith,
        publish-ok r w,
        mark_outbox_published-ok r.id w₁,
        drain_rows-ok rs (mark_outbox_published r.id env w₁).1,
      )

  drain-ok : (w : World) → (drain env w).0 ≡ ok tt
  drain-ok w =
      ap (λ x. x.0)
        (drain_step env w (record w { calls = suc w.calls }) (batch w.db)
          (fetched env w (up w.calls)))
      ∙ drain_rows-ok (batch w.db) (record w { calls = suc w.calls })

has_sent :
    (env : Env) (rows : List OutboxRow) (x : Result RelayError Unit × World)
    → x.0 ≡ ok tt
    → HasSent env rows x
    → All (λ r. in_stream env r x.1 ≡ true) rows
has_sent env rows (ok _, w) e sent = sent
has_sent env rows (err n, w) e sent = absurd (ground (arith))

-- Where every publication is acknowledged, no statement fails and the id is the key of the outbox, a
-- pass over an outbox whose published rows are in the stream succeeds, and puts the events of the
-- hundred oldest unpublished rows, or of all that there are, into the stream, each with the row's id,
-- type and payload.
pub drain-sends :
    (env : Env) (w : World)
    → ((n : ℕ) → env.delivery n ≡ acknowledged)
    → ((n : ℕ) → env.db_fails n ≡ false)
    → HasIds w.db.outbox
    → IsDelivered env w
    → ((drain env w).0 ≡ ok tt) × All (λ r. in_stream env r (drain env w).1 ≡ true) (batch w.db)
drain-sends env w arrives up ids all =
    let (_, _, sent) = drain-IsDelivered env w (up w.calls) ids all in
    (
      drain-ok env arrives up w,
      has_sent env (batch w.db) (drain env w) (drain-ok env arrives up w) sent,
    )
