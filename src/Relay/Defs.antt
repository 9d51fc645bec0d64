-- ===== src/Relay/Defs.antt =====
-- The relay (src/relay.rs): one pass, `drain`, and the loop that makes a pass at every tick.
use iam_rust_auth.Base.{suc, List, [], ◌∷◌, format, Result, ok, err}
use iam_rust_auth.Db.{OutboxRow}
use iam_rust_auth.World.{
  World, Env, NatsMessage, Delivery, acknowledged, unacknowledged, lost, Action, pure, asks,
  or_status, ◌>>=◌, ◌>>◌,
}
use iam_rust_auth.Repo.{fetch_unpublished_outbox, mark_outbox_published}

-- `anyhow::Error`, which the loop only logs.
pub data RelayError : Type 0 where
  relay_failed : RelayError

abbrev pub message_of : Env → OutboxRow → NatsMessage
message_of env row = record {
  subject = format (env.subject_prefix ∷ row.event_type ∷ []);
  msg_id = env.show_uuid row.id;
  payload = row.payload;
}

abbrev pub after_publish : NatsMessage → World → Delivery → Result RelayError Unit × World
after_publish m w acknowledged = (ok tt, record w { stream = m ∷ w.stream })
after_publish m w unacknowledged = (err relay_failed, record w { stream = m ∷ w.stream })
after_publish m w lost = (err relay_failed, w)

-- `js.publish_with_headers(…).await?.await?`
unfoldable pub publish : NatsMessage → Action RelayError Unit
publish m env w =
    after_publish m (record w { publications = suc w.publications }) (env.delivery w.publications)

unfoldable pub drain_rows : List OutboxRow → Action RelayError Unit
unfolding publish
drain_rows [] = pure tt
drain_rows (row ∷ rows) = do
  env ← asks (λ e. e)
  publish (message_of env row)
  or_status relay_failed (mark_outbox_published row.id)
  drain_rows rows

unfoldable pub drain : Action RelayError Unit
unfolding drain_rows
drain = do rows ← or_status relay_failed (fetch_unpublished_outbox 100); drain_rows rows

-- `run`, for so many ticks, each in surroundings of its own: a pass that fails is logged.
unfoldable pub run : List Env → World → World
unfolding drain
run [] w = w
run (env ∷ envs) w = run envs (drain env w).1
