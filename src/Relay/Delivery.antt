-- ===== src/Relay/Delivery.antt =====
-- What the relay promises to the readers of the stream (src/relay.rs, `drain`).
use iam_rust_auth.Base.{
  not, suc, ◌≡◌, refl, sym, ◌⊎◌, inl, inr, Bool, true, false, ◌||◌, List, [], ◌∷◌, arith, eq_refl,
  Bool-cases, exists, format, All, subst, Result,
}
use iam_rust_auth.Db.{OutboxRow}
use iam_rust_auth.World.{
  Env, World, NatsMessage, Delivery, acknowledged, unacknowledged, lost, ok, err, statement,
  execute, query, run-cases, SqlError,
}
use iam_rust_auth.Repo.{mark_outbox_published, fetch_unpublished_outbox}
use iam_rust_auth.Relay.Stream.{
  batch, is_event, in_stream, HasIds, Agrees, batch-Agrees, marked-Agrees, AllSent, IsDelivered,
  marked-AllSent,
}
use iam_rust_auth.Relay.Defs.{RelayError, relay_failed, message_of, publish, drain_rows, drain}

-- A stream that has at least the messages of another.
abbrev pub Extends : World → World → Type 0
Extends w w' = (q : NatsMessage → Bool) → exists q w.stream ≡ true → exists q w'.stream ≡ true

AllSent-extended :
    (env : Env) (w w' : World) (rows : List OutboxRow)
    → Extends w w'
    → AllSent env w rows
    → AllSent env w' rows
AllSent-extended env w w' [] more all = tt
AllSent-extended env w w' (r ∷ rs) more (a, all) = (
  ground (arith, more (is_event env r.id r.event_type r.payload)),
  AllSent-extended env w w' rs more all,
)

Delivery-cases : (d : Delivery) → (d ≡ acknowledged) ⊎ (d ≡ acknowledged → ⊥)
Delivery-cases acknowledged = inl refl
Delivery-cases unacknowledged = inr (λ h. ground (arith))
Delivery-cases lost = inr (λ h. ground (arith))

-- A publication that succeeds has put the row's event into the stream; and none takes one out.
publishes :
    (env : Env) (w : World) (r : OutboxRow)
    → let (res, w') = publish (message_of env r) env w in
      (w'.db ≡ w.db) × Extends w w' × (res ≡ ok tt → in_stream env r w' ≡ true)
unfolding publish exists
publishes env w r = elim (Delivery-cases (env.delivery w.publications)) [
  | inl e ↦ (
    ground (arith),
    (λ q h. ground (arith)),
    (λ h. ground (
      arith,
      eq_refl (env.show_uuid r.id),
      eq_refl (format (env.subject_prefix ∷ r.event_type ∷ [])),
      eq_refl r.payload,
    )),
  )
  | inr e ↦ (ground (arith), (λ q h. ground (arith)), (λ h. absurd (ground (arith))))
]

-- What a marking leaves, whether it succeeds or not.
abbrev Marked : Env → World → Result SqlError Unit × World → Type 0
Marked env w (res, w') =
    IsDelivered env w'
    × (w'.stream ≡ w.stream)
    × ((r : OutboxRow) → Agrees w.db.outbox r → Agrees w'.db.outbox r)

marks :
    (env : Env) (w : World) (r : OutboxRow)
    → in_stream env r w ≡ true
    → Agrees w.db.outbox r
    → IsDelivered env w
    → Marked env w (mark_outbox_published r.id env w)
unfolding mark_outbox_published execute statement
marks env w r sent agrees all = elim (Bool-cases (env.db_fails w.calls)) [
  | inl e ↦ rw e (all, refl, (λ s h. h))
  | inr e ↦ rw e (
    marked-AllSent env w r env.now w.db.outbox sent agrees all,
    refl,
    (λ s h. marked-Agrees r.id env.now w.db.outbox s h),
  )
]

-- The same of a run that ended with a result and a state.
abbrev Published : Env → OutboxRow → World → Result RelayError Unit × World → Type 0
Published env r w (res, w') =
    (w'.db ≡ w.db) × Extends w w' × (res ≡ ok tt → in_stream env r w' ≡ true)

IsDelivered-on :
    (env : Env) (w w' : World)
    → w'.db ≡ w.db
    → Extends w w'
    → IsDelivered env w
    → IsDelivered env w'
IsDelivered-on env w w' same more all =
    let kept : AllSent env w' w.db.outbox = AllSent-extended env w w' w.db.outbox more all in
    rw same kept

All-map :
    {P Q : OutboxRow → Type 0} (rows : List OutboxRow)
    → ((r : OutboxRow) → P r → Q r)
    → All P rows
    → All Q rows
All-map [] f ps = tt
All-map (r ∷ rs) f (p, ps) = (f r p, All-map rs f ps)

-- What a pass over rows guarantees, wherever it stops.
abbrev Drained : Env → List OutboxRow → World → Result RelayError Unit × World → Type 0
Drained env rows w (res, w') =
    IsDelivered env w' × Extends w w' × (res ≡ ok tt → All (λ r. in_stream env r w' ≡ true) rows)

module _ (r : OutboxRow) (rs : List OutboxRow) (env : Env) (w w₁ w₂ : World) where
  unpublished_step :
      (n : RelayError)
      → publish (message_of env r) env w ≡ (err n, w₁)
      → drain_rows (r ∷ rs) env w ≡ (err n, w₁)
  unfolding drain_rows
  unpublished_step n e = ground (arith)

  unmarked_step :
      (n : SqlError)
      → publish (message_of env r) env w ≡ (ok tt, w₁)
      → mark_outbox_published r.id env w₁ ≡ (err n, w₂)
      → drain_rows (r ∷ rs) env w ≡ (err relay_failed, w₂)
  unfolding drain_rows
  unmarked_step n e e₂ = ground (arith)

  marked_step :
      publish (message_of env r) env w ≡ (ok tt, w₁)
      → mark_outbox_published r.id env w₁ ≡ (ok tt, w₂)
      → drain_rows (r ∷ rs) env w ≡ drain_rows rs env w₂
  unfolding drain_rows
  marked_step e e₂ = ground (arith)

drain_rows-Drained :
    (rows : List OutboxRow) (env : Env) (w : World)
    → All (Agrees w.db.outbox) rows
    → IsDelivered env w
    → Drained env rows w (drain_rows rows env w)
unfolding drain_rows
drain_rows-Drained [] env w agree all = (all, (λ q h. h), (λ h. tt))
drain_rows-Drained (r ∷ rs) env w (agrees, agree) all =
    elim (run-cases (publish (message_of env r) env w)) [
      | inr (n, w₁, e) ↦
          let (same, more, sent) = subst (Published env r w) e (publishes env w r) in
          subst (Drained env (r ∷ rs) w) (sym (unpublished_step r rs env w w₁ w₁ n e))
            (IsDelivered-on env w w₁ same more all, more, (λ h. absurd (ground (arith))))
      | inl (_, w₁, e) ↦
          let (same, more, sent) = subst (Published env r w) e (publishes env w r) in
          let here : in_stream env r w₁ ≡ true = sent refl in
          let before : IsDelivered env w₁ = IsDelivered-on env w w₁ same more all in
          let agrees₁ : Agrees w₁.db.outbox r = rw same agrees in
          let marking : Marked env w₁ (mark_outbox_published r.id env w₁) =
            marks env w₁ r here agrees₁ before in
          elim (run-cases (mark_outbox_published r.id env w₁)) [
            | inr (n, w₂, e₂) ↦
                let (kept, still, _) = subst (Marked env w₁) e₂ marking in
                subst (Drained env (r ∷ rs) w) (sym (unmarked_step r rs env w w₁ w₂ n e e₂))
                  (kept, (λ q h. rw still (more q h)), (λ h. absurd (ground (arith))))
            | inl (_, w₂, e₂) ↦
                let (kept, still, agreeing) = subst (Marked env w₁) e₂ marking in
                let agree₂ : All (Agrees w₂.db.outbox) rs =
                  All-map {P = Agrees w.db.outbox} {Q = Agrees w₂.db.outbox} rs
                    (λ s h. agreeing s (rw same h)) agree in
                let (all', more', sent') = drain_rows-Drained rs env w₂ agree₂ kept in
                let event = is_event env r.id r.event_type r.payload in
                subst (Drained env (r ∷ rs) w) (sym (marked_step r rs env w w₁ w₂ e e₂)) (
                  all',
                  (λ q h. more' q (rw still (more q h))),
                  (λ h. (more' event (rw still here), sent' h)),
                )
          ]
    ]

pub fetched :
    (env : Env) (w : World)
    → env.db_fails w.calls ≡ false
    → fetch_unpublished_outbox 100 env w ≡ (ok (batch w.db), record w { calls = suc w.calls })
unfolding fetch_unpublished_outbox query statement
fetched env w up = rw up refl

pub drain_step :
    (env : Env) (w w₁ : World) (rows : List OutboxRow)
    → fetch_unpublished_outbox 100 env w ≡ (ok rows, w₁)
    → drain env w ≡ drain_rows rows env w₁
unfolding drain
drain_step env w w₁ rows e = ground (arith)

-- No message of the one stream is missing in the other, whatever it is told by.
abbrev pub Keeps : World → World → Type 0
Keeps w w' = (q : NatsMessage → Bool) → (not (exists q w.stream) || exists q w'.stream) ≡ true

-- What a pass that ends so has sent.
abbrev pub HasSent : Env → List OutboxRow → Result RelayError Unit × World → Type 0
HasSent env rows (ok _, w) = All (λ r. in_stream env r w ≡ true) rows
HasSent env rows (err _, w) = Unit

keeps : (w w' : World) → Extends w w' → Keeps w w'
keeps w w' more q = elim (Bool-cases (exists q w.stream)) [
  | inl e ↦ ground (arith, more q e)
  | inr e ↦ ground (arith)
]

sent_all :
    (env : Env) (rows : List OutboxRow) (w : World) (x : Result RelayError Unit × World)
    → Drained env rows w x
    → IsDelivered env x.1 × Keeps w x.1 × HasSent env rows x
sent_all env rows w (ok _, w') (kept, more, sent) = (kept, keeps w w' more, sent refl)
sent_all env rows w (err n, w') (kept, more, sent) = (kept, keeps w w' more, tt)

-- Whatever is lost on the way, and wherever a pass stops, if its rows can be fetched and the id is the
-- key of the outbox: when the event of every row that is marked as published is in the stream before
-- the pass, with the row's id, type and payload, it is so afterwards, no message is taken out, and a
-- pass that succeeds has put the event of every row of its batch into the stream.
pub drain-IsDelivered :
    (env : Env) (w : World)
    → env.db_fails w.calls ≡ false
    → HasIds w.db.outbox
    → IsDelivered env w
    → IsDelivered env (drain env w).1
      × Keeps w (drain env w).1
      × HasSent env (batch w.db) (drain env w)
drain-IsDelivered env w up ids all =
    let w₁ : World = record w { calls = suc w.calls } in
    sent_all env (batch w.db) w (drain env w) (
      subst (Drained env (batch w.db) w) (sym (drain_step env w w₁ (batch w.db) (fetched env w up)))
        (drain_rows-Drained (batch w.db) env w₁ (batch-Agrees w.db ids) all))
