-- ===== src/Relay/Stream.antt =====
-- Which rows of the outbox are in the stream (src/relay.rs), and what the key of the table gives.
use iam_rust_auth.Base.{
  ◌≡◌, refl, ◌∙◌, ◌≤◌, inl, inr, String, Bool, true, false, not, ◌&&◌, ◌||◌, some, List, [], ◌∷◌,
  arith, ◌==◌, ==_iff, str_eq, eq_iff, eq_refl, is_none, Bool-cases, exists, count, count-exists,
  exists_mono, exists-update, update, format, All, select, order_by, take, leb, All-order_by,
  All-take,
}
use iam_rust_auth.Db.{Db, Uuid, Instant, OutboxRow}
use iam_rust_auth.World.{Env, World, NatsMessage}

-- The rows that a pass takes: unpublished, the oldest first, a hundred at most.
abbrev pub batch : Db → List OutboxRow
batch d = take 100 (
    order_by (λ a b. leb a.created_at b.created_at) (select (λ r. is_none r.published_at) d.outbox))

-- The message of an event: its id for the broker to tell duplicates by, its type in the subject, and
-- its payload.
abbrev pub is_event : Env → Uuid → String → String → NatsMessage → Bool
is_event env id event_type payload m =
    str_eq m.msg_id (env.show_uuid id)
    && str_eq m.subject (format (env.subject_prefix ∷ event_type ∷ []))
    && str_eq m.payload payload

-- The row's event is in the stream.
abbrev pub in_stream : Env → OutboxRow → World → Bool
in_stream env r w = exists (is_event env r.id r.event_type r.payload) w.stream

-- The id is the key of the table.
abbrev pub HasIds : List OutboxRow → Type 0
HasIds rows = (id : Uuid) → count (λ r. r.id == id) rows ≤ 1

-- Another row of the same id would have another event.
abbrev pub conflicts : OutboxRow → OutboxRow → Bool
conflicts r s = s.id == r.id && not (str_eq s.event_type r.event_type && str_eq s.payload r.payload)

abbrev pub Agrees : List OutboxRow → OutboxRow → Type 0
Agrees rows r = exists (conflicts r) rows ≡ false

module _ {A : Type 0} where
  All-none : (p : A → Bool) (xs : List A) → exists p xs ≡ false → All (λ x. p x ≡ false) xs
  unfolding exists
  All-none p [] h = tt
  All-none p (x ∷ xs) h = (ground arith, All-none p xs (ground arith))

  All-zip :
      {P Q R : A → Type 0} (xs : List A)
      → ((x : A) → P x → Q x → R x)
      → All P xs
      → All Q xs
      → All R xs
  All-zip [] f ps qs = tt
  All-zip (x ∷ xs) f (p, ps) (q, qs) = (f x p q, All-zip xs f ps qs)

HasIds-Agrees : (rows : List OutboxRow) → HasIds rows → All (Agrees rows) rows
unfolding count exists
HasIds-Agrees [] ids = tt
HasIds-Agrees (r ∷ rs) ids =
    let alone : exists (λ s. s.id == r.id) rs ≡ false =
      count-exists (λ s. s.id == r.id) rs (ground (arith, ids r.id)) in
    (
      ground (
        arith,
        eq_refl r.event_type,
        eq_refl r.payload,
        exists_mono (conflicts r) (λ s. s.id == r.id) rs (λ s h. ground arith) alone,
      ),
      All-zip {P = Agrees rs} {Q = λ s. (s.id == r.id) ≡ false} {R = Agrees (r ∷ rs)} rs
          (λ s agrees other. ground (arith, ==_iff s.id r.id))
          (HasIds-Agrees rs (λ id. ground (arith, ids id))) (All-none (λ s. s.id == r.id) rs alone),
    )

All-select_rows :
    (P : OutboxRow → Type 0) (p : OutboxRow → Bool) (rows : List OutboxRow)
    → All P rows
    → All P (select p rows)
unfolding select
All-select_rows P p [] all = tt
All-select_rows P p (r ∷ rs) (a, all) = elim (Bool-cases (p r)) [
  | inl e ↦ rw e (a, All-select_rows P p rs all)
  | inr e ↦ rw e (All-select_rows P p rs all)
]

pub batch-Agrees : (d : Db) → HasIds d.outbox → All (Agrees d.outbox) (batch d)
batch-Agrees d ids =
    let P = Agrees d.outbox in
    let le = λ (a b : OutboxRow). leb a.created_at b.created_at in
    let rows = select (λ (r : OutboxRow). is_none r.published_at) d.outbox in
    All-take P 100 (order_by le rows) (
      All-order_by P le rows
        (All-select_rows P (λ r. is_none r.published_at) d.outbox (HasIds-Agrees d.outbox ids)))

-- The marking of a row keeps what its event is.
abbrev pub marked : Uuid → Instant → List OutboxRow → List OutboxRow
marked id now rows = update (λ r. r.id == id) (λ r. record r { published_at = some now }) rows

pub marked-Agrees :
    (id : Uuid) (now : Instant) (rows : List OutboxRow) (r : OutboxRow)
    → Agrees rows r
    → Agrees (marked id now rows) r
marked-Agrees id now rows r h =
    exists-update (conflicts r) (λ s. s.id == id) (λ s. record s { published_at = some now }) rows
      (λ s. refl)
    ∙ h

same-in_stream :
    (env : Env) (w : World) (r s : OutboxRow)
    → (s.id == r.id) ≡ true
    → conflicts r s ≡ false
    → in_stream env r w ≡ true
    → in_stream env s w ≡ true
same-in_stream env w r s same agrees sent =
    let ids : s.id ≡ r.id = (==_iff s.id r.id).0 same in
    let types : s.event_type ≡ r.event_type = (eq_iff s.event_type r.event_type).0 (ground arith) in
    let payloads : s.payload ≡ r.payload = (eq_iff s.payload r.payload).0 (ground arith) in
    rw (ids, types, payloads) sent

-- Every row that is marked as published is in the stream.
abbrev pub AllSent : Env → World → List OutboxRow → Type 0
AllSent env w rows = All (λ r. (is_none r.published_at || in_stream env r w) ≡ true) rows

abbrev pub IsDelivered : Env → World → Type 0
IsDelivered env w = AllSent env w w.db.outbox

pub marked-AllSent :
    (env : Env) (w : World) (r : OutboxRow) (now : Instant) (rows : List OutboxRow)
    → in_stream env r w ≡ true
    → Agrees rows r
    → AllSent env w rows
    → AllSent env w (marked r.id now rows)
unfolding update exists
marked-AllSent env w r now [] sent agrees all = tt
marked-AllSent env w r now (s ∷ rs) sent agrees (a, all) = (
  elim (Bool-cases (s.id == r.id)) [
    | inl e ↦ rw e (same-in_stream env w r s e (ground arith) sent)
    | inr e ↦ rw e a
  ],
  marked-AllSent env w r now rs sent (ground arith) all,
)
