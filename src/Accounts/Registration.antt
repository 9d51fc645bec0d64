-- ===== src/Accounts/Registration.antt =====
-- Registration (src/grpc.rs, `register`; src/repo.rs, `create_user_with_role_event`).
use iam_rust_auth.Base.{
  ◌≡◌, refl, sym, ap, subst, ◌∙◌, ◌⊎◌, inl, inr, String, false, ◌||◌, none, List, [], ◌∷◌, ◌++◌,
  arith, str_eq, exists, Bool-cases, Result-cases, ◌==◌,
}
use iam_rust_auth.Db.{Db, Uuid, UserRow, UserRole, OutboxRow}
use iam_rust_auth.World.{
  bind-ok, statement-ok, execute-ok, Action, restore, pure, unavailable, ◌>>=◌, ◌>>◌, Env, World,
  ok, err, Result, SqlError, statement, transaction, execute, run-cases,
}
use iam_rust_auth.Repo.{
  create_user_with_role_event, insert_user, insert_user_role, insert_user_roles,
  default_assignments, insert_outbox, set_config, new_user,
}

-- One event of the registration, unpublished.
abbrev pub registered_event : Env → Uuid → Uuid → String → OutboxRow
registered_event env event_id id payload = record {
  id = event_id;
  aggregate_id = id;
  event_type = env.type_user_registered;
  payload = payload;
  created_at = env.now;
  published_at = none;
}

insert_user_role-keeps :
    (r : UserRole) (d d' : Db)
    → insert_user_role r d ≡ ok (tt, d')
    → (d'.users ≡ d.users) × (d'.outbox ≡ d.outbox)
unfolding insert_user_role
insert_user_role-keeps r d d' h = ground (arith)

insert_user_roles-keeps :
    (rs : List UserRole) (d d' : Db)
    → insert_user_roles rs d ≡ ok (tt, d')
    → (d'.users ≡ d.users) × (d'.outbox ≡ d.outbox)
unfolding insert_user_roles
insert_user_roles-keeps [] d d' h = (ground (arith), ground (arith))
insert_user_roles-keeps (r ∷ rs) d d' h = elim (Result-cases (insert_user_role r d)) [
  | inr (e, n) ↦ absurd (ground (arith))
  | inl ((_, d₁), e) ↦
      ground (arith, insert_user_role-keeps r d d₁ e, insert_user_roles-keeps rs d₁ d')
]

-- The transaction of a registration either stores the user and the event, or nothing.
abbrev pub IsAtomic :
    Env → World → UserRow → String → String → Result SqlError Unit × World → Type 0
IsAtomic env w u event_type payload (err e, w') = w'.db ≡ w.db
IsAtomic env w u event_type payload (ok _, w') =
    (exists (λ v. v.id == u.id || str_eq v.email u.email) w.db.users ≡ false)
    × (w'.db.users ≡ w.db.users ++ u ∷ [])
    × (w'.db.outbox
        ≡ w.db.outbox
          ++ record {
            id = env.random_uuid w.draws;
            aggregate_id = u.id;
            event_type = event_type;
            payload = payload;
            created_at = env.now;
            published_at = none;
          }
            ∷ [])

-- The transaction's statements, between its `begin` and its `commit`.
abbrev registering : UserRow → String → String → String → Action SqlError Unit
registering u role event_type payload = do
  set_config
  _ ← statement (insert_user u)
  statement (λ d. insert_user_roles (default_assignments u.id role d) d)
  insert_outbox u.id event_type payload

-- A statement for the outbox fails, and has changed nothing, or adds one row.
insert_outbox-adds :
    (id : Uuid) (event_type payload : String) (env : Env) (w : World)
    → let (r, w') = insert_outbox id event_type payload env w in
      (r ≡ err unavailable)
      ⊎ (w'.db ≡ record w.db {
        outbox =
            w.db.outbox
            ++ record {
              id = env.random_uuid w.draws;
              aggregate_id = id;
              event_type = event_type;
              payload = payload;
              created_at = env.now;
              published_at = none;
            }
              ∷ [];
      })
unfolding insert_outbox execute statement
insert_outbox-adds id event_type payload env w = elim (Bool-cases (env.db_fails w.calls)) [
  | inl e ↦ inl (ground (arith))
  | inr e ↦ inr (ground (arith))
]

-- What a user that is stored tells of the table.
insert_user-adds :
    (u : UserRow) (d d' : Db) (id : Uuid)
    → insert_user u d ≡ ok (id, d')
    → (exists (λ v. v.id == u.id || str_eq v.email u.email) d.users ≡ false)
      × (d' ≡ record d { users = d.users ++ u ∷ [] })
unfolding insert_user
insert_user-adds u d d' id h = (ground (arith), ground (arith))

registering-stores :
    (u : UserRow) (role event_type payload : String) (env : Env) (w w' : World)
    → registering u role event_type payload env w ≡ (ok tt, w')
    → IsAtomic env w u event_type payload (ok tt, w')
unfolding set_config
registering-stores u role event_type payload env w w' h =
    let (_, w₁, h₁, r₁) = bind-ok set_config _ env w w' tt h in
    let (same₁, drawn₁) = execute-ok (λ d. d) env w w₁ h₁ in
    let (id, w₂, h₂, r₂) = bind-ok (statement (insert_user u)) _ env w₁ w' tt r₁ in
    let (ran₂, drawn₂) = statement-ok (insert_user u) env w₁ w₂ id h₂ in
    let (_, w₃, h₃, r₃) =
      bind-ok (statement (λ d. insert_user_roles (default_assignments u.id role d) d)) _ env w₂ w'
        tt r₂ in
    let (ran₃, drawn₃) =
      statement-ok (λ d. insert_user_roles (default_assignments u.id role d) d) env w₂ w₃ tt h₃ in
    let (taken, stored) = insert_user-adds u w₁.db w₂.db id ran₂ in
    let (users₃, outbox₃) =
      insert_user_roles-keeps (default_assignments u.id role w₂.db) w₂.db w₃.db ran₃ in
    let added = insert_outbox-adds u.id event_type payload env w₃ in
    (
      ap (λ d. exists (λ v. v.id == u.id || str_eq v.email u.email) d.users) (sym same₁) ∙ taken,
      ground (arith),
      ground (arith),
    )

-- Between the statements that open and close the transaction nothing changes.
committed-stores :
    (u : UserRow) (role event_type payload : String) (env : Env) (w w' : World)
    → (do execute (λ d. d); a ← registering u role event_type payload; execute (λ d. d); pure a) env
        w
      ≡ (ok tt, w')
    → IsAtomic env w u event_type payload (ok tt, w')
committed-stores u role event_type payload env w w' h =
    let (_, w₁, h₁, r₁) = bind-ok (execute (λ d. d)) _ env w w' tt h in
    let (same₁, drawn₁) = execute-ok (λ d. d) env w w₁ h₁ in
    let (_, w₂, h₂, r₂) = bind-ok (registering u role event_type payload) _ env w₁ w' tt r₁ in
    let (_, w₃, h₃, r₃) = bind-ok (execute (λ d. d)) _ env w₂ w' tt r₂ in
    let (same₃, drawn₃) = execute-ok (λ d. d) env w₂ w₃ h₃ in
    let (taken, users, outbox) = registering-stores u role event_type payload env w₁ w₂ h₂ in
    (
      ap (λ d. exists (λ v. v.id == u.id || str_eq v.email u.email) d.users) (sym same₁) ∙ taken,
      ground (arith),
      ground (arith),
    )

registering-IsAtomic :
    (u : UserRow) (role event_type payload : String) (env : Env) (w : World)
    → IsAtomic env w u event_type payload
        (transaction (registering u role event_type payload) env w)
unfolding transaction
registering-IsAtomic u role event_type payload env w =
    elim (run-cases (
      (do execute (λ d. d); a ← registering u role event_type payload; execute (λ d. d); pure a) env
        w)) [
          | inl (_, w', e) ↦
              subst (λ x. IsAtomic env w u event_type payload (restore w x)) (sym e)
                (committed-stores u role event_type payload env w w' e)
          | inr (n, w', e) ↦
              subst (λ x. IsAtomic env w u event_type payload (restore w x)) (sym e) refl
        ]

-- Whichever statements fail, the transaction of a registration either leaves the database as it was,
-- or adds one user whose id and address nobody had, and one unpublished event about the user.
pub create_user_with_role_event-IsAtomic :
    (id : Uuid) (email hash role event_type payload : String) (env : Env) (w : World)
    → IsAtomic env w
        (new_user id email hash)
        event_type
        payload
        (create_user_with_role_event id email hash role event_type payload env w)
unfolding create_user_with_role_event
create_user_with_role_event-IsAtomic id email hash role event_type payload env w =
    registering-IsAtomic (new_user id email hash) role event_type payload env w
