-- ===== src/Accounts/Deletion.antt =====
-- Soft deletion (src/grpc.rs, `delete_user`; src/repo.rs, `delete_user_event_soft`).
use iam_rust_auth.Base.{
  ◌≡◌, refl, String, false, ◌&&◌, none, some, List, [], ◌∷◌, ◌++◌, arith, update, find?, is_none,
  ◌==◌,
}
use iam_rust_auth.Db.{Uuid, Instant, UserRow}
use iam_rust_auth.World.{Env, World, ok, statement, transaction, execute}
use iam_rust_auth.Repo.{delete_user_event_soft, mark_deleted, insert_outbox, is_undeleted}
use iam_rust_auth.Access.Tokens.{is_live_user}
use iam_rust_auth.Refresh.Reuse.{has_session, has_session-revoke_tokens_of}

marked :
    (id : Uuid) (now : Instant) (us : List UserRow)
    → is_undeleted (
        find?
          (λ u. u.id == id)
          (update
            (λ u. u.id == id && is_none u.deleted_at)
            (λ u. record u { deleted_at = some now })
            us))
      ≡ false
unfolding find? update
marked id now [] = refl
marked id now (u ∷ us) = ground (arith, marked id now us)

-- A soft deletion that commits leaves no undeleted user of the id and no unrevoked refresh token
-- of the user, and adds one unpublished event to the outbox.
pub delete_user_event_soft-ends :
    (id : Uuid) (event_type payload : String) (env : Env) (w w' : World)
    → delete_user_event_soft id false event_type payload env w ≡ (ok tt, w')
    → (is_live_user id w'.db ≡ false)
      × (has_session id w'.db ≡ false)
      × (w'.db.outbox
          ≡ w.db.outbox
            ++ record {
              id = env.random_uuid w.draws;
              aggregate_id = id;
              event_type = event_type;
              payload = payload;
              created_at = env.now;
              published_at = none;
            }
              ∷ [])
unfolding delete_user_event_soft transaction execute statement insert_outbox mark_deleted
delete_user_event_soft-ends id event_type payload env w w' h = ground (
  arith,
  marked id env.now w.db.users,
  has_session-revoke_tokens_of id env.now (mark_deleted id env.now w.db),
)
