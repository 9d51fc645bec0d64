-- ===== src/Saga/Defs.antt =====
-- The consumer of `ProfileCreationFailed` events (src/saga.rs, `consume`): the loop over one stream
-- of messages. The loop around it opens the next stream, and waits a second where that fails.
use iam_rust_auth.Base.{ℕ, suc, String, Option, none, some, List, [], ◌∷◌, is_some}
use iam_rust_auth.World.{Action, Env, pure, asks, ignore, when, ◌>>=◌, ◌>>◌}
use iam_rust_auth.Repo.{insert_audit}

pub record ProfileCreationFailed : Type 0 where
  pub user_id : String
  pub reason : String

-- The next item of the stream: a message, whose payload parses or not, or a failure to receive.
pub data Item : Type 0 where
  message : Option ProfileCreationFailed → Item
  recv_error : Item

abbrev pub record_failure : Option ProfileCreationFailed → Action Unit Unit
record_failure none = pure tt
record_failure (some ev) = do
  env ← asks (λ (e : Env). e)
  when (is_some (env.parse_uuid ev.user_id))
      do ignore (insert_audit "system" "saga" "profile.creation_failed" ev.user_id ev.reason none)

-- The number of messages that were acknowledged: every one that is received is.
unfoldable pub consume : List Item → Action Unit ℕ
consume [] = pure 0
consume (recv_error ∷ items) = pure 0
consume (message ev ∷ items) = do record_failure ev; acks ← consume items; pure (suc acks)
