-- ===== src/Messaging/Processor.antt =====
-- `ReactionProcessor.process`: one job of the outbox queue.
use tpulse_backend.Prelude.{
  ℕ, ◌+◌, Bool, true, false, Option, none, some, if◌then◌else◌, ◌==◌, is_some,
}
use tpulse_backend.Db.{Prisma}
use tpulse_backend.Redis.{Redis}
use tpulse_backend.Effects.{Action, ok, err, pure, gets, throw, write, when, ◌>>=◌, ◌>>◌, internal}
use tpulse_backend.Board.{
  Board, Env, Event, post_create, post_reaction, comment_create, comment_reaction,
  notification_generate, unknown, OutboxMessage,
}
use tpulse_backend.Notifications.{generate_for_transfer}
use tpulse_backend.Messaging.Outbox.{set_outbox}
use tpulse_backend.Messaging.Reactions.{
  handle_post_create, handle_post_reaction, handle_comment_create, handle_comment_reaction,
}

abbrev pub lock_seconds : ℕ
lock_seconds = 600

abbrev pub processed_at : ℕ → OutboxMessage → OutboxMessage
processed_at now m = record m { processed_at_utc = some now }

abbrev pub retried : OutboxMessage → OutboxMessage
retried m = record m { retry_count = m.retry_count + 1 }

module _ (redis : Redis) (db : Prisma) (env : Env) where
  -- The `switch` on the event type.
  unfoldable pub handle : Event → Action Board (Unit {0})
  handle (post_create user content kind voting player team from to created) =
      handle_post_create db env user content kind voting player team from to created
  handle (post_reaction post user likes) = handle_post_reaction db env post user likes
  handle (comment_create user post content parent created) =
      handle_comment_create db env user post content parent created
  handle (comment_reaction comment user likes) = handle_comment_reaction db env comment user likes
  handle (notification_generate transfer) = do generate_for_transfer db env transfer; pure tt
  handle unknown = pure tt

  unfoldable pub change_message : ℕ → (OutboxMessage → OutboxMessage) → Action Board (Unit {0})
  change_message id f = write (λ s. set_outbox s (db.update (λ m. m.id == id) f s.outbox)) internal

  -- The `try` with its `catch`, which counts the failure and throws again.
  unfoldable pub run_handler : OutboxMessage → Action Board (Unit {0})
  unfolding change_message
  run_handler m s =
      let (r, s') = (do handle m.event; change_message m.id (processed_at env.now)) s in
      elim r [ ok _ ↦ (ok tt, s') | err e ↦ (do change_message m.id retried; throw e) s' ]

  -- `SET job:outbox:{id} 1 EX 600 NX`; the reply is false when another job has the lock.
  unfoldable pub take_lock : ℕ → Action Board Bool
  take_lock id s =
      if env.redis_up
      then (let (taken, locks) = redis.set_nx id tt lock_seconds env.now s.job_locks in
          (ok taken, record s { job_locks = locks }))
      else (err internal, s)

  unfoldable pub run_message : OutboxMessage → Bool → Action Board (Unit {0})
  unfolding take_lock run_handler
  run_message m true = pure tt
  run_message m false = do taken ← take_lock m.id; when taken (run_handler m)

  unfoldable pub process_found : Option OutboxMessage → Action Board (Unit {0})
  unfolding run_message
  process_found none = pure tt
  process_found (some m) = run_message m (is_some m.processed_at_utc)

  unfoldable pub process : (message_id : ℕ) → Action Board (Unit {0})
  unfolding process_found
  process message_id = do
    found ← gets (λ s. db.find_first (λ m. m.id == message_id) s.outbox)
    process_found found
